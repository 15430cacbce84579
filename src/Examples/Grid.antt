-- ===== src/Examples/Grid.antt =====
-- The theorems about the rows of a customer, at two rows of one stamp and a later one.
use openset.Examples.Properties.{two_properties}
use openset.Grid.Cull.{cull, cull_lem}
use openset.Grid.Insert.{insert_row-insert_linear, insert_row-IsSorted}
use openset.Grid.Linear.{insert_linear}
use openset.Grid.Sorted.{IsSorted}
use openset.Grid.Twice.{insert_row-insert_row, insert_row_later}
use openset.Grid.{Row, row_hash, insert_row}
use openset.PropertyMapping.{PropertyMap, no_columns}
use openset.Prelude.{ℕ, ◌+◌, ◌*◌, ◌≡◌, List, [], ◌∷◌, true, if◌then◌else◌, ◌==◌, arith}

-- A stamp, an event and an id.
abbrev look : Row
look = 100 ∷ 50 ∷ 1 ∷ []

abbrev buy : Row
buy = 100 ∷ 60 ∷ 1 ∷ []

abbrev leave : Row
leave = 200 ∷ 70 ∷ 1 ∷ []

abbrev enter : Row
enter = 100 ∷ 40 ∷ 1 ∷ []

abbrev three_columns : PropertyMap
three_columns = record (no_columns 1) { property_map = 0 ∷ 1 ∷ 2 ∷ [] }

-- The event 50 comes before 60, and any other after both.
abbrev look_first : ℕ → ℕ
look_first event = if event == 50 then 0 else if event == 60 then 1 else 99

abbrev hash_of : Row → ℕ
hash_of = row_hash (λ a b. 31 * a + b) two_properties three_columns []

abbrev looked_left : List Row
looked_left = look ∷ leave ∷ []

abbrev bought_left : List Row
bought_left = buy ∷ leave ∷ []

looked_left-IsSorted : IsSorted looked_left
looked_left-IsSorted = ((omega arith, tt), (tt, tt))

bought_left-IsSorted : IsSorted bought_left
bought_left-IsSorted = ((omega arith, tt), (tt, tt))

insert_row-insert_linear_example :
    insert_row look_first hash_of buy looked_left ≡ insert_linear look_first hash_of buy looked_left
insert_row-insert_linear_example =
    insert_row-insert_linear look_first hash_of buy looked_left looked_left-IsSorted

insert_row-IsSorted_example : IsSorted (insert_row look_first hash_of buy looked_left)
insert_row-IsSorted_example =
    insert_row-IsSorted look_first hash_of buy looked_left looked_left-IsSorted

insert_row-insert_row_example :
    insert_row look_first hash_of buy (insert_row look_first hash_of buy looked_left)
    ≡ insert_row look_first hash_of buy looked_left
insert_row-insert_row_example =
    insert_row-insert_row look_first hash_of buy looked_left looked_left-IsSorted

-- The purchase is lost.
insert_row_later_example : insert_row look_first hash_of look bought_left ≡ look ∷ leave ∷ []
insert_row_later_example =
    insert_row_later look_first hash_of look [] buy (leave ∷ []) bought_left-IsSorted tt
      (omega arith) (omega arith)

-- The first of three rows has expired, and the last two should stay.
cull_lem_example : cull 5000 150 (look ∷ leave ∷ leave ∷ []) ≡ (leave ∷ [], true)
cull_lem_example =
    cull_lem 5000 150 look [] (leave ∷ leave ∷ []) (omega arith) (omega arith, tt)
      (omega arith, (omega arith, tt))
