-- ===== src/Result.antt =====
-- src/result.h and src/result.cpp: the rows of a query, and the merge of the rows that the partitions
-- and the nodes return.
--
-- An `int64_t` is a number below 2 ^ 64 that stands for itself less 2 ^ 63, so that `<` on the
-- numbers is `<` on the integers and NONE, the least, is 0. `results` is an association list in the
-- iteration order of the hash map. A row holds the columns that its pointer leads to: no two rows
-- share them.
pub mod Keys
pub mod Sorted
pub mod Lowest
pub mod Merge
pub mod Merged
pub mod Groups
pub mod Columns
use openset.Result.Keys.{Key, key_eq, key_lt}
use openset.Prelude.{
  ℕ, zero, suc, ◌+◌, ◌*◌, ◌%◌, ◌^◌, Bool, true, false, not, ◌||◌, List, [], ◌∷◌, ◌++◌, map, Option,
  none, some, ltb, ◌==◌, if◌then◌else◌, length, get_or, set, replicate, reverse,
}

abbrev pub none_value : ℕ
none_value = 0

pub data ResultType : Type 0 where
  int double bool text absent : ResultType

pub data Modifier : Type 0 where
  sum min max avg count dist_count_person value var : Modifier
  second_number second_date minute_number minute_date hour_number hour_date : Modifier
  day_date day_of_week day_of_month day_of_year week_date month_date month_number : Modifier
  quarter_number quarter_date year_number year_date : Modifier

-- `Accumulation_s`; `count` is a 32-bit pattern.
pub record Accumulation : Type 0 where
  pub value : ℕ
  pub count : ℕ

abbrev pub unset : Accumulation
unset = record { value = none_value; count = 0 }

-- A `RowKey` with its types, and the columns of its accumulator.
pub record Row : Type 0 where
  pub key : Key
  pub types : List ResultType
  pub columns : List Accumulation

pub record ResultSet : Type 0 where
  pub results : List Row
  pub sorted_result : List Row
  pub is_premerged : Bool
  pub acc_modifiers : List Modifier

-- `getMakeAccumulator`: the row of a key, made with every column unset if there is none. The new row
-- stands first.
unfoldable pub find_row : Key → List Row → Option Row
find_row k [] = none
find_row k (r ∷ rs) = if key_eq r.key k then some r else find_row k rs

unfoldable pub get_make_accumulator : ℕ → Key → List ResultType → List Row → List Row × Row
unfolding find_row
get_make_accumulator width k types rows = elim (find_row k rows) [
  | some r ↦ (rows, r)
  | none ↦
      let r : Row = record { key = k; types = types; columns = replicate width unset } in
      (r ∷ rows, r)
]

-- `std::sort` by the key; no two keys of a hash map are equal, so the order is determined.
unfoldable pub insert_row : Row → List Row → List Row
insert_row r [] = r ∷ []
insert_row r (s ∷ rs) = if key_lt s.key r.key then s ∷ insert_row r rs else r ∷ s ∷ rs

unfoldable pub sort_rows : List Row → List Row
unfolding insert_row
sort_rows [] = []
sort_rows (r ∷ rs) = insert_row r (sort_rows rs)

unfoldable pub make_sorted_list : ResultSet → ResultSet
unfolding sort_rows
make_sorted_list s = if s.is_premerged then s else record s { sorted_result = sort_rows s.results }

-- `left.value += right.value` and `left.count += right.count`.
unfoldable pub add_values : ℕ → ℕ → ℕ
add_values a b = (a + b + 2 ^ 63) % 2 ^ 64

unfoldable pub accumulate : Accumulation → Accumulation → Accumulation
unfolding add_values
accumulate l r = record { value = add_values l.value r.value; count = (l.count + r.count) % 2 ^ 32 }

-- The switch on the modifier, where both columns are set.
unfoldable pub update_column : Modifier → Accumulation → Accumulation → Accumulation
unfolding accumulate
update_column Modifier.min l r = if ltb l.value r.value then r else l
update_column Modifier.max l r = if ltb r.value l.value then r else l
update_column Modifier.value l r = r
update_column var l r = accumulate l r
update_column avg l r = accumulate l r
update_column sum l r = accumulate l r
update_column Modifier.count l r = accumulate l r
update_column dist_count_person l r = accumulate l r
update_column _ l r = l

-- What becomes of one column of the row that is already merged.
unfoldable pub merge_column : Modifier → Accumulation → Accumulation → Accumulation
unfolding update_column
merge_column m l r =
    if r.value == none_value then l else if l.value == none_value then r else update_column m l r

-- `for (columnIndex …)`, with the modifiers from that column on.
unfoldable pub merge_columns :
    List Modifier → ℕ → ℕ → List Accumulation → List Accumulation → List Accumulation
unfolding merge_column
merge_columns mods zero index left right = left
merge_columns [] (suc n) index left right = left
merge_columns (m ∷ mods) (suc n) index left right =
    merge_columns mods n (index + 1)
      (set left index (merge_column m (get_or left index unset) (get_or right index unset))) right

-- `for (shiftCount …)`, from the offset on.
unfoldable pub merge_segments :
    List Modifier → ℕ → ℕ → ℕ → List Accumulation → List Accumulation → List Accumulation
unfolding merge_columns
merge_segments mods columns zero offset left right = left
merge_segments mods columns (suc n) offset left right =
    merge_segments mods columns n (offset + columns) (merge_columns mods columns offset left right)
      right

-- The search for the row with the lowest key: the last of the lists that have one.
abbrev pub takes : Option (ℕ × Row) → Row → Bool
takes none r = true
takes (some (i, s)) r = key_lt r.key s.key || key_eq r.key s.key

unfoldable pub lowest : List (List Row) → ℕ → Option (ℕ × Row) → Option (ℕ × Row)
lowest [] idx best = best
lowest ([] ∷ its) idx best = lowest its (idx + 1) best
lowest ((r ∷ rs) ∷ its) idx best =
    lowest its (idx + 1) (if takes best r then some (idx, r) else best)

-- `++(*lowestIdx)`.
unfoldable pub advance : List (List Row) → ℕ → List (List Row)
advance [] i = []
advance ([] ∷ its) zero = [] ∷ its
advance ((r ∷ rs) ∷ its) zero = rs ∷ its
advance (it ∷ its) (suc i) = it ∷ advance its i

module _ (mods : List Modifier) (columns segments : ℕ) where
  -- The row that is added to the row of the same key.
  unfoldable pub join : Row → Row → Row
  unfolding merge_segments
  join l r = record l { columns = merge_segments mods columns segments 0 l.columns r.columns }

  -- The merged rows, the last first.
  unfoldable pub push_row : Row → List Row → List Row
  unfolding join
  push_row r [] = r ∷ []
  push_row r (b ∷ merged) = if key_eq b.key r.key then join b r ∷ merged else r ∷ b ∷ merged

  -- `while (true)`, on fuel.
  unfoldable pub merge_loop : ℕ → List (List Row) → List Row → List Row
  unfolding lowest advance push_row
  merge_loop zero its merged = merged
  merge_loop (suc fuel) its merged = elim (lowest its 0 none) [
    | none ↦ merged
    | some (i, r) ↦ merge_loop fuel (advance its i) (push_row r merged)
  ]

unfoldable pub total : List (List Row) → ℕ
total [] = 0
total (it ∷ its) = length it + total its

abbrev pub is_some_row : List Row → Bool
is_some_row [] = false
is_some_row (r ∷ rs) = true

unfoldable pub merge_list : List ResultSet → List (List Row)
unfolding make_sorted_list
merge_list [] = []
merge_list (s ∷ sets) =
    let it = (make_sorted_list s).sorted_result in
    if is_some_row it then it ∷ merge_list sets else merge_list sets

abbrev pub modifiers_of : List ResultSet → List Modifier
modifiers_of [] = []
modifiers_of (s ∷ sets) = s.acc_modifiers

-- `mergeResultSets`, with a round of fuel for every row.
unfoldable pub merge_result_sets : ℕ → ℕ → List ResultSet → List Row
unfolding merge_loop merge_list total
merge_result_sets column_count set_count sets =
    let its = merge_list sets in
    reverse (
      merge_loop (modifiers_of sets) column_count (if set_count == 0 then 1 else set_count)
        (total its) its [])
