-- ===== src/Examples/Merge.antt =====
-- The theorems about the merge on the rows of two partitions.
use openset.Result.Keys.{Key, key_eq}
use openset.Result.Sorted.{IsIncreasing}
use openset.Result.Groups.{group, segments_of, merge_result_sets_lem}
use openset.Result.Columns.{columns-join, merge_column_min_max}
use openset.Result.{
  Modifier, int, unset, Row, ResultSet, find_row, join, merge_column, modifiers_of,
  merge_result_sets,
}
use openset.Prelude.{
  ℕ, ◌*◌, ◌%◌, ◌≡◌, refl, false, List, [], ◌∷◌, ltb, if◌then◌else◌, get_or, min, max, arith,
}

abbrev row : ℕ → ℕ → ℕ → Row
row k a b = record {
  key = k ∷ 0 ∷ 0 ∷ 0 ∷ 0 ∷ 0 ∷ 0 ∷ 0 ∷ [];
  types = int ∷ [];
  columns = record { value = a; count = 1 } ∷ record { value = b; count = 1 } ∷ [];
}

abbrev mods : List Modifier
mods = Modifier.sum ∷ Modifier.min ∷ []

abbrev first : ResultSet
first = record {
  results = row 5 10 3 ∷ row 2 20 4 ∷ [];
  sorted_result = [];
  is_premerged = false;
  acc_modifiers = mods;
}

abbrev second : ResultSet
second = record {
  results = row 5 1 7 ∷ [];
  sorted_result = [];
  is_premerged = false;
  acc_modifiers = mods;
}

abbrev sets : List ResultSet
sets = first ∷ second ∷ []

merge_result_sets_lem_example :
    IsIncreasing (merge_result_sets 2 0 sets)
    × ((k : Key)
        → find_row k (merge_result_sets 2 0 sets)
          ≡ group (modifiers_of sets) 2 (segments_of 0) sets k)
unfolding find_row key_eq
merge_result_sets_lem_example =
    merge_result_sets_lem 2 0 sets ((refl, (refl, tt)), ((refl, tt), tt))

columns-join_example : get_or (join mods 2 1 (row 5 10 3) (row 5 1 7)).columns 1 unset ≡ (
    if ltb 1 (1 * 2)
    then merge_column
        (get_or mods (1 % 2) Modifier.sum)
        (get_or (row 5 10 3).columns 1 unset)
        (get_or (row 5 1 7).columns 1 unset)
    else get_or (row 5 10 3).columns 1 unset)
columns-join_example = columns-join mods 2 1 (row 5 10 3) (row 5 1 7) 1 (omega arith) refl

-- The smaller of 3 and 7 is 3, and `min` leaves 7.
merge_column_min_max_example :
    ((merge_column Modifier.min
        (record { value = 3; count = 1 })
        (record { value = 7; count = 1 })).value
      ≡ max 3 7)
    × ((merge_column Modifier.max
          (record { value = 3; count = 1 })
          (record { value = 7; count = 1 })).value
        ≡ min 3 7)
merge_column_min_max_example =
    merge_column_min_max (record { value = 3; count = 1 }) (record { value = 7; count = 1 })
      (omega arith) (omega arith)
