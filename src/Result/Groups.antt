-- ===== src/Result/Groups.antt =====
-- `mergeResultSets` as a whole: the groups of the rows that it returns.
use openset.Result.Keys.{Key}
use openset.Result.Merge.{AreIncreasing, joined, gather, joined-none}
use openset.Result.Sorted.{
  IsIncreasing, HasKeysOnce, find_row-sort_rows, sort_rows-IsIncreasing, reverse-IsIncreasing,
  find_row-reverse,
}
use openset.Result.{
  Modifier, Row, ResultSet, find_row, merge_loop, total, make_sorted_list, is_some_row, merge_list,
  modifiers_of, merge_result_sets,
}
use openset.Prelude.{
  ℕ, ◌≡◌, refl, sym, ◌∙◌, inl, inr, false, List, [], ◌∷◌, Option, none, ◌==◌, if◌then◌else◌, arith,
  Bool-cases,
}
use openset.Result.Merged.{merge_loop_lem}

-- The rows of a set, in the order of the hash map, or as another node has merged them.
abbrev pub rows_of : ResultSet → List Row
rows_of s = if s.is_premerged then s.sorted_result else s.results

-- The keys of a hash map are distinct, and what another node has merged is in order.
abbrev pub IsReady : ResultSet → Type 0
IsReady s = if s.is_premerged then IsIncreasing s.sorted_result else HasKeysOnce s.results

abbrev pub AreReady : List ResultSet → Type 0
AreReady [] = Unit {0}
AreReady (s ∷ sets) = IsReady s × AreReady sets

module _ (mods : List Modifier) (columns segments : ℕ) where
  -- The row of a group over all sets: those of the sets that have one, joined from the last set on.
  abbrev pub group : List ResultSet → Key → Option Row
  group [] k = none
  group (s ∷ sets) k = joined mods columns segments (group sets k) (find_row k (rows_of s))

  sorted-IsIncreasing :
      (s : ResultSet) → IsReady s → IsIncreasing (make_sorted_list s).sorted_result
  unfolding make_sorted_list
  sorted-IsIncreasing s h = elim (Bool-cases s.is_premerged) [
    | inl pre ↦ rw pre (rw pre at h)
    | inr own ↦ rw own (sort_rows-IsIncreasing s.results (rw own at h))
  ]

  find_row-sorted :
      (s : ResultSet) (k : Key)
      → find_row k (make_sorted_list s).sorted_result ≡ find_row k (rows_of s)
  unfolding make_sorted_list
  find_row-sorted s k = elim (Bool-cases s.is_premerged) [
    | inl pre ↦ rw pre
    | inr own ↦ rw own (find_row-sort_rows k s.results)
  ]

  empty_rows : (k : Key) (it : List Row) → is_some_row it ≡ false → find_row k it ≡ none
  unfolding find_row
  empty_rows k [] e = refl
  empty_rows k (r ∷ rs) e = cc

  merge_list_lem :
      (sets : List ResultSet)
      → AreReady sets
      → AreIncreasing (merge_list sets)
        × ((k : Key) → gather mods columns segments (merge_list sets) none k ≡ group sets k)
  unfolding merge_list
  merge_list_lem [] h = (tt, λ k. refl)
  merge_list_lem (s ∷ sets) h =
      let (inc, rows) = merge_list_lem sets h.1 in
      elim (Bool-cases (is_some_row (make_sorted_list s).sorted_result)) [
        | inl present ↦
            rw present ((sorted-IsIncreasing s h.0, inc), λ k. rw (rows k, find_row-sorted s k))
        | inr empty ↦ rw empty (
          inc,
          λ k.
              rows k
              ∙ sym (
                  rw (← find_row-sorted s k, empty_rows k (make_sorted_list s).sorted_result empty)
                    (joined-none mods columns segments (group sets k))),
        )
      ]

abbrev pub segments_of : ℕ → ℕ
segments_of set_count = if set_count == 0 then 1 else set_count

-- The merged rows are in strictly increasing order of their keys, so that every group has one row,
-- and the row of a group joins the rows that the sets have for it. A group that no set has has none.
pub merge_result_sets_lem :
    (column_count set_count : ℕ) (sets : List ResultSet)
    → AreReady sets
    → IsIncreasing (merge_result_sets column_count set_count sets)
      × ((k : Key)
          → find_row k (merge_result_sets column_count set_count sets)
            ≡ group (modifiers_of sets) column_count (segments_of set_count) sets k)
unfolding merge_result_sets find_row
merge_result_sets_lem column_count set_count sets ready =
    let mods = modifiers_of sets in
    let segments = segments_of set_count in
    let (inc, rows) = merge_list_lem mods column_count segments sets ready in
    let (falls, kept) =
      merge_loop_lem mods column_count segments (total (merge_list sets)) (merge_list sets) []
        (omega arith) inc tt tt in
    (
      reverse-IsIncreasing
          (merge_loop mods column_count segments (total (merge_list sets)) (merge_list sets) [])
          falls,
      λ k.
          find_row-reverse k
            (merge_loop mods column_count segments (total (merge_list sets)) (merge_list sets) [])
            falls
          ∙ kept k
          ∙ rows k,
    )
