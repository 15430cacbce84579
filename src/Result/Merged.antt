-- ===== src/Result/Merged.antt =====
-- The loop of `mergeResultSets`: it comes to its end, and leaves every group what it was.
use openset.Result.Keys.{Key, key_eq, key_lt, eq_of_key_eq}
use openset.Result.Lowest.{AllFrom, AllAfter, Picked, lowest-Picked}
use openset.Result.Merge.{
  AreIncreasing, IsBehind, AreIncreasing-split, advance-split, total-split, AllFrom-past,
  AllFrom-append, AllFrom-head, gather, joined-none, gather-other, gather-own, find_row-push_other,
  find_row-push_own, LeadsTo, push_row-IsDecreasing, push_row-IsBehind,
}
use openset.Result.Sorted.{Above, IsDecreasing}
use openset.Result.{Modifier, Row, find_row, lowest, advance, push_row, merge_loop, total}
use openset.Prelude.{
  ℕ, zero, suc, ◌+◌, ◌≤◌, ◌≡◌, refl, sym, ◌∙◌, inl, inr, List, [], ◌∷◌, ◌++◌, ◌||◌, Option, none,
  some, length, arith, Bool-cases, Option-cases,
}

lowest_some_ne :
    (its : List (List Row)) (idx : ℕ) (best : ℕ × Row) → lowest its idx (some best) ≡ none → ⊥
unfolding lowest
lowest_some_ne [] idx best e = cc
lowest_some_ne ([] ∷ its) idx best e = lowest_some_ne its (idx + 1) best e
lowest_some_ne ((r ∷ rs) ∷ its) idx (j, s) e =
    elim (Bool-cases (key_lt r.key s.key || key_eq r.key s.key)) [
      | inl taken ↦ lowest_some_ne its (idx + 1) (idx, r) (rw taken at e)
      | inr left ↦ lowest_some_ne its (idx + 1) (j, s) (rw left at e)
    ]

module _ (mods : List Modifier) (columns segments : ℕ) where
  gather_done :
      (its : List (List Row)) (idx : ℕ) (start : Option Row) (k : Key)
      → lowest its idx none ≡ none
      → gather mods columns segments its start k ≡ start
  unfolding lowest find_row
  gather_done [] idx start k e = refl
  gather_done ([] ∷ its) idx start k e =
      joined-none mods columns segments (gather mods columns segments its start k)
      ∙ gather_done its (idx + 1) start k e
  gather_done ((r ∷ rs) ∷ its) idx start k e = absurd (lowest_some_ne its (idx + 1) (idx, r) e)

  total_done : (its : List (List Row)) (idx : ℕ) → total its ≡ 0 → lowest its idx none ≡ none
  unfolding total lowest
  total_done [] idx e = refl
  total_done ([] ∷ its) idx e = total_done its (idx + 1) (omega arith)
  total_done ((r ∷ rs) ∷ its) idx e = absurd (omega arith)

  -- One round of the loop takes a row from the lists and leaves every group what it was.
  record Round (its : List (List Row)) (merged : List Row) (i : ℕ) (r : Row) : Type 0 where
    increasing : AreIncreasing (advance its i)
    decreasing : IsDecreasing (push_row mods columns segments r merged)
    behind : IsBehind (push_row mods columns segments r merged) (advance its i)
    shorter : total its ≡ suc (total (advance its i))
    same :
        (k : Key)
        → gather mods columns segments its (find_row k merged) k
          ≡ gather mods columns segments
              (advance its i)
              (find_row k (push_row mods columns segments r merged))
              k

  LeadsTo-split :
      (merged : List Row) (before : List (List Row)) (r : Row) (rest : List Row)
      (after : List (List Row))
      → IsBehind merged (before ++ (r ∷ rest) ∷ after)
      → LeadsTo mods columns segments merged r
  LeadsTo-split [] before r rest after h = tt
  LeadsTo-split (b ∷ merged) before r rest after h = AllFrom-head b.key before r rest after h

  Round-split :
      (before : List (List Row)) (r : Row) (rest : List Row) (after : List (List Row))
      (merged : List Row)
      → AreIncreasing (before ++ (r ∷ rest) ∷ after)
      → IsDecreasing merged
      → IsBehind merged (before ++ (r ∷ rest) ∷ after)
      → AllFrom r.key before
      → AllAfter r.key after
      → Round (before ++ (r ∷ rest) ∷ after) merged (length before) r
  Round-split before r rest after merged inc dec behind from past =
      let (above, all, later) = AreIncreasing-split before r rest after inc in
      let leads = LeadsTo-split merged before r rest after behind in
      record {
        increasing = rw (advance-split before r rest after) all;
        decreasing = push_row-IsDecreasing mods columns segments r merged dec leads;
        behind = rw (advance-split before r rest after) (
            push_row-IsBehind mods columns segments r merged (before ++ rest ∷ after) (
              AllFrom-append r.key before (rest ∷ after) from
                (AllFrom-past r.key rest after above past)));
        shorter = rw (advance-split before r rest after) (total-split before r rest after);
        same = λ k. rw (advance-split before r rest after) (kept k above later leads);
      }
    where
      kept :
          (k : Key)
          → Above r.key rest
          → AreIncreasing after
          → LeadsTo mods columns segments merged r
          → gather mods columns segments (before ++ (r ∷ rest) ∷ after) (find_row k merged) k
            ≡ gather mods columns segments
                (before ++ rest ∷ after)
                (find_row k (push_row mods columns segments r merged))
                k
      kept k above later leads = elim (Bool-cases (key_eq r.key k)) [
        | inr other ↦
            rw (find_row-push_other mods columns segments k r merged other)
              (gather-other mods columns segments before r rest after (find_row k merged) k other)
        | inl own ↦
            rw
              (
                ← eq_of_key_eq r.key k own,
                find_row-push_own mods columns segments r merged dec leads,
              )
              (gather-own mods columns segments before r rest after (find_row r.key merged) above
                later past)
      ]

  round :
      (its : List (List Row)) (merged : List Row) (i : ℕ) (r : Row)
      → AreIncreasing its
      → IsDecreasing merged
      → IsBehind merged its
      → Picked its 0 i r
      → Round its merged i r
  round its merged i r inc dec behind p =
      let at : i ≡ length p.before = omega (arith, p.place) in
      rw (p.split, at)
        (Round-split p.before r p.rest p.after merged (rw p.split at inc) dec (rw p.split at behind)
          p.from p.past)

  merge_loop_stop :
      (fuel : ℕ) (its : List (List Row)) (merged : List Row)
      → lowest its 0 none ≡ none
      → merge_loop mods columns segments (suc fuel) its merged ≡ merged
  unfolding merge_loop
  merge_loop_stop fuel its merged done = rw (done, merge_loop)

  merge_loop_go :
      (fuel : ℕ) (its : List (List Row)) (merged : List Row) (i : ℕ) (r : Row)
      → lowest its 0 none ≡ some (i, r)
      → merge_loop mods columns segments (suc fuel) its merged
        ≡ merge_loop mods columns segments fuel
            (advance its i)
            (push_row mods columns segments r merged)
  unfolding merge_loop
  merge_loop_go fuel its merged i r found = rw (found, merge_loop)

  -- With a round for each row the loop comes to its end.
  pub merge_loop_lem :
      (fuel : ℕ) (its : List (List Row)) (merged : List Row)
      → total its ≤ fuel
      → AreIncreasing its
      → IsDecreasing merged
      → IsBehind merged its
      → IsDecreasing (merge_loop mods columns segments fuel its merged)
        × ((k : Key)
            → find_row k (merge_loop mods columns segments fuel its merged)
              ≡ gather mods columns segments its (find_row k merged) k)
  unfolding merge_loop
  merge_loop_lem zero its merged enough inc dec behind =
      (dec, λ k. sym (gather_done its 0 (find_row k merged) k (total_done its 0 (omega arith))))
  merge_loop_lem (suc fuel) its merged enough inc dec behind =
      elim (Option-cases (lowest its 0 none)) [
        | inl done ↦
            rw (merge_loop_stop fuel its merged done)
              (dec, λ k. sym (gather_done its 0 (find_row k merged) k done))
        | inr ((i, r), found) ↦
            let step = round its merged i r inc dec behind (lowest-Picked its 0 i r found) in
            let (falls, rows) =
              merge_loop_lem fuel (advance its i) (push_row mods columns segments r merged)
                (omega (arith, step.shorter)) step.increasing step.decreasing step.behind in
            rw (merge_loop_go fuel its merged i r found) (falls, λ k. rows k ∙ sym (step.same k))
      ]
