-- ===== src/PartitionMap/Coverage.antt =====
-- `isClusterComplete` and `getMissingPartitions`.
use openset.PartitionMap.Slots.{NodeState, Location, state_eq, get_by_status}
use openset.PartitionMap.{
  PartitionMap, find, state_in, active_nodes, enough, missing, found_count, partitions_found,
  is_cluster_complete, missing_from, get_missing_partitions,
}
use openset.Prelude.{
  ℕ, zero, suc, ◌+◌, ◌≤◌, ◌<◌, ◌≡◌, refl, ◌∙◌, ◌↔◌, Bool, true, false, ◌&&◌, ◌||◌, List, [], ◌∷◌,
  Option, none, some, leb, ltb, ◌==◌, arith, inl, inr, Bool-cases, Option-cases, length, sym, ap,
  if◌then◌else◌,
}

-- The records of a partition that are in one of the states, each counted once.
unfoldable pub held : List NodeState → Location → ℕ
held states [] = 0
held states (n ∷ ns) =
    let rest = held states ns in if state_in states n.state then rest + 1 else rest

-- No state stands twice, as in the set of them.
abbrev pub AreDifferent : List NodeState → Type 0
AreDifferent [] = Unit {0}
AreDifferent (s ∷ ss) = (state_in ss s ≡ false) × AreDifferent ss

state_in-congr :
    (ss : List NodeState) (s t : NodeState) → state_eq s t ≡ true → state_in ss s ≡ state_in ss t
unfolding state_in
state_in-congr [] s t e = refl
state_in-congr (r ∷ ss) s t e = ground (arith, state_in-congr ss s t e)

held_none : (loc : Location) → held [] loc ≡ 0
unfolding held state_in
held_none [] = refl
held_none (n ∷ ns) = held_none ns

held_more :
    (s : NodeState) (ss : List NodeState) (loc : Location)
    → state_in ss s ≡ false
    → held (s ∷ ss) loc ≡ length (get_by_status loc s) + held ss loc
unfolding held state_in get_by_status
held_more s ss [] new = refl
held_more s ss (n ∷ ns) new = elim (Bool-cases (state_eq n.state s)) [
  | inl same ↦
      let out : state_in ss n.state ≡ false = state_in-congr ss n.state s same ∙ new in
      let same' : state_eq s n.state ≡ true = ground arith in
      rw (same, same', out) (omega (arith, held_more s ss ns new))
  | inr other ↦
      let other' : state_eq s n.state ≡ false = ground arith in
      rw (other, other') (ground (arith, held_more s ss ns new))
]

-- `getByStatus` once for each state counts no record twice.
held-active_nodes :
    (states : List NodeState) (loc : Location)
    → AreDifferent states
    → active_nodes states loc ≡ held states loc
unfolding active_nodes
held-active_nodes [] loc d = sym (held_none loc)
held-active_nodes (s ∷ ss) loc (new, d) =
    ap (λ n. length (get_by_status loc s) + n) (held-active_nodes ss loc d)
    ∙ sym (held_more s ss loc new)

module _ (m : PartitionMap) (states : List NodeState) (replication : ℕ) where
  abbrev covered : ℕ → Bool
  covered i = enough (found_count m states i) replication

  partitions_found-le : (first n : ℕ) → partitions_found m states replication first n ≤ n
  unfolding partitions_found
  partitions_found-le first zero = omega arith
  partitions_found-le first (suc n) = ground (arith, partitions_found-le (first + 1) n)

  found_all :
      (first n : ℕ)
      → partitions_found m states replication first n ≡ n
      → (i : ℕ) → first ≤ i
      → i < first + n
      → covered i ≡ true
  unfolding partitions_found
  found_all first zero e i lo hi = absurd (omega arith)
  found_all first (suc n) e i lo hi = elim (Bool-cases (first == i)) [
    | inl same ↦
        let e' : first ≡ i = ground arith in
        rw (← e') (ground (arith, partitions_found-le (first + 1) n))
    | inr later ↦
        found_all (first + 1) n (ground (arith, partitions_found-le (first + 1) n)) i (ground arith)
          (omega arith)
  ]

  all_found :
      (first n : ℕ)
      → ((i : ℕ) → first ≤ i → i < first + n → covered i ≡ true)
      → partitions_found m states replication first n ≡ n
  unfolding partitions_found
  all_found first zero h = refl
  all_found first (suc n) h =
      rw (h first (omega arith) (omega arith))
        (omega (arith, all_found (first + 1) n (λ i lo hi. h i (omega arith) (omega arith))))

  complete_covered :
      (total : ℕ)
      → (is_cluster_complete m total states replication ≡ true)
        ↔ ((i : ℕ) → i < total → enough (found_count m states i) replication ≡ true)
  unfolding is_cluster_complete
  complete_covered total = (
    λ h i lt. found_all 0 total (ground arith) i (omega arith) (omega arith),
    λ h. ground (arith, all_found 0 total (λ i lo hi. h i (omega arith))),
  )

  covered_iff :
      (i : ℕ)
      → AreDifferent states
      → (covered i ≡ true) ↔ (
          (loc : Location) × (find m i ≡ some loc)
          × (1 ≤ held states loc)
          × (replication ≤ held states loc))
  unfolding found_count
  covered_iff i d = elim (Option-cases (find m i)) [
    | inl gone ↦ (
      λ h. absurd (ground (arith, gone)),
      λ (loc, at, some_held, enough_held). absurd (ground (arith, gone, at)),
    )
    | inr (here, at_i) ↦
        let same = held-active_nodes states here d in
        (
          λ h. (here, at_i, ground (arith, at_i, same), ground (arith, at_i, same)),
          λ (loc, at, some_held, enough_held).
              let e : here ≡ loc = ground (arith, at_i, at) in
              let moved : held states here ≡ held states loc = ap (held states) e in
              ground (arith, at_i, same, moved, some_held, enough_held),
        )
  ]

  -- `isClusterComplete` holds exactly if the map has each partition below the total with at least
  -- one record in the states, and at least `replication`, each record counted once. No state is given
  -- twice.
  pub is_cluster_complete_iff :
      (total : ℕ)
      → AreDifferent states
      → (is_cluster_complete m total states replication ≡ true) ↔ (
          (i : ℕ)
          → i < total
          → (loc : Location) × (find m i ≡ some loc)
            × (1 ≤ held states loc)
            × (replication ≤ held states loc))
  is_cluster_complete_iff total d = (
    λ h i lt. (covered_iff i d).0 ((complete_covered total).0 h i lt),
    λ h. (complete_covered total).1 λ i lt. (covered_iff i d).1 (h i lt),
  )

  abbrev pub lists : List ℕ → ℕ → Bool
  lists [] i = false
  lists (x ∷ xs) i = x == i || lists xs i

  lists-missing_from :
      (first n i : ℕ)
      → lists (missing_from m states replication first n) i
        ≡ (leb first i && ltb i (first + n) && missing (found_count m states i) replication)
  unfolding missing_from
  lists-missing_from first zero i = ground arith
  lists-missing_from first (suc n) i = elim (Bool-cases (first == i)) [
    | inl same ↦
        let e : first ≡ i = ground arith in
        rw (← e) (ground (arith, lists-missing_from (first + 1) n first))
    | inr later ↦ ground (arith, lists-missing_from (first + 1) n i)
  ]

  -- `getMissingPartitions` lists exactly the partitions below the total whose records in the states
  -- do not number `replication`, and those that have none.
  pub lists-get_missing_partitions :
      (total i : ℕ)
      → lists (get_missing_partitions m total states replication) i
        ≡ (ltb i total && missing (found_count m states i) replication)
  unfolding get_missing_partitions
  lists-get_missing_partitions total i = lists-missing_from 0 total i ∙ ground arith

  enough_of_not_missing :
      (c : Option ℕ) → missing c replication ≡ false → enough c replication ≡ true
  enough_of_not_missing none h = cc
  enough_of_not_missing (some c) h = ground arith

  -- Where `getMissingPartitions` lists nothing, `isClusterComplete` holds.
  pub is_cluster_complete_of_none_missing :
      (total : ℕ)
      → get_missing_partitions m total states replication ≡ []
      → is_cluster_complete m total states replication ≡ true
  is_cluster_complete_of_none_missing total e = (complete_covered total).1 λ i lt.
      enough_of_not_missing (found_count m states i)
        (ground (arith, e, lists-get_missing_partitions total i))
