-- ===== src/Result/Merge.antt =====
-- `mergeResultSets`: which rows it returns, in which order, and that it comes to an end.
use openset.Result.Keys.{Key, key_eq, key_lt, key_eq_refl, eq_of_key_eq, key_compare}
use openset.Result.Lowest.{NotAfter, NotAfter-of-lt, AllAfter, AllFrom}
use openset.Result.Sorted.{
  Above, IsIncreasing, IsDecreasing, Above-trans, Below-trans, find_row-Above, find_row-Below,
}
use openset.Result.{Modifier, Row, find_row, advance, join, push_row, total}
use openset.Prelude.{
  ℕ, suc, ◌≡◌, refl, sym, ap, ◌∙◌, inl, inr, true, false, List, [], ◌∷◌, ◌++◌, Option, none, some,
  length, arith, Bool-cases,
}

abbrev pub AreIncreasing : List (List Row) → Type 0
AreIncreasing [] = Unit {0}
AreIncreasing (it ∷ its) = IsIncreasing it × AreIncreasing its

-- The merged rows fall from the back, which comes no later than any row that is left.
abbrev pub IsBehind : List Row → List (List Row) → Type 0
IsBehind [] its = Unit {0}
IsBehind (b ∷ merged) its = AllFrom b.key its

pub AreIncreasing-split :
    (before : List (List Row)) (r : Row) (rest : List Row) (after : List (List Row))
    → AreIncreasing (before ++ (r ∷ rest) ∷ after)
    → Above r.key rest × AreIncreasing (before ++ rest ∷ after) × AreIncreasing after
AreIncreasing-split [] r rest after inc = (inc.0.0, (inc.0.1, inc.1), inc.1)
AreIncreasing-split (it ∷ before) r rest after inc =
    let (above, all, behind) = AreIncreasing-split before r rest after inc.1 in
    (above, (inc.0, all), behind)

pub advance-split :
    (before : List (List Row)) (r : Row) (rest : List Row) (after : List (List Row))
    → advance (before ++ (r ∷ rest) ∷ after) (length before) ≡ before ++ rest ∷ after
unfolding advance
advance-split [] r rest after = refl
advance-split ([] ∷ before) r rest after = ap (◌∷◌ []) (advance-split before r rest after)
advance-split ((s ∷ ss) ∷ before) r rest after =
    ap (◌∷◌ (s ∷ ss)) (advance-split before r rest after)

pub total-split :
    (before : List (List Row)) (r : Row) (rest : List Row) (after : List (List Row))
    → total (before ++ (r ∷ rest) ∷ after) ≡ suc (total (before ++ rest ∷ after))
unfolding total
total-split [] r rest after = omega arith
total-split (it ∷ before) r rest after = omega (arith, total-split before r rest after)

pub AllFrom-past :
    (k : Key) (rest : List Row) (after : List (List Row))
    → Above k rest
    → AllAfter k after
    → AllFrom k (rest ∷ after)
AllFrom-past k rest after above past = first rest above (others after past)
  where
    others : (its : List (List Row)) → AllAfter k its → AllFrom k its
    others [] h = tt
    others ([] ∷ its) h = others its h
    others ((s ∷ ss) ∷ its) h = (NotAfter-of-lt k s.key h.0, others its h.1)

    first : (rest : List Row) → Above k rest → AllFrom k after → AllFrom k (rest ∷ after)
    first [] above h = h
    first (s ∷ ss) above h = (NotAfter-of-lt k s.key above.0, h)

pub AllFrom-append :
    (k : Key) (before its : List (List Row))
    → AllFrom k before
    → AllFrom k its
    → AllFrom k (before ++ its)
AllFrom-append k [] its p q = q
AllFrom-append k ([] ∷ before) its p q = AllFrom-append k before its p q
AllFrom-append k ((s ∷ ss) ∷ before) its p q = (p.0, AllFrom-append k before its p.1 q)

pub AllFrom-head :
    (k : Key) (before : List (List Row)) (r : Row) (rest : List Row) (after : List (List Row))
    → AllFrom k (before ++ (r ∷ rest) ∷ after)
    → NotAfter k r.key
AllFrom-head k [] r rest after h = h.0
AllFrom-head k ([] ∷ before) r rest after h = AllFrom-head k before r rest after h
AllFrom-head k ((s ∷ ss) ∷ before) r rest after h = AllFrom-head k before r rest after h.1

module _ (mods : List Modifier) (columns segments : ℕ) where
  -- A row that is met joins the row that was merged under its key.
  abbrev pub joined : Option Row → Option Row → Option Row
  joined none o = o
  joined (some l) none = some l
  joined (some l) (some r) = some (join mods columns segments l r)

  -- What becomes of a key: the rows of the last list first.
  abbrev pub gather : List (List Row) → Option Row → Key → Option Row
  gather [] start k = start
  gather (it ∷ its) start k = joined (gather its start k) (find_row k it)

  key-join : (l r : Row) → (join mods columns segments l r).key ≡ l.key
  unfolding join
  key-join l r = refl

  pub joined-none : (o : Option Row) → joined o none ≡ o
  joined-none none = refl
  joined-none (some r) = refl

  pub gather-past :
      (its : List (List Row)) (start : Option Row) (k : Key)
      → AreIncreasing its
      → AllAfter k its
      → gather its start k ≡ start
  unfolding find_row
  gather-past [] start k inc past = refl
  gather-past ([] ∷ its) start k inc past =
      joined-none (gather its start k) ∙ gather-past its start k inc.1 past
  gather-past ((r ∷ rs) ∷ its) start k inc past =
      let gone : find_row k (r ∷ rs) ≡ none =
        find_row-Above k (r ∷ rs) (past.0, Above-trans k r.key rs past.0 inc.0.0) in
      rw gone (joined-none (gather its start k) ∙ gather-past its start k inc.1 past.1)

  pub gather-other :
      (before : List (List Row)) (r : Row) (rest : List Row) (after : List (List Row))
      (start : Option Row) (k : Key)
      → key_eq r.key k ≡ false
      → gather (before ++ (r ∷ rest) ∷ after) start k ≡ gather (before ++ rest ∷ after) start k
  unfolding find_row
  gather-other [] r rest after start k ne = rw ne
  gather-other (it ∷ before) r rest after start k ne =
      ap (λ o. joined o (find_row k it)) (gather-other before r rest after start k ne)

  pub gather-own :
      (before : List (List Row)) (r : Row) (rest : List Row) (after : List (List Row))
      (start : Option Row)
      → Above r.key rest
      → AreIncreasing after
      → AllAfter r.key after
      → gather (before ++ (r ∷ rest) ∷ after) start r.key
        ≡ gather (before ++ rest ∷ after) (joined start (some r)) r.key
  unfolding find_row
  gather-own [] r rest after start above inc past =
      rw
        (
          gather-past after start r.key inc past,
          gather-past after (joined start (some r)) r.key inc past,
          key_eq_refl r.key,
          find_row-Above r.key rest above,
        )
        (sym (joined-none (joined start (some r))))
  gather-own (it ∷ before) r rest after start above inc past =
      ap (λ o. joined o (find_row r.key it)) (gather-own before r rest after start above inc past)

  pub find_row-push_other :
      (k : Key) (r : Row) (merged : List Row)
      → key_eq r.key k ≡ false
      → find_row k (push_row mods columns segments r merged) ≡ find_row k merged
  unfolding find_row push_row
  find_row-push_other k r [] ne = ground arith
  find_row-push_other k r (b ∷ merged) ne = elim (Bool-cases (key_eq b.key r.key)) [
    | inr apart ↦ rw (apart, find_row, ne)
    | inl same ↦
        let e : b.key ≡ r.key = eq_of_key_eq b.key r.key same in
        let ne' : key_eq b.key k ≡ false = rw e ne in rw (same, find_row, ne')
  ]

  -- The back of the merged rows comes no later than the row that is met.
  abbrev pub LeadsTo : List Row → Row → Type 0
  LeadsTo [] r = Unit {0}
  LeadsTo (b ∷ merged) r = NotAfter b.key r.key

  before_next :
      (b r : Row) → NotAfter b.key r.key → key_eq b.key r.key ≡ false → key_lt b.key r.key ≡ true
  before_next b r le ne = elim (key_compare b.key r.key) [
    | inl lt ↦ lt
    | inr (inl same) ↦ cc
    | inr (inr gt) ↦ cc
  ]

  pub find_row-push_own :
      (r : Row) (merged : List Row)
      → IsDecreasing merged
      → LeadsTo merged r
      → find_row r.key (push_row mods columns segments r merged)
        ≡ joined (find_row r.key merged) (some r)
  unfolding find_row push_row
  find_row-push_own r [] dec le = rw (key_eq_refl r.key)
  find_row-push_own r (b ∷ merged) dec le = elim (Bool-cases (key_eq b.key r.key)) [
    | inl same ↦ rw (same, find_row, key-join, same)
    | inr apart ↦
        let lt = before_next b r le apart in
        let gone : find_row r.key merged ≡ none =
          find_row-Below r.key merged (Below-trans b.key r.key merged lt dec.0) in
        rw (apart, find_row, key_eq_refl r.key, gone)
  ]

  pub push_row-IsDecreasing :
      (r : Row) (merged : List Row)
      → IsDecreasing merged
      → LeadsTo merged r
      → IsDecreasing (push_row mods columns segments r merged)
  unfolding push_row
  push_row-IsDecreasing r [] dec le = (tt, tt)
  push_row-IsDecreasing r (b ∷ merged) dec le = elim (Bool-cases (key_eq b.key r.key)) [
    | inl same ↦ rw (same, key-join) dec
    | inr apart ↦
        let lt = before_next b r le apart in
        rw apart ((lt, Below-trans b.key r.key merged lt dec.0), dec)
  ]

  pub push_row-IsBehind :
      (r : Row) (merged : List Row) (its : List (List Row))
      → AllFrom r.key its
      → IsBehind (push_row mods columns segments r merged) its
  unfolding push_row
  push_row-IsBehind r [] its h = h
  push_row-IsBehind r (b ∷ merged) its h = elim (Bool-cases (key_eq b.key r.key)) [
    | inl same ↦ rw (same, key-join, eq_of_key_eq b.key r.key same) h
    | inr apart ↦ rw apart h
  ]
