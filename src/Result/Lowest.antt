-- ===== src/Result/Lowest.antt =====
-- The search of `mergeResultSets` for the row with the lowest key.
use openset.Result.Keys.{
  Key, key_eq, key_lt, eq_of_key_eq, key_lt_irrefl, key_lt_trans, key_compare,
}
use openset.Result.{Row, takes, lowest}
use openset.Prelude.{
  ℕ, ◌+◌, ◌≡◌, refl, ap, ◌⊎◌, inl, inr, true, false, List, [], ◌∷◌, ◌++◌, none, some, length, arith,
  Bool-cases,
}

-- A key comes no later than another.
abbrev pub NotAfter : Key → Key → Type 0
NotAfter k l = key_lt l k ≡ false

pub NotAfter-lt : (k l m : Key) → NotAfter k l → key_lt l m ≡ true → key_lt k m ≡ true
NotAfter-lt k l m h lt = elim (key_compare k l) [
  | inl before ↦ key_lt_trans k l m before lt
  | inr (inl same) ↦ rw (eq_of_key_eq k l same) lt
  | inr (inr after) ↦ cc
]

pub lt-NotAfter : (k l m : Key) → key_lt k l ≡ true → NotAfter l m → key_lt k m ≡ true
lt-NotAfter k l m lt h = elim (key_compare l m) [
  | inl before ↦ key_lt_trans k l m lt before
  | inr (inl same) ↦ rw (← eq_of_key_eq l m same) lt
  | inr (inr after) ↦ cc
]

pub NotAfter-of-lt : (k l : Key) → key_lt k l ≡ true → NotAfter k l
NotAfter-of-lt k l lt = elim (Bool-cases (key_lt l k)) [
  | inr h ↦ h
  | inl back ↦ cc (key_lt_trans k l k lt back, key_lt_irrefl k)
]

NotAfter-trans : (k l m : Key) → NotAfter k l → NotAfter l m → NotAfter k m
NotAfter-trans k l m p q = elim (key_compare k l) [
  | inl before ↦ NotAfter-of-lt k m (lt-NotAfter k l m before q)
  | inr (inl same) ↦ rw (eq_of_key_eq k l same) q
  | inr (inr after) ↦ cc
]

-- The next rows of the lists come after the key, or not before it.
abbrev pub AllAfter : Key → List (List Row) → Type 0
AllAfter k [] = Unit {0}
AllAfter k ([] ∷ its) = AllAfter k its
AllAfter k ((r ∷ rs) ∷ its) = (key_lt k r.key ≡ true) × AllAfter k its

abbrev pub AllFrom : Key → List (List Row) → Type 0
AllFrom k [] = Unit {0}
AllFrom k ([] ∷ its) = AllFrom k its
AllFrom k ((r ∷ rs) ∷ its) = NotAfter k r.key × AllFrom k its

-- The row that the search finds: its list, and those before and after it.
pub record Picked (its : List (List Row)) (idx i : ℕ) (r : Row) : Type 0 where
  pub before : List (List Row)
  pub rest : List Row
  pub after : List (List Row)
  pub split : its ≡ before ++ (r ∷ rest) ∷ after
  pub place : i ≡ idx + length before
  pub from : AllFrom r.key before
  pub past : AllAfter r.key after

Picked-later :
    (it : List Row) (its : List (List Row)) (idx i : ℕ) (r : Row)
    → AllFrom r.key (it ∷ [])
    → Picked its (idx + 1) i r
    → Picked (it ∷ its) idx i r
Picked-later it its idx i r first p = record {
  before = it ∷ p.before;
  rest = p.rest;
  after = p.after;
  split = ap (◌∷◌ it) p.split;
  place = omega (arith, p.place);
  from = joined it first;
  past = p.past;
}
  where
    joined : (it : List Row) → AllFrom r.key (it ∷ []) → AllFrom r.key (it ∷ p.before)
    joined [] h = p.from
    joined (s ∷ ss) h = (h.0, p.from)

takes_cases :
    (j : ℕ) (s h : Row)
    → ((takes (some (j, s)) h ≡ true) × NotAfter h.key s.key)
      ⊎ ((takes (some (j, s)) h ≡ false) × (key_lt s.key h.key ≡ true))
takes_cases j s h = elim (key_compare h.key s.key) [
  | inl before ↦ inl (rw before, NotAfter-of-lt h.key s.key before)
  | inr (inl same) ↦ inl (ground arith, rw (eq_of_key_eq h.key s.key same) (key_lt_irrefl s.key))
  | inr (inr after) ↦ inr (ground (arith, NotAfter-of-lt s.key h.key after, apart after), after)
]
  where
    apart : key_lt s.key h.key ≡ true → key_eq h.key s.key ≡ false
    apart after = elim (Bool-cases (key_eq h.key s.key)) [
      | inr ne ↦ ne
      | inl same ↦ cc (
        key_lt_irrefl s.key,
        (let e : key_lt s.key s.key ≡ true = rw (eq_of_key_eq h.key s.key same) at after in e),
      )
    ]

-- The search from a candidate on.
lowest_from :
    (its : List (List Row)) (idx j : ℕ) (s : Row) (i : ℕ) (r : Row)
    → lowest its idx (some (j, s)) ≡ some (i, r)
    → ((i ≡ j) × (r ≡ s) × AllAfter s.key its) ⊎ (Picked its idx i r × NotAfter r.key s.key)
unfolding lowest
lowest_from [] idx j s i r e = inl (ground arith, ground arith, tt)
lowest_from ([] ∷ its) idx j s i r e = elim (lowest_from its (idx + 1) j s i r e) [
  | inl kept ↦ inl kept
  | inr (p, low) ↦ inr (Picked-later [] its idx i r tt p, low)
]
lowest_from ((h ∷ hs) ∷ its) idx j s i r e = elim (takes_cases j s h) [
  | inl (taken, le) ↦ elim (lowest_from its (idx + 1) idx h i r (rw taken at e)) [
    | inl (at, same, past) ↦ inr (
      rw same (record {
        before = [];
        rest = hs;
        after = its;
        split = refl;
        place = omega arith;
        from = tt;
        past = past;
      }),
      rw same le,
    )
    | inr (p, low) ↦
        inr (Picked-later (h ∷ hs) its idx i r (low, tt) p, NotAfter-trans r.key h.key s.key low le)
  ]
  | inr (left, gt) ↦ elim (lowest_from its (idx + 1) j s i r (rw left at e)) [
    | inl (at, same, past) ↦ inl (at, same, (gt, past))
    | inr (p, low) ↦ inr (
      Picked-later (h ∷ hs) its idx i r
          (NotAfter-of-lt r.key h.key (NotAfter-lt r.key s.key h.key low gt), tt) p,
      low,
    )
  ]
]

pub lowest-Picked :
    (its : List (List Row)) (idx i : ℕ) (r : Row)
    → lowest its idx none ≡ some (i, r)
    → Picked its idx i r
unfolding lowest
lowest-Picked [] idx i r e = cc
lowest-Picked ([] ∷ its) idx i r e =
    Picked-later [] its idx i r tt (lowest-Picked its (idx + 1) i r e)
lowest-Picked ((h ∷ hs) ∷ its) idx i r e = elim (lowest_from its (idx + 1) idx h i r e) [
  | inl (at, same, past) ↦ rw same (record {
    before = [];
    rest = hs;
    after = its;
    split = refl;
    place = omega arith;
    from = tt;
    past = past;
  })
  | inr (p, low) ↦ Picked-later (h ∷ hs) its idx i r (low, tt) p
]
