-- ===== src/Attributes/Memory.antt =====
-- What an index on attributes is made of: its keys, the records that the pool holds, and the changes
-- that wait. `attr_key_s` is of src/dbtypes.h, `Attr_s` of src/attributes.h.
--
-- A pointer is an address. The pool holds a record at an address or none, and an address that is
-- given back holds none; it is not given out again.
use openset.Prelude.{
  ℕ, ◌≡◌, refl, Bool, true, false, ◌&&◌, List, [], ◌∷◌, Option, none, some, ◌==◌, inl, inr, ◌⊎◌,
  Bool-cases, if◌then◌else◌, arith,
}

-- `attr_key_s`: property index and value.
abbrev pub AttrKey : Type 0
AttrKey = ℕ × ℕ

abbrev pub key_eq : AttrKey → AttrKey → Bool
key_eq (a, b) (c, d) = a == c && b == d

-- `Attr_changes_s`.
pub record Change : Type 0 where
  pub lin_id : ℕ
  pub state : Bool

module _ {ℓ} {V : Type ℓ} where
  unfoldable pub lookup : AttrKey → List (AttrKey × V) → Option V
  lookup k [] = none
  lookup k ((j, v) ∷ m) = if key_eq j k then some v else lookup k m

  unfoldable pub erase : AttrKey → List (AttrKey × V) → List (AttrKey × V)
  erase k [] = []
  erase k ((j, v) ∷ m) = let rest = erase k m in if key_eq j k then rest else (j, v) ∷ rest

  -- `pair->second = v`.
  unfoldable pub assign : AttrKey → V → List (AttrKey × V) → List (AttrKey × V)
  assign k v [] = []
  assign k v ((j, w) ∷ m) = if key_eq j k then (j, v) ∷ m else (j, w) ∷ assign k v m

  -- `insert` and `emplace`, which leave a key that is there as it is.
  unfoldable pub insert : AttrKey → V → List (AttrKey × V) → List (AttrKey × V)
  insert k v [] = (k, v) ∷ []
  insert k v ((j, w) ∷ m) = if key_eq j k then (j, w) ∷ m else (j, w) ∷ insert k v m

  abbrev pub is_found : Option V → Bool
  is_found none = false
  is_found (some v) = true

  pub lookup-erase :
      (k j : AttrKey) (m : List (AttrKey × V))
      → lookup j (erase k m) ≡ (if key_eq k j then none else lookup j m)
  unfolding lookup erase
  lookup-erase k j [] = ground arith
  lookup-erase k j ((i, v) ∷ m) = ground (arith, lookup-erase k j m)

  pub lookup-assign :
      (k j : AttrKey) (v : V) (m : List (AttrKey × V))
      → lookup j (assign k v m)
        ≡ (if key_eq k j && is_found (lookup k m) then some v else lookup j m)
  unfolding lookup assign
  lookup-assign k j v [] = ground arith
  lookup-assign k j v ((i, w) ∷ m) = ground (arith, lookup-assign k j v m)

  pub lookup-insert :
      (k j : AttrKey) (v : V) (m : List (AttrKey × V))
      → lookup j (insert k v m) ≡ (
          if key_eq k j then (if is_found (lookup k m) then lookup k m else some v) else lookup j m)
  unfolding lookup insert
  lookup-insert k j v [] = ground arith
  lookup-insert k j v ((i, w) ∷ m) = ground (arith, lookup-insert k j v m)

  pub lookup_congr :
      (k j : AttrKey) (m : List (AttrKey × V)) → key_eq k j ≡ true → lookup k m ≡ lookup j m
  unfolding lookup
  lookup_congr k j [] e = refl
  lookup_congr k j ((i, v) ∷ m) e = ground (arith, lookup_congr k j m)

  -- What a key that is found after `erase`, `assign` was before.
  pub found-erase :
      (k j : AttrKey) (m : List (AttrKey × V)) (w : V)
      → lookup j (erase k m) ≡ some w
      → (key_eq k j ≡ false) × (lookup j m ≡ some w)
  found-erase k j m w found = elim (Bool-cases (key_eq k j)) [
    | inl same ↦ absurd (ground (arith, lookup-erase k j m))
    | inr differs ↦ (differs, ground (arith, lookup-erase k j m))
  ]

  pub found-assign :
      (k j : AttrKey) (v : V) (m : List (AttrKey × V)) (w : V)
      → is_found (lookup k m) ≡ true
      → lookup j (assign k v m) ≡ some w
      → ((key_eq k j ≡ true) × (v ≡ w)) ⊎ ((key_eq k j ≡ false) × (lookup j m ≡ some w))
  found-assign k j v m w known found = elim (Bool-cases (key_eq k j)) [
    | inl same ↦ inl (same, ground (arith, lookup-assign k j v m))
    | inr differs ↦ inr (differs, ground (arith, lookup-assign k j v m))
  ]

-- The memory of PoolMem.
abbrev pub Pool : Type 0 → Type 0
Pool A = ℕ → Option A

unfoldable pub write : {A : Type 0} → Pool A → ℕ → Option A → Pool A
write mem p v q = if p == q then v else mem q
