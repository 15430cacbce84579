-- ===== src/NameMap.antt =====
-- The hash maps that take a text for a key, such as `nameMap` of src/properties.h. A map is an
-- association list.
use Prim.Native.String.{String}
use text.Mathlib.Text.{◌==◌ as str_eq}
use text.Mathlib.TextEquality.{eq_iff}
use openset.Prelude.{
  ◌≡◌, refl, false, List, [], ◌∷◌, Option, none, some, if◌then◌else◌, arith, inl, inr, Bool-cases,
}

module _ {ℓ} {V : Type ℓ} where
  unfoldable pub find : String → List (String × V) → Option V
  find k [] = none
  find k ((j, v) ∷ m) = if str_eq j k then some v else find k m

  unfoldable pub erase : String → List (String × V) → List (String × V)
  erase k [] = []
  erase k ((j, v) ∷ m) = let rest = erase k m in if str_eq j k then rest else (j, v) ∷ rest

  -- `map[k] = v`.
  unfoldable pub assign : String → V → List (String × V) → List (String × V)
  assign k v [] = (k, v) ∷ []
  assign k v ((j, w) ∷ m) = if str_eq j k then (j, v) ∷ m else (j, w) ∷ assign k v m

  -- `emplace` leaves a key that is there as it is.
  unfoldable pub emplace : String → V → List (String × V) → List (String × V)
  emplace k v [] = (k, v) ∷ []
  emplace k v ((j, w) ∷ m) = if str_eq j k then (j, w) ∷ m else (j, w) ∷ emplace k v m

  pub find-erase :
      (k j : String) (m : List (String × V))
      → find j (erase k m) ≡ (if str_eq k j then none else find j m)
  unfolding find erase
  find-erase k j [] = ground arith
  find-erase k j ((i, v) ∷ m) = ground (arith, eq_iff k j, eq_iff i k, eq_iff i j, find-erase k j m)

  pub find-assign :
      (k j : String) (v : V) (m : List (String × V))
      → find j (assign k v m) ≡ (if str_eq k j then some v else find j m)
  unfolding find assign
  find-assign k j v [] = refl
  find-assign k j v ((i, w) ∷ m) =
      ground (arith, eq_iff k j, eq_iff i k, eq_iff i j, find-assign k j v m)

  abbrev pub or_else : Option V → V → V
  or_else none v = v
  or_else (some w) v = w

  pub find-emplace :
      (k j : String) (v : V) (m : List (String × V))
      → find j (emplace k v m) ≡ (if str_eq k j then some (or_else (find k m) v) else find j m)
  unfolding find emplace
  find-emplace k j v [] = ground arith
  find-emplace k j v ((i, w) ∷ m) =
      ground (arith, eq_iff k j, eq_iff i k, eq_iff i j, find-emplace k j v m)

  -- A key that is still found after `erase` is another key.
  pub found-erase :
      (k j : String) (m : List (String × V)) (w : V)
      → find j (erase k m) ≡ some w
      → (str_eq k j ≡ false) × (find j m ≡ some w)
  found-erase k j m w e = elim (Bool-cases (str_eq k j)) [
    | inl same ↦ absurd (ground (arith, find-erase k j m))
    | inr apart ↦ (apart, ground (arith, find-erase k j m))
  ]
