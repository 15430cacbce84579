-- ===== src/PropertyMapping/Counted.antt =====
-- Maps are shared, and a map goes with its last user.
use Prim.Native.String.{String}
use openset.Properties.{Properties}
use openset.PropertyMapping.{
  PropertyMap, PropertyMapping, MapPointer, listed, update, with_bytes, no_columns, map_names,
  hash_names, map_schema, release_map,
}
use mathlib.Core.Option.{some-injective}
use mathlib.Core.Path.{subst}
use openset.Prelude.{
  ℕ, ◌+◌, ◌-◌, ◌<◌, ◌≡◌, refl, sym, ap, ◌∙◌, true, false, List, Option, none, some, ◌==◌,
  if◌then◌else◌, arith, inl, inr, Bool-cases, Option-cases,
}

-- A map is in use as long as it is there.
abbrev pub AreUsed : PropertyMapping → Type 0
AreUsed m = (hash : ℕ) (cm : PropertyMap) → m.map hash ≡ some cm → 0 < cm.ref_count

update_back :
    (f : ℕ → Option PropertyMap) (h j : ℕ) (u v : Option PropertyMap)
    → f h ≡ v
    → update (update f h u) h v j ≡ f j
update_back f h j u v e = elim (Bool-cases (h == j)) [
  | inl same ↦ let eq : h ≡ j = ground arith in rw same (sym e ∙ ap f eq)
  | inr apart ↦ rw apart
]

shared : PropertyMapping → ℕ → PropertyMap → PropertyMapping
shared m hash cm = record m { map = update m.map hash (some cm) }

-- A release after the table got a map.
release_shared :
    (m : PropertyMapping) (hash : ℕ) (cm : PropertyMap) (j : ℕ) (before : Option PropertyMap)
    → m.map hash ≡ before
    → (if cm.ref_count - 1 == 0 then none else some (record cm { ref_count = cm.ref_count - 1 }))
      ≡ before
    → (release_map (shared m hash cm) (listed hash)).map j ≡ m.map j
unfolding release_map shared
release_shared m hash cm j before was left =
    let here : hash == hash ≡ true = ground arith in
    rw (release_map, here, left) (update_back m.map hash j (some cm) before was)

-- `releaseMap` of the pointer that `mapSchema` of a list of names returns takes back what it did:
-- a map that was there is as it was, with its count of users, and a map that was made is gone. Each
-- map was in use.
pub release_map-map_schema :
    (make_hash : String → ℕ) (append_hash : ℕ → ℕ → ℕ) (m : PropertyMapping) (props : Properties)
    (names : List String) (pointer : MapPointer) (j : ℕ)
    → AreUsed m
    → (map_schema make_hash append_hash m props names).1 ≡ some pointer
    → (release_map (map_schema make_hash append_hash m props names).0 pointer).map j ≡ m.map j
unfolding map_schema shared
release_map-map_schema make_hash append_hash m props names pointer j used e =
    elim (Option-cases (hash_names append_hash props names 0)) [
      | inl unknown ↦ absurd (ground (arith, rw (map_schema, unknown) at e))
      | inr (hash, hashed) ↦ elim (Option-cases (m.map hash)) [
        | inr (cm, was) ↦
            let in_use : 0 < cm.ref_count = used hash cm was in
            let back : cm.ref_count + 1 - 1 ≡ cm.ref_count = omega arith in
            let more : cm.ref_count == 0 ≡ false = ground arith in
            let at : listed hash ≡ pointer =
              some-injective (listed hash) pointer (rw (map_schema, hashed, was) at e) in
            subst
              (λ q.
                (release_map (map_schema make_hash append_hash m props names).0 q).map j ≡ m.map j)
              at
              (rw (map_schema, hashed, was)
                (release_shared m hash (record cm { ref_count = cm.ref_count + 1 }) j (some cm) was
                  (rw (back, more))))
        | inl new ↦ elim (Option-cases (map_names make_hash props names (no_columns hash))) [
          | inl failed ↦ absurd (ground (arith, rw (map_schema, hashed, new, failed) at e))
          | inr (cm, made) ↦
              let at : listed hash ≡ pointer =
                some-injective (listed hash) pointer (rw (map_schema, hashed, new, made) at e) in
              subst
                (λ q.
                  (release_map (map_schema make_hash append_hash m props names).0 q).map j
                  ≡ m.map j)
                at
                (rw (map_schema, hashed, new, made)
                  (release_shared m hash (with_bytes (record cm { ref_count = 1 })) j none new
                    refl))
        ]
      ]
    ]
