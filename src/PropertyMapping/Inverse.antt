-- ===== src/PropertyMapping/Inverse.antt =====
-- The two tables of a property map are inverse to each other.
use Prim.Native.String.{String}
use text.Mathlib.Text.{◌==◌ as str_eq}
use text.Mathlib.TextEquality.{eq_iff}
use openset.Properties.Named.{IsNamed}
use openset.Properties.{Properties, get_property, property_at}
use openset.PropertyMapping.{
  PropertyMap, property_count, no_columns, map_property, map_names, map_schema, hash_names,
  PropertyMapping, listed, with_bytes,
}
use mathlib.Core.Path.{subst}
use openset.Prelude.{
  ℕ, ◌+◌, ◌*◌, ◌<◌, ◌≡◌, refl, sym, ap, ◌∙◌, true, false, List, [], ◌∷◌, ◌++◌, Option, none, some,
  length, get_or, ◌==◌, arith, inl, inr, Bool-cases, Option-cases, length-append,
  get_or-append_left, get_or-append_last, ltb, ◌≤◌,
}

-- Each column has a property, which leads back to the column, and to no other.
pub record IsInverse (cm : PropertyMap) : Type 0 where
  pub back : (c : ℕ) → c < property_count cm → cm.reverse_map (get_or cm.property_map c 0) ≡ some c
  pub forth :
      (idx c : ℕ)
      → cm.reverse_map idx ≡ some c
      → (c < property_count cm) × (get_or cm.property_map c 0 ≡ idx)

no_columns-IsInverse : (hash : ℕ) → IsInverse (no_columns hash)
no_columns-IsInverse hash = record {
  back = λ c low. absurd (omega arith);
  forth = λ idx c e. absurd (ground (arith, e));
}

known_apart : (f : ℕ → Option ℕ) (i j c : ℕ) → f i ≡ none → f j ≡ some c → i == j ≡ false
known_apart f i j c new there = elim (Bool-cases (i == j)) [
  | inr apart ↦ apart
  | inl same ↦ let eq : i ≡ j = ground arith in absurd (ground (arith, sym new ∙ ap f eq ∙ there))
]

idx_apart :
    (props : Properties) (a b : String) (i j : ℕ)
    → IsNamed props
    → get_property props a ≡ some i
    → get_property props b ≡ some j
    → str_eq a b ≡ false
    → i == j ≡ false
idx_apart props a b i j named e f differs = elim (Bool-cases (i == j)) [
  | inr apart ↦ apart
  | inl same ↦
      let eq : i ≡ j = ground arith in
      let names : a ≡ b =
        sym (named a i e).1 ∙ ap (λ k. (property_at props k).name) eq ∙ (named b j f).1 in
      absurd (ground (arith, (eq_iff a b).1 names, differs))
]

map_property-IsInverse :
    (make_hash : String → ℕ) (idx : ℕ) (name : String) (cm : PropertyMap)
    → cm.reverse_map idx ≡ none
    → IsInverse cm
    → IsInverse (map_property make_hash idx name cm)
unfolding map_property
map_property-IsInverse make_hash idx name cm new s =
    let count : length (cm.property_map ++ idx ∷ []) ≡ length cm.property_map + 1 =
      length-append cm.property_map (idx ∷ []) in
    record {
      back = λ c low. elim (Bool-cases (ltb c (length cm.property_map))) [
        | inl old ↦
            let inside : c < length cm.property_map = ground arith in
            let kept = get_or-append_left cm.property_map (idx ∷ []) c 0 inside in
            let there = s.back c inside in
            let apart : idx == get_or cm.property_map c 0 ≡ false =
              known_apart cm.reverse_map idx (get_or cm.property_map c 0) c new there in
            rw (kept, apart) there
        | inr last ↦
            let at : c ≡ length cm.property_map = omega (arith, not_below c last, low, count) in
            let same : idx == idx ≡ true = ground arith in
            rw (at, get_or-append_last cm.property_map idx 0, same)
      ];
      forth = λ j c e. elim (Bool-cases (idx == j)) [
        | inl same ↦
            let at : length cm.property_map ≡ c = ground (arith, e) in
            let is : idx ≡ j = ground arith in
            subst
              (λ k.
                (k < length (cm.property_map ++ idx ∷ []))
                × (get_or (cm.property_map ++ idx ∷ []) k 0 ≡ j))
              at (omega (arith, count), get_or-append_last cm.property_map idx 0 ∙ is)
        | inr apart ↦
            let old : cm.reverse_map j ≡ some c = ground (arith, e) in
            let (inside, its) = s.forth j c old in
            (omega (arith, count), get_or-append_left cm.property_map (idx ∷ []) c 0 inside ∙ its)
      ];
    }
  where
    not_below : (c : ℕ) → ltb c (length cm.property_map) ≡ false → length cm.property_map ≤ c
    not_below c h = ground arith

abbrev AllOther : String → List String → Type 0
AllOther name [] = Unit
AllOther name (n ∷ names) = (str_eq name n ≡ false) × AllOther name names

abbrev pub AreDistinct : List String → Type 0
AreDistinct [] = Unit
AreDistinct (name ∷ names) = AllOther name names × AreDistinct names

-- The properties of the names have no column yet.
abbrev AllNew : Properties → PropertyMap → List String → Type 0
AllNew props cm [] = Unit
AllNew props cm (name ∷ names) =
    ((idx : ℕ) → get_property props name ≡ some idx → cm.reverse_map idx ≡ none)
    × AllNew props cm names

AllNew-no_columns :
    (props : Properties) (hash : ℕ) (names : List String) → AllNew props (no_columns hash) names
AllNew-no_columns props hash [] = tt
AllNew-no_columns props hash (name ∷ names) = (λ idx e. refl, AllNew-no_columns props hash names)

AllNew-map_property :
    (make_hash : String → ℕ) (props : Properties) (idx : ℕ) (name : String) (cm : PropertyMap)
    (names : List String)
    → IsNamed props
    → get_property props name ≡ some idx
    → AllOther name names
    → AllNew props cm names
    → AllNew props (map_property make_hash idx name cm) names
unfolding map_property
AllNew-map_property make_hash props idx name cm [] named e o a = tt
AllNew-map_property make_hash props idx name cm (n ∷ names) named e (differs, o) (new, a) = (
  λ j e_j. let apart = idx_apart props name n idx j named e e_j differs in rw apart (new j e_j),
  AllNew-map_property make_hash props idx name cm names named e o a,
)

map_names-IsInverse :
    (make_hash : String → ℕ) (props : Properties) (names : List String) (cm cm' : PropertyMap)
    → IsNamed props
    → AreDistinct names
    → AllNew props cm names
    → IsInverse cm
    → map_names make_hash props names cm ≡ some cm'
    → IsInverse cm'
unfolding map_names
map_names-IsInverse make_hash props [] cm cm' named d a s e =
    let same : cm ≡ cm' = cc in subst IsInverse same s
map_names-IsInverse make_hash props (name ∷ names) cm cm' named (o, d) (new, a) s e =
    elim (Option-cases (get_property props name)) [
      | inl unknown ↦ absurd (ground (arith, e, unknown))
      | inr (idx, known) ↦
          map_names-IsInverse make_hash props names (map_property make_hash idx name cm) cm' named d
            (AllNew-map_property make_hash props idx name cm names named known o a)
            (map_property-IsInverse make_hash idx name cm (new idx known) s)
            (rw (map_names, known) at e)
    ]

-- Names that can be hashed can be mapped.
mapped :
    (make_hash : String → ℕ) (append_hash : ℕ → ℕ → ℕ) (props : Properties) (names : List String)
    (start hash : ℕ) (cm : PropertyMap)
    → hash_names append_hash props names start ≡ some hash
    → (cm' : PropertyMap) × (map_names make_hash props names cm ≡ some cm')
      × (property_count cm' ≡ property_count cm + length names)
unfolding hash_names map_names map_property
mapped make_hash append_hash props [] start hash cm e = (cm, refl, omega arith)
mapped make_hash append_hash props (name ∷ names) start hash cm e =
    elim (Option-cases (get_property props name)) [
      | inl unknown ↦ absurd (ground (arith, e, unknown))
      | inr (idx, known) ↦
          let (cm', made, count) =
            mapped make_hash append_hash props names (append_hash idx start) hash
              (map_property make_hash idx name cm) (rw (hash_names, known) at e) in
          (
            cm',
            rw (map_names, known) made,
            omega (arith, count, length-append cm.property_map (idx ∷ [])),
          )
    ]

-- `mapSchema` of names that are all different gives each name a column: each column leads to a
-- property that leads back to the column, and no other property leads to a column. The hash of the
-- names was not mapped yet, and a name that is found is the name of its property.
pub map_schema-IsInverse :
    (make_hash : String → ℕ) (append_hash : ℕ → ℕ → ℕ) (m : PropertyMapping) (props : Properties)
    (names : List String) (hash : ℕ)
    → IsNamed props
    → AreDistinct names
    → hash_names append_hash props names 0 ≡ some hash
    → m.map hash ≡ none
    → (cm : PropertyMap) × ((map_schema make_hash append_hash m props names).1 ≡ some (listed hash))
      × ((map_schema make_hash append_hash m props names).0.map hash ≡ some cm)
      × (property_count cm ≡ length names)
      × (cm.row_bytes ≡ 8 * length names)
      × IsInverse cm
unfolding map_schema
map_schema-IsInverse make_hash append_hash m props names hash named d hashed new =
    let (cm, made, count) =
      mapped make_hash append_hash props names 0 hash (no_columns hash) hashed in
    let s =
      map_names-IsInverse make_hash props names (no_columns hash) cm named d
        (AllNew-no_columns props hash names) (no_columns-IsInverse hash) made in
    let here : hash == hash ≡ true = ground arith in
    (
      with_bytes (record cm { ref_count = 1 }),
      rw (map_schema, hashed, new, made),
      rw (map_schema, hashed, new, made, here),
      omega (arith, count),
      omega (arith, count),
      record { back = s.back; forth = s.forth },
    )
