-- ===== src/Properties/Named.antt =====
-- The names of the properties of a table lead to the properties that have them.
use Prim.Native.String.{String}
use text.Mathlib.Text.{◌==◌ as str_eq}
use text.Mathlib.TextEquality.{eq_iff}
use mathlib.Core.Path.{subst}
use openset.NameMap.{find, find-assign, found-erase}
use openset.Properties.{
  Property, PropertyType, Properties, no_property, property_at, forget_name, free_old, get_property,
  delete_property, set_property, free_prop,
}
use openset.Prelude.{
  ℕ, ◌<◌, ◌≡◌, refl, sym, ap, ◌∙◌, Bool, true, false, List, Option, none, some, ◌==◌, get_or, set,
  length, arith, inl, inr, Bool-cases, Option-cases, length-set, get_or-set_self, get_or-set_ne,
}

-- A name that is found is the name of the property that it leads to, and is not empty.
abbrev pub IsNamed : Properties → Type 0
IsNamed ps =
    (name : String) (index : ℕ)
    → get_property ps name ≡ some index
    → (index < length ps.properties)
      × ((property_at ps index).name ≡ name)
      × (str_eq name "" ≡ false)

str_eq_of : (a b : String) → a ≡ b → str_eq a b ≡ true
str_eq_of a b e = (eq_iff a b).1 e

of_str_eq : (a b : String) → str_eq a b ≡ true → a ≡ b
of_str_eq a b e = (eq_iff a b).0 e

set_elsewhere :
    (props : List Property) (i j : ℕ) (p : Property)
    → i == j ≡ false
    → get_or (set props i p) j no_property ≡ get_or props j no_property
set_elsewhere props i j p apart =
    get_or-set_ne props i j p no_property (λ e. ground (arith, e, apart))

-- A property under another name is another property.
named_apart :
    (ps : Properties) (name : String) (i index : ℕ)
    → IsNamed ps
    → get_property ps name ≡ some i
    → str_eq (property_at ps index).name name ≡ false
    → index == i ≡ false
named_apart ps name i index named e other = elim (Bool-cases (index == i)) [
  | inr apart ↦ apart
  | inl same ↦
      let eq : index ≡ i = ground arith in
      let its : (property_at ps index).name ≡ name =
        ap (λ k. (property_at ps k).name) eq ∙ (named name i e).1 in
      absurd (ground (arith, str_eq_of (property_at ps index).name name its, other))
]

-- `deleteProperty` keeps that.
pub delete_property-IsNamed :
    (ps : Properties) (index : ℕ) → IsNamed ps → IsNamed (delete_property ps index)
unfolding delete_property get_property
delete_property-IsNamed ps index named name i e =
    let prop = property_at ps index in
    let gone = record prop { name = "___deleted"; deleted = true } in
    let (other, before) = found-erase prop.name name ps.name_map i e in
    let (low, its, real) = named name i before in
    (
      rw (length-set ps.properties index gone) low,
      ap (λ p. p.name)
            (set_elsewhere ps.properties index i gone
              (named_apart ps name i index named before other))
          ∙ its,
      real,
    )

length-free_old :
    (old : Option ℕ) (props : List Property) → length (free_old old props) ≡ length props
unfolding free_old
length-free_old none props = refl
length-free_old (some i) props =
    length-set props i (record (get_or props i no_property) { name = ""; prop_type = free_prop })

-- Under a name that is left, the property at `index` is not meant.
found_forgotten :
    (ps : Properties) (index : ℕ) (name : String) (i : ℕ)
    → IsNamed ps
    → find name (forget_name (property_at ps index).name ps.name_map) ≡ some i
    → (get_property ps name ≡ some i) × (index == i ≡ false)
unfolding forget_name get_property
found_forgotten ps index name i named e =
    elim (Bool-cases (str_eq (property_at ps index).name "")) [
      | inl empty ↦
          let before = rw empty at e in
          (before, named_apart ps name i index named before (nameless before empty))
      | inr full ↦
          let (other, before) =
            found-erase (property_at ps index).name name ps.name_map i (rw full at e) in
          (before, named_apart ps name i index named before other)
    ]
  where
    nameless :
        get_property ps name ≡ some i
        → str_eq (property_at ps index).name "" ≡ true
        → str_eq (property_at ps index).name name ≡ false
    nameless before empty = elim (Bool-cases (str_eq (property_at ps index).name name)) [
      | inr other ↦ other
      | inl same ↦
          let back : name ≡ "" =
            sym (of_str_eq (property_at ps index).name name same)
            ∙ of_str_eq (property_at ps index).name "" empty in
          absurd (ground (arith, str_eq_of name "" back, (named name i before).2))
    ]

-- Freeing the record that had the name leaves the properties with other names.
free_old-other :
    (ps : Properties) (index : ℕ) (name k : String) (i : ℕ)
    → IsNamed ps
    → str_eq name k ≡ false
    → get_property ps k ≡ some i
    → get_or
        (free_old (find name (forget_name (property_at ps index).name ps.name_map)) ps.properties)
        i
        no_property
      ≡ property_at ps i
unfolding free_old
free_old-other ps index name k i named differs e =
    elim (Option-cases (find name (forget_name (property_at ps index).name ps.name_map))) [
      | inl new ↦ rw new
      | inr (o, old) ↦
          let (before, apart) = found_forgotten ps index name o named old in
          let other : str_eq (property_at ps o).name k ≡ false =
            ap (λ n. str_eq n k) (named name o before).1 ∙ differs in
          let far = named_apart ps k i o named e other in
          rw old (
            set_elsewhere ps.properties o i
              (record (property_at ps o) { name = ""; prop_type = free_prop }) far)
    ]

-- After `setProperty` a name that is found still is the name of the property that it leads to, also
-- where the property had another name before, and where the name was another property's. The index
-- is one of the table's, and the name is not empty.
pub set_property-IsNamed :
    (ps : Properties) (index : ℕ) (name : String) (t : PropertyType)
    (as_set customer deleted : Bool)
    → IsNamed ps
    → index < length ps.properties
    → str_eq name "" ≡ false
    → IsNamed (set_property ps index name t as_set customer deleted)
unfolding set_property get_property
set_property-IsNamed ps index name t as_set customer deleted named low real k i e =
    let forgotten = forget_name (property_at ps index).name ps.name_map in
    let freed = free_old (find name forgotten) ps.properties in
    let new : Property = record {
      name = name;
      prop_type = t;
      is_set = as_set;
      is_customer_property = customer;
      deleted = deleted;
    } in
    let size : length (set freed index new) ≡ length ps.properties =
      length-set freed index new ∙ length-free_old (find name forgotten) ps.properties in
    elim (Bool-cases (str_eq name k)) [
      | inl same ↦
          let at : index ≡ i = ground (arith, find-assign name k index forgotten) in
          let eq : name ≡ k = of_str_eq name k same in
          let room : index < length freed =
            rw (length-free_old (find name forgotten) ps.properties) low in
          subst
            (λ j.
              (j < length (set freed index new))
              × ((get_or (set freed index new) j no_property).name ≡ k)
              × (str_eq k "" ≡ false))
            at
            (
              rw size low,
              ap (λ p. p.name) (get_or-set_self freed index new no_property room) ∙ eq,
              ap (λ n. str_eq n "") (sym eq) ∙ real,
            )
      | inr differs ↦
          let found : find k forgotten ≡ some i =
            ground (arith, find-assign name k index forgotten) in
          let (before, apart) = found_forgotten ps index k i named found in
          let (low_i, its, real_k) = named k i before in
          (
            rw size low_i,
            ap (λ p. p.name)
                  (set_elsewhere freed index i new apart
                    ∙ free_old-other ps index name k i named differs before)
                ∙ its,
            real_k,
          )
    ]
