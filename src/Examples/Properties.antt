-- ===== src/Examples/Properties.antt =====
-- The theorems about the properties of a table and their columns, at a table of two properties.
use Prim.Native.String.{String}
use text.Mathlib.Text.{◌==◌ as str_eq}
use text.Mathlib.TextEquality.{eq_iff}
use openset.NameMap.{find}
use openset.Properties.Customer.{is_customer_property-set_property}
use openset.Properties.Named.{IsNamed, set_property-IsNamed}
use openset.Properties.{
  Property, Properties, int_prop, text_prop, get_property, is_customer_property, set_property,
}
use openset.PropertyMapping.Counted.{release_map-map_schema}
use openset.PropertyMapping.Inverse.{IsInverse, map_schema-IsInverse}
use openset.PropertyMapping.{
  PropertyMap, PropertyMapping, property_count, listed, hash_names, map_names, map_schema,
  release_map,
}
use openset.Prelude.{
  ℕ, ◌+◌, ◌*◌, ◌≡◌, refl, sym, true, false, List, [], ◌∷◌, none, some, arith, inl, inr, Bool-cases,
}

abbrev pub city : Property
city = record {
  name = "city";
  prop_type = text_prop;
  is_set = false;
  is_customer_property = true;
  deleted = false;
}

abbrev age : Property
age = record {
  name = "age";
  prop_type = int_prop;
  is_set = false;
  is_customer_property = false;
  deleted = false;
}

abbrev pub two_properties : Properties
two_properties = record {
  properties = city ∷ age ∷ [];
  name_map = ("city", 0) ∷ ("age", 1) ∷ [];
  customer_property_map = ("city", 0) ∷ [];
  property_count = 2;
}

two_properties-IsNamed : IsNamed two_properties
unfolding get_property find
two_properties-IsNamed name index e = elim (Bool-cases (str_eq "city" name)) [
  | inl here ↦
      let at : index ≡ 0 = ground (arith, e, here) in
      let same : "city" ≡ name = (eq_iff "city" name).0 here in
      rw at (omega arith, same, rw (sym same) refl)
  | inr away ↦ elim (Bool-cases (str_eq "age" name)) [
    | inl here ↦
        let at : index ≡ 1 = ground (arith, e, here, away) in
        let same : "age" ≡ name = (eq_iff "age" name).0 here in
        rw at (omega arith, same, rw (sym same) refl)
    | inr further ↦ absurd (ground (arith, e, away, further))
  ]
]

-- The first property gets the name of the second.
set_property-IsNamed_example :
    IsNamed (set_property two_properties 0 "age" int_prop false false false)
set_property-IsNamed_example =
    set_property-IsNamed two_properties 0 "age" int_prop false false false two_properties-IsNamed
      (omega arith) refl

is_customer_property-set_property_example :
    is_customer_property (set_property two_properties 0 "town" text_prop false true false) "city"
    ≡ true
unfolding is_customer_property find
is_customer_property-set_property_example =
    is_customer_property-set_property two_properties 0 "town" text_prop false true false "city"

abbrev no_maps : PropertyMapping
no_maps = record { all_mapping = none; map = λ hash. none }

abbrev both_names : List String
both_names = "age" ∷ "city" ∷ []

abbrev count_hash : ℕ → ℕ → ℕ
count_hash idx hash = 10 * hash + idx + 1

map_schema-IsInverse_example :
    (cm : PropertyMap) × ((map_schema (λ name. 0) count_hash no_maps two_properties both_names).1
      ≡ some (listed 21))
    × ((map_schema (λ name. 0) count_hash no_maps two_properties both_names).0.map 21 ≡ some cm)
    × (property_count cm ≡ 2)
    × (cm.row_bytes ≡ 16)
    × IsInverse cm
unfolding hash_names get_property find
map_schema-IsInverse_example =
    map_schema-IsInverse (λ name. 0) count_hash no_maps two_properties both_names 21
      two_properties-IsNamed ((refl, tt), (tt, tt)) refl refl

release_map-map_schema_example :
    (release_map
        (map_schema (λ name. 0) count_hash no_maps two_properties both_names).0
        (listed 21)).map
      21
    ≡ none
unfolding map_schema hash_names map_names get_property find
release_map-map_schema_example =
    release_map-map_schema (λ name. 0) count_hash no_maps two_properties both_names (listed 21) 21
      (λ hash cm e. absurd (ground (arith, e))) refl
