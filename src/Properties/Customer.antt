-- ===== src/Properties/Customer.antt =====
-- What `setProperty` of src/properties.cpp does to the lookups by name.
use Prim.Native.String.{String}
use text.Mathlib.Text.{◌==◌ as str_eq}
use openset.NameMap.{find-erase, find-assign, find-emplace}
use openset.Properties.{
  PropertyType, Properties, property_at, forget_name, get_property, is_customer_property,
  set_property,
}
use openset.Prelude.{
  ℕ, ◌≡◌, ◌∙◌, Bool, true, false, not, ◌&&◌, Option, none, some, if◌then◌else◌, inl, inr,
  Bool-cases,
}

abbrev pub is_found : Option ℕ → Bool
is_found none = false
is_found (some index) = true

-- `setProperty` makes the name lead to the property at the index and takes away the name that this
-- property had. Every other name leads where it led.
pub get_property-set_property :
    (ps : Properties) (index : ℕ) (name : String) (t : PropertyType)
    (as_set customer deleted : Bool) (k : String)
    → get_property (set_property ps index name t as_set customer deleted) k ≡ (
        if str_eq name k
        then some index
        else if not (str_eq (property_at ps index).name "") && str_eq (property_at ps index).name k
        then none
        else get_property ps k)
unfolding set_property get_property forget_name
get_property-set_property ps index name t as_set customer deleted k =
    let old = (property_at ps index).name in
    find-assign name k index (forget_name old ps.name_map) ∙ elim (Bool-cases (str_eq old "")) [
      | inl empty ↦ rw empty
      | inr full ↦ rw (full, find-erase old k ps.name_map)
    ]

-- The customer properties are another matter: `setProperty` changes this for the new name alone,
-- so a name that it takes away from a customer property is still one of a customer property.
pub is_customer_property-set_property :
    (ps : Properties) (index : ℕ) (name : String) (t : PropertyType)
    (as_set customer deleted : Bool) (k : String)
    → is_customer_property (set_property ps index name t as_set customer deleted) k
      ≡ (if str_eq name k then customer else is_customer_property ps k)
unfolding set_property is_customer_property
is_customer_property-set_property ps index name t as_set true deleted k =
    elim (Bool-cases (str_eq name k)) [
      | inl same ↦ rw (
        is_customer_property,
        set_property,
        find-emplace name k index ps.customer_property_map,
        same,
      )
      | inr other ↦ rw (
        is_customer_property,
        set_property,
        find-emplace name k index ps.customer_property_map,
        other,
      )
    ]
is_customer_property-set_property ps index name t as_set false deleted k =
    elim (Bool-cases (str_eq name k)) [
      | inl same ↦
          rw (is_customer_property, set_property, find-erase name k ps.customer_property_map, same)
      | inr other ↦
          rw (is_customer_property, set_property, find-erase name k ps.customer_property_map, other)
    ]
