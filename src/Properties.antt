-- ===== src/Properties.antt =====
-- src/properties.h and src/properties.cpp: the properties of a table, by index and by name.
--
-- A pointer to a property is its index, as `Properties` sets `idx`. `validPropertyName`, a regular
-- expression, is left out, and locks make each operation one step.
pub mod Named
pub mod Customer
use Prim.Native.String.{String}
use text.Mathlib.Text.{◌==◌ as str_eq}
use openset.NameMap.{find, erase, assign, emplace}
use openset.Prelude.{
  ℕ, ◌+◌, Bool, true, false, not, ◌&&◌, List, [], ◌∷◌, Option, none, some, if◌then◌else◌, get_or,
  set, replicate,
}

pub data PropertyType : Type 0 where
  free_prop int_prop double_prop bool_prop text_prop : PropertyType

pub record Property : Type 0 where
  pub name : String
  pub prop_type : PropertyType
  pub is_set : Bool
  pub is_customer_property : Bool
  pub deleted : Bool

abbrev pub max_properties : ℕ
max_properties = 4096

abbrev pub no_property : Property
no_property = record {
  name = "";
  prop_type = free_prop;
  is_set = false;
  is_customer_property = false;
  deleted = false;
}

pub record Properties : Type 0 where
  pub properties : List Property
  pub name_map : List (String × ℕ)
  pub customer_property_map : List (String × ℕ)
  pub property_count : ℕ

-- The constructor.
abbrev pub new_properties : Properties
new_properties = record {
  properties = replicate max_properties no_property;
  name_map = [];
  customer_property_map = [];
  property_count = 0;
}

abbrev pub property_at : Properties → ℕ → Property
property_at ps index = get_or ps.properties index no_property

-- `getProperty` by name.
unfoldable pub get_property : Properties → String → Option ℕ
unfolding find
get_property ps name = find name ps.name_map

unfoldable pub is_customer_property : Properties → String → Bool
unfolding find
is_customer_property ps name = elim (find name ps.customer_property_map) [
  | none ↦ false
  | some index ↦ true
]

unfoldable pub is_event_property : Properties → String → Bool
unfolding find
is_event_property ps name = elim (find name ps.name_map) [
  | none ↦ false
  | some index ↦ not (property_at ps index).is_customer_property
]

unfoldable pub is_set : Properties → String → Bool
unfolding find
is_set ps name = elim (find name ps.name_map) [
  | none ↦ false
  | some index ↦ (property_at ps index).is_set
]

-- `deleted = Now()`, a Boolean.
unfoldable pub delete_property : Properties → ℕ → Properties
unfolding erase
delete_property ps index =
    let prop = property_at ps index in
    record ps {
      name_map = erase prop.name ps.name_map;
      customer_property_map = erase prop.name ps.customer_property_map;
      properties = set ps.properties index (record prop { name = "___deleted"; deleted = true });
    }

abbrev pub is_free : PropertyType → Bool
is_free free_prop = true
is_free int_prop = false
is_free double_prop = false
is_free bool_prop = false
is_free text_prop = false

unfoldable pub count_used : List Property → ℕ
count_used [] = 0
count_used (p ∷ ps) = (if is_free p.prop_type then 0 else 1) + count_used ps

-- `if (properties[index].name.size()) nameMap.erase(properties[index].name)`.
unfoldable pub forget_name : String → List (String × ℕ) → List (String × ℕ)
unfolding erase
forget_name name m = if str_eq name "" then m else erase name m

-- The record that had the name before, if any, is freed.
unfoldable pub free_old : Option ℕ → List Property → List Property
free_old none props = props
free_old (some old) props =
    set props old (record (get_or props old no_property) { name = ""; prop_type = free_prop })

unfoldable pub set_property :
    Properties → ℕ → String → PropertyType → Bool → Bool → Bool → Properties
unfolding find erase assign emplace forget_name free_old count_used
set_property ps index name prop_type is_set is_customer_prop deleted =
    let forgotten = forget_name (property_at ps index).name ps.name_map in
    let freed = free_old (find name forgotten) ps.properties in
    let props = set freed index (record {
      name = name;
      prop_type = prop_type;
      is_set = is_set;
      is_customer_property = is_customer_prop;
      deleted = deleted;
    }) in
    record {
      properties = props;
      name_map = assign name index forgotten;
      customer_property_map =
          if is_customer_prop
          then emplace name index ps.customer_property_map
          else erase name ps.customer_property_map;
      property_count = count_used props;
    }
