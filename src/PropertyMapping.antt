-- ===== src/PropertyMapping.antt =====
-- src/property_mapping.h and src/property_mapping.cpp: the properties that a query reads, packed into
-- columns 0, 1, 2, and so on.
--
-- `propertyMap` is the list of its first `propertyCount` entries; the other tables are functions, with
-- none for -1. A pointer to a map is the hash that it is found under. AppendHash and MakeHash are
-- parameters.
pub mod Inverse
pub mod Counted
use Prim.Native.String.{String}
use openset.Properties.{Property, Properties, PropertyType, get_property, is_free, property_at}
use openset.Prelude.{
  ℕ, suc, ◌+◌, ◌-◌, ◌*◌, Bool, true, false, not, List, [], ◌∷◌, ◌++◌, Option, none, some, length,
  ◌==◌, if◌then◌else◌,
}

abbrev pub prop_uuid : ℕ
prop_uuid = 2

abbrev pub prop_session : ℕ
prop_session = 6

pub record PropertyMap : Type 0 where
  pub hash : ℕ
  pub row_bytes : ℕ
  pub ref_count : ℕ
  pub uuid_prop_index : Option ℕ
  pub session_prop_index : Option ℕ
  pub property_map : List ℕ
  pub reverse_map : ℕ → Option ℕ
  pub insert_map : ℕ → Option ℕ

abbrev pub property_count : PropertyMap → ℕ
property_count cm = length cm.property_map

abbrev pub no_columns : ℕ → PropertyMap
no_columns hash = record {
  hash = hash;
  row_bytes = 0;
  ref_count = 0;
  uuid_prop_index = none;
  session_prop_index = none;
  property_map = [];
  reverse_map = λ idx. none;
  insert_map = λ name_hash. none;
}

abbrev pub update {ℓ} : {A : Type ℓ} → (ℕ → Option A) → ℕ → Option A → ℕ → Option A
update f k v j = if k == j then v else f j

-- The body of both loops.
unfoldable pub map_property : (String → ℕ) → ℕ → String → PropertyMap → PropertyMap
map_property make_hash idx name cm = record cm {
  uuid_prop_index = if idx == prop_uuid then some (property_count cm) else cm.uuid_prop_index;
  session_prop_index =
      if idx == prop_uuid
      then cm.session_prop_index
      else if idx == prop_session
      then some (property_count cm)
      else cm.session_prop_index;
  property_map = cm.property_map ++ idx ∷ [];
  reverse_map = update cm.reverse_map idx (some (property_count cm));
  insert_map = update cm.insert_map (make_hash name) (some (property_count cm));
}

-- The loop over the names; none where a name is unknown.
unfoldable pub map_names :
    (String → ℕ) → Properties → List String → PropertyMap → Option PropertyMap
unfolding get_property map_property
map_names make_hash props [] cm = some cm
map_names make_hash props (name ∷ names) cm = elim (get_property props name) [
  | none ↦ none
  | some idx ↦ map_names make_hash props names (map_property make_hash idx name cm)
]

-- The loop over all properties of a table, from index `idx` on.
unfoldable pub map_all : (String → ℕ) → List Property → ℕ → PropertyMap → PropertyMap
unfolding map_property
map_all make_hash [] idx cm = cm
map_all make_hash (p ∷ ps) idx cm =
    map_all make_hash ps (idx + 1)
      (if is_free p.prop_type then cm else map_property make_hash idx p.name cm)

unfoldable pub hash_names : (ℕ → ℕ → ℕ) → Properties → List String → ℕ → Option ℕ
unfolding get_property
hash_names append_hash props [] hash = some hash
hash_names append_hash props (name ∷ names) hash = elim (get_property props name) [
  | none ↦ none
  | some idx ↦ hash_names append_hash props names (append_hash idx hash)
]

pub record PropertyMapping : Type 0 where
  pub all_mapping : Option PropertyMap
  pub map : ℕ → Option PropertyMap

pub data MapPointer : Type 0 where
  all_properties : MapPointer
  listed : ℕ → MapPointer

abbrev pub with_bytes : PropertyMap → PropertyMap
with_bytes cm = record cm { row_bytes = property_count cm * 8 }

-- `mapSchema` of a list of names.
unfoldable pub map_schema :
    (String → ℕ)
    → (ℕ → ℕ → ℕ)
    → PropertyMapping
    → Properties
    → List String
    → PropertyMapping × Option MapPointer
unfolding hash_names map_names
map_schema make_hash append_hash m props names = elim (hash_names append_hash props names 0) [
  | none ↦ (m, none)
  | some hash ↦ elim (m.map hash) [
    | some cm ↦ (
      record m { map = update m.map hash (some (record cm { ref_count = cm.ref_count + 1 })) },
      some (listed hash),
    )
    | none ↦ elim (map_names make_hash props names (no_columns hash)) [
      | none ↦ (m, none)
      | some cm ↦ (
        record m { map = update m.map hash (some (with_bytes (record cm { ref_count = 1 }))) },
        some (listed hash),
      )
    ]
  ]
]

-- `mapSchema` of all properties, which is made once.
unfoldable pub map_schema_all :
    (String → ℕ) → PropertyMapping → Properties → PropertyMapping × Option MapPointer
unfolding map_all
map_schema_all make_hash m props = elim m.all_mapping [
  | some cm ↦ (m, some all_properties)
  | none ↦
      let cm = with_bytes (map_all make_hash props.properties 0 (no_columns 0)) in
      (record m { all_mapping = some cm }, some all_properties)
]

unfoldable pub release_map : PropertyMapping → MapPointer → PropertyMapping
release_map m all_properties = m
release_map m (listed hash) = elim (m.map hash) [
  | none ↦ m
  | some cm ↦ record m {
    map =
        update m.map hash (
          if cm.ref_count - 1 == 0
          then none
          else some (record cm { ref_count = cm.ref_count - 1 }));
  }
]

-- What a pointer leads to.
abbrev pub map_at : PropertyMapping → MapPointer → Option PropertyMap
map_at m all_properties = m.all_mapping
map_at m (listed hash) = m.map hash
