-- ===== src/Attributes.antt =====
-- src/attributes.h, src/attributes.cpp and src/attributeblob.cpp: the index of a partition, which
-- holds the customers of every property value.
--
-- A hash map is an association list in its iteration order. `make_hash` is MakeHash. A value is a
-- number that stands for itself less 2 ^ 63, so that `<` is `<` on the integers and NONE is 0.
pub mod Memory
pub mod Holds
pub mod Dirty
pub mod Swap
pub mod Wait
pub mod Make
use openset.Attributes.Memory.{AttrKey, key_eq, Change, lookup, erase, assign, insert, Pool, write}
use openset.IndexBits.Storage.{Lz4, Stored, all_bits, to_lin_id, store, mount}
use openset.IndexBits.{IndexBits, ints, bit_set, bit_clear, bit_state, population}
use openset.Prelude.{
  ℕ, zero, suc, ◌+◌, ◌*◌, Bool, true, false, not, ◌&&◌, List, [], ◌∷◌, ◌++◌, Option, none, some,
  ltb, leb, ◌==◌, if◌then◌else◌,
}

-- `NONE`, which is LLONG_MIN: a value is the number by which it is above it.
abbrev pub none_value : ℕ
none_value = 0

abbrev pub prop_segment : ℕ
prop_segment = 5

-- `AttributeBlob`: the text of a property value under its hash.
abbrev pub Text : Type 0
Text = List ℕ

abbrev pub Blob : Type 0
Blob = List (AttrKey × Text)

unfoldable pub store_value : (Text → ℕ) → Blob → ℕ → Text → Blob × Text
unfolding lookup
store_value make_hash blob prop value = elim (lookup (prop, make_hash value) blob) [
  | some text ↦ (blob, text)
  | none ↦ (((prop, make_hash value), value) ∷ blob, value)
]

unfoldable pub get_value : Blob → ℕ → ℕ → Option Text
unfolding lookup
get_value blob prop hash = lookup (prop, hash) blob

pub data ListMode : Type 0 where
  eq neq gt gte lt lte present : ListMode

-- The bits that wait for a value, in the order in which they were set.
unfoldable pub apply_changes : IndexBits → List Change → IndexBits
unfolding bit_set bit_clear
apply_changes bits [] = bits
apply_changes bits (c ∷ cs) =
    apply_changes (if c.state then bit_set bits c.lin_id else bit_clear bits c.lin_id) cs

module _ (lz4 : Lz4) where
  open lz4 use {Block}

  -- `Attr_s`; the compressed bits are none where the source leaves them out.
  pub record Attr : Type 0 where
    pub text : Option Text
    pub attr_ints : ℕ
    pub ofs : ℕ
    pub len : ℕ
    pub comp : ℕ
    pub lin_id : Option ℕ
    pub index : Option Block

  abbrev pub new_attr : Attr
  new_attr = record {
    text = none;
    attr_ints = 0;
    ofs = 0;
    len = 0;
    comp = 0;
    lin_id = none;
    index = none;
  }

  pub record Attributes : Type 0 where
    pub property_index : List (AttrKey × ℕ)
    pub change_index : List (AttrKey × List Change)
    pub memory : Pool Attr
    pub next_address : ℕ
    pub blob : Blob

  -- `getPtr` with the record that is written to it, and `freePtr`.
  unfoldable pub allocate : Attributes → Attr → Attributes
  unfolding write
  allocate a attr = record a {
    memory = write a.memory a.next_address (some attr);
    next_address = a.next_address + 1;
  }

  unfoldable pub free_ptr : Attributes → ℕ → Attributes
  unfolding write
  free_ptr a p = record a { memory = write a.memory p none }

  -- `getBits`, and the mount of `clearDirty`.
  unfoldable pub get_bits : Attr → IndexBits
  get_bits attr = mount lz4 attr.index attr.attr_ints attr.ofs attr.len attr.lin_id

  unfoldable pub add_change : Attributes → AttrKey → ℕ → Bool → Attributes
  unfolding lookup assign
  add_change a key linear_id state =
      let change : Change = record { lin_id = linear_id; state = state } in
      elim (lookup key a.change_index) [
        | some changes ↦ record a {
          change_index = assign key (changes ++ change ∷ []) a.change_index;
        }
        | none ↦ record a { change_index = (key, change ∷ []) ∷ a.change_index }
      ]

  unfoldable pub set_dirty : Attributes → ℕ → AttrKey → Bool → Attributes
  unfolding add_change
  set_dirty a lin_id key on = add_change a key lin_id on

  unfoldable pub get_make : Attributes → AttrKey → Attributes × ℕ
  unfolding lookup insert allocate
  get_make a key = elim (lookup key a.property_index) [
    | some p ↦ (a, p)
    | none ↦
        let a' = allocate a new_attr in
        (record a' { property_index = insert key a.next_address a'.property_index }, a.next_address)
  ]

  unfoldable pub get_make_text : (Text → ℕ) → Attributes → ℕ → Text → Attributes × ℕ
  unfolding lookup insert allocate store_value
  get_make_text make_hash a prop value =
      let key : AttrKey = (prop, make_hash value) in
      elim (lookup key a.property_index) [
        | some p ↦ (a, p)
        | none ↦
            let (blob, text) = store_value make_hash a.blob prop value in
            let a' = allocate (record a { blob = blob }) (record new_attr { text = some text }) in
            (
              record a' { property_index = insert key a.next_address a'.property_index },
              a.next_address,
            )
      ]

  unfoldable pub get : Attributes → AttrKey → Option ℕ
  unfolding lookup
  get a key = lookup key a.property_index

  unfoldable pub drop_key : Attributes → AttrKey → Attributes
  unfolding erase
  drop_key a key = record a { property_index = erase key a.property_index }

  -- The record that `clearDirty` and `swap` make of an old one and of the new bits; they differ in
  -- the word count.
  unfoldable pub packed : Attr → (IndexBits → Stored lz4 → ℕ) → IndexBits → Attr
  packed attr count bits =
      let (bits', s) = store lz4 bits in
      record attr {
        attr_ints = count bits' s;
        comp = s.compressed_bytes;
        lin_id = to_lin_id s.lin_id;
        ofs = s.offset;
        len = s.len;
        index = s.buffer;
      }

  -- One round of `clearDirty`. A pointer to a record that was given back is followed by the source;
  -- here the round then does nothing.
  unfoldable pub clear_attr : Attributes → AttrKey → ℕ → Attr → List Change → Attributes
  unfolding all_bits drop_key free_ptr allocate assign
  clear_attr a key p attr changes =
      let bits = apply_changes (get_bits attr) changes in
      if population bits (all_bits bits) == 0
      then free_ptr (drop_key a key) p
      else let a' = allocate a (packed attr (λ b s. ints b) bits) in
        free_ptr (record a' { property_index = assign key a.next_address a'.property_index }) p

  unfoldable pub clear_change : Attributes → AttrKey → List Change → Attributes
  unfolding lookup clear_attr
  clear_change a key changes = elim (lookup key a.property_index) [
    | none ↦ a
    | some p ↦ elim (a.memory p) [ none ↦ a | some attr ↦ clear_attr a key p attr changes ]
  ]

  unfoldable pub clear_changes : Attributes → List (AttrKey × List Change) → Attributes
  unfolding clear_change
  clear_changes a [] = a
  clear_changes a ((key, changes) ∷ rest) = clear_changes (clear_change a key changes) rest

  unfoldable pub clear_dirty : Attributes → Attributes
  unfolding clear_changes
  clear_dirty a = record (clear_changes a a.change_index) { change_index = [] }

  -- `swap`: the new record is inserted under a key that is there. `store` may grow the new bits.
  abbrev pub count_compressed : IndexBits → Stored lz4 → ℕ
  count_compressed b s = if s.compressed_bytes == 0 then 0 else ints b

  unfoldable pub swap : Attributes → AttrKey → IndexBits → Attributes × IndexBits
  unfolding lookup insert allocate free_ptr packed store
  swap a key new_bits = elim (lookup key a.property_index) [
    | none ↦ (a, new_bits)
    | some p ↦ elim (a.memory p) [
      | none ↦ (a, new_bits)
      | some attr ↦
          let a' = allocate a (packed attr count_compressed new_bits) in
          (
            free_ptr (record a' { property_index = insert key a.next_address a'.property_index }) p,
            (store lz4 new_bits).0,
          )
    ]
  ]

  -- `getPropertyValues`: the values with their records, and the records by a comparison.
  unfoldable pub get_property_values : List (AttrKey × ℕ) → ℕ → List (ℕ × ℕ)
  get_property_values [] prop = []
  get_property_values (((i, v), p) ∷ m) prop =
      let rest = get_property_values m prop in
      if i == prop && not (v == none_value) then (v, p) ∷ rest else rest

  abbrev pub mode_takes : ListMode → ℕ → ℕ → Bool
  mode_takes present v value = true
  mode_takes gt v value = ltb value v
  mode_takes gte v value = leb value v
  mode_takes lt v value = ltb v value
  mode_takes lte v value = leb v value
  mode_takes eq v value = false
  mode_takes neq v value = false

  unfoldable pub list_values : List (AttrKey × ℕ) → ℕ → ListMode → ℕ → List ℕ
  list_values [] prop mode value = []
  list_values (((i, v), p) ∷ m) prop mode value =
      let rest = list_values m prop mode value in
      if i == prop && mode_takes mode v value then p ∷ rest else rest

  abbrev one_value : Option ℕ → List ℕ
  one_value none = []
  one_value (some p) = p ∷ []

  unfoldable pub get_property_values_by : Attributes → ℕ → ListMode → ℕ → List ℕ
  unfolding get list_values
  get_property_values_by a prop neq value = one_value (get a (prop, value))
  get_property_values_by a prop eq value = one_value (get a (prop, value))
  get_property_values_by a prop mode value = list_values a.property_index prop mode value
