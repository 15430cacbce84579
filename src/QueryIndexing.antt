-- ===== src/QueryIndexing.antt =====
-- src/queryindexing.h and src/queryindexing.cpp: the set of customers that the condition of a query
-- selects, computed from the index on attributes by a stack of sets; and `HintOp_e` of
-- src/querycommon.h.
--
-- An operation is none where the source would read past the stack or follow a pointer to nothing. An
-- item is kept without the value, which nothing reads, and a stack has its back first.
pub mod Sets
pub mod Gather
pub mod Meaning
pub mod Compare
pub mod Computes
pub mod Postfix
use Prim.Native.String.{String}
use openset.Attributes.{
  Attr, Attributes, ListMode, present, get_bits, get_property_values_by, none_value,
}
use openset.Attributes.ListMode.{eq, neq, gt, gte, lt, lte}
use openset.IndexBits.Storage.{Lz4}
use openset.IndexBits.{IndexBits, reset, grow, make_bits, op_and, op_or, op_not, op_copy}
use openset.Properties.{Properties, get_property}
use text.Mathlib.Text.{◌==◌ as str_eq}
use openset.Prelude.{
  ℕ, ◌+◌, ◌/◌, Bool, true, false, ◌||◌, List, [], ◌∷◌, ◌++◌, Option, none, some, ◌==◌,
  if◌then◌else◌,
}

-- `HintOp_s`, with the hash of a value and the name of a property.
pub data HintOp : Type 0 where
  unsupported op_eq op_neq op_gt op_gte op_lt op_lte : HintOp
  push_val : ℕ → HintOp
  push_tbl : String → HintOp
  bit_or bit_and : HintOp

-- `StackItem_s`.
pub record StackItem : Type 0 where
  pub column_name : String
  pub hash : ℕ
  pub bits : IndexBits

-- What `buildIndex` keeps while it goes through the operations.
pub record Machine : Type 0 where
  pub stack : List StackItem
  pub column_name : String
  pub count : ℕ

abbrev pub set_item : IndexBits → StackItem
set_item bits = record { column_name = ""; hash = none_value; bits = op_copy bits }

-- The mode that is looked up, and whether the result is negated.
unfoldable pub lookup_mode : ListMode → ℕ → ListMode × Bool
lookup_mode eq hash = if hash == none_value then (present, true) else (eq, false)
lookup_mode neq hash = if hash == none_value then (present, false) else (neq, true)
lookup_mode gt hash = (gt, false)
lookup_mode gte hash = (gte, false)
lookup_mode lt hash = (lt, false)
lookup_mode lte hash = (lte, false)
lookup_mode present hash = (present, false)

module _ (lz4 : Lz4) (props : Properties) (a : Attributes lz4) (stop_bit : ℕ) where
  abbrev pub full : IndexBits → IndexBits
  full bits = grow bits (stop_bit / 64 + 1) true

  -- The loop of `compositeBits` over the records.
  unfoldable pub gather : List ℕ → IndexBits → Bool → Option (IndexBits × Bool)
  unfolding get_bits op_or op_copy
  gather [] bits initialized = some (bits, initialized)
  gather (p ∷ ps) bits initialized = elim (a.memory p) [
    | none ↦ none
    | some attr ↦
        let work_bits = get_bits lz4 attr in
        gather ps (if initialized then (op_or bits work_bits).0 else op_copy work_bits) true
  ]

  -- The rest of `compositeBits`, once the property and the mode are known.
  unfoldable pub composite_of : ℕ → ListMode → Bool → StackItem → Option StackItem
  unfolding get_property_values_by gather make_bits op_not
  composite_of idx mode negate item =
      elim (gather (get_property_values_by lz4 a idx mode item.hash) reset false) [
        | none ↦ none
        | some (found, initialized) ↦
            let bits = if initialized then found else make_bits 64 false in
            some (record item { bits = if negate then op_not (full bits) else bits })
      ]

  unfoldable pub composite_bits : ListMode → StackItem → Option StackItem
  unfolding get_property lookup_mode composite_of
  composite_bits mode item = elim (get_property props item.column_name) [
    | none ↦ none
    | some idx ↦ let looked = lookup_mode mode item.hash in composite_of idx looked.0 looked.1 item
  ]

  unfoldable pub compare_top : ListMode → Machine → Option Machine
  unfolding composite_bits
  compare_top mode m = elim m.stack [
    | [] ↦ none
    | item ∷ rest ↦ elim (composite_bits mode item) [
      | none ↦ none
      | some item' ↦ some (record m { stack = item' ∷ rest; count = m.count + 1 })
    ]
  ]

  unfoldable pub combine_top :
      (IndexBits → IndexBits → IndexBits × IndexBits) → Machine → Option Machine
  combine_top f m = elim m.stack [
    | [] ↦ none
    | left ∷ more ↦ elim more [
      | [] ↦ none
      | right ∷ rest ↦
          let result = (f (op_copy left.bits) (op_copy right.bits)).0 in
          some (record m { stack = set_item result ∷ rest; count = m.count + 1 })
    ]
  ]

  unfoldable pub run_hint : HintOp → Machine → Option Machine
  unfolding compare_top combine_top
  run_hint unsupported m = some m
  run_hint op_eq m = compare_top eq m
  run_hint op_neq m = compare_top neq m
  run_hint op_gt m = compare_top gt m
  run_hint op_gte m = compare_top gte m
  run_hint op_lt m = compare_top lt m
  run_hint op_lte m = compare_top lte m
  run_hint (push_val hash) m =
      let item : StackItem = record { column_name = m.column_name; hash = hash; bits = reset } in
      some (record m { stack = item ∷ m.stack })
  run_hint (push_tbl name) m = some (record m { column_name = name })
  run_hint bit_or m = combine_top op_or m
  run_hint bit_and m = combine_top op_and m

  unfoldable pub run_hints : List HintOp → Machine → Option Machine
  unfolding run_hint
  run_hints [] m = some m
  run_hints (op ∷ ops) m = elim (run_hint op m) [ none ↦ none | some m' ↦ run_hints ops m' ]

  -- What is made of the stack at the end.
  unfoldable pub result_of : ℕ → Machine → IndexBits
  unfolding make_bits op_copy
  result_of max_lin_id m = elim m.stack [
    | [] ↦ make_bits max_lin_id true
    | top ∷ rest ↦ if m.count == 0 then make_bits max_lin_id true else full (op_copy top.bits)
  ]

  -- The set with the stack, which the next index of the query begins with.
  unfoldable pub build_index :
      List StackItem → List HintOp → ℕ → Option (IndexBits × List StackItem)
  unfolding run_hints result_of make_bits
  build_index stack index max_lin_id =
      if stop_bit == 0
      then some (make_bits max_lin_id true, stack)
      else elim (run_hints index (record { stack = stack; column_name = ""; count = 0 })) [
        | none ↦ none
        | some m ↦ some (result_of max_lin_id m, m.stack)
      ]

  -- `mount`: an index for each list of operations, with the flag of the query.
  unfoldable pub mount_indexes :
      List StackItem
      → List (String × List HintOp)
      → ℕ
      → Bool
      → Option (List (String × IndexBits × Bool))
  unfolding build_index
  mount_indexes stack [] max_lin_id countable = some []
  mount_indexes stack ((name, index) ∷ more) max_lin_id countable =
      elim (build_index stack index max_lin_id) [
        | none ↦ none
        | some (bits, stack') ↦ elim (mount_indexes stack' more max_lin_id countable) [
          | none ↦ none
          | some rest ↦ some ((name, bits, countable) ∷ rest)
        ]
      ]

unfoldable pub get_index : String → List (String × IndexBits × Bool) → Option (IndexBits × Bool)
get_index name [] = none
get_index name ((n, bits, countable) ∷ rest) =
    if str_eq n name then some (bits, countable) else get_index name rest
