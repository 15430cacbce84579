-- ===== src/Attributes/Swap.antt =====
-- `swap` of src/attributes.cpp, which `SegmentPartitioned_s::commit` of src/tablepartitioned.cpp
-- calls: what the index leads to after it.
use openset.Attributes.Memory.{AttrKey, key_eq, lookup, insert, lookup-insert, lookup_congr, write}
use openset.Attributes.{Attr, Attributes, get, packed, count_compressed, swap}
use openset.IndexBits.Storage.{Lz4, store}
use openset.IndexBits.{IndexBits}
use mathlib.Core.Path.{subst}
use openset.Prelude.{
  ℕ, List, ◌+◌, ◌≡◌, sym, ◌∙◌, true, none, some, ◌==◌, arith, inl, inr, Bool-cases,
}

module _ (lz4 : Lz4) where
  lookup-insert_there :
      {A : Type 0} (k j : AttrKey) (v w : A) (m : List (AttrKey × A))
      → lookup k m ≡ some w
      → lookup j (insert k v m) ≡ lookup j m
  lookup-insert_there k j v w m there = elim (Bool-cases (key_eq k j)) [
    | inl same ↦ rw (lookup-insert k j v m, same, there) (sym there ∙ lookup_congr k j m same)
    | inr differs ↦ rw (lookup-insert k j v m, differs)
  ]

  abbrev swapped : Attributes lz4 → AttrKey → ℕ → Attr lz4 → Attributes lz4
  swapped a key p attr = record a {
    property_index = insert key a.next_address a.property_index;
    memory = write (write a.memory a.next_address (some attr)) p none;
    next_address = a.next_address + 1;
  }

  -- `swap` on a key of the index does not bring the new bits in: the key still has the pointer that
  -- it had, every other key too, and the record that the pointer of the key leads to is given back. The
  -- key led to a record.
  pub swap_lem :
      (a : Attributes lz4) (key : AttrKey) (new_bits : IndexBits) (p : ℕ) (attr : Attr lz4)
      → get lz4 a key ≡ some p
      → a.memory p ≡ some attr
      → ((j : AttrKey) → get lz4 (swap lz4 a key new_bits).0 j ≡ get lz4 a j)
        × ((swap lz4 a key new_bits).0.memory p ≡ none)
  unfolding swap get write
  swap_lem a key new_bits p attr at_p attr_p =
      let new = packed lz4 attr (count_compressed lz4) new_bits in
      let turn : swap lz4 a key new_bits ≡ (swapped a key p new, (store lz4 new_bits).0) =
        rw (swap, at_p, attr_p) in
      let here : p == p ≡ true = ground arith in
      subst (λ r. ((j : AttrKey) → get lz4 r.0 j ≡ get lz4 a j) × (r.0.memory p ≡ none)) (sym turn)
        ((λ j. lookup-insert_there key j a.next_address p a.property_index at_p), rw here)
