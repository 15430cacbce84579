-- ===== src/Examples/Attributes.antt =====
-- The theorems about the index on attributes and about segments, at an index of two values.
use openset.Attributes.Dirty.{settled, has_key, AreDistinct, AreFew, clear_dirty_lem}
use openset.Attributes.Holds.{holds, IsSound}
use openset.Attributes.Memory.{AttrKey, key_eq, lookup, Change}
use openset.Attributes.Swap.{swap_lem}
use openset.Attributes.Wait.{clear_dirty-set_dirty}
use openset.Attributes.{
  Attr, Attributes, get, set_dirty, clear_dirty, swap, apply_changes, get_bits, add_change,
}
use openset.Examples.Index.{copying, two_ids}
use openset.IndexBits.{IndexBits, bit_state, bit_set, bit_clear, last_bit, grow, memcpy}
use openset.IndexBits.Storage.{mount}
use openset.Segment.{Segment, set_bit, set_bit_all, set_bit_all_kept}
use openset.Prelude.{
  ℕ, ◌≡◌, refl, true, false, List, [], ◌∷◌, none, some, ◌==◌, if◌then◌else◌, arith, inl, inr,
  Bool-cases,
}

-- The customers 1, 3 and 64, and the customer 5 alone.
abbrev pub many_customers : Attr copying
many_customers = record {
  text = none;
  attr_ints = 2;
  ofs = 0;
  len = 2;
  comp = 3;
  lin_id = none;
  index = some (10 ∷ 1 ∷ []);
}

abbrev pub one_customer : Attr copying
one_customer = record {
  text = none;
  attr_ints = 1;
  ofs = 0;
  len = 0;
  comp = 0;
  lin_id = some 5;
  index = none;
}

abbrev two_values : Attributes copying
two_values = record {
  property_index = ((7, 40), 0) ∷ ((7, 41), 1) ∷ [];
  change_index = ((7, 41), record { lin_id = 5; state = false } ∷ []) ∷ [];
  memory = λ p. if p == 0 then some many_customers else if p == 1 then some one_customer else none;
  next_address = 2;
  blob = [];
}

two_values-IsSound : IsSound copying two_values
unfolding lookup
two_values-IsSound = record {
  live = λ k p found. elim (Bool-cases (key_eq (7, 40) k)) [
    | inl here ↦ let at : p ≡ 0 = ground arith in rw at (omega arith, many_customers, refl)
    | inr away ↦ let at : p ≡ 1 = ground arith in rw at (omega arith, one_customer, refl)
  ];
  apart = λ j k p at_j at_k. ground arith;
}

one_waits : AreDistinct copying two_values.change_index
unfolding lookup
one_waits = (refl, tt)

abbrev both_wait : List (AttrKey × List Change)
both_wait = ((7, 40), record { lin_id = 3; state = false } ∷ []) ∷ two_values.change_index

two_values-AreFew : AreFew copying two_values both_wait
unfolding lookup apply_changes get_bits mount memcpy bit_set bit_clear last_bit grow
two_values-AreFew j cs attr waits at = elim (Bool-cases (key_eq (7, 40) j)) [
  | inl here ↦
      let whose : many_customers ≡ attr = ground arith in
      let which : record { lin_id = 3; state = false } ∷ [] ≡ cs = ground arith in
      rw (← whose, ← which) (omega arith)
  | inr away ↦
      let whose : one_customer ≡ attr = ground arith in
      let which : record { lin_id = 5; state = false } ∷ [] ≡ cs = ground arith in
      rw (← whose, ← which) (omega arith)
]

one-AreFew : AreFew copying two_values two_values.change_index
unfolding lookup
one-AreFew j cs attr waits at = elim (Bool-cases (key_eq (7, 40) j)) [
  | inl here ↦ absurd (ground arith)
  | inr away ↦ two_values-AreFew j cs attr (rw away waits) at
]

-- The one customer of the value 41 goes.
clear_dirty_lem_example :
    IsSound copying (clear_dirty copying two_values)
    × ((clear_dirty copying two_values).change_index ≡ [])
    × ((j : AttrKey) (lin : ℕ)
        → holds copying (clear_dirty copying two_values) j lin
          ≡ settled copying
              (lookup j two_values.change_index)
              (has_key copying two_values j)
              lin
              (holds copying two_values j lin))
clear_dirty_lem_example = clear_dirty_lem copying two_values two_values-IsSound one_waits one-AreFew

clear_dirty-set_dirty_example :
    holds copying (clear_dirty copying (set_dirty copying two_values 3 (7, 40) false)) (7, 40) 3
    ≡ false
unfolding lookup set_dirty add_change
clear_dirty-set_dirty_example =
    clear_dirty-set_dirty copying two_values (7, 40) 3 false (7, 40) 3 two_values-IsSound one_waits
      one-AreFew two_values-AreFew

swap_lem_example :
    ((j : AttrKey)
      → get copying (swap copying two_values (7, 40) two_ids).0 j ≡ get copying two_values j)
    × ((swap copying two_values (7, 40) two_ids).0.memory 0 ≡ none)
unfolding get lookup
swap_lem_example = swap_lem copying two_values (7, 40) two_ids 0 many_customers refl refl

abbrev prepared : Segment
prepared = record { segment_name = 97 ∷ []; bits = some two_ids; change_count = 0 }

nothing_changes : (set_bit_all prepared ((3, true) ∷ (4, false) ∷ [])).change_count ≡ 0
unfolding set_bit_all set_bit bit_state
nothing_changes = refl

set_bit_all_kept_example :
    (b : IndexBits) × ((set_bit_all prepared ((3, true) ∷ (4, false) ∷ [])).bits ≡ some b)
    × ((lin : ℕ) → bit_state b lin ≡ bit_state two_ids lin)
set_bit_all_kept_example =
    set_bit_all_kept prepared two_ids ((3, true) ∷ (4, false) ∷ []) refl nothing_changes
