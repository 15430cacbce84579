-- ===== src/Attributes/Make.antt =====
-- `getMake` of src/attributes.cpp, by value and by text.
use openset.Attributes.Holds.{holds, IsSound}
use openset.Attributes.Memory.{AttrKey, key_eq, lookup, insert, lookup-insert, lookup_congr, write}
use openset.Attributes.{
  Attr, Attributes, Text, Blob, new_attr, get_bits, get, get_make, get_make_text, allocate,
  store_value,
}
use openset.IndexBits.Restore.{empty_word}
use openset.IndexBits.Storage.{Lz4, mount}
use openset.IndexBits.{bit_state}
use mathlib.Core.Path.{subst}
use openset.Prelude.{
  ℕ, ◌+◌, ◌≡◌, ◌<◌, refl, sym, true, false, none, some, ◌==◌, arith, inl, inr, Bool-cases,
  Option-cases, ◌⊎◌,
}

module _ (lz4 : Lz4) where
  -- The index with a record under a key that it lacks.
  abbrev added : Attributes lz4 → AttrKey → Attr lz4 → Blob → Attributes lz4
  added a key attr blob = record a {
    property_index = insert key a.next_address a.property_index;
    memory = write a.memory a.next_address (some attr);
    next_address = a.next_address + 1;
    blob = blob;
  }

  -- What making a value leaves: the value leads to `p`, and every value holds the customers that it held.
  pub record Made (a b : Attributes lz4) (key : AttrKey) (p : ℕ) : Type 0 where
    sound : IsSound lz4 b
    found : get lz4 b key ≡ some p
    same : (j : AttrKey) (lin : ℕ) → holds lz4 b j lin ≡ holds lz4 a j lin
    waiting : b.change_index ≡ a.change_index

  found-insert :
      (a : Attributes lz4) (key j : AttrKey) (q : ℕ)
      → lookup key a.property_index ≡ none
      → lookup j (insert key a.next_address a.property_index) ≡ some q
      → ((key_eq key j ≡ true) × (a.next_address ≡ q))
        ⊎ ((key_eq key j ≡ false) × (lookup j a.property_index ≡ some q))
  found-insert a key j q new there = elim (Bool-cases (key_eq key j)) [
    | inl met ↦ inl (met, ground (arith, lookup-insert key j a.next_address a.property_index))
    | inr differs ↦
        inr (differs, ground (arith, lookup-insert key j a.next_address a.property_index))
  ]

  added-IsSound :
      (a : Attributes lz4) (key : AttrKey) (attr : Attr lz4) (blob : Blob)
      → IsSound lz4 a
      → lookup key a.property_index ≡ none
      → IsSound lz4 (added a key attr blob)
  unfolding write
  added-IsSound a key attr blob s new = record {
    live = λ k q there. elim (found-insert a key k q new there) [
      | inl (met, fresh) ↦
          let here : a.next_address == q ≡ true = ground arith in (omega arith, attr, rw here)
      | inr (differs, at_q) ↦
          let (below, old, stored) = s.live k q at_q in
          let fresh : a.next_address == q ≡ false = ground arith in
          (omega arith, old, rw (fresh, stored))
    ];
    apart = λ j k q at_j at_k. elim (found-insert a key j q new at_j) [
      | inl (met, fresh) ↦ elim (found-insert a key k q new at_k) [
        | inl (met_k, fresh_k) ↦ ground arith
        | inr (differs, at_q) ↦ absurd (omega (arith, (s.live k q at_q).0))
      ]
      | inr (differs, at_q) ↦ elim (found-insert a key k q new at_k) [
        | inl (met, fresh) ↦ absurd (omega (arith, (s.live j q at_q).0))
        | inr (differs_k, at_q_k) ↦ s.apart j k q at_q at_q_k
      ]
    ];
  }

  added-Made :
      (a : Attributes lz4) (key : AttrKey) (attr : Attr lz4) (blob : Blob)
      → IsSound lz4 a
      → lookup key a.property_index ≡ none
      → ((lin : ℕ) → bit_state (get_bits lz4 attr) lin ≡ false)
      → Made a (added a key attr blob) key a.next_address
  unfolding get write
  added-Made a key attr blob s new empty =
      let index = a.property_index in
      let same_key : key_eq key key ≡ true = ground arith in
      let here : a.next_address == a.next_address ≡ true = ground arith in
      record {
        sound = added-IsSound a key attr blob s new;
        found = rw (lookup-insert key key a.next_address index, same_key, new);
        same = λ j lin. elim (Bool-cases (key_eq key j)) [
          | inl met ↦
              rw
                (
                  lookup-insert key j a.next_address index,
                  met,
                  new,
                  here,
                  sym (lookup_congr key j index met),
                  new,
                )
                (empty lin)
          | inr differs ↦ elim (Option-cases (lookup j index)) [
            | inl gone ↦ rw (lookup-insert key j a.next_address index, differs, gone)
            | inr (q, at_q) ↦
                let below : q < a.next_address = (s.live j q at_q).0 in
                let fresh : a.next_address == q ≡ false = ground arith in
                rw (lookup-insert key j a.next_address index, differs, at_q, fresh)
          ]
        ];
        waiting = refl;
      }

  there_already :
      (a : Attributes lz4) (key : AttrKey) (p : ℕ)
      → IsSound lz4 a
      → lookup key a.property_index ≡ some p
      → Made a a key p
  unfolding get
  there_already a key p s at_p = record {
    sound = s;
    found = at_p;
    same = λ j lin. refl;
    waiting = refl;
  }

  -- `getMake` leads to the record of the value, which it makes where there is none, and no value gains
  -- or loses a customer by it: a new record holds none. What waits is untouched, and pointers lead
  -- to records of their own as they did before the call.
  pub get_make-Made :
      (a : Attributes lz4) (key : AttrKey)
      → IsSound lz4 a
      → Made a (get_make lz4 a key).0 key (get_make lz4 a key).1
  unfolding get_make allocate get_bits mount
  get_make-Made a key s = elim (Option-cases (lookup key a.property_index)) [
    | inl new ↦
        let made : get_make lz4 a key ≡ (added a key (new_attr lz4) a.blob, a.next_address) =
          rw (get_make, new) in
        subst (λ r. Made a r.0 key r.1) (sym made)
          (added-Made a key (new_attr lz4) a.blob s new empty_word)
    | inr (p, at_p) ↦
        let made : get_make lz4 a key ≡ (a, p) = rw (get_make, at_p) in
        subst (λ r. Made a r.0 key r.1) (sym made) (there_already a key p s at_p)
  ]

  -- `getMake` with a text does the same for the hash of the text, for any hash function.
  pub get_make_text-Made :
      (make_hash : Text → ℕ) (a : Attributes lz4) (prop : ℕ) (value : Text)
      → IsSound lz4 a
      → Made a
          (get_make_text lz4 make_hash a prop value).0
          (prop, make_hash value)
          (get_make_text lz4 make_hash a prop value).1
  unfolding get_make_text allocate get_bits mount
  get_make_text-Made make_hash a prop value s =
      elim (Option-cases (lookup (prop, make_hash value) a.property_index)) [
        | inl new ↦
            let r = store_value make_hash a.blob prop value in
            let attr : Attr lz4 = record (new_attr lz4) { text = some r.1 } in
            let made : get_make_text lz4 make_hash a prop value
                ≡ (added a (prop, make_hash value) attr r.0, a.next_address) =
              rw (get_make_text, new) in
            subst (λ t. Made a t.0 (prop, make_hash value) t.1) (sym made)
              (added-Made a (prop, make_hash value) attr r.0 s new empty_word)
        | inr (p, at_p) ↦
            let made : get_make_text lz4 make_hash a prop value ≡ (a, p) =
              rw (get_make_text, at_p) in
            subst (λ t. Made a t.0 (prop, make_hash value) t.1) (sym made)
              (there_already a (prop, make_hash value) p s at_p)
      ]
