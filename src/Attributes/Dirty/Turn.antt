-- ===== src/Attributes/Dirty/Turn.antt =====
-- One round of `clearDirty` of src/attributes.cpp: the changes of one key are applied to its record,
-- which is packed anew or, with no customer left, dropped.
use openset.Attributes.Holds.{changed, bit_state-apply_changes, attr_of, holds, IsSound}
use openset.Attributes.Memory.{
  AttrKey, key_eq, Change, lookup, is_found, lookup-erase, lookup-assign, lookup_congr, write,
  found-erase, found-assign, erase, assign,
}
use openset.Attributes.{Attr, Attributes, apply_changes, get_bits, packed, clear_attr}
use openset.IndexBits.Restore.Counts.{none_counted}
use openset.IndexBits.Restore.{bit_state-mount-store, all_bits_lem}
use openset.IndexBits.Storage.{Lz4, all_bits}
use openset.IndexBits.{IndexBits, ints, bit_state, population}
use openset.Prelude.{
  ℕ, ◌+◌, ◌*◌, ◌≡◌, ◌<◌, sym, ap, ◌∙◌, true, false, List, none, some, ◌==◌, if◌then◌else◌, arith,
  inl, inr, Bool-cases, Option-cases,
}

module _ (lz4 : Lz4) where
  -- What one round leaves at its own key.
  pub record Round (a b : Attributes lz4) (key : AttrKey) (cs : List Change) : Type 0 where
    pub sound : IsSound lz4 b
    pub at_key : (lin : ℕ) → holds lz4 b key lin ≡ changed cs lin (holds lz4 a key lin)
    pub other : (j : AttrKey) → key_eq key j ≡ false → attr_of lz4 b j ≡ attr_of lz4 a j
    pub kept :
        (j : AttrKey) → key_eq key j ≡ false → lookup j b.property_index ≡ lookup j a.property_index

  packed_bits :
      (attr : Attr lz4) (bits : IndexBits) (lin : ℕ)
      → ints bits < 33554432
      → population bits (ints bits * 64) == 0 ≡ false
      → bit_state (get_bits lz4 (packed lz4 attr (λ b s. ints b) bits)) lin ≡ bit_state bits lin
  unfolding packed get_bits
  packed_bits attr bits lin few more = bit_state-mount-store lz4 bits lin few more

  abbrev emptied : Attributes lz4 → AttrKey → ℕ → Attributes lz4
  emptied a key p = record a {
    property_index = erase key a.property_index;
    memory = write a.memory p none;
  }

  abbrev repacked : Attributes lz4 → AttrKey → ℕ → Attr lz4 → Attributes lz4
  repacked a key p attr = record a {
    property_index = assign key a.next_address a.property_index;
    memory = write (write a.memory a.next_address (some attr)) p none;
    next_address = a.next_address + 1;
  }

  addresses_differ :
      (a : Attributes lz4) (key j : AttrKey) (p q : ℕ)
      → IsSound lz4 a
      → lookup key a.property_index ≡ some p
      → lookup j a.property_index ≡ some q
      → key_eq key j ≡ false
      → p == q ≡ false
  addresses_differ a key j p q s at_p at_q differs = elim (Bool-cases (p == q)) [
    | inl same ↦
        let equal : q ≡ p = ground arith in
        let met : key_eq key j ≡ true = s.apart key j p at_p (at_q ∙ ap some equal) in
        absurd (ground arith)
    | inr apart ↦ apart
  ]

  emptied_follow :
      (a : Attributes lz4) (key j : AttrKey) (p : ℕ)
      → IsSound lz4 a
      → lookup key a.property_index ≡ some p
      → key_eq key j ≡ false
      → attr_of lz4 (emptied a key p) j ≡ attr_of lz4 a j
  unfolding write
  emptied_follow a key j p s at_p differs = elim (Option-cases (lookup j a.property_index)) [
    | inl gone ↦ rw (lookup-erase key j a.property_index, differs, gone)
    | inr (q, found) ↦
        let apart : p == q ≡ false = addresses_differ a key j p q s at_p found differs in
        rw (lookup-erase key j a.property_index, differs, found, apart)
  ]

  repacked_follow :
      (a : Attributes lz4) (key j : AttrKey) (p : ℕ) (attr : Attr lz4)
      → IsSound lz4 a
      → lookup key a.property_index ≡ some p
      → attr_of lz4 (repacked a key p attr) j
        ≡ (if key_eq key j then some attr else attr_of lz4 a j)
  unfolding write
  repacked_follow a key j p attr s at_p = elim (Option-cases (lookup j a.property_index)) [
    | inl gone ↦ elim (Bool-cases (key_eq key j)) [
      | inl same ↦ absurd (ground (arith, lookup_congr key j a.property_index same))
      | inr differs ↦ rw (lookup-assign key j a.next_address a.property_index, differs, gone)
    ]
    | inr (q, found) ↦
        let old : q < a.next_address = (s.live j q found).0 in
        let old_p : p < a.next_address = (s.live key p at_p).0 in
        elim (Bool-cases (key_eq key j)) [
          | inl same ↦
              let freed : p == a.next_address ≡ false = ground arith in
              let here : a.next_address == a.next_address ≡ true = ground arith in
              rw (lookup-assign key j a.next_address a.property_index, same, at_p, freed, here)
          | inr differs ↦
              let apart = addresses_differ a key j p q s at_p found differs in
              let fresh : a.next_address == q ≡ false = ground arith in
              rw (lookup-assign key j a.next_address a.property_index, differs, found, apart, fresh)
        ]
  ]

  emptied-IsSound :
      (a : Attributes lz4) (key : AttrKey) (p : ℕ)
      → IsSound lz4 a
      → lookup key a.property_index ≡ some p
      → IsSound lz4 (emptied a key p)
  unfolding write
  emptied-IsSound a key p s at_p = record {
    live = λ k q found.
        let (differs, at_q) = found-erase key k a.property_index q found in
        let (below, attr, stored) = s.live k q at_q in
        (below, attr, rw (addresses_differ a key k p q s at_p at_q differs, stored));
    apart = λ j k q at_j at_k.
        s.apart j k q (found-erase key j a.property_index q at_j).1
          (found-erase key k a.property_index q at_k).1;
  }

  repacked-IsSound :
      (a : Attributes lz4) (key : AttrKey) (p : ℕ) (attr : Attr lz4)
      → IsSound lz4 a
      → lookup key a.property_index ≡ some p
      → IsSound lz4 (repacked a key p attr)
  unfolding write
  repacked-IsSound a key p attr s at_p = record {
    live = λ k q found. elim (found-assign key k a.next_address a.property_index q known found) [
      | inl (same, new) ↦
          let old_p : p < a.next_address = (s.live key p at_p).0 in
          let moved : p == q ≡ false = ground arith in
          let here : a.next_address == q ≡ true = ground arith in
          (omega arith, attr, rw (moved, here))
      | inr (differs, at_q) ↦
          let (below, old, stored) = s.live k q at_q in
          let apart = addresses_differ a key k p q s at_p at_q differs in
          let fresh : a.next_address == q ≡ false = ground arith in
          (omega arith, old, rw (apart, fresh, stored))
    ];
    apart = λ j k q at_j at_k.
        elim (found-assign key j a.next_address a.property_index q known at_j) [
          | inl (same, new) ↦
              elim (found-assign key k a.next_address a.property_index q known at_k) [
                | inl (same_k, new_k) ↦ ground arith
                | inr (differs, at_q) ↦ absurd (omega (arith, (s.live k q at_q).0))
              ]
          | inr (differs, at_q) ↦
              elim (found-assign key k a.next_address a.property_index q known at_k) [
                | inl (same, new) ↦ absurd (omega (arith, (s.live j q at_q).0))
                | inr (differs_k, at_q_k) ↦ s.apart j k q at_q at_q_k
              ]
        ];
  }
    where
      known : is_found (lookup key a.property_index) ≡ true
      known = rw at_p

  pub clear_attr-Round :
      (a : Attributes lz4) (key : AttrKey) (cs : List Change) (p : ℕ) (attr : Attr lz4)
      → IsSound lz4 a
      → lookup key a.property_index ≡ some p
      → a.memory p ≡ some attr
      → ints (apply_changes (get_bits lz4 attr) cs) < 33554432
      → Round a (clear_attr lz4 a key p attr cs) key cs
  unfolding clear_attr
  clear_attr-Round a key cs p attr s at_p attr_p few =
      let bits = apply_changes (get_bits lz4 attr) cs in
      let after : (lin : ℕ) → bit_state bits lin ≡ changed cs lin (holds lz4 a key lin) =
        λ lin. rw (at_p, attr_p) (bit_state-apply_changes (get_bits lz4 attr) cs lin) in
      let same : key_eq key key ≡ true = ground arith in
      let whole : all_bits bits ≡ ints bits * 64 = all_bits_lem bits few in
      elim (Bool-cases (population bits (ints bits * 64) == 0)) [
        | inl empty ↦
            rw (whole, empty)
              (record {
                sound = emptied-IsSound a key p s at_p;
                at_key = λ lin.
                    rw (lookup-erase key key a.property_index, same)
                      (sym (none_counted bits lin (ground arith)) ∙ after lin);
                other = λ j differs. emptied_follow a key j p s at_p differs;
                kept = λ j differs. rw (lookup-erase key j a.property_index, differs);
              })
        | inr more ↦
            let new : Attr lz4 = packed lz4 attr (λ b s. ints b) bits in
            rw (whole, more)
              (record {
                sound = repacked-IsSound a key p new s at_p;
                at_key = λ lin.
                    rw (repacked_follow a key key p new s at_p, same)
                      (packed_bits attr bits lin few more ∙ after lin);
                other = λ j differs. rw (repacked_follow a key j p new s at_p, differs);
                kept =
                    λ j differs. rw (lookup-assign key j a.next_address a.property_index, differs);
              })
      ]
