-- ===== src/Attributes/Dirty.antt =====
-- `clearDirty` of src/attributes.cpp: the changes that wait are in the index after it.
mod Turn
use openset.Attributes.Dirty.Turn.{Round, clear_attr-Round}
use openset.Attributes.Holds.{
  changed, bit_state-apply_changes, follow, attr_of, bit_in, holds, IsSound,
}
use openset.Attributes.Memory.{
  AttrKey, key_eq, Change, lookup, is_found, lookup-erase, lookup-assign, lookup_congr, write,
  found-erase, found-assign, erase, assign,
}
use openset.Attributes.{
  Attr, Attributes, apply_changes, get_bits, packed, clear_attr, clear_change, clear_changes,
  clear_dirty,
}
use openset.IndexBits.Restore.Counts.{none_counted}
use openset.IndexBits.Restore.{bit_state-mount-store}
use openset.IndexBits.Storage.{Lz4, Stored, store, mount}
use openset.IndexBits.{IndexBits, ints, bit_state, population}
use mathlib.Core.Path.{subst}
use openset.Prelude.{
  ℕ, ◌+◌, ◌*◌, ◌≡◌, ◌<◌, refl, sym, ap, ◌∙◌, Bool, true, false, ◌&&◌, List, [], ◌∷◌, Option, none,
  some, ◌==◌, if◌then◌else◌, arith, inl, inr, Bool-cases, Option-cases,
}

module _ (lz4 : Lz4) where
  -- The state that the changes of a key leave, which are skipped where the index lacks the key.
  abbrev pub settled : Option (List Change) → Bool → ℕ → Bool → Bool
  settled none found lin state = state
  settled (some cs) found lin state = if found then changed cs lin state else state

  abbrev pub has_key : Attributes lz4 → AttrKey → Bool
  has_key a key = is_found (lookup key a.property_index)

  -- No key stands twice, as in the hash map.
  abbrev pub AreDistinct : List (AttrKey × List Change) → Type 0
  AreDistinct [] = Unit
  AreDistinct ((key, cs) ∷ rest) = (lookup key rest ≡ none) × AreDistinct rest

  -- With the changes that wait for it, the index of a value stays below 2 ^ 25 words.
  abbrev pub AreFew : Attributes lz4 → List (AttrKey × List Change) → Type 0
  AreFew a waiting =
      (j : AttrKey) (cs : List Change) (attr : Attr lz4)
      → lookup j waiting ≡ some cs
      → attr_of lz4 a j ≡ some attr
      → ints (apply_changes (get_bits lz4 attr) cs) < 33554432

  round_lem :
      (a b : Attributes lz4) (key j : AttrKey) (cs : List Change) (lin : ℕ)
      → Round lz4 a b key cs
      → key_eq key j ≡ true
      → holds lz4 b j lin ≡ changed cs lin (holds lz4 a j lin)
  round_lem a b key j cs lin r same =
      rw
        (
          sym (lookup_congr key j b.property_index same),
          sym (lookup_congr key j a.property_index same),
        )
        (r.at_key lin)

  -- What a round does for every key.
  record Settled (a b : Attributes lz4) (key : AttrKey) (cs : List Change) : Type 0 where
    sound : IsSound lz4 b
    at_key :
        (j : AttrKey) (lin : ℕ)
        → key_eq key j ≡ true
        → holds lz4 b j lin ≡ settled (some cs) (has_key a j) lin (holds lz4 a j lin)
    other :
        (j : AttrKey)
        → key_eq key j ≡ false
        → (attr_of lz4 b j ≡ attr_of lz4 a j) × (has_key b j ≡ has_key a j)

  skipped :
      (a : Attributes lz4) (key : AttrKey) (cs : List Change)
      → IsSound lz4 a
      → lookup key a.property_index ≡ none
      → Settled a a key cs
  skipped a key cs s gone = record {
    sound = s;
    at_key = λ j lin same. rw (sym (lookup_congr key j a.property_index same), gone);
    other = λ j differs. (refl, refl);
  }

  applied :
      (a b : Attributes lz4) (key : AttrKey) (cs : List Change) (p : ℕ)
      → lookup key a.property_index ≡ some p
      → Round lz4 a b key cs
      → Settled a b key cs
  applied a b key cs p at_p r = record {
    sound = r.sound;
    at_key = λ j lin same.
        let found : has_key a j ≡ true =
          ap is_found (sym (lookup_congr key j a.property_index same) ∙ at_p) in
        round_lem a b key j cs lin r same
        ∙ sym (ap (λ f. settled (some cs) f lin (holds lz4 a j lin)) found);
    other = λ j differs. (r.other j differs, ap is_found (r.kept j differs));
  }

  clear_change-Settled :
      (a : Attributes lz4) (key : AttrKey) (cs : List Change)
      → IsSound lz4 a
      → ((attr : Attr lz4)
          → attr_of lz4 a key ≡ some attr
          → ints (apply_changes (get_bits lz4 attr) cs) < 33554432)
      → Settled a (clear_change lz4 a key cs) key cs
  unfolding clear_change
  clear_change-Settled a key cs s few = elim (Option-cases (lookup key a.property_index)) [
    | inl gone ↦
        let same : clear_change lz4 a key cs ≡ a = rw (clear_change, gone) in
        subst (λ b. Settled a b key cs) (sym same) (skipped a key cs s gone)
    | inr (p, at_p) ↦
        let (below, attr, attr_p) = s.live key p at_p in
        let turn : clear_change lz4 a key cs ≡ clear_attr lz4 a key p attr cs =
          rw (clear_change, at_p, attr_p) in
        subst (λ b. Settled a b key cs) (sym turn)
          (applied a (clear_attr lz4 a key p attr cs) key cs p at_p
            (clear_attr-Round lz4 a key cs p attr s at_p attr_p (few attr (rw (at_p, attr_p)))))
  ]

  clear_changes-settled :
      (a : Attributes lz4) (waiting : List (AttrKey × List Change))
      → IsSound lz4 a
      → AreDistinct waiting
      → AreFew a waiting
      → IsSound lz4 (clear_changes lz4 a waiting)
        × ((j : AttrKey) (lin : ℕ)
            → holds lz4 (clear_changes lz4 a waiting) j lin
              ≡ settled (lookup j waiting) (has_key a j) lin (holds lz4 a j lin))
  unfolding clear_changes lookup
  clear_changes-settled a [] s d few = (s, λ j lin. refl)
  clear_changes-settled a ((key, cs) ∷ rest) s (new, d) few =
      let here : key_eq key key ≡ true = ground arith in
      let r = clear_change-Settled a key cs s (λ attr at. few key cs attr (rw here) at) in
      let few' : AreFew (clear_change lz4 a key cs) rest = λ j ds attr waits at.
        elim (Bool-cases (key_eq key j)) [
          | inl same ↦ absurd (ground (arith, lookup_congr key j rest same, new, waits))
          | inr differs ↦ few j ds attr (rw differs waits) (sym (r.other j differs).0 ∙ at)
        ] in
      let (sound', after) = clear_changes-settled (clear_change lz4 a key cs) rest r.sound d few' in
      (
        sound',
        λ j lin. after j lin ∙ elim (Bool-cases (key_eq key j)) [
          | inl same ↦ rw (same, sym (lookup_congr key j rest same), new) (r.at_key j lin same)
          | inr differs ↦ rw (differs, (r.other j differs).0, (r.other j differs).1)
        ],
      )

  -- After `clearDirty` a key holds a customer as the changes that waited for the key, in their order,
  -- leave it: the last that names the customer decides, and a customer that none names is held as
  -- before. A key that the index lacked holds none, whatever waited. The pointers of the index still
  -- lead to records of their own, and nothing waits. The index had pointers to records of its own,
  -- its waiting keys were distinct, and no value's index has 2 ^ 25 words or more with its changes.
  pub clear_dirty_lem :
      (a : Attributes lz4)
      → IsSound lz4 a
      → AreDistinct a.change_index
      → AreFew a a.change_index
      → IsSound lz4 (clear_dirty lz4 a)
        × ((clear_dirty lz4 a).change_index ≡ [])
        × ((j : AttrKey) (lin : ℕ)
            → holds lz4 (clear_dirty lz4 a) j lin
              ≡ settled (lookup j a.change_index) (has_key a j) lin (holds lz4 a j lin))
  unfolding clear_dirty
  clear_dirty_lem a s d few =
      let (sound, after) = clear_changes-settled a a.change_index s d few in
      (record { live = sound.live; apart = sound.apart }, refl, after)
