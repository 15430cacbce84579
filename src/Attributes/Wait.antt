-- ===== src/Attributes/Wait.antt =====
-- `setDirty` and `addChange` of src/attributes.cpp, with the `clearDirty` that follows.
use openset.Attributes.Dirty.{settled, has_key, AreDistinct, AreFew, clear_dirty_lem}
use openset.Attributes.Holds.{changed, holds, IsSound}
use openset.Attributes.Memory.{AttrKey, key_eq, Change, lookup, assign, lookup-assign, lookup_congr}
use openset.Attributes.{Attributes, add_change, set_dirty, clear_dirty}
use openset.IndexBits.Storage.{Lz4}
use mathlib.Core.Path.{subst}
use openset.Prelude.{
  ℕ, ◌≡◌, refl, sym, ap, ◌∙◌, Bool, true, false, ◌&&◌, List, [], ◌∷◌, ◌++◌, Option, none, some,
  ◌==◌, if◌then◌else◌, arith, inl, inr, Bool-cases, Option-cases,
}

changed-append :
    (cs : List Change) (c : Change) (lin : ℕ) (state : Bool)
    → changed (cs ++ c ∷ []) lin state ≡ (if c.lin_id == lin then c.state else changed cs lin state)
changed-append [] c lin state = refl
changed-append (d ∷ cs) c lin state =
    changed-append cs c lin (if d.lin_id == lin then d.state else state)

module _ (lz4 : Lz4) where
  waiting : Option (List Change) → List Change
  waiting none = []
  waiting (some cs) = cs

  abbrev waits : ℕ → Bool → Change
  waits l on = record { lin_id = l; state = on }

  -- The waiting changes, as they are with one more.
  abbrev with_change :
      List (AttrKey × List Change) → AttrKey → Change → List (AttrKey × List Change)
  with_change m key c = elim (lookup key m) [
    | some cs ↦ assign key (cs ++ c ∷ []) m
    | none ↦ (key, c ∷ []) ∷ m
  ]

  abbrev noted : Attributes lz4 → AttrKey → Change → Attributes lz4
  noted a key c = record a { change_index = with_change a.change_index key c }

  set_dirty-noted :
      (a : Attributes lz4) (key : AttrKey) (l : ℕ) (on : Bool)
      → set_dirty lz4 a l key on ≡ noted a key (waits l on)
  unfolding set_dirty
  set_dirty-noted a key l on = elim (Option-cases (lookup key a.change_index)) [
    | inl new ↦ rw (set_dirty, add_change, with_change, new)
    | inr (cs, old) ↦ rw (set_dirty, add_change, with_change, old)
  ]

  lookup-with_change :
      (m : List (AttrKey × List Change)) (key j : AttrKey) (c : Change)
      → lookup j (with_change m key c)
        ≡ (if key_eq key j then some (waiting (lookup j m) ++ c ∷ []) else lookup j m)
  unfolding lookup waiting
  lookup-with_change m key j c = elim (Bool-cases (key_eq key j)) [
    | inl same ↦
        let met = lookup_congr key j m same in
        elim (Option-cases (lookup key m)) [
          | inl new ↦ rw (with_change, new, same, sym met, new)
          | inr (cs, old) ↦
              rw (with_change, old, lookup-assign key j (cs ++ c ∷ []) m, same, old, sym met, old)
        ]
    | inr differs ↦ elim (Option-cases (lookup key m)) [
      | inl new ↦ rw (with_change, new, differs)
      | inr (cs, old) ↦ rw (with_change, old, lookup-assign key j (cs ++ c ∷ []) m, differs)
    ]
  ]

  assign-AreDistinct :
      (m : List (AttrKey × List Change)) (key : AttrKey) (cs : List Change)
      → AreDistinct lz4 m
      → AreDistinct lz4 (assign key cs m)
  unfolding assign
  assign-AreDistinct [] key cs d = d
  assign-AreDistinct ((j, old) ∷ m) key cs (new, d) = elim (Bool-cases (key_eq j key)) [
    | inl same ↦ rw same (new, d)
    | inr differs ↦ rw differs (still_new, assign-AreDistinct m key cs d)
  ]
    where
      still_new : lookup j (assign key cs m) ≡ none
      still_new = ground (arith, lookup-assign key j cs m, lookup_congr key j m)

  with_change-AreDistinct :
      (m : List (AttrKey × List Change)) (key : AttrKey) (c : Change)
      → AreDistinct lz4 m
      → AreDistinct lz4 (with_change m key c)
  with_change-AreDistinct m key c d = elim (Option-cases (lookup key m)) [
    | inl new ↦ rw (with_change, new) (new, d)
    | inr (cs, old) ↦ rw (with_change, old) (assign-AreDistinct m key (cs ++ c ∷ []) d)
  ]

  settled-append :
      (found : Bool) (waiting_of : Option (List Change)) (c : Change) (lin : ℕ) (state : Bool)
      → settled lz4 (some (waiting waiting_of ++ c ∷ [])) found lin state
        ≡ (if found && c.lin_id == lin then c.state else settled lz4 waiting_of found lin state)
  unfolding waiting
  settled-append false none c lin state = refl
  settled-append false (some cs) c lin state = refl
  settled-append true none c lin state = refl
  settled-append true (some cs) c lin state = changed-append cs c lin state

  noted_lem :
      (a : Attributes lz4) (key : AttrKey) (c : Change) (j : AttrKey) (lin : ℕ)
      → IsSound lz4 a
      → AreDistinct lz4 a.change_index
      → AreFew lz4 a a.change_index
      → AreFew lz4 a (with_change a.change_index key c)
      → holds lz4 (clear_dirty lz4 (noted a key c)) j lin ≡ (
          if key_eq key j && (has_key lz4 a j && c.lin_id == lin)
          then c.state
          else holds lz4 (clear_dirty lz4 a) j lin)
  noted_lem a key c j lin s d few few' =
      (clear_dirty_lem lz4 (noted a key c) (record { live = s.live; apart = s.apart })
          (with_change-AreDistinct a.change_index key c d) few').2
        j lin
      ∙ elim (Bool-cases (key_eq key j)) [
        | inl same ↦
            rw
              (
                lookup-with_change a.change_index key j c,
                same,
                (clear_dirty_lem lz4 a s d few).2 j lin,
              )
              (settled-append (has_key lz4 a j) (lookup j a.change_index) c lin (holds lz4 a j lin))
        | inr differs ↦ rw (
          lookup-with_change a.change_index key j c,
          differs,
          (clear_dirty_lem lz4 a s d few).2 j lin,
        )
      ]

  -- A customer that is set or reset for a value with `setDirty` is so held after `clearDirty`, provided
  -- that the index has the value, whatever waited before; every other customer, and every other value,
  -- is held as it would be without the call. The index had pointers to records of its own, its
  -- waiting keys were distinct, and no value's index has 2 ^ 25 words or more with its changes, with this
  -- call or without.
  pub clear_dirty-set_dirty :
      (a : Attributes lz4) (key : AttrKey) (l : ℕ) (on : Bool) (j : AttrKey) (lin : ℕ)
      → IsSound lz4 a
      → AreDistinct lz4 a.change_index
      → AreFew lz4 a a.change_index
      → AreFew lz4 a (set_dirty lz4 a l key on).change_index
      → holds lz4 (clear_dirty lz4 (set_dirty lz4 a l key on)) j lin ≡ (
          if key_eq key j && (has_key lz4 a j && l == lin)
          then on
          else holds lz4 (clear_dirty lz4 a) j lin)
  clear_dirty-set_dirty a key l on j lin s d few few' =
      ap (λ b. holds lz4 (clear_dirty lz4 b) j lin) (set_dirty-noted a key l on)
      ∙ noted_lem a key (waits l on) j lin s d few
          (subst (λ b. AreFew lz4 a b.change_index) (set_dirty-noted a key l on) few')

  pub set_dirty-AreDistinct :
      (a : Attributes lz4) (key : AttrKey) (l : ℕ) (on : Bool)
      → AreDistinct lz4 a.change_index
      → AreDistinct lz4 (set_dirty lz4 a l key on).change_index
  set_dirty-AreDistinct a key l on d =
      subst (λ b. AreDistinct lz4 b.change_index) (sym (set_dirty-noted a key l on))
        (with_change-AreDistinct a.change_index key (waits l on) d)
