-- ===== src/Attributes/Holds.antt =====
-- What an index on attributes holds, and that its pointers lead to records of their own.
use openset.Attributes.Memory.{AttrKey, key_eq, Change, lookup}
use openset.Attributes.{Attr, Attributes, get_bits, apply_changes}
use openset.IndexBits.Single.{bit_state-bit_set, bit_state-bit_clear}
use openset.IndexBits.Storage.{Lz4}
use openset.IndexBits.{IndexBits, bit_state, bit_set, bit_clear}
use openset.Prelude.{
  ℕ, ◌≡◌, ◌<◌, refl, ap, ◌∙◌, Bool, true, false, List, [], ◌∷◌, Option, none, some, ◌==◌,
  if◌then◌else◌,
}

-- The state that a list of changes leaves a bit in.
abbrev pub changed : List Change → ℕ → Bool → Bool
changed [] lin state = state
changed (c ∷ cs) lin state = changed cs lin (if c.lin_id == lin then c.state else state)

pub bit_state-apply_changes :
    (bits : IndexBits) (cs : List Change) (lin : ℕ)
    → bit_state (apply_changes bits cs) lin ≡ changed cs lin (bit_state bits lin)
unfolding apply_changes
bit_state-apply_changes bits [] lin = refl
bit_state-apply_changes bits (c ∷ cs) lin =
    bit_state-apply_changes (if c.state then bit_set bits c.lin_id else bit_clear bits c.lin_id) cs
      lin
    ∙ ap (changed cs lin) (one c.state)
  where
    one :
        (s : Bool)
        → bit_state (if s then bit_set bits c.lin_id else bit_clear bits c.lin_id) lin
          ≡ (if c.lin_id == lin then s else bit_state bits lin)
    one true = bit_state-bit_set bits c.lin_id lin
    one false = bit_state-bit_clear bits c.lin_id lin

module _ (lz4 : Lz4) where
  -- The record that a key leads to.
  abbrev pub follow : Attributes lz4 → Option ℕ → Option (Attr lz4)
  follow a none = none
  follow a (some p) = a.memory p

  abbrev pub attr_of : Attributes lz4 → AttrKey → Option (Attr lz4)
  attr_of a key = follow a (lookup key a.property_index)

  abbrev pub bit_in : Option (Attr lz4) → ℕ → Bool
  bit_in none lin = false
  bit_in (some attr) lin = bit_state (get_bits lz4 attr) lin

  -- Whether the index has the customer under the key.
  abbrev pub holds : Attributes lz4 → AttrKey → ℕ → Bool
  holds a key lin = bit_in (attr_of a key) lin

  -- Every pointer leads to a record, and no two keys to one.
  pub record IsSound (a : Attributes lz4) : Type 0 where
    pub live :
        (k : AttrKey) (p : ℕ)
        → lookup k a.property_index ≡ some p
        → (p < a.next_address) × (attr : Attr lz4) × (a.memory p ≡ some attr)
    pub apart :
        (j k : AttrKey) (p : ℕ)
        → lookup j a.property_index ≡ some p
        → lookup k a.property_index ≡ some p
        → key_eq j k ≡ true
