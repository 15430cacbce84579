-- ===== src/QueryIndexing/Gather.antt =====
-- `compositeBits`: the union of the records that match, complemented where the comparison is
-- negative.
use openset.Attributes.Holds.{bit_in}
use openset.Attributes.Memory.{AttrKey}
use openset.Attributes.{Attr, Attributes, ListMode, get_bits, get_property_values_by}
use openset.IndexBits.Single.{bit_state-make_bits}
use openset.IndexBits.Combine.{bit_state-op_copy}
use openset.IndexBits.Storage.{Lz4}
use openset.IndexBits.Words.{IsValid}
use openset.IndexBits.{IndexBits, bit_state, reset, make_bits, op_or, op_not, op_copy}
use openset.Properties.{Properties}
use openset.QueryIndexing.Sets.{
  IsFilled, grow-IsFilled, op_copy-IsFilled, op_or-IsFilled, op_not-IsFilled, or_state, not_state,
  make_bits-IsFilled, mount-IsFilled,
}
use openset.QueryIndexing.{StackItem, full, gather, composite_of}
use openset.Prelude.{
  ℕ, ◌+◌, ◌/◌, ◌<◌, ◌≡◌, refl, ap, ◌∙◌, Bool, true, false, not, ◌||◌, List, [], ◌∷◌, some,
  if◌then◌else◌, arith,
}

module _ (lz4 : Lz4) (a : Attributes lz4) where
  abbrev pub IsReadable : ℕ → Type 0
  IsReadable p = (attr : Attr lz4) × (a.memory p ≡ some attr) × IsValid (get_bits lz4 attr)

  abbrev pub AreReadable : List ℕ → Type 0
  AreReadable [] = Unit
  AreReadable (p ∷ ps) = IsReadable p × AreReadable ps

  -- Every pointer of the index leads to a record whose words are in 64 bits.
  abbrev pub AllReadable : List (AttrKey × ℕ) → Type 0
  AllReadable [] = Unit
  AllReadable ((k, p) ∷ m) = IsReadable p × AllReadable m

  abbrev pub any_bit : List ℕ → ℕ → Bool
  any_bit [] lin = false
  any_bit (p ∷ ps) lin = bit_in lz4 (a.memory p) lin || any_bit ps lin

  get_bits-IsFilled : (attr : Attr lz4) → IsValid (get_bits lz4 attr) → IsFilled (get_bits lz4 attr)
  unfolding get_bits
  get_bits-IsFilled attr valid =
      mount-IsFilled lz4 attr.index attr.attr_ints attr.ofs attr.len attr.lin_id valid

module _ (lz4 : Lz4) (props : Properties) (a : Attributes lz4) (stop_bit : ℕ) where
  gather_more :
      (ps : List ℕ) (bits : IndexBits)
      → IsFilled bits
      → AreReadable lz4 a ps
      → (found : IndexBits) × (gather lz4 props a stop_bit ps bits true ≡ some (found, true))
        × IsFilled found
        × ((lin : ℕ) → bit_state found lin ≡ (bit_state bits lin || any_bit lz4 a ps lin))
  unfolding gather
  gather_more [] bits s r = (bits, refl, s, λ lin. ground arith)
  gather_more (p ∷ ps) bits s ((attr, at_p, valid), r) =
      let work = get_bits lz4 attr in
      let w = get_bits-IsFilled lz4 a attr valid in
      let (found, e, t, states) =
        gather_more ps (op_or bits work).0 (op_or-IsFilled bits work s w) r in
      (
        found,
        rw (gather, at_p) e,
        t,
        λ lin. rw (states lin, or_state bits work lin s w, at_p) (ground arith),
      )

  abbrev pub chosen : IndexBits × Bool → IndexBits
  chosen (found, initialized) = if initialized then found else make_bits 64 false

  gather_all :
      (ps : List ℕ)
      → AreReadable lz4 a ps
      → (r : IndexBits × Bool) × (gather lz4 props a stop_bit ps reset false ≡ some r)
        × IsFilled (chosen r)
        × ((lin : ℕ) → bit_state (chosen r) lin ≡ any_bit lz4 a ps lin)
  unfolding gather
  gather_all [] r =
      ((reset, false), refl, make_bits-IsFilled, λ lin. bit_state-make_bits 64 false lin)
  gather_all (p ∷ ps) ((attr, at_p, valid), r) =
      let work = get_bits lz4 attr in
      let w = get_bits-IsFilled lz4 a attr valid in
      let (found, e, t, states) = gather_more ps (op_copy work) (op_copy-IsFilled work w) r in
      (
        (found, true),
        rw (gather, at_p) e,
        t,
        λ lin. rw (states lin, bit_state-op_copy work lin, at_p),
      )

  abbrev finished : Bool → IndexBits → IndexBits
  finished negate bits = if negate then op_not (full lz4 props a stop_bit bits) else bits

  finished-IsFilled :
      (negate : Bool) (bits : IndexBits) → IsFilled bits → IsFilled (finished negate bits)
  finished-IsFilled true bits s =
      op_not-IsFilled (full lz4 props a stop_bit bits) (grow-IsFilled bits (stop_bit / 64 + 1) s)
  finished-IsFilled false bits s = s

  finished_state :
      (negate : Bool) (bits : IndexBits) (lin : ℕ)
      → IsFilled bits
      → lin < stop_bit
      → bit_state (finished negate bits) lin
        ≡ (if negate then not (bit_state bits lin) else bit_state bits lin)
  finished_state true bits lin s low = not_state bits stop_bit lin s low
  finished_state false bits lin s low = refl

  -- What is computed for a lookup of records that can be read.
  pub composite_of_lem :
      (idx : ℕ) (mode : ListMode) (negate : Bool) (item : StackItem)
      → AreReadable lz4 a (get_property_values_by lz4 a idx mode item.hash)
      → (bits : IndexBits) × (composite_of lz4 props a stop_bit idx mode negate item
          ≡ some (record item { bits = bits }))
        × IsFilled bits
        × ((lin : ℕ)
            → lin < stop_bit
            → bit_state bits lin ≡ (
                if negate
                then not (any_bit lz4 a (get_property_values_by lz4 a idx mode item.hash) lin)
                else any_bit lz4 a (get_property_values_by lz4 a idx mode item.hash) lin))
  unfolding composite_of
  composite_of_lem idx mode negate item readable =
      let (r, e, s, states) =
        gather_all (get_property_values_by lz4 a idx mode item.hash) readable in
      (
        finished negate (chosen r),
        rw (composite_of, e),
        finished-IsFilled negate (chosen r) s,
        λ lin low.
            finished_state negate (chosen r) lin s low
            ∙ ap (λ b. if negate then not b else b) (states lin),
      )
