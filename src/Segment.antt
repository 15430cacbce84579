-- ===== src/Segment.antt =====
-- src/tablepartitioned.h and src/tablepartitioned.cpp: `SegmentPartitioned_s`, the customers of a
-- segment in a partition, which are kept unpacked between `prepare` and `commit`.
--
-- `make_hash` is MakeHash. A segment on which `prepare` was not called has no bits; `setBit` on it
-- follows a null pointer in the source, and leaves it here. `getInterpreter` is left out.
use openset.Attributes.{Attributes, Text, prop_segment, get_bits, get_make_text, swap}
use openset.IndexBits.Single.{bit_state-bit_set, bit_state-bit_clear}
use openset.IndexBits.Storage.{Lz4}
use openset.IndexBits.{IndexBits, bit_state, bit_set, bit_clear, reset}
use openset.Prelude.{
  ℕ, ◌+◌, ◌≡◌, ◌≤◌, refl, sym, ap, ◌∙◌, Bool, true, false, not, ◌&&◌, List, [], ◌∷◌, Option, none,
  some, ◌==◌, if◌then◌else◌, arith, inl, inr, Bool-cases, Option-cases,
}

pub data SegmentChange : Type 0 where
  enter exit no_change : SegmentChange

pub record Segment : Type 0 where
  pub segment_name : Text
  pub bits : Option IndexBits
  pub change_count : ℕ

abbrev mounted : (lz4 : Lz4) → Attributes lz4 → ℕ → IndexBits
mounted lz4 a p = elim (a.memory p) [ none ↦ reset | some attr ↦ get_bits lz4 attr ]

module _ (lz4 : Lz4) (make_hash : Text → ℕ) where
  unfoldable pub prepare : Segment → Attributes lz4 → Segment × Attributes lz4
  unfolding get_make_text
  prepare s a = elim s.bits [
    | some b ↦ (s, a)
    | none ↦
        let (a', p) = get_make_text lz4 make_hash a prop_segment s.segment_name in
        (record s { bits = some (mounted lz4 a' p); change_count = 0 }, a')
  ]

  unfoldable pub commit : Segment → Attributes lz4 → Segment × Attributes lz4
  unfolding swap
  commit s a =
      let (s', a') : Segment × Attributes lz4 = elim s.bits [
        | none ↦ (s, a)
        | some b ↦
            let (a', b') = swap lz4 a (prop_segment, make_hash s.segment_name) b in
            (record s { bits = some b' }, a')
      ] in
      if s.change_count == 0 then (s, a) else (record s' { change_count = 0 }, a')

-- `setBit` on the bits that `prepare` mounted.
unfoldable pub set_bits : IndexBits → ℕ → Bool → IndexBits × SegmentChange
unfolding bit_state bit_set bit_clear
set_bits b linear_id state =
    if state && not (bit_state b linear_id)
    then (bit_set b linear_id, enter)
    else if not state && bit_state b linear_id
    then (bit_clear b linear_id, exit)
    else (b, no_change)

abbrev pub counted : SegmentChange → ℕ
counted enter = 1
counted exit = 1
counted no_change = 0

unfoldable pub set_bit : Segment → ℕ → Bool → Segment × SegmentChange
unfolding set_bits
set_bit s linear_id state = elim s.bits [
  | none ↦ (s, no_change)
  | some b ↦
      let (b', change) = set_bits b linear_id state in
      (record s { bits = some b'; change_count = s.change_count + counted change }, change)
]

-- What a call of `setBit` reports of a customer that was in the segment or not.
abbrev pub reported : Bool → Bool → SegmentChange
reported false true = enter
reported true false = exit
reported false false = no_change
reported true true = no_change

same_state :
    (b : IndexBits) (linear_id : ℕ) (state : Bool) (lin : ℕ)
    → bit_state b linear_id ≡ state
    → bit_state b lin ≡ (if linear_id == lin then state else bit_state b lin)
same_state b linear_id state lin e = elim (Bool-cases (linear_id == lin)) [
  | inl here ↦ let met : linear_id ≡ lin = ground arith in rw here (ap (bit_state b) (sym met) ∙ e)
  | inr away ↦ rw away
]

set_bits_lem :
    (b : IndexBits) (linear_id : ℕ) (state : Bool)
    → ((lin : ℕ)
        → bit_state (set_bits b linear_id state).0 lin
          ≡ (if linear_id == lin then state else bit_state b lin))
      × ((set_bits b linear_id state).1 ≡ reported (bit_state b linear_id) state)
unfolding set_bits
set_bits_lem b linear_id true = elim (Bool-cases (bit_state b linear_id)) [
  | inl on ↦ rw on ((λ lin. same_state b linear_id true lin on), refl)
  | inr off ↦ rw off ((λ lin. bit_state-bit_set b linear_id lin), refl)
]
set_bits_lem b linear_id false = elim (Bool-cases (bit_state b linear_id)) [
  | inl on ↦ rw on ((λ lin. bit_state-bit_clear b linear_id lin), refl)
  | inr off ↦ rw off ((λ lin. same_state b linear_id false lin off), refl)
]

-- `setBit` puts the customer in the state that is asked for and leaves every other as it is, it
-- reports `enter` or `exit` where that changes the customer's state and no change else, and it adds
-- one to the change count where it reports one. The segment was prepared.
pub set_bit_lem :
    (s : Segment) (b : IndexBits) (linear_id : ℕ) (state : Bool)
    → s.bits ≡ some b
    → (b' : IndexBits) × ((set_bit s linear_id state).0.bits ≡ some b')
      × ((lin : ℕ) → bit_state b' lin ≡ (if linear_id == lin then state else bit_state b lin))
      × ((set_bit s linear_id state).1 ≡ reported (bit_state b linear_id) state)
      × ((set_bit s linear_id state).0.change_count
          ≡ s.change_count + counted (reported (bit_state b linear_id) state))
unfolding set_bit
set_bit_lem s b linear_id state e =
    let (bits_after, report) = set_bits_lem b linear_id state in
    rw (set_bit, e)
      (
        (set_bits b linear_id state).0,
        refl,
        bits_after,
        report,
        ap (λ c. s.change_count + counted c) report,
      )

-- The calls of `setBit` between `prepare` and `commit`.
unfoldable pub set_bit_all : Segment → List (ℕ × Bool) → Segment
set_bit_all s [] = s
set_bit_all s ((linear_id, state) ∷ calls) = set_bit_all (set_bit s linear_id state).0 calls

counts_up :
    (s : Segment) (linear_id : ℕ) (state : Bool)
    → s.change_count ≤ (set_bit s linear_id state).0.change_count
unfolding set_bit
counts_up s linear_id state = elim (Option-cases s.bits) [
  | inl never ↦ rw (set_bit, never) (omega arith)
  | inr (b, e) ↦ rw (set_bit, e) (le-add s.change_count (counted (set_bits b linear_id state).1))
]
  where
    le-add : (n k : ℕ) → n ≤ n + k
    le-add n k = omega arith

count_grows :
    (s : Segment) (calls : List (ℕ × Bool)) → s.change_count ≤ (set_bit_all s calls).change_count
unfolding set_bit_all
count_grows s [] = omega arith
count_grows s ((linear_id, state) ∷ calls) =
    omega (arith, counts_up s linear_id state, count_grows (set_bit s linear_id state).0 calls)

-- A call that is not counted leaves every customer's state.
uncounted : (was state : Bool) → counted (reported was state) ≡ 0 → state ≡ was
uncounted false false e = refl
uncounted true true e = refl
uncounted false true e = absurd (omega arith)
uncounted true false e = absurd (omega arith)

-- Calls of `setBit` that leave the change count at what it was leave every customer in the state
-- that it was in, so that a `commit` which does nothing on a count of 0 loses nothing. The segment was
-- prepared.
pub set_bit_all_kept :
    (s : Segment) (b : IndexBits) (calls : List (ℕ × Bool))
    → s.bits ≡ some b
    → (set_bit_all s calls).change_count ≡ s.change_count
    → (b' : IndexBits) × ((set_bit_all s calls).bits ≡ some b')
      × ((lin : ℕ) → bit_state b' lin ≡ bit_state b lin)
unfolding set_bit_all
set_bit_all_kept s b [] e same = (b, e, λ lin. refl)
set_bit_all_kept s b ((linear_id, state) ∷ calls) e same =
    let (b', e', after, report, count) = set_bit_lem s b linear_id state e in
    let s' : Segment = (set_bit s linear_id state).0 in
    let more : s'.change_count ≤ (set_bit_all s' calls).change_count = count_grows s' calls in
    let none_counted : counted (reported (bit_state b linear_id) state) ≡ 0 = omega arith in
    let (b2, e2, after2) = set_bit_all_kept s' b' calls e' (omega arith) in
    let was = uncounted (bit_state b linear_id) state none_counted in
    (b2, e2, λ lin. after2 lin ∙ after lin ∙ sym (same_state b linear_id state lin (sym was)))
