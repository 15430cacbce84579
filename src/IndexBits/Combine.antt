-- ===== src/IndexBits/Combine.antt =====
-- `opAnd`, `opOr`, `opAndNot`, `opNot` and the copies, bit by bit.
use Prim.Native.Nat.{bit_and, bit_or}
use openset.Prelude.{
  ℕ, zero, suc, ◌*◌, ◌/◌, ◌%◌, ◌<◌, ◌≡◌, refl, sym, ◌∙◌, true, false, not, ◌&&◌, ◌||◌, List, [],
  ◌∷◌, map, ltb, if◌then◌else◌, length, get_or, arith,
}
use openset.IndexBits.Words.{
  word_at, IsValid, bit_state-bit, bit_state_congr, ints-grow, word_at-grow, place_holder-grow,
  get_or-memcpy,
}
use openset.IndexBits.{
  IndexBits, ints, grow, bit_state, reset, memcpy, zip_words, combine, widen, op_and, op_or,
  op_and_not, op_not, op_copy,
}
use openset.Word.{complement}
use openset.Word.Laws.{bit-bit_and, bit-bit_or, bit-complement, bit-zero}

-- Beyond both lists a combination of zeros has to be zero.
get_or-zip_words :
    (f : ℕ → ℕ → ℕ) (dest source : List ℕ) (i : ℕ)
    → length dest ≡ length source
    → f 0 0 ≡ 0
    → get_or (zip_words f dest source) i 0 ≡ f (get_or dest i 0) (get_or source i 0)
unfolding zip_words
get_or-zip_words f [] [] i h z = sym z
get_or-zip_words f [] (s ∷ source) i h z = absurd (omega arith)
get_or-zip_words f (d ∷ dest) [] i h z = absurd (omega arith)
get_or-zip_words f (d ∷ dest) (s ∷ source) zero h z = refl
get_or-zip_words f (d ∷ dest) (s ∷ source) (suc i) h z =
    get_or-zip_words f dest source i (omega arith) z

-- Both operands stand for a set, and `source` is not empty.
pub record AreReady (this source : IndexBits) : Type 0 where
  pub this_real : this.place_holder ≡ false
  pub source_real : source.place_holder ≡ false
  pub source_present : 0 < ints source

pub ints-widen : (a b : IndexBits) → ints (widen a b) ≡ ints (widen b a)
unfolding widen
ints-widen a b = ground (arith, ints-grow a (ints b) true, ints-grow b (ints a) true)

word_at-widen : (a b : IndexBits) (i : ℕ) → word_at (widen a b) i ≡ word_at a i
unfolding widen
word_at-widen a b i = ground (arith, word_at-grow a (ints b) true i)

pub place_holder-widen : (a b : IndexBits) → (widen a b).place_holder ≡ a.place_holder
unfolding widen
place_holder-widen a b = ground (arith, place_holder-grow a (ints b) true)

module _ (f : ℕ → ℕ → ℕ) (this source : IndexBits) (ready : AreReady this source) where
  -- The branch that is taken.
  pub combine-ready : combine f this source ≡ (
    record (widen this source) {
      words = zip_words f (widen this source).words (widen source this).words;
    },
    widen source this,
  )
  unfolding combine
  combine-ready = ground arith

  pub word_at-combine :
      (i : ℕ)
      → f 0 0 ≡ 0
      → word_at (combine f this source).0 i ≡ f (word_at this i) (word_at source i)
  word_at-combine i z = rw combine-ready (
      get_or-zip_words f (widen this source).words (widen source this).words i
        (ints-widen this source) z
      ∙ rw (word_at-widen this source i, word_at-widen source this i))

  -- `source` may get longer and keeps its bits.
  pub source-combine : (k : ℕ) → bit_state (combine f this source).1 k ≡ bit_state source k
  source-combine k =
      rw combine-ready (bit_state_congr (widen source this) source (word_at-widen source this) k)

-- `opAnd` of two real sets is their intersection.
pub bit_state-op_and :
    (this source : IndexBits)
    → AreReady this source
    → (k : ℕ) → bit_state (op_and this source).0 k ≡ (bit_state this k && bit_state source k)
unfolding op_and
bit_state-op_and this source ready k =
    rw
      (
        bit_state-bit (combine bit_and this source).0 k,
        word_at-combine bit_and this source ready (k / 64) refl,
        bit_state-bit this k,
        bit_state-bit source k,
      )
      (bit-bit_and (word_at this (k / 64)) (word_at source (k / 64)) (k % 64))

-- `opOr` of two real sets is their union.
pub bit_state-op_or :
    (this source : IndexBits)
    → AreReady this source
    → (k : ℕ) → bit_state (op_or this source).0 k ≡ (bit_state this k || bit_state source k)
unfolding op_or
bit_state-op_or this source ready k =
    rw
      (
        bit_state-bit (combine bit_or this source).0 k,
        word_at-combine bit_or this source ready (k / 64) refl,
        bit_state-bit this k,
        bit_state-bit source k,
      )
      (bit-bit_or (word_at this (k / 64)) (word_at source (k / 64)) (k % 64))

zero-and_not : bit_and 0 (complement 0) ≡ 0
unfolding complement
zero-and_not = refl

-- `opAndNot` of two real sets is their difference.
pub bit_state-op_and_not :
    (this source : IndexBits)
    → AreReady this source
    → IsValid source
    → (k : ℕ)
    → bit_state (op_and_not this source).0 k ≡ (bit_state this k && not (bit_state source k))
unfolding op_and_not
bit_state-op_and_not this source ready valid k = rw (
  bit_state-bit (combine (λ d s. bit_and d (complement s)) this source).0 k,
  word_at-combine (λ d s. bit_and d (complement s)) this source ready (k / 64) zero-and_not,
  bit_state-bit this k,
  bit_state-bit source k,
  bit-bit_and (word_at this (k / 64)) (complement (word_at source (k / 64))) (k % 64),
  bit-complement (word_at source (k / 64)) (k % 64) (valid (k / 64)) (omega arith),
)

pub word_at-op_not :
    (b : IndexBits) (i : ℕ)
    → b.place_holder ≡ false
    → word_at (op_not b) i ≡ (if ltb i (ints b) then complement (word_at b i) else 0)
unfolding op_not
word_at-op_not b i real = rw real (go b.words i)
  where
    go :
        (ws : List ℕ) (i : ℕ)
        → get_or (map complement ws) i 0
          ≡ (if ltb i (length ws) then complement (get_or ws i 0) else 0)
    go [] i = ground arith
    go (w ∷ ws) zero = ground arith
    go (w ∷ ws) (suc i) = ground (arith, go ws i)

-- `opNot` flips every bit of the buffer, and only those.
pub bit_state-op_not :
    (b : IndexBits)
    → b.place_holder ≡ false
    → IsValid b
    → (k : ℕ) → bit_state (op_not b) k ≡ (ltb k (ints b * 64) && not (bit_state b k))
bit_state-op_not b real valid k =
    rw (bit_state-bit (op_not b) k, bit_state-bit b k, word_at-op_not b (k / 64) real)
      (ground
        (arith, bit-complement (word_at b (k / 64)) (k % 64) (valid (k / 64)), bit-zero (k % 64)))

pub word_at-op_copy : (source : IndexBits) (i : ℕ) → word_at (op_copy source) i ≡ word_at source i
unfolding op_copy
word_at-op_copy source i = go source.words
  where
    go : (ws : List ℕ) → get_or (memcpy (grow reset (length ws) true).words ws) i 0 ≡ get_or ws i 0
    go [] = ground arith
    go (w ∷ ws) = ground (arith, get_or-memcpy (suc (length ws)) (w ∷ ws) i)

-- A copy has the bits of its source.
pub bit_state-op_copy :
    (source : IndexBits) (k : ℕ) → bit_state (op_copy source) k ≡ bit_state source k
bit_state-op_copy source k = bit_state_congr (op_copy source) source (word_at-op_copy source) k
