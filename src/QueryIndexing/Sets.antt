-- ===== src/QueryIndexing/Sets.antt =====
-- The sets that the machine keeps: not empty of words, each word in 64 bits, and no place holder.
use Prim.Native.Nat.{bit_and as and_words, bit_or as or_words}
use openset.IndexBits.Combine.{
  AreReady, combine-ready, word_at-combine, ints-widen, place_holder-widen, bit_state-op_and,
  bit_state-op_or, bit_state-op_not, word_at-op_copy, word_at-op_not,
}
use openset.IndexBits.Storage.{Lz4, mount, decoded}
use openset.IndexBits.Words.{
  word_at, IsValid, ints-grow, word_at-grow, place_holder-grow, bit_state-grow, length-memcpy,
}
use openset.IndexBits.{
  IndexBits, ints, reset, grow, bit_set, bit_state, make_bits, combine, zip_words, widen, op_and,
  op_or, op_not, op_copy, memcpy, last_bit,
}
use openset.Word.Laws.{bit_and-lt, bit_or-lt, complement-lt}
use openset.Word.{complement, bit_mask}
use openset.Prelude.{
  ℕ, zero, suc, ◌+◌, ◌/◌, ◌%◌, ◌^◌, ◌<◌, ◌≡◌, refl, ap, ◌∙◌, true, false, not, ◌&&◌, ◌||◌, List, [],
  ◌∷◌, ◌++◌, Option, none, some, ◌==◌, length, get_or, take, drop, replicate, arith, inl, inr,
  Bool-cases, length-set, length-append, length-replicate, length-map,
}

pub record IsFilled (b : IndexBits) : Type 0 where
  pub real : b.place_holder ≡ false
  pub present : 0 < ints b
  pub valid : IsValid b

ready : (a b : IndexBits) → IsFilled a → IsFilled b → AreReady a b
ready a b s t = record { this_real = s.real; source_real = t.real; source_present = t.present }

pub grow-IsFilled : (b : IndexBits) (n : ℕ) → IsFilled b → IsFilled (grow b n true)
grow-IsFilled b n s = record {
  real = place_holder-grow b n true ∙ s.real;
  present = ground (arith, ints-grow b n true, s.present);
  valid = λ i. rw (word_at-grow b n true i) (s.valid i);
}

ints-op_copy : (b : IndexBits) → ints (op_copy b) ≡ ints b
unfolding op_copy
ints-op_copy b =
    let grown = grow reset (ints b) true in
    length-memcpy grown.words b.words ∙ ground (arith, ints-grow reset (ints b) true)

pub op_copy-IsFilled : (b : IndexBits) → IsFilled b → IsFilled (op_copy b)
unfolding op_copy
op_copy-IsFilled b s = record {
  real = s.real;
  present = rw (ints-op_copy b) s.present;
  valid = λ i. rw (word_at-op_copy b i) (s.valid i);
}

length-zip_words :
    (f : ℕ → ℕ → ℕ) (xs ys : List ℕ)
    → length xs ≡ length ys
    → length (zip_words f xs ys) ≡ length xs
unfolding zip_words
length-zip_words f [] [] h = refl
length-zip_words f [] (y ∷ ys) h = absurd (omega arith)
length-zip_words f (x ∷ xs) [] h = refl
length-zip_words f (x ∷ xs) (y ∷ ys) h = ap suc (length-zip_words f xs ys (omega arith))

widen-present : (a b : IndexBits) → IsFilled a → 0 < ints (widen a b)
unfolding widen
widen-present a b s = ground (arith, ints-grow a (ints b) true, s.present)

combine-IsFilled :
    (f : ℕ → ℕ → ℕ) (a b : IndexBits)
    → IsFilled a
    → IsFilled b
    → f 0 0 ≡ 0
    → ((x y : ℕ) → x < 2 ^ 64 → y < 2 ^ 64 → f x y < 2 ^ 64)
    → IsFilled (combine f a b).0
combine-IsFilled f a b s t z bound = record {
  real = rw (combine-ready f a b (ready a b s t)) (place_holder-widen a b ∙ s.real);
  present =
      rw
        (
          combine-ready f a b (ready a b s t),
          length-zip_words f (widen a b).words (widen b a).words (ints-widen a b),
        )
        (widen-present a b s);
  valid = λ i.
      rw (word_at-combine f a b (ready a b s t) i z)
        (bound (word_at a i) (word_at b i) (s.valid i) (t.valid i));
}

pub op_or-IsFilled : (a b : IndexBits) → IsFilled a → IsFilled b → IsFilled (op_or a b).0
unfolding op_or
op_or-IsFilled a b s t = combine-IsFilled or_words a b s t refl (λ x y h k. bit_or-lt 64 x y h k)

pub op_and-IsFilled : (a b : IndexBits) → IsFilled a → IsFilled b → IsFilled (op_and a b).0
unfolding op_and
op_and-IsFilled a b s t = combine-IsFilled and_words a b s t refl (λ x y h k. bit_and-lt 64 x y h)

pub op_not-IsFilled : (b : IndexBits) → IsFilled b → IsFilled (op_not b)
unfolding op_not
op_not-IsFilled b s = record {
  real = ground (arith, s.real);
  present = rw (s.real, length-map b.words complement) s.present;
  valid = λ i. rw (word_at-op_not b i s.real) (ground (arith, complement-lt (word_at b i)));
}

pub or_state :
    (a b : IndexBits) (k : ℕ)
    → IsFilled a
    → IsFilled b
    → bit_state (op_or a b).0 k ≡ (bit_state a k || bit_state b k)
or_state a b k s t = bit_state-op_or a b (ready a b s t) k

pub and_state :
    (a b : IndexBits) (k : ℕ)
    → IsFilled a
    → IsFilled b
    → bit_state (op_and a b).0 k ≡ (bit_state a k && bit_state b k)
and_state a b k s t = bit_state-op_and a b (ready a b s t) k

-- A complement in a buffer that reaches past the stop bit.
pub not_state :
    (b : IndexBits) (stop_bit k : ℕ)
    → IsFilled b
    → k < stop_bit
    → bit_state (op_not (grow b (stop_bit / 64 + 1) true)) k ≡ not (bit_state b k)
not_state b stop_bit k s low =
    let g = grow-IsFilled b (stop_bit / 64 + 1) s in
    bit_state-op_not (grow b (stop_bit / 64 + 1) true) g.real g.valid k
    ∙ rw (bit_state-grow b (stop_bit / 64 + 1) true k)
        (ground (arith, ints-grow b (stop_bit / 64 + 1) true))

pub make_bits-IsFilled : IsFilled (make_bits 64 false)
unfolding make_bits
make_bits-IsFilled = record { real = refl; present = omega arith; valid = zeros }
  where
    zeros : (i : ℕ) → get_or (0 ∷ 0 ∷ []) i 0 < 18446744073709551616
    zeros zero = omega arith
    zeros (suc zero) = omega arith
    zeros (suc (suc i)) = omega arith

length-take-drop : (n : ℕ) (xs : List ℕ) → length (take n xs) + length (drop n xs) ≡ length xs
length-take-drop zero xs = omega arith
length-take-drop (suc n) [] = omega arith
length-take-drop (suc n) (x ∷ xs) = omega (arith, length-take-drop n xs)

abbrev one_word : IndexBits
one_word = record { words = 0 ∷ []; place_holder = false }

bit_set-present : (id : ℕ) → 0 < ints (bit_set one_word id)
unfolding bit_set last_bit
bit_set-present id =
    rw
      (length-set (last_bit one_word id).words (id / 64)
        (or_words (get_or (last_bit one_word id).words (id / 64) 0) (bit_mask (id % 64))))
      (ground (arith, ints-grow one_word (id / 64 + 1) false))

bit_set-real : (id : ℕ) → (bit_set one_word id).place_holder ≡ false
unfolding bit_set last_bit
bit_set-real id = ground (arith, place_holder-grow one_word (id / 64 + 1) false)

module _ (lz4 : Lz4) where
  mount-real :
      (buffer : Option (lz4.Block)) (integers offset len : ℕ) (lin_id : Option ℕ)
      → (mount lz4 buffer integers offset len lin_id).place_holder ≡ false
  unfolding mount
  mount-real buffer integers offset len (some id) = bit_set-real id
  mount-real buffer integers offset len none = elim (Bool-cases (integers == 0)) [
    | inl empty ↦ rw empty
    | inr more ↦ rw more
  ]

  mount-present :
      (buffer : Option (lz4.Block)) (integers offset len : ℕ) (lin_id : Option ℕ)
      → 0 < ints (mount lz4 buffer integers offset len lin_id)
  unfolding mount
  mount-present buffer integers offset len (some id) = bit_set-present id
  mount-present buffer integers offset len none = elim (Bool-cases (integers == 0)) [
    | inl empty ↦ rw empty (omega arith)
    | inr more ↦
        let zeros : List ℕ = replicate integers 0 in
        let words = decoded lz4 buffer len in
        let count : length (take offset zeros ++ memcpy (drop offset zeros) words) ≡ integers =
          length-append (take offset zeros) (memcpy (drop offset zeros) words)
          ∙ ap (λ n. length (take offset zeros) + n) (length-memcpy (drop offset zeros) words)
          ∙ length-take-drop offset zeros
          ∙ length-replicate integers 0 in
        let some_words : 0 < integers = ground arith in rw (more, count) some_words
  ]

  -- What `mount` makes has a word at least.
  pub mount-IsFilled :
      (buffer : Option (lz4.Block)) (integers offset len : ℕ) (lin_id : Option ℕ)
      → IsValid (mount lz4 buffer integers offset len lin_id)
      → IsFilled (mount lz4 buffer integers offset len lin_id)
  mount-IsFilled buffer integers offset len lin_id valid = record {
    real = mount-real buffer integers offset len lin_id;
    present = mount-present buffer integers offset len lin_id;
    valid = valid;
  }
