-- ===== src/IndexBits/Restore.antt =====
-- What `store` keeps of an index, `mount` brings back.
pub mod Counts
mod Range
use openset.IndexBits.Iterate.{InReach, Outcome, linear_iter-Outcome}
use openset.IndexBits.Population.{count_true, population-count_true}
use openset.IndexBits.Single.{bit_state-bit_set}
use openset.IndexBits.Population.{population-count_true}
use openset.IndexBits.Storage.{Lz4, Stored, to_int, all_bits, to_lin_id, store, bounds, mount}
use openset.IndexBits.Words.{
  word_at, bit_state-bit, bit_state_congr, bit_state-grow, get_or-memcpy, ints-grow,
}
use openset.IndexBits.{IndexBits, ints, grow, memcpy, bit_state, population, linear_iter}
use openset.Word.{bit}
use openset.Word.Laws.{bit-zero}
use mathlib.Core.Path.{subst}
use openset.Prelude.{
  ℕ, zero, suc, ◌+◌, ◌-◌, ◌*◌, ◌/◌, ◌%◌, ◌≤◌, ◌<◌, ◌≡◌, ◌≢◌, refl, sym, ap, ◌∙◌, Bool, true, false,
  List, [], ◌∷◌, ◌++◌, Option, none, some, ltb, ◌==◌, if◌then◌else◌, length, get_or, take, drop,
  replicate, arith, inl, inr, Bool-cases, Option-cases, length-take, length-drop, length-replicate,
  get_or-take, get_or-drop, get_or-append_left, get_or-append_right, take-replicate, drop-replicate,
  get_or-replicate, get_or_beyond,
}
use openset.IndexBits.Restore.Counts.{
  none_counted, one_counted, bit_state_none, count_true_none_below,
}
use openset.IndexBits.Restore.Range.{Covers, bounds-Covers, bounds-none, laid_out, get_or-range}

-- The words are not empty after the first step of `store`.
abbrev opened : IndexBits → IndexBits
opened b = if ints b == 0 then grow b 1 true else b

bit_state-opened : (b : IndexBits) (k : ℕ) → bit_state (opened b) k ≡ bit_state b k
bit_state-opened b k = ground (arith, bit_state-grow b 1 true k)

-- A block that was loaded from nothing.
pub empty_word : (k : ℕ) → bit_state (record { words = 0 ∷ []; place_holder = false }) k ≡ false
empty_word k =
    bit_state-bit (record { words = 0 ∷ []; place_holder = false }) k ∙ zero_word (k / 64)
  where
    zero_word : (i : ℕ) → bit (get_or (0 ∷ []) i 0) (k % 64) ≡ false
    zero_word zero = bit-zero (k % 64)
    zero_word (suc i) = bit-zero (k % 64)

-- With fewer than 2 ^ 25 words the count of the bits fits an `int`, and so does the id of a bit.
pub all_bits_lem : (b : IndexBits) → ints b < 33554432 → all_bits b ≡ ints b * 64
unfolding all_bits
all_bits_lem b few =
    let same : ints b * 64 % 4294967296 ≡ ints b * 64 = omega (arith, few) in
    let low : ltb (ints b * 64) 2147483648 ≡ true = ground (arith, few) in rw (same, low) refl

pub opened_few : (b : IndexBits) → ints b < 33554432 → ints (opened b) < 33554432
opened_few b few = ground (arith, ints-grow b 1 true, few)

found_low :
    (b : IndexBits)
    → ints b < 33554432
    → population b (ints b * 64) ≡ 1
    → to_lin_id (some (linear_iter b none (ints b * 64)).1)
      ≡ some (linear_iter b none (ints b * 64)).1
found_low b few single =
    let id = (linear_iter b none (ints b * 64)).1 in
    let on : bit_state b id ≡ true = one_counted b id single ∙ ground arith in
    let within : id < ints b * 64 = elim (Bool-cases (ltb id (ints b * 64))) [
      | inl here ↦ ground arith
      | inr past ↦
          absurd (ground (arith, on, bit_state_none b id (λ inside. absurd (ground arith))))
    ] in
    let same : id % 4294967296 ≡ id = omega (arith, few, within) in
    let low : ltb id 2147483648 ≡ true = ground (arith, few, within) in rw (same, low)

module _ (lz4 : Lz4) where
  open lz4 use {Block, compress, size, decompress, decompress-compress, size_pos}

  -- The word count that is kept beside the block, as `Attributes::swap` sets it.
  abbrev pub kept_ints : IndexBits × Stored lz4 → ℕ
  kept_ints (b, s) = if s.compressed_bytes == 0 then 0 else ints b

  abbrev pub restored : IndexBits → IndexBits
  restored b =
      let r = store lz4 b in
      mount lz4 r.1.buffer (kept_ints r) r.1.offset r.1.len (to_lin_id r.1.lin_id)

  mounted_range :
      (ws : List ℕ) (f l k : ℕ)
      → Covers ws 0 f l
      → bit_state
          (mount lz4
            (some (compress (take (l - f + 1) (drop f ws))))
            (if size (compress (take (l - f + 1) (drop f ws))) == 0 then 0 else length ws)
            f
            (l - f + 1)
            none)
          k
        ≡ bit_state (record { words = ws; place_holder = false }) k
  unfolding mount
  mounted_range ws f l k c =
      let middle = take (l - f + 1) (drop f ws) in
      let count : length middle ≡ l - f + 1 =
        length-take (l - f + 1) (drop f ws)
          (omega (arith, length-drop {0} f ws, c.ordered, c.inside)) in
      let kept : size (compress middle) == 0 ≡ false = ground (arith, size_pos middle) in
      let real : length ws == 0 ≡ false = ground (arith, c.inside) in
      let back : decompress (compress middle) (l - f + 1) ≡ middle =
        subst (λ n. decompress (compress middle) n ≡ middle) count (decompress-compress middle) in
      rw (kept, real, back)
        (bit_state_congr (record { words = laid_out (length ws) f middle; place_holder = false })
          (record { words = ws; place_holder = false }) (λ i. get_or-range ws f l i c) k)

  -- An index of fewer than 2 ^ 25 words that is stored and mounted again has the bits that it had, for
  -- any compressor that gives back what it was given.
  pub bit_state-restored :
      (b : IndexBits) (k : ℕ) → ints b < 33554432 → bit_state (restored b) k ≡ bit_state b k
  unfolding store mount
  bit_state-restored b k few =
      elim (Bool-cases (population (opened b) (ints (opened b) * 64) == 0)) [
        | inl empty ↦
            rw (whole, empty, store)
              (empty_word k ∙ sym (none_counted (opened b) k (ground arith)) ∙ bit_state-opened b k)
        | inr more ↦ elim (Bool-cases (population (opened b) (ints (opened b) * 64) == 1)) [
          | inl single ↦
              rw (whole, more, single, found_low (opened b) fits (ground arith))
                (bit_state-bit_set (record { words = 0 ∷ []; place_holder = false })
                    (linear_iter (opened b) none (ints (opened b) * 64)).1 k
                  ∙ rw (empty_word k) (ground (arith, one_counted (opened b) k (ground arith)))
                  ∙ bit_state-opened b k)
          | inr many ↦ elim (Option-cases (bounds (opened b).words 0 none 0)) [
            | inl nowhere ↦
                rw (whole, more, many, nowhere)
                  (empty_word k ∙ sym (no_words nowhere) ∙ bit_state-opened b k)
            | inr ((f, l), range) ↦
                rw (whole, more, many, range)
                  (mounted_range (opened b).words f l k
                      (bounds-Covers (opened b).words 0 0 f l range)
                    ∙ bit_state_congr (record { words = (opened b).words; place_holder = false })
                        (opened b) (λ i. refl) k
                    ∙ bit_state-opened b k)
          ]
        ]
      ]
    where
      fits : ints (opened b) < 33554432
      fits = opened_few b few

      whole : all_bits (opened b) ≡ ints (opened b) * 64
      whole = all_bits_lem (opened b) fits

      no_words : bounds (opened b).words 0 none 0 ≡ none → bit_state (opened b) k ≡ false
      no_words nowhere =
          bit_state-bit (opened b) k
          ∙ rw (bounds-none (opened b).words 0 0 nowhere (k / 64)) (bit-zero (k % 64))

  counted_none : (b : IndexBits) → bounds b.words 0 none 0 ≡ none → population b (ints b * 64) ≡ 0
  counted_none b nowhere =
      population-count_true b (ints b * 64)
      ∙ count_true_none_below (bit_state b) 0 (ints b * 64) λ k lo hi.
        bit_state-bit b k ∙ rw (bounds-none b.words 0 0 nowhere (k / 64)) (bit-zero (k % 64))

  kept_range :
      (b : IndexBits)
      → ints b < 33554432
      → population (opened b) (ints (opened b) * 64) == 0 ≡ false
      → mount lz4
          (store lz4 b).1.buffer
          (ints (store lz4 b).0)
          (store lz4 b).1.offset
          (store lz4 b).1.len
          (to_lin_id (store lz4 b).1.lin_id)
        ≡ restored b
  unfolding store mount
  kept_range b few more = elim (Bool-cases (population (opened b) (ints (opened b) * 64) == 1)) [
    | inl single ↦ rw (whole, more, single, found_low (opened b) (opened_few b few) (ground arith))
    | inr many ↦ elim (Option-cases (bounds (opened b).words 0 none 0)) [
      | inl nowhere ↦ absurd (ground (arith, counted_none (opened b) nowhere))
      | inr ((f, l), range) ↦
          let middle = take (l - f + 1) (drop f (opened b).words) in
          let kept : size (compress middle) == 0 ≡ false = ground (arith, size_pos middle) in
          rw (whole, more, many, range, kept)
    ]
  ]
    where
      whole : all_bits (opened b) ≡ ints (opened b) * 64
      whole = all_bits_lem (opened b) (opened_few b few)

  -- The word count itself can be kept too, where a bit is on, as `Attributes::clearDirty` does.
  pub bit_state-mount-store :
      (b : IndexBits) (k : ℕ)
      → ints b < 33554432
      → population b (ints b * 64) == 0 ≡ false
      → bit_state
          (mount lz4
            (store lz4 b).1.buffer
            (ints (store lz4 b).0)
            (store lz4 b).1.offset
            (store lz4 b).1.len
            (to_lin_id (store lz4 b).1.lin_id))
          k
        ≡ bit_state b k
  unfolding population
  bit_state-mount-store b k few more =
      let real : ints b == 0 ≡ false = ground arith in
      let same : opened b ≡ b = rw real in
      rw (kept_range b few (rw same more)) (bit_state-restored b k few)
