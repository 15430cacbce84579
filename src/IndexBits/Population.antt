-- ===== src/IndexBits/Population.antt =====
-- `population` counts the linear ids below its stop bit.
use openset.Prelude.{
  ℕ, zero, suc, ◌+◌, ◌-◌, ◌*◌, ◌/◌, ◌%◌, ◌≤◌, ◌<◌, ◌≡◌, refl, sym, ◌∙◌, Bool, false, List, [], ◌∷◌,
  ltb, ◌==◌, if◌then◌else◌, length, get_or, take, arith, inl, inr, Bool-cases,
}
use openset.IndexBits.Words.{bit_state-bit}
use openset.IndexBits.{IndexBits, ints, bit_state, count_words, count_range, population}
use openset.Word.{bit, popcount}

-- How many numbers among the `n` from `i` on pass a test.
unfoldable pub count_true : (ℕ → Bool) → ℕ → ℕ → ℕ
count_true p i zero = 0
count_true p i (suc n) = (if p i then 1 else 0) + count_true p (i + 1) n

pub count_true-congr :
    (p q : ℕ → Bool) (i j n : ℕ)
    → ((k : ℕ) → k < n → p (i + k) ≡ q (j + k))
    → count_true p i n ≡ count_true q j n
unfolding count_true
count_true-congr p q i j zero h = refl
count_true-congr p q i j (suc n) h =
    ground (arith, first, count_true-congr p q (i + 1) (j + 1) n shifted)
  where
    first : p i ≡ q j
    first =
        let ei : i + 0 ≡ i = omega arith in
        let ej : j + 0 ≡ j = omega arith in rw (ei, ej) at (h 0 (omega arith))

    shifted : (k : ℕ) → k < n → p (i + 1 + k) ≡ q (j + 1 + k)
    shifted k l =
        let ei : i + 1 + k ≡ i + (k + 1) = omega arith in
        let ej : j + 1 + k ≡ j + (k + 1) = omega arith in rw (ei, ej) (h (k + 1) (omega arith))

pub count_true-add :
    (p : ℕ → Bool) (i m n : ℕ) → count_true p i (m + n) ≡ count_true p i m + count_true p (i + m) n
unfolding count_true
count_true-add p i zero n =
    let e : 0 + n ≡ n = omega arith in let e' : i + 0 ≡ i = omega arith in rw (e, e') (omega arith)
count_true-add p i (suc m) n =
    let e : suc m + n ≡ suc (m + n) = omega arith in
    let e' : i + suc m ≡ i + 1 + m = omega arith in
    rw (e, e') (omega (arith, count_true-add p (i + 1) m n))

pub count_true-none :
    (p : ℕ → Bool) (i n : ℕ) → ((k : ℕ) → i ≤ k → p k ≡ false) → count_true p i n ≡ 0
unfolding count_true
count_true-none p i zero h = refl
count_true-none p i (suc n) h =
    ground (arith, h i, count_true-none p (i + 1) n (λ k l. h k (omega arith)))

count_range-count_true :
    (b : IndexBits) (i n : ℕ) → count_range b i n ≡ count_true (bit_state b) i n
unfolding count_range count_true
count_range-count_true b i zero = refl
count_range-count_true b i (suc n) = omega (arith, count_range-count_true b (i + 1) n)

popcount-count_true : (n w : ℕ) → popcount n w ≡ count_true (bit w) 0 n
unfolding popcount count_true
popcount-count_true zero w = refl
popcount-count_true (suc n) w =
    let shift : count_true (bit (w / 2)) 0 n ≡ count_true (bit w) 1 n =
      count_true-congr (bit (w / 2)) (bit w) 0 1 n (λ k l. halved k) in
    ground (arith, popcount-count_true n (w / 2), shift, lowest)
  where
    halved : (k : ℕ) → bit (w / 2) (0 + k) ≡ bit w (1 + k)
    halved k =
        let e : 1 + k ≡ suc k = omega arith in
        let e' : 0 + k ≡ k = omega arith in rw (e, e') (unfold bit in refl)

    lowest : w % 2 ≡ (if bit w 0 then 1 else 0)
    lowest = unfold bit in ground arith

-- Digit k of a list of words laid end to end.
abbrev digit_of : List ℕ → ℕ → Bool
digit_of ws k = bit (get_or ws (k / 64) 0) (k % 64)

count_words-count_true :
    (m : ℕ) (ws : List ℕ)
    → m ≤ length ws
    → count_words (take m ws) ≡ count_true (digit_of ws) 0 (m * 64)
unfolding count_words
count_words-count_true zero ws h = unfold count_true in refl
count_words-count_true (suc m) [] h = absurd (omega arith)
count_words-count_true (suc m) (w ∷ ws) h =
    let e : suc m * 64 ≡ 64 + m * 64 = omega arith in
    rw (e, count_true-add (digit_of (w ∷ ws)) 0 64 (m * 64))
      (omega
        (arith, popcount-count_true 64 w, count_words-count_true m ws (omega arith), front, back))
  where
    front : count_true (bit w) 0 64 ≡ count_true (digit_of (w ∷ ws)) 0 64
    front = count_true-congr (bit w) (digit_of (w ∷ ws)) 0 0 64 low
      where
        low : (k : ℕ) → k < 64 → bit w (0 + k) ≡ digit_of (w ∷ ws) (0 + k)
        low k l =
            let d : (0 + k) / 64 ≡ 0 = omega arith in
            let r : (0 + k) % 64 ≡ 0 + k = omega arith in rw (d, r)

    back : count_true (digit_of ws) 0 (m * 64) ≡ count_true (digit_of (w ∷ ws)) (0 + 64) (m * 64)
    back = count_true-congr (digit_of ws) (digit_of (w ∷ ws)) 0 (0 + 64) (m * 64) high
      where
        high : (k : ℕ) → k < m * 64 → digit_of ws (0 + k) ≡ digit_of (w ∷ ws) (0 + 64 + k)
        high k l =
            let d : (0 + 64 + k) / 64 ≡ suc ((0 + k) / 64) = omega arith in
            let r : (0 + 64 + k) % 64 ≡ (0 + k) % 64 = omega arith in rw (d, r)

-- The words that are counted whole, then the bits up to the stop.
count_parts :
    (b : IndexBits) (m n stop : ℕ)
    → m ≤ ints b
    → m * 64 + n ≡ stop
    → count_words (take m b.words) + count_range b (m * 64) n ≡ count_true (bit_state b) 0 stop
count_parts b m n stop h e =
    let start : 0 + m * 64 ≡ m * 64 = omega arith in
    rw (← e, count_true-add (bit_state b) 0 (m * 64) n, start)
      (omega (arith, count_words-count_true m b.words h, count_range-count_true b (m * 64) n, same))
  where
    same : count_true (digit_of b.words) 0 (m * 64) ≡ count_true (bit_state b) 0 (m * 64)
    same =
        count_true-congr (digit_of b.words) (bit_state b) 0 0 (m * 64)
          (λ k l. sym (bit_state-bit b (0 + k)))

bit_state-beyond : (b : IndexBits) (k : ℕ) → ints b * 64 ≤ k → bit_state b k ≡ false
unfolding bit_state
bit_state-beyond b k h = ground arith

count_true-clipped :
    (b : IndexBits) (stop : ℕ)
    → ints b * 64 ≤ stop
    → count_true (bit_state b) 0 (ints b * 64) ≡ count_true (bit_state b) 0 stop
count_true-clipped b stop h =
    let n = ints b * 64 in
    let e : stop ≡ n + (stop - n) = omega arith in
    rw (e, count_true-add (bit_state b) 0 n (stop - n))
      (omega (
        arith,
        count_true-none (bit_state b) (0 + n) (stop - n)
            (λ k l. bit_state-beyond b k (omega arith)),
      ))

-- `population(stopBit)` is the number of linear ids below `stopBit` whose bit is on, also for a
-- stop bit inside a word or past the end of the buffer.
pub population-count_true :
    (b : IndexBits) (stop_bit : ℕ) → population b stop_bit ≡ count_true (bit_state b) 0 stop_bit
unfolding population
population-count_true b stop_bit = elim (Bool-cases (ints b == 0)) [
  | inl empty ↦
      rw empty (
        sym (count_true-none (bit_state b) 0 stop_bit (λ k l. bit_state-beyond b k (ground arith))))
  | inr some_words ↦ elim (Bool-cases (ltb (ints b) (stop_bit / 64))) [
    | inl past ↦
        rw (some_words, past)
          (count_parts b (ints b) (ints b * 64 - ints b * 64) (ints b * 64) (omega arith)
              (omega arith)
            ∙ count_true-clipped b stop_bit (ground arith))
    | inr inside ↦
        rw (some_words, inside)
          (count_parts b (stop_bit / 64) (stop_bit - stop_bit / 64 * 64) stop_bit (ground arith)
            (omega arith))
  ]
]
