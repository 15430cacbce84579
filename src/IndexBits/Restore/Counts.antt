-- ===== src/IndexBits/Restore/Counts.antt =====
-- The population that `store` asks for: none on, and one on.
use openset.IndexBits.Iterate.{Outcome, linear_iter-Outcome}
use openset.IndexBits.Population.{count_true, population-count_true}
use openset.IndexBits.Words.{bit_state-bit}
use openset.IndexBits.{IndexBits, ints, bit_state, population, linear_iter}
use openset.Word.Laws.{bit-zero}
use openset.Prelude.{
  ℕ, zero, suc, ◌+◌, ◌*◌, ◌/◌, ◌%◌, ◌≤◌, ◌<◌, ◌≡◌, ◌≢◌, refl, sym, ◌∙◌, Bool, true, false, none,
  ltb, ◌==◌, arith, inl, inr, Bool-cases, get_or_beyond,
}

count_true_pos : (p : ℕ → Bool) (i n k : ℕ) → i ≤ k → k < i + n → p k ≡ true → 1 ≤ count_true p i n
unfolding count_true
count_true_pos p i zero k lo hi on = absurd (omega arith)
count_true_pos p i (suc n) k lo hi on = elim (Bool-cases (i == k)) [
  | inl here ↦
      let e : i ≡ k = ground arith in let first : p i ≡ true = rw e on in ground (arith, first)
  | inr later ↦ omega (arith, count_true_pos p (i + 1) n k (ground arith) (omega arith) on)
]

count_true_two :
    (p : ℕ → Bool) (i n j k : ℕ)
    → i ≤ j
    → j < k
    → k < i + n
    → p j ≡ true
    → p k ≡ true
    → 2 ≤ count_true p i n
unfolding count_true
count_true_two p i zero j k lo lt hi on on' = absurd (omega arith)
count_true_two p i (suc n) j k lo lt hi on on' = elim (Bool-cases (i == j)) [
  | inl here ↦
      let e : i ≡ j = ground arith in
      let first : p i ≡ true = rw e on in
      rw first (omega (arith, count_true_pos p (i + 1) n k (ground arith) (omega arith) on'))
  | inr later ↦ omega (arith, count_true_two p (i + 1) n j k (ground arith) lt (omega arith) on on')
]

pub count_true_none_below :
    (p : ℕ → Bool) (i n : ℕ) → ((k : ℕ) → i ≤ k → k < i + n → p k ≡ false) → count_true p i n ≡ 0
unfolding count_true
count_true_none_below p i zero h = refl
count_true_none_below p i (suc n) h =
    rw (h i (omega arith) (omega arith)) (
      omega (arith, count_true_none_below p (i + 1) n (λ k lo hi. h k (omega arith) (omega arith))))

-- Where no bit is on among the words, none is.
pub bit_state_none :
    (b : IndexBits) (k : ℕ) → (k < ints b * 64 → bit_state b k ≡ false) → bit_state b k ≡ false
bit_state_none b k inside = elim (Bool-cases (ltb k (ints b * 64))) [
  | inl here ↦ inside (ground arith)
  | inr past ↦
      bit_state-bit b k ∙ rw (get_or_beyond b.words (k / 64) 0 (ground arith)) (bit-zero (k % 64))
]

pub none_counted : (b : IndexBits) (k : ℕ) → population b (ints b * 64) ≡ 0 → bit_state b k ≡ false
none_counted b k e = bit_state_none b k λ inside. elim (Bool-cases (bit_state b k)) [
  | inr off ↦ off
  | inl on ↦ absurd (
      omega (
        arith,
        population-count_true b (ints b * 64),
        count_true_pos (bit_state b) 0 (ints b * 64) k (omega arith) (omega arith) on,
      ))
]

-- Where one bit is on, it is the one that `linearIter` finds.
pub one_counted :
    (b : IndexBits) (k : ℕ)
    → population b (ints b * 64) ≡ 1
    → bit_state b k ≡ (linear_iter b none (ints b * 64)).1 == k
one_counted b k e =
    found (linear_iter b none (ints b * 64)) (linear_iter-Outcome b none (ints b * 64))
  where
    stop : ℕ
    stop = ints b * 64

    counted : count_true (bit_state b) 0 (ints b * 64) ≡ 1
    counted = sym (population-count_true b (ints b * 64)) ∙ e

    found : (r : Bool × ℕ) → Outcome (bit_state b) 0 (ints b * 64) r → bit_state b k ≡ r.1 == k
    found (false, j) nothing = absurd (
        omega (
          arith,
          counted,
          count_true_none_below (bit_state b) 0 (ints b * 64) (λ i lo hi.
              nothing i
                (record { after = omega arith; active = omega arith; word_begins = omega arith })),
        ))
    found (true, j) (reach, on, earlier) = elim (Bool-cases (j == k)) [
      | inl same ↦ let eq : j ≡ k = ground arith in rw (same, ← eq) on
      | inr apart ↦ elim (Bool-cases (bit_state b k)) [
        | inr off ↦ rw (apart, off)
        | inl also ↦ absurd (two also (ground arith))
      ]
    ]
      where
        two : bit_state b k ≡ true → j ≢ k → ⊥
        two also ne = elim (Bool-cases (ltb k j)) [
          | inl before ↦ cc (earlier k (omega arith) (ground arith))
          | inr behind ↦ elim (Bool-cases (ltb k (ints b * 64))) [
            | inl within ↦ omega (
              arith,
              counted,
              count_true_two (bit_state b) 0 (ints b * 64) j k (omega arith) (ground arith)
                  (ground arith) on also,
            )
            | inr past ↦ cc (bit_state_none b k (λ inside. absurd (ground arith)))
          ]
        ]
