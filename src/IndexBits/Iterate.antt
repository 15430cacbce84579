-- ===== src/IndexBits/Iterate.antt =====
-- `linearIter` finds the linear ids in order.
use openset.Prelude.{
  ℕ, zero, suc, ◌+◌, ◌-◌, ◌*◌, ◌/◌, ◌%◌, ◌≤◌, ◌<◌, ◌≡◌, ◌∙◌, Bool, true, false, List, [], ◌∷◌, ltb,
  leb, ◌==◌, get_or, drop, get_or-drop, arith, inl, inr, Bool-cases, Option, none, some,
  Option-cases,
}
use openset.IndexBits.Words.{word_at, bit_state-bit}
use openset.IndexBits.{IndexBits, bit_state, scan_word, iter_words, next_id, linear_iter}
use openset.Word.{bit}
use openset.Word.Laws.{bit-zero, test_mask-bit}

-- The scan finds the first digit of the range, or there is none in it.
scan_word-some :
    (w i n j : ℕ)
    → scan_word w i n ≡ some j
    → (i ≤ j) × (j < i + n) × (bit w j ≡ true) × ((k : ℕ) → i ≤ k → k < j → bit w k ≡ false)
unfolding scan_word
scan_word-some w i zero j e = absurd (ground arith)
scan_word-some w i (suc n) j e = elim (Bool-cases (bit w i)) [
  | inl on ↦
      let here : i ≡ j = ground (arith, test_mask-bit w i) in
      (omega arith, omega arith, rw (← here) on, λ k l h. absurd (omega arith))
  | inr off ↦
      let (low, high, on, before) =
        scan_word-some w (i + 1) n j (ground (arith, test_mask-bit w i)) in
      (omega arith, omega arith, on, λ k l h. earlier off before k l h)
]
  where
    earlier :
        bit w i ≡ false
        → ((k : ℕ) → i + 1 ≤ k → k < j → bit w k ≡ false)
        → (k : ℕ) → i ≤ k
        → k < j
        → bit w k ≡ false
    earlier off before k l h = elim (Bool-cases (i == k)) [
      | inl same ↦ let e : i ≡ k = ground arith in rw (← e) off
      | inr apart ↦ before k (ground arith) h
    ]

scan_word-none :
    (w i n : ℕ) → scan_word w i n ≡ none → (k : ℕ) → i ≤ k → k < i + n → bit w k ≡ false
unfolding scan_word
scan_word-none w i zero e k l h = absurd (omega arith)
scan_word-none w i (suc n) e k l h = elim (Bool-cases (i == k)) [
  | inl same ↦ let e' : i ≡ k = ground arith in rw (← e') (ground (arith, test_mask-bit w i))
  | inr apart ↦
      scan_word-none w (i + 1) n (ground (arith, test_mask-bit w i)) k (ground arith) (omega arith)
]

-- The ids that the iterator looks at from `start` on: it stops at a word that begins at `stop` or
-- later, or at once.
pub record InReach (start stop k : ℕ) : Type 0 where
  pub after : start ≤ k
  pub active : start < stop
  pub word_begins : k / 64 * 64 < stop

-- The first id in reach, or none.
abbrev pub Outcome : (ℕ → Bool) → ℕ → ℕ → Bool × ℕ → Type 0
Outcome p start stop (true, j) =
    InReach start stop j × (p j ≡ true) × ((k : ℕ) → start ≤ k → k < j → p k ≡ false)
Outcome p start stop (false, j) = (k : ℕ) → InReach start stop k → p k ≡ false

-- Nothing lies between the start and the word that the search went on to.
Outcome-earlier :
    (p : ℕ → Bool) (start word stop : ℕ) (r : Bool × ℕ)
    → start ≤ word * 64
    → ((k : ℕ) → start ≤ k → k < word * 64 → p k ≡ false)
    → Outcome p (word * 64) stop r
    → Outcome p start stop r
Outcome-earlier p start word stop (true, j) le skipped (reach, on, before) = (
  record {
    after = omega arith;
    active = omega (arith, reach.active);
    word_begins = reach.word_begins;
  },
  on,
  from_start,
)
  where
    from_start : (k : ℕ) → start ≤ k → k < j → p k ≡ false
    from_start k l h = elim (Bool-cases (ltb k (word * 64))) [
      | inl gap ↦ skipped k l (ground arith)
      | inr beyond ↦ before k (ground arith) h
    ]
Outcome-earlier p start word stop (false, j) le skipped nothing = all_off
  where
    all_off : (k : ℕ) → InReach start stop k → p k ≡ false
    all_off k reach = elim (Bool-cases (ltb k (word * 64))) [
      | inl gap ↦ skipped k reach.after (ground arith)
      | inr beyond ↦
          nothing k (record {
            after = ground arith;
            active = ground arith;
            word_begins = reach.word_begins;
          })
    ]

-- The list holds the words of `p` from `current` on.
abbrev Holds : List ℕ → ℕ → (ℕ → Bool) → Type 0
Holds ws current p =
    (k : ℕ) → current * 64 ≤ k → p k ≡ bit (get_or ws (k / 64 - current) 0) (k % 64)

Holds-tail :
    (w : ℕ) (ws : List ℕ) (current : ℕ) (p : ℕ → Bool)
    → Holds (w ∷ ws) current p
    → Holds ws (current + 1) p
Holds-tail w ws current p h k l =
    let e : k / 64 - current ≡ suc (k / 64 - (current + 1)) = omega arith in
    rw e at (h k (omega arith))

module _ (w : ℕ) (ws : List ℕ) (current : ℕ) (p : ℕ → Bool) (holds : Holds (w ∷ ws) current p) where
  Holds-head : (k : ℕ) → current * 64 ≤ k → k < (current + 1) * 64 → p k ≡ bit w (k % 64)
  Holds-head k l h = let e : k / 64 - current ≡ 0 = omega arith in rw e at (holds k l)

  skip_word :
      (start stop : ℕ) (r : Bool × ℕ)
      → current * 64 ≤ start
      → start < (current + 1) * 64
      → ((i : ℕ) → start % 64 ≤ i → i < 64 → bit w i ≡ false)
      → Outcome p ((current + 1) * 64) stop r
      → Outcome p start stop r
  skip_word start stop r lo hi off =
      Outcome-earlier p start (current + 1) stop r (omega arith)
        λ k l h. Holds-head k (omega arith) h ∙ off (k % 64) (omega arith) (omega arith)

  found_in_word :
      (start stop i : ℕ)
      → current * 64 ≤ start
      → start < (current + 1) * 64
      → start < stop
      → scan_word w (start % 64) (64 - start % 64) ≡ some i
      → Outcome p start stop (true, current * 64 + i)
  found_in_word start stop i lo hi lt e =
      let (low, high, on, before) = scan_word-some w (start % 64) (64 - start % 64) i e in
      let digit : (current * 64 + i) % 64 ≡ i = omega arith in
      (
        record { after = omega arith; active = lt; word_begins = omega arith },
        Holds-head (current * 64 + i) (omega arith) (omega arith) ∙ rw digit on,
        λ k l h.
            Holds-head k (omega arith) (omega arith) ∙ before (k % 64) (omega arith) (omega arith),
      )

pub iter_words-Outcome :
    (ws : List ℕ) (current start stop : ℕ) (p : ℕ → Bool)
    → current * 64 ≤ start
    → start < (current + 1) * 64
    → Holds ws current p
    → Outcome p start stop (iter_words ws current start stop)
unfolding iter_words
iter_words-Outcome [] current start stop p lo hi holds =
    λ k reach. holds k (omega (arith, reach.after)) ∙ bit-zero (k % 64)
iter_words-Outcome (w ∷ ws) current start stop p lo hi holds =
    let rest : Outcome p ((current + 1) * 64) stop
        (iter_words ws (current + 1) ((current + 1) * 64) stop) =
      iter_words-Outcome ws (current + 1) ((current + 1) * 64) stop p (omega arith) (omega arith)
        (Holds-tail w ws current p holds) in
    elim (Bool-cases (w == 0)) [
      | inl zero_word ↦ rw zero_word (skip rest (λ i l h. no_digit i (ground arith)))
      | inr digits ↦ elim (Bool-cases (leb stop start)) [
        | inl stopped ↦ rw (digits, stopped) (λ k reach. absurd (ground (arith, reach.active)))
        | inr active ↦ elim (Option-cases (scan_word w (start % 64) (64 - start % 64))) [
          | inl miss ↦
              rw (digits, active, miss)
                (skip rest
                  (λ i l h. scan_word-none w (start % 64) (64 - start % 64) miss i l (omega arith)))
          | inr (i, hit) ↦
              rw (digits, active, hit)
                (found_in_word w ws current p holds start stop i lo hi (ground arith) hit)
        ]
      ]
    ]
  where
    skip :
        Outcome p ((current + 1) * 64) stop (iter_words ws (current + 1) ((current + 1) * 64) stop)
        → ((i : ℕ) → start % 64 ≤ i → i < 64 → bit w i ≡ false)
        → Outcome p start stop (iter_words ws (current + 1) ((current + 1) * 64) stop)
    skip r off =
        skip_word w ws current p holds start stop
          (iter_words ws (current + 1) ((current + 1) * 64) stop) lo hi off r

    no_digit : (i : ℕ) → w ≡ 0 → bit w i ≡ false
    no_digit i e = rw e (bit-zero i)

-- The iterator returns the first linear id in reach, or false if there is none.
pub linear_iter-Outcome :
    (b : IndexBits) (lin_id : Option ℕ) (stop_bit : ℕ)
    → Outcome (bit_state b) (next_id lin_id) stop_bit (linear_iter b lin_id stop_bit)
unfolding linear_iter
linear_iter-Outcome b lin_id stop_bit =
    iter_words-Outcome (drop (next_id lin_id / 64) b.words) (next_id lin_id / 64) (next_id lin_id)
      stop_bit (bit_state b) (omega arith) (omega arith)
      (λ k l. bit_state-bit b k ∙ in_rest (next_id lin_id / 64) k (omega arith))
  where
    in_rest :
        (n k : ℕ)
        → n ≤ k / 64
        → bit (word_at b (k / 64)) (k % 64) ≡ bit (get_or (drop n b.words) (k / 64 - n) 0) (k % 64)
    in_rest n k l =
        let e : n + (k / 64 - n) ≡ k / 64 = omega arith in
        rw (get_or-drop n b.words (k / 64 - n) 0, e)
