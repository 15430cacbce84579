-- ===== src/IndexBits/Restore/Range.antt =====
-- The range of words that `store` compresses, and the words that `mount` lays out.
use openset.IndexBits.Storage.{bounds}
use openset.IndexBits.Words.{get_or-memcpy}
use openset.IndexBits.{memcpy}
use openset.Prelude.{
  ℕ, zero, suc, ◌+◌, ◌-◌, ◌≤◌, ◌<◌, ◌≡◌, refl, sym, ap, ◌∙◌, List, [], ◌∷◌, ◌++◌, none, some, ltb,
  ◌==◌, if◌then◌else◌, length, get_or, take, drop, replicate, arith, inl, inr, Bool-cases,
  length-take, length-drop, length-replicate, get_or-take, get_or-drop, get_or-append_left,
  get_or-append_right, take-replicate, drop-replicate, get_or-replicate, get_or_beyond,
}

bounds_last :
    (ws : List ℕ) (idx f₀ l₀ f l : ℕ)
    → l₀ < idx
    → bounds ws idx (some f₀) l₀ ≡ some (f, l)
    → (f ≡ f₀) × (l₀ ≤ l) × (l < idx + length ws) × ((i : ℕ) → l < idx + i → get_or ws i 0 ≡ 0)
unfolding bounds
bounds_last [] idx f₀ l₀ f l h e = (ground arith, ground arith, ground arith, λ i p. refl)
bounds_last (w ∷ ws) idx f₀ l₀ f l h e = elim (Bool-cases (w == 0)) [
  | inl off ↦
      let (first, low, high, gone) =
        bounds_last ws (idx + 1) f₀ l₀ f l (omega arith) (rw off at e) in
      (first, low, omega arith, λ i p. beyond_zero (ground arith) gone i p)
  | inr on ↦
      let (first, low, high, gone) =
        bounds_last ws (idx + 1) f₀ idx f l (omega arith) (rw on at e) in
      (first, omega arith, omega arith, λ i p. beyond_word low gone i p)
]
  where
    beyond_zero :
        w ≡ 0
        → ((i : ℕ) → l < idx + 1 + i → get_or ws i 0 ≡ 0)
        → (i : ℕ) → l < idx + i
        → get_or (w ∷ ws) i 0 ≡ 0
    beyond_zero z gone zero p = z
    beyond_zero z gone (suc i) p = gone i (omega arith)

    beyond_word :
        idx ≤ l
        → ((i : ℕ) → l < idx + 1 + i → get_or ws i 0 ≡ 0)
        → (i : ℕ) → l < idx + i
        → get_or (w ∷ ws) i 0 ≡ 0
    beyond_word low gone zero p = absurd (omega arith)
    beyond_word low gone (suc i) p = gone i (omega arith)

-- The range that `store` compresses: every word outside is 0.
pub record Covers (ws : List ℕ) (idx f l : ℕ) : Type 0 where
  pub lowest : idx ≤ f
  pub ordered : f ≤ l
  pub inside : l < idx + length ws
  pub before : (i : ℕ) → idx + i < f → get_or ws i 0 ≡ 0
  pub behind : (i : ℕ) → l < idx + i → get_or ws i 0 ≡ 0

pub bounds-Covers :
    (ws : List ℕ) (idx l₀ f l : ℕ) → bounds ws idx none l₀ ≡ some (f, l) → Covers ws idx f l
unfolding bounds
bounds-Covers [] idx l₀ f l e = cc
bounds-Covers (w ∷ ws) idx l₀ f l e = elim (Bool-cases (w == 0)) [
  | inl off ↦ after_zero (ground arith) (bounds-Covers ws (idx + 1) l₀ f l (rw off at e))
  | inr on ↦ at_word (bounds_last ws (idx + 1) idx idx f l (omega arith) (rw on at e))
]
  where
    after_zero : w ≡ 0 → Covers ws (idx + 1) f l → Covers (w ∷ ws) idx f l
    after_zero z c = record {
      lowest = omega (arith, c.lowest);
      ordered = c.ordered;
      inside = omega (arith, c.inside);
      before = elim [ zero ↦ λ p. z | suc i ↦ λ p. c.before i (omega arith) ];
      behind = elim [ zero ↦ λ p. z | suc i ↦ λ p. c.behind i (omega arith) ];
    }

    at_word :
        (f ≡ idx)
          × (idx ≤ l)
          × (l < idx + 1 + length ws)
          × ((i : ℕ) → l < idx + 1 + i → get_or ws i 0 ≡ 0)
        → Covers (w ∷ ws) idx f l
    at_word (first, low, high, gone) = record {
      lowest = omega arith;
      ordered = omega arith;
      inside = omega arith;
      before = λ i p. absurd (omega arith);
      behind = elim [ zero ↦ λ p. absurd (omega arith) | suc i ↦ λ p. gone i (omega arith) ];
    }

bounds-some : (ws : List ℕ) (idx f₀ l₀ : ℕ) → bounds ws idx (some f₀) l₀ ≡ none → ⊥
unfolding bounds
bounds-some [] idx f₀ l₀ e = cc
bounds-some (w ∷ ws) idx f₀ l₀ e =
    bounds-some ws (idx + 1) f₀ (if w == 0 then l₀ else idx) (ground arith)

pub bounds-none :
    (ws : List ℕ) (idx l₀ : ℕ) → bounds ws idx none l₀ ≡ none → (i : ℕ) → get_or ws i 0 ≡ 0
unfolding bounds
bounds-none [] idx l₀ e i = refl
bounds-none (w ∷ ws) idx l₀ e i = elim (Bool-cases (w == 0)) [
  | inl off ↦ all_zero i (ground arith) (bounds-none ws (idx + 1) l₀ (rw off at e))
  | inr on ↦ absurd (bounds-some ws (idx + 1) idx idx (rw on at e))
]
  where
    all_zero : (i : ℕ) → w ≡ 0 → ((j : ℕ) → get_or ws j 0 ≡ 0) → get_or (w ∷ ws) i 0 ≡ 0
    all_zero zero z rest = z
    all_zero (suc i) z rest = rest i

-- The words that `mount` lays out: `middle` at the offset, and 0 around it.
abbrev pub laid_out : ℕ → ℕ → List ℕ → List ℕ
laid_out n f middle = take f (replicate n 0) ++ memcpy (drop f (replicate n 0)) middle

get_or-laid_out :
    (n f : ℕ) (middle : List ℕ) (i : ℕ)
    → f + length middle ≤ n
    → get_or (laid_out n f middle) i 0 ≡ (if ltb i f then 0 else get_or middle (i - f) 0)
get_or-laid_out n f middle i h =
    let room : length middle ≤ n - f = omega arith in
    rw (take-replicate {A = ℕ} f n 0 (omega arith), drop-replicate {A = ℕ} f n 0)
      (elim (Bool-cases (ltb i f)) [
        | inl low ↦ rw low (
            get_or-append_left (replicate f 0) (memcpy (replicate (n - f) 0) middle) i 0
              (ground (arith, length-replicate {A = ℕ} f 0))
            ∙ get_or-replicate f i 0)
        | inr high ↦
            let e : i ≡ length (replicate f 0) + (i - f) =
              ground (arith, length-replicate {A = ℕ} f 0) in
            rw high (
              ap (λ j. get_or (replicate f 0 ++ memcpy (replicate (n - f) 0) middle) j 0) e
              ∙ get_or-append_right (replicate f 0) (memcpy (replicate (n - f) 0) middle) (i - f) 0
              ∙ get_or-memcpy (n - f) middle (i - f) room)
      ])

-- The range from the first word that is not 0 to the last holds every word.
pub get_or-range :
    (ws : List ℕ) (f l i : ℕ)
    → Covers ws 0 f l
    → get_or (laid_out (length ws) f (take (l - f + 1) (drop f ws))) i 0 ≡ get_or ws i 0
get_or-range ws f l i c =
    get_or-laid_out (length ws) f (take (l - f + 1) (drop f ws)) i
      (omega (arith, c.ordered, c.inside, count))
    ∙ elim (Bool-cases (ltb i f)) [
      | inl low ↦ rw low (sym (c.before i (ground arith)))
      | inr high ↦ rw high (within (ground arith))
    ]
  where
    count : length (take (l - f + 1) (drop f ws)) ≡ l - f + 1
    count =
        length-take (l - f + 1) (drop f ws)
          (omega (arith, length-drop {0} f ws, c.ordered, c.inside))

    within : f ≤ i → get_or (take (l - f + 1) (drop f ws)) (i - f) 0 ≡ get_or ws i 0
    within le = elim (Bool-cases (ltb l i)) [
      | inl past ↦
          get_or_beyond (take (l - f + 1) (drop f ws)) (i - f) 0 (ground (arith, count, c.ordered))
          ∙ sym (c.behind i (ground arith))
      | inr here ↦
          let e : f + (i - f) ≡ i = omega arith in
          get_or-take (l - f + 1) (drop f ws) (i - f) 0 (ground (arith, c.ordered))
          ∙ get_or-drop f ws (i - f) 0
          ∙ rw e
    ]
