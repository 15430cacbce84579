-- ===== src/Customers/Names/Rounds.antt =====
-- Numbers in a row that a map knows are no more than its entries, also across the wrap-around.
use openset.Customers.{find_id}
use openset.Prelude.{
  ℕ, zero, suc, ◌+◌, ◌%◌, ◌≤◌, ◌<◌, ◌≡◌, ◌≢◌, refl, sym, ap, ◌∙◌, false, List, [], ◌∷◌, none, some,
  length, ◌==◌, if◌then◌else◌, arith, inl, inr, Bool-cases, Option-cases,
}

without : ℕ → List (ℕ × ℕ) → List (ℕ × ℕ)
without k [] = []
without k ((j, l) ∷ m) = let rest = without k m in if j == k then rest else (j, l) ∷ rest

find_id-without :
    (k j : ℕ) (m : List (ℕ × ℕ)) → k == j ≡ false → find_id j (without k m) ≡ find_id j m
unfolding without find_id
find_id-without k j [] e = refl
find_id-without k j ((i, l) ∷ m) e = ground (arith, find_id-without k j m e)

length-without : (k : ℕ) (m : List (ℕ × ℕ)) → length (without k m) ≤ length m
unfolding without
length-without k [] = omega arith
length-without k ((j, l) ∷ m) = ground (arith, length-without k m)

without_known :
    (k l : ℕ) (m : List (ℕ × ℕ)) → find_id k m ≡ some l → length (without k m) < length m
unfolding without find_id
without_known k l [] e = absurd (ground (arith, e))
without_known k l ((j, i) ∷ m) e = elim (Bool-cases (j == k)) [
  | inl same ↦ rw same (omega (arith, length-without k m))
  | inr away ↦ rw away (omega (arith, without_known k l m (ground (arith, e))))
]

wrapped_ne :
    (h i : ℕ)
    → suc i < 18446744073709551616
    → (h + 0) % 18446744073709551616 ≡ (h + 1 + i) % 18446744073709551616
    → ⊥
wrapped_ne h i low e = omega arith

wrapped_apart :
    (h i : ℕ)
    → suc i < 18446744073709551616
    → (h + 0) % 18446744073709551616 == (h + 1 + i) % 18446744073709551616 ≡ false
wrapped_apart h i low =
    elim (Bool-cases ((h + 0) % 18446744073709551616 == (h + 1 + i) % 18446744073709551616)) [
      | inl same ↦ absurd (wrapped_ne h i low (ground arith))
      | inr apart ↦ apart
    ]

-- As many numbers in a row as are known, the map has entries.
pub known_in_row :
    (n h : ℕ) (m : List (ℕ × ℕ))
    → n ≤ 18446744073709551616
    → ((i : ℕ) → i < n → find_id ((h + i) % 18446744073709551616) m ≢ none)
    → n ≤ length m
known_in_row zero h m low known = omega arith
known_in_row (suc n) h m low known =
    elim (Option-cases (find_id ((h + 0) % 18446744073709551616) m)) [
      | inl gone ↦ absurd (known 0 (omega arith) gone)
      | inr (l, here) ↦
          let k = (h + 0) % 18446744073709551616 in
          let fewer = without_known k l m here in
          let rest = known_in_row n (h + 1) (without k m) (omega arith) (later l) in omega arith
    ]
  where
    later :
        (l i : ℕ)
        → i < n
        → find_id ((h + 1 + i) % 18446744073709551616) (without ((h + 0) % 18446744073709551616) m)
          ≢ none
    later l i below gone =
        let next : h + suc i ≡ h + 1 + i = omega arith in
        let apart = wrapped_apart h i (omega arith) in
        known (suc i) (omega arith) (
          ap (λ k. find_id (k % 18446744073709551616) m) next
          ∙ sym (
              find_id-without ((h + 0) % 18446744073709551616) ((h + 1 + i) % 18446744073709551616)
                m apart)
          ∙ gone)
