-- ===== src/Result/Keys.antt =====
-- `RowKey` of src/result.h: the order and the equality of group keys.
--
-- A key is the list of its `keyDepth` numbers. Two lists of different length, which never occur, are
-- ordered too, the one that ends first before the other.
use openset.Prelude.{
  ℕ, ◌≡◌, refl, ◌⊎◌, inl, inr, Bool, true, false, ◌&&◌, List, [], ◌∷◌, ltb, ◌==◌, if◌then◌else◌,
  arith,
}

abbrev pub Key : Type 0
Key = List ℕ

abbrev pub key_depth : ℕ
key_depth = 8

-- `operator==`, which compares the memory of the keys.
unfoldable pub key_eq : Key → Key → Bool
key_eq [] [] = true
key_eq [] (b ∷ l) = false
key_eq (a ∷ k) [] = false
key_eq (a ∷ k) (b ∷ l) = a == b && key_eq k l

-- `operator<`.
unfoldable pub key_lt : Key → Key → Bool
key_lt [] [] = false
key_lt [] (b ∷ l) = true
key_lt (a ∷ k) [] = false
key_lt (a ∷ k) (b ∷ l) = if ltb b a then false else if ltb a b then true else key_lt k l

pub key_eq_refl : (k : Key) → key_eq k k ≡ true
unfolding key_eq
key_eq_refl [] = refl
key_eq_refl (a ∷ k) = ground (arith, key_eq_refl k)

pub eq_of_key_eq : (k l : Key) → key_eq k l ≡ true → k ≡ l
unfolding key_eq
eq_of_key_eq [] [] h = refl
eq_of_key_eq [] (b ∷ l) h = cc
eq_of_key_eq (a ∷ k) [] h = cc
eq_of_key_eq (a ∷ k) (b ∷ l) h = ground (arith, eq_of_key_eq k l)

pub key_lt_irrefl : (k : Key) → key_lt k k ≡ false
unfolding key_lt
key_lt_irrefl [] = refl
key_lt_irrefl (a ∷ k) = ground (arith, key_lt_irrefl k)

pub key_lt_trans : (k l m : Key) → key_lt k l ≡ true → key_lt l m ≡ true → key_lt k m ≡ true
unfolding key_lt
key_lt_trans [] [] m p q = cc
key_lt_trans [] (b ∷ l) [] p q = cc
key_lt_trans [] (b ∷ l) (c ∷ m) p q = refl
key_lt_trans (a ∷ k) [] m p q = cc
key_lt_trans (a ∷ k) (b ∷ l) [] p q = cc
key_lt_trans (a ∷ k) (b ∷ l) (c ∷ m) p q = ground (arith, key_lt_trans k l m)

-- One key comes before the other, or they are equal.
pub key_compare : (k l : Key) → (key_lt k l ≡ true) ⊎ ((key_eq k l ≡ true) ⊎ (key_lt l k ≡ true))
unfolding key_lt key_eq
key_compare [] [] = inr (inl refl)
key_compare [] (b ∷ l) = inl refl
key_compare (a ∷ k) [] = inr (inr refl)
key_compare (a ∷ k) (b ∷ l) = ground (arith, key_compare k l)

pub key_eq_of_lt : (k l : Key) → key_lt k l ≡ true → key_eq k l ≡ false
unfolding key_lt key_eq
key_eq_of_lt [] [] h = cc
key_eq_of_lt [] (b ∷ l) h = refl
key_eq_of_lt (a ∷ k) [] h = refl
key_eq_of_lt (a ∷ k) (b ∷ l) h = ground (arith, key_eq_of_lt k l)
