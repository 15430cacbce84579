-- ===== src/Word/Laws.antt =====
-- The word operations of Word, digit by digit.
use Prim.Native.Nat.{bit_and, bit_or, bit_and-bitwise, bit_or-bitwise}
use native.Mathlib.Nat.{pow-suc, one-le-pow}
use openset.Prelude.{
  ℕ, zero, suc, ◌-◌, ◌*◌, ◌/◌, ◌^◌, ◌≤◌, ◌<◌, ◌≡◌, refl, ap, Bool, false, not, ◌&&◌, ◌||◌, ◌==◌,
  if◌then◌else◌, arith,
}
use openset.Word.{bit_mask, complement, test_mask, bit}
use openset.Word.Digits.{bit_and-halves, bit_or-halves}

bit_and-half : (a b : ℕ) → bit_and a b / 2 ≡ bit_and (a / 2) (b / 2)
bit_and-half a b = omega (arith, bit_and-halves a b)

bit_or-half : (a b : ℕ) → bit_or a b / 2 ≡ bit_or (a / 2) (b / 2)
bit_or-half a b = omega (arith, bit_or-halves a b)

pub bit-bit_and : (a b i : ℕ) → bit (bit_and a b) i ≡ (bit a i && bit b i)
unfolding bit
bit-bit_and a b zero = ground (arith, bit_and-halves a b)
bit-bit_and a b (suc i) = rw (bit_and-half a b) (bit-bit_and (a / 2) (b / 2) i)

pub bit-bit_or : (a b i : ℕ) → bit (bit_or a b) i ≡ (bit a i || bit b i)
unfolding bit
bit-bit_or a b zero = ground (arith, bit_or-halves a b)
bit-bit_or a b (suc i) = rw (bit_or-half a b) (bit-bit_or (a / 2) (b / 2) i)

pub bit-zero : (i : ℕ) → bit 0 i ≡ false
unfolding bit
bit-zero zero = refl
bit-zero (suc i) = bit-zero i

bit_mask-half : (i : ℕ) → bit_mask (suc i) / 2 ≡ bit_mask i
unfolding bit_mask
bit_mask-half i = omega (arith, pow-suc 2 i)

pub bit-bit_mask : (i k : ℕ) → bit (bit_mask i) k ≡ i == k
unfolding bit
bit-bit_mask zero zero = unfold bit_mask in refl
bit-bit_mask zero (suc k) = unfold bit_mask in ground (arith, bit-zero k)
bit-bit_mask (suc i) zero = unfold bit_mask in ground (arith, pow-suc 2 i)
bit-bit_mask (suc i) (suc k) = rw (bit_mask-half i) (ground (arith, bit-bit_mask i k))

-- A mask with one digit keeps that digit of the word, or nothing.
abbrev kept : Bool → ℕ → ℕ
kept b i = if b then 2 ^ i else 0

kept-suc : (b : Bool) (i : ℕ) → kept b (suc i) ≡ kept b i * 2
kept-suc b i = ground (arith, pow-suc 2 i)

kept-pos : (b : Bool) (i : ℕ) → kept b i == 0 ≡ not b
kept-pos b i = ground (arith, one-le-pow i 2)

bit_and-zero : (n w : ℕ) → w ≤ n → bit_and w 0 ≡ 0
bit_and-zero n zero h = refl
bit_and-zero zero (suc w) h = absurd (omega arith)
bit_and-zero (suc n) (suc w) h =
    omega (arith, bit_and-halves (suc w) 0, bit_and-zero n (suc w / 2) (omega arith))

bit_and-pow : (i w : ℕ) → bit_and w (2 ^ i) ≡ kept (bit w i) i
unfolding bit
bit_and-pow zero w = ground (arith, bit_and-halves w 1, bit_and-zero (w / 2) (w / 2))
bit_and-pow (suc i) w = omega (
  arith,
  bit_and-halves w (2 ^ suc i),
  bit_and-pow i (w / 2),
  kept-suc (bit (w / 2) i) i,
  ap (bit_and (w / 2)) (half-pow i),
  pow-suc 2 i,
)
  where
    half-pow : (i : ℕ) → 2 ^ suc i / 2 ≡ 2 ^ i
    half-pow i = omega (arith, pow-suc 2 i)

pub test_mask-bit : (w i : ℕ) → test_mask w i ≡ bit w i
unfolding test_mask
test_mask-bit w i = rw (bit_and-pow i w) (ground (arith, kept-pos (bit w i) i))

-- A word of n digits has no digit from n on.
pub bit-beyond : (n w i : ℕ) → w < 2 ^ n → n ≤ i → bit w i ≡ false
unfolding bit
bit-beyond zero w i h l = let e : w ≡ 0 = omega arith in rw e (bit-zero i)
bit-beyond (suc n) w zero h l = absurd (omega arith)
bit-beyond (suc n) w (suc i) h l = bit-beyond n (w / 2) i (omega (arith, pow-suc 2 n)) (omega arith)

complement-half : (n w : ℕ) → w < 2 ^ suc n → (2 ^ suc n - 1 - w) / 2 ≡ 2 ^ n - 1 - w / 2
complement-half n w h = omega (arith, pow-suc 2 n)

pub bit-pow-sub : (n w i : ℕ) → w < 2 ^ n → i < n → bit (2 ^ n - 1 - w) i ≡ not (bit w i)
unfolding bit
bit-pow-sub zero w i h l = absurd (omega arith)
bit-pow-sub (suc n) w zero h l = ground (arith, pow-suc 2 n)
bit-pow-sub (suc n) w (suc i) h l =
    rw (complement-half n w h) (bit-pow-sub n (w / 2) i (omega (arith, pow-suc 2 n)) (omega arith))

pub bit-complement : (w i : ℕ) → w < 2 ^ 64 → i < 64 → bit (complement w) i ≡ not (bit w i)
unfolding complement
bit-complement w i h l = bit-pow-sub 64 w i h l

pub complement-lt : (w : ℕ) → complement w < 2 ^ 64
unfolding complement
complement-lt w = omega arith

pub bit_and-lt : (n a b : ℕ) → a < 2 ^ n → bit_and a b < 2 ^ n
bit_and-lt zero a b h = let e : a ≡ 0 = omega arith in rw e (omega (arith, bit_and-bitwise 0 b))
bit_and-lt (suc n) a b h = omega (
  arith,
  bit_and-halves a b,
  pow-suc 2 n,
  bit_and-lt n (a / 2) (b / 2) (omega (arith, pow-suc 2 n)),
)

pub bit_or-lt : (n a b : ℕ) → a < 2 ^ n → b < 2 ^ n → bit_or a b < 2 ^ n
bit_or-lt zero a b h k = let e : a ≡ 0 = omega arith in rw e (omega (arith, bit_or-bitwise 0 b))
bit_or-lt (suc n) a b h k = omega (
  arith,
  bit_or-halves a b,
  pow-suc 2 n,
  bit_or-lt n (a / 2) (b / 2) (omega (arith, pow-suc 2 n)) (omega (arith, pow-suc 2 n)),
)

-- Words of n digits with the same digits are the same.
pub eq_of_bits : (n a b : ℕ) → a < 2 ^ n → b < 2 ^ n → ((i : ℕ) → bit a i ≡ bit b i) → a ≡ b
unfolding bit
eq_of_bits zero a b h k e = omega arith
eq_of_bits (suc n) a b h k e =
    let halves : a / 2 ≡ b / 2 =
      eq_of_bits n (a / 2) (b / 2) (omega (arith, pow-suc 2 n)) (omega (arith, pow-suc 2 n))
        (λ i. e (suc i)) in
    ground (arith, e 0, halves)
