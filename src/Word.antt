-- ===== src/Word.antt =====
-- The 64-bit words of src/indexbits.cpp and the single-bit masks of src/dbtypes.h. A word is a
-- number below 2 ^ 64; `&`, `|` and `~` are the native operations and the complement to 2 ^ 64 - 1.
mod Digits
pub mod Laws
use Prim.Native.Nat.{bit_and}
use openset.Prelude.{ℕ, zero, suc, ◌+◌, ◌-◌, ◌/◌, ◌%◌, ◌^◌, Bool, not, ◌==◌}

abbrev pub word_max : ℕ
word_max = 2 ^ 64 - 1

-- BITMASK[i], for i < 64.
unfoldable pub bit_mask : ℕ → ℕ
bit_mask i = 2 ^ i

-- `~w`.
unfoldable pub complement : ℕ → ℕ
complement w = word_max - w

-- `w & BITMASK[i]`, as a condition.
unfoldable pub test_mask : ℕ → ℕ → Bool
unfolding bit_mask
test_mask w i = not (bit_and w (bit_mask i) == 0)

-- Binary digit i, the meaning that `test_mask` is proved to have.
unfoldable pub bit : ℕ → ℕ → Bool
bit w zero = w % 2 == 1
bit w (suc i) = bit (w / 2) i

-- `__builtin_popcountll`: how many of the low `n` digits are 1 (n is 64).
unfoldable pub popcount : ℕ → ℕ → ℕ
popcount zero w = 0
popcount (suc n) w = w % 2 + popcount n (w / 2)
