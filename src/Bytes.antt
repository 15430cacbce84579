-- ===== src/Bytes.antt =====
-- Little-endian numbers in memory, as `recast<int64_t*>` reads and writes them. A byte is a number
-- below 256, and a number stands for its bit pattern. A read past the end, which the source does not
-- check, is none.
use native.Mathlib.Nat.{pow-suc}
use openset.Prelude.{
  ℕ, zero, suc, ◌+◌, ◌*◌, ◌/◌, ◌%◌, ◌^◌, ◌<◌, ◌≡◌, refl, List, [], ◌∷◌, ◌++◌, Option, none, some,
  length, arith,
}

unfoldable pub le_bytes : ℕ → ℕ → List ℕ
le_bytes zero x = []
le_bytes (suc n) x = (x % 256) ∷ le_bytes n (x / 256)

unfoldable pub read_le : ℕ → List ℕ → Option (ℕ × List ℕ)
read_le zero bs = some (0, bs)
read_le (suc n) [] = none
read_le (suc n) (b ∷ bs) = elim (read_le n bs) [
  | none ↦ none
  | some (high, rest) ↦ some (b + 256 * high, rest)
]

unfoldable pub take_bytes : ℕ → List ℕ → Option (List ℕ × List ℕ)
take_bytes zero bs = some ([], bs)
take_bytes (suc n) [] = none
take_bytes (suc n) (b ∷ bs) = elim (take_bytes n bs) [
  | none ↦ none
  | some (taken, rest) ↦ some (b ∷ taken, rest)
]

infixl 5 ◌>>=◌
abbrev pub ◌>>=◌ {ℓ κ} : {A : Type ℓ} {B : Type κ} → Option A → (A → Option B) → Option B
none >>= f = none
some a >>= f = f a

pub read_le-le_bytes :
    (n x : ℕ) (rest : List ℕ) → x < 256 ^ n → read_le n (le_bytes n x ++ rest) ≡ some (x, rest)
unfolding read_le le_bytes
read_le-le_bytes zero x rest h = ground arith
read_le-le_bytes (suc n) x rest h =
    let bound : x < 256 ^ n * 256 = rw pow-suc at h in
    rw (read_le-le_bytes n (x / 256) rest (omega arith), read_le) (ground arith)

pub take_bytes-append : (bs rest : List ℕ) → take_bytes (length bs) (bs ++ rest) ≡ some (bs, rest)
unfolding take_bytes
take_bytes-append [] rest = refl
take_bytes-append (b ∷ bs) rest = rw (take_bytes-append bs rest, take_bytes)

pub length-le_bytes : (n x : ℕ) → length (le_bytes n x) ≡ n
unfolding le_bytes
length-le_bytes zero x = refl
length-le_bytes (suc n) x = omega (arith, length-le_bytes n (x / 256))
