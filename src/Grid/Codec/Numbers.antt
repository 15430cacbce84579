-- ===== src/Grid/Codec/Numbers.antt =====
-- The numbers and the values of a cell, written and read.
use openset.Bytes.{le_bytes, read_le-le_bytes, length-le_bytes}
use openset.Grid.{bits_of, set_length, set_offset, set_cell, slice}
use openset.Grid.Codec.{cell_of, short_count, widened, encode_values, read_values}
use openset.Prelude.{
  ℕ, zero, suc, ◌*◌, ◌%◌, ◌^◌, ◌<◌, ◌≡◌, refl, ap, true, false, List, [], ◌∷◌, ◌++◌, some, ltb,
  ◌==◌, length, take, drop, arith, length-append,
}
use mathlib.Core.List.{append_assoc}

pub bits_of_low : (v : ℕ) → bits_of v < 256 ^ 8
bits_of_low v = omega arith

pub cell_of-bits_of : (v : ℕ) → v < 18446744073709551616 → cell_of (bits_of v) ≡ v
cell_of-bits_of v h = omega arith

pub set_length-set_cell :
    (n o : ℕ) → n < 4294967296 → o < 2147483648 → set_length (set_cell n o) ≡ n
set_length-set_cell n o h l = omega arith

pub set_offset-set_cell :
    (n o : ℕ) → n < 4294967296 → o < 2147483648 → set_offset (set_cell n o) ≡ o
set_offset-set_cell n o h l = omega arith

pub set_cell_some : (n o : ℕ) → n < 4294967296 → o < 2147483648 → set_cell n o == 0 ≡ false
set_cell_some n o h l = let e : 0 < set_cell n o = omega arith in ground (arith, e)

-- Each value is a number of 64 bits.
abbrev pub AllCells : List ℕ → Type 0
AllCells [] = Unit
AllCells (v ∷ vs) = (v < 18446744073709551616) × AllCells vs

pub AllCells-take : (n : ℕ) (vs : List ℕ) → AllCells vs → AllCells (take n vs)
AllCells-take zero vs all = tt
AllCells-take (suc n) [] all = tt
AllCells-take (suc n) (v ∷ vs) (low, all) = (low, AllCells-take n vs all)

pub AllCells-drop : (n : ℕ) (vs : List ℕ) → AllCells vs → AllCells (drop n vs)
AllCells-drop zero vs all = all
AllCells-drop (suc n) [] all = tt
AllCells-drop (suc n) (v ∷ vs) (low, all) = AllCells-drop n vs all

pub read_values-encode_values :
    (vs rest : List ℕ)
    → AllCells vs
    → read_values (length vs) (encode_values vs ++ rest) ≡ some (vs, rest)
unfolding encode_values read_values
read_values-encode_values [] rest all = refl
read_values-encode_values (v ∷ vs) rest (low, all) = rw (
  append_assoc (le_bytes 8 (bits_of v)) (encode_values vs) rest,
  read_le-le_bytes 8 (bits_of v) (encode_values vs ++ rest) (bits_of_low v),
  read_values-encode_values vs rest all,
  cell_of-bits_of v low,
)

pub length-encode_values : (vs : List ℕ) → length (encode_values vs) ≡ 8 * length vs
unfolding encode_values
length-encode_values [] = refl
length-encode_values (v ∷ vs) = omega (
  arith,
  length-append (le_bytes 8 (bits_of v)) (encode_values vs),
  length-le_bytes 8 (bits_of v),
  length-encode_values vs,
)

-- The values that lie behind others, whatever follows.
pub slice_behind :
    (before vs after : List ℕ) → slice (before ++ (vs ++ after)) (length before) (length vs) ≡ vs
slice_behind [] [] after = refl
slice_behind [] (v ∷ vs) after = ap (λ r. v ∷ r) (slice_behind [] vs after)
slice_behind (b ∷ before) vs after = slice_behind before vs after

pub short_count_of : (n : ℕ) → n < 32768 → (short_count n ≡ n) × (widened n ≡ n)
short_count_of n h =
    let e : n % 65536 ≡ n = omega (arith, h) in
    let low : ltb n 32768 ≡ true = ground (arith, h) in (rw (e, low) refl, rw (e, low) refl)
