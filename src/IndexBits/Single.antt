-- ===== src/IndexBits/Single.antt =====
-- `bitSet`, `bitClear`, `lastBit` and `makeBits` as updates of a set of linear ids.
use Prim.Native.Nat.{bit_and, bit_or}
use native.Mathlib.Nat.{pow-le-pow_right}
use openset.Prelude.{
  ℕ, zero, suc, ◌+◌, ◌-◌, ◌*◌, ◌/◌, ◌%◌, ◌^◌, ◌≤◌, ◌<◌, ◌≡◌, refl, Bool, true, false, not, ◌&&◌,
  List, [], ◌∷◌, map, ltb, leb, ◌==◌, if◌then◌else◌, length, get_or, get_or-set_self, get_or-set_ne,
  arith, inl, inr, Bool-cases,
}
use openset.IndexBits.Words.{
  word_at, IsValid, bit_state-bit, word_at-last_bit, last_bit-room, ints-grow,
}
use openset.IndexBits.{
  IndexBits, ints, grow, last_bit, bit_state, reset, modify, bit_set, bit_clear, clear_range,
  make_bits,
}
use openset.Word.{bit, bit_mask, complement, word_max}
use openset.Word.Laws.{
  bit-bit_and, bit-bit_or, bit-bit_mask, bit-complement, bit_and-lt, bit_or-lt, bit-zero,
}

word_at-modify :
    (b : IndexBits) (pos : ℕ) (f : ℕ → ℕ) (i : ℕ)
    → pos < ints b
    → word_at (modify b pos f) i ≡ (if pos == i then f (word_at b i) else word_at b i)
word_at-modify b pos f i h = elim (Bool-cases (pos == i)) [
  | inl same ↦
      let e : pos ≡ i = ground arith in
      rw (same, ← e) (get_or-set_self b.words pos (f (word_at b pos)) 0 h)
  | inr apart ↦ rw apart (get_or-set_ne b.words pos i (f (word_at b pos)) 0 (ground arith))
]

mask-lt : (i : ℕ) → bit_mask (i % 64) < 2 ^ 64
unfolding bit_mask
mask-lt i =
    let least : 2 ^ (i % 64) ≤ 2 ^ 63 = pow-le-pow_right (omega arith) {j = 63} (omega arith) in
    omega arith

word_at-bit_set :
    (b : IndexBits) (index i : ℕ)
    → word_at (bit_set b index) i
      ≡ (if index / 64 == i then bit_or (word_at b i) (bit_mask (index % 64)) else word_at b i)
unfolding bit_set
word_at-bit_set b index i = rw (
  word_at-modify (last_bit b index) (index / 64) (λ w. bit_or w (bit_mask (index % 64))) i
      (last_bit-room b index),
  word_at-last_bit b index i,
)

word_at-bit_clear :
    (b : IndexBits) (index i : ℕ)
    → word_at (bit_clear b index) i ≡ (
        if index / 64 == i
        then bit_and (word_at b i) (complement (bit_mask (index % 64)))
        else word_at b i)
unfolding bit_clear
word_at-bit_clear b index i = rw (
  word_at-modify (last_bit b index) (index / 64)
      (λ w. bit_and w (complement (bit_mask (index % 64)))) i (last_bit-room b index),
  word_at-last_bit b index i,
)

-- Two indexes are equal when word and digit are.
same_index : (i k : ℕ) → i == k ≡ (i / 64 == k / 64 && i % 64 == k % 64)
same_index i k = ground arith

-- `bitSet` turns its own bit on and leaves every other bit as it was, also past the old end.
pub bit_state-bit_set :
    (b : IndexBits) (index k : ℕ)
    → bit_state (bit_set b index) k ≡ (if index == k then true else bit_state b k)
bit_state-bit_set b index k =
    rw
      (
        bit_state-bit (bit_set b index) k,
        bit_state-bit b k,
        word_at-bit_set b index (k / 64),
        same_index index k,
      )
      (ground (
        arith,
        bit-bit_or (word_at b (k / 64)) (bit_mask (index % 64)) (k % 64),
        bit-bit_mask (index % 64) (k % 64),
      ))

-- `bitClear` turns its own bit off and leaves every other bit as it was.
pub bit_state-bit_clear :
    (b : IndexBits) (index k : ℕ)
    → bit_state (bit_clear b index) k ≡ (if index == k then false else bit_state b k)
bit_state-bit_clear b index k =
    rw
      (
        bit_state-bit (bit_clear b index) k,
        bit_state-bit b k,
        word_at-bit_clear b index (k / 64),
        same_index index k,
      )
      (ground (
        arith,
        bit-bit_and (word_at b (k / 64)) (complement (bit_mask (index % 64))) (k % 64),
        bit-complement (bit_mask (index % 64)) (k % 64) (mask-lt index) (omega arith),
        bit-bit_mask (index % 64) (k % 64),
      ))

pub bit_set-IsValid : (b : IndexBits) (index : ℕ) → IsValid b → IsValid (bit_set b index)
bit_set-IsValid b index v i =
    rw (word_at-bit_set b index i) (
      ground (arith, v i, bit_or-lt 64 (word_at b i) (bit_mask (index % 64)) (v i) (mask-lt index)))

pub bit_clear-IsValid : (b : IndexBits) (index : ℕ) → IsValid b → IsValid (bit_clear b index)
bit_clear-IsValid b index v i =
    rw (word_at-bit_clear b index i)
      (ground (arith, v i, bit_and-lt 64 (word_at b i) (complement (bit_mask (index % 64))) (v i)))

pub bit_state-clear_range :
    (b : IndexBits) (index n k : ℕ)
    → bit_state (clear_range b index n) k
      ≡ (bit_state b k && not (leb index k && ltb k (index + n)))
unfolding clear_range
bit_state-clear_range b index zero k = ground arith
bit_state-clear_range b index (suc n) k =
    rw (bit_state-clear_range (bit_clear b index) (index + 1) n k, bit_state-bit_clear b index k)
      (ground arith)

get_or-fill :
    (n : ℕ) (v i : ℕ) (xs : List ℕ)
    → length xs ≡ n
    → get_or (map (λ _. v) xs) i 0 ≡ (if ltb i n then v else 0)
get_or-fill n v i [] h = ground arith
get_or-fill n v zero (x ∷ xs) h = ground arith
get_or-fill n v (suc i) (x ∷ xs) h = ground (arith, get_or-fill (length xs) v i xs refl)

bit-word_max : (i : ℕ) → i < 64 → bit word_max i ≡ true
unfolding complement
bit-word_max i h = rw (bit-complement 0 i (omega arith) h) (ground (arith, bit-zero i))

abbrev filled : ℕ → ℕ → IndexBits
filled pos v =
    let grown = grow reset (pos + 1) true in record grown { words = map (λ _. v) grown.words }

word_at-filled : (pos v i : ℕ) → word_at (filled pos v) i ≡ (if ltb i (pos + 1) then v else 0)
word_at-filled pos v i =
    get_or-fill (pos + 1) v i (grow reset (pos + 1) true).words
      (ground (arith, ints-grow reset (pos + 1) true))

bit_state-filled : (pos k : ℕ) → bit_state (filled pos word_max) k ≡ ltb k ((pos + 1) * 64)
bit_state-filled pos k =
    rw (bit_state-bit (filled pos word_max) k, word_at-filled pos word_max (k / 64))
      (ground (arith, bit-word_max (k % 64), bit-zero (k % 64)))

bit_state-empty : (pos k : ℕ) → bit_state (filled pos 0) k ≡ false
bit_state-empty pos k =
    rw (bit_state-bit (filled pos 0) k, word_at-filled pos 0 (k / 64))
      (ground (arith, bit-zero (k % 64)))

-- `makeBits(index, 1)` holds exactly the ids below `index`, and `makeBits(index, 0)` holds none.
pub bit_state-make_bits :
    (index : ℕ) (state : Bool) (k : ℕ)
    → bit_state (make_bits index state) k ≡ (state && ltb k index)
unfolding make_bits
bit_state-make_bits index false k = bit_state-empty (index / 64) k
bit_state-make_bits index true k =
    rw
      (
        bit_state-clear_range (filled (index / 64) word_max) index ((index / 64 + 1) * 64 - index)
            k,
        bit_state-filled (index / 64) k,
      )
      (ground arith)
