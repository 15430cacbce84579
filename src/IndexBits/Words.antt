-- ===== src/IndexBits/Words.antt =====
-- What an index holds, word by word and bit by bit.
use openset.Prelude.{
  ℕ, zero, suc, ◌+◌, ◌/◌, ◌%◌, ◌^◌, ◌≤◌, ◌<◌, ◌≡◌, refl, ap, Bool, false, List, [], ◌∷◌, leb,
  if◌then◌else◌, length, get_or, replicate, length-replicate, get_or_beyond, get_or-replicate,
  arith,
}
use openset.IndexBits.{IndexBits, ints, memcpy, grow, last_bit, bit_state}
use openset.Word.{bit}
use openset.Word.Laws.{test_mask-bit, bit-zero}

-- Word i, and 0 past the end.
abbrev pub word_at : IndexBits → ℕ → ℕ
word_at b i = get_or b.words i 0

-- Every word fits 64 bits.
abbrev pub IsValid : IndexBits → Type 0
IsValid b = (i : ℕ) → word_at b i < 2 ^ 64

pub bit_state-bit : (b : IndexBits) (k : ℕ) → bit_state b k ≡ bit (word_at b (k / 64)) (k % 64)
unfolding bit_state
bit_state-bit b k = ground (
  arith,
  test_mask-bit (word_at b (k / 64)) (k % 64),
  get_or_beyond b.words (k / 64) 0,
  bit-zero (k % 64),
)

-- Indexes with the same words have the same bits.
pub bit_state_congr :
    (a b : IndexBits)
    → ((i : ℕ) → word_at a i ≡ word_at b i)
    → (k : ℕ) → bit_state a k ≡ bit_state b k
bit_state_congr a b h k = rw (bit_state-bit a k, bit_state-bit b k, h (k / 64))

pub length-memcpy : (dest source : List ℕ) → length (memcpy dest source) ≡ length dest
unfolding memcpy
length-memcpy dest [] = refl
length-memcpy [] (s ∷ source) = refl
length-memcpy (d ∷ dest) (s ∷ source) = ap suc (length-memcpy dest source)

pub get_or-memcpy :
    (n : ℕ) (source : List ℕ) (i : ℕ)
    → length source ≤ n
    → get_or (memcpy (replicate n 0) source) i 0 ≡ get_or source i 0
unfolding memcpy
get_or-memcpy n [] i h = get_or-replicate n i 0
get_or-memcpy zero (s ∷ source) i h = absurd (omega arith)
get_or-memcpy (suc n) (s ∷ source) zero h = refl
get_or-memcpy (suc n) (s ∷ source) (suc i) h = get_or-memcpy n source i (omega arith)

-- Growing adds words of 0, as many as asked for or 32 more.
pub ints-grow :
    (b : IndexBits) (required : ℕ) (exact : Bool)
    → ints (grow b required exact)
      ≡ (if leb required (ints b) then ints b else if exact then required else required + 32)
unfolding grow
ints-grow b required exact = ground (
  arith,
  length-memcpy (replicate (if exact then required else required + 32) 0) b.words,
  length-replicate {A = ℕ} (if exact then required else required + 32) 0,
)

pub word_at-grow :
    (b : IndexBits) (required : ℕ) (exact : Bool) (i : ℕ)
    → word_at (grow b required exact) i ≡ word_at b i
unfolding grow
word_at-grow b required exact i =
    ground (arith, get_or-memcpy (if exact then required else required + 32) b.words i)

pub place_holder-grow :
    (b : IndexBits) (required : ℕ) (exact : Bool)
    → (grow b required exact).place_holder ≡ b.place_holder
unfolding grow
place_holder-grow b required exact = ground arith

pub bit_state-grow :
    (b : IndexBits) (required : ℕ) (exact : Bool) (k : ℕ)
    → bit_state (grow b required exact) k ≡ bit_state b k
bit_state-grow b required exact =
    bit_state_congr (grow b required exact) b (word_at-grow b required exact)

pub word_at-last_bit : (b : IndexBits) (index i : ℕ) → word_at (last_bit b index) i ≡ word_at b i
unfolding last_bit
word_at-last_bit b index i = ground (arith, word_at-grow b (index / 64 + 1) false i)

-- The word of the index is inside the buffer.
pub last_bit-room : (b : IndexBits) (index : ℕ) → index / 64 < ints (last_bit b index)
unfolding last_bit
last_bit-room b index = ground (arith, ints-grow b (index / 64 + 1) false)
