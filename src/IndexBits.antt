-- ===== src/IndexBits.antt =====
-- src/indexbits.h and src/indexbits.cpp: the bit index over customers, one bit for each linear id.
--
-- `bits` with `ints` is the list of its words, and the null pointer is the empty list. Buffers come
-- from the memory pool, whose failure the source does not handle either. An index is a number that
-- fits `int64_t`, and the word count one that fits `int32_t`.
pub mod Words
pub mod Single
pub mod Combine
pub mod Population
pub mod Iterate
pub mod Storage
pub mod Restore
use Prim.Native.Nat.{bit_and, bit_or}
use openset.Prelude.{
  ℕ, zero, suc, ◌+◌, ◌-◌, ◌*◌, ◌/◌, ◌%◌, Bool, true, false, ◌||◌, List, [], ◌∷◌, map, Option, none,
  some, ltb, leb, ◌==◌, if◌then◌else◌, length, get_or, set, take, drop, replicate,
}
use openset.Word.{bit_mask, complement, test_mask, popcount, word_max}

pub record IndexBits : Type 0 where
  pub words : List ℕ
  pub place_holder : Bool

abbrev pub ints : IndexBits → ℕ
ints b = length b.words

-- `memcpy` of all of `source` over the front of `dest`.
unfoldable pub memcpy : List ℕ → List ℕ → List ℕ
memcpy dest [] = dest
memcpy [] (s ∷ source) = []
memcpy (d ∷ dest) (s ∷ source) = s ∷ memcpy dest source

abbrev pub reset : IndexBits
reset = record { words = []; place_holder = false }

unfoldable pub grow : IndexBits → ℕ → Bool → IndexBits
unfolding memcpy
grow b required exact = if leb required (ints b) then b else record b {
  words = memcpy (replicate (if exact then required else required + 32) 0) b.words;
}

-- `lastBit`, which `bitSet` and `bitClear` also begin with.
unfoldable pub last_bit : IndexBits → ℕ → IndexBits
unfolding grow
last_bit b index = let pos = index / 64 in if leb (ints b) pos then grow b (pos + 1) false else b

-- `bits[pos] = f(bits[pos])`.
abbrev pub modify : IndexBits → ℕ → (ℕ → ℕ) → IndexBits
modify b pos f = record b { words = set b.words pos (f (get_or b.words pos 0)) }

unfoldable pub bit_set : IndexBits → ℕ → IndexBits
unfolding last_bit
bit_set b index = modify (last_bit b index) (index / 64) (λ w. bit_or w (bit_mask (index % 64)))

unfoldable pub bit_clear : IndexBits → ℕ → IndexBits
unfolding last_bit
bit_clear b index =
    modify (last_bit b index) (index / 64) (λ w. bit_and w (complement (bit_mask (index % 64))))

unfoldable pub bit_state : IndexBits → ℕ → Bool
unfolding test_mask
bit_state b index =
    let pos = index / 64 in
    if leb (ints b) pos then false else test_mask (get_or b.words pos 0) (index % 64)

-- `for (i = index; i < index + n; i++) bitClear(i)`.
unfoldable pub clear_range : IndexBits → ℕ → ℕ → IndexBits
unfolding bit_clear
clear_range b index zero = b
clear_range b index (suc n) = clear_range (bit_clear b index) (index + 1) n

unfoldable pub make_bits : ℕ → Bool → IndexBits
unfolding grow clear_range
make_bits index state =
    let pos = index / 64 in
    let grown = grow reset (pos + 1) true in
    let filled = record grown { words = map (λ _. if state then word_max else 0) grown.words } in
    if state then clear_range filled index ((pos + 1) * 64 - index) else filled

-- The words of `dest`, each combined with the word of `source` at its place.
unfoldable pub zip_words : (ℕ → ℕ → ℕ) → List ℕ → List ℕ → List ℕ
zip_words f dest [] = dest
zip_words f [] (s ∷ source) = []
zip_words f (d ∷ dest) (s ∷ source) = f d s ∷ zip_words f dest source

-- `if (other.ints > b.ints) b.grow(other.ints)`, which is made of `this` or of `source`.
unfoldable pub widen : IndexBits → IndexBits → IndexBits
unfolding grow
widen b other = if ltb (ints b) (ints other) then grow b (ints other) true else b

-- The body that `opAnd`, `opOr` and `opAndNot` share: it changes `this`, and may lengthen `source`.
unfoldable pub combine : (ℕ → ℕ → ℕ) → IndexBits → IndexBits → IndexBits × IndexBits
unfolding widen zip_words
combine f this source =
    if this.place_holder || source.place_holder
    then (this, source)
    else if ints source == 0
    then (this, source)
    else let this' = widen this source in
      let source' = widen source this in
      (record this' { words = zip_words f this'.words source'.words }, source')

unfoldable pub op_and : IndexBits → IndexBits → IndexBits × IndexBits
unfolding combine
op_and = combine bit_and

unfoldable pub op_or : IndexBits → IndexBits → IndexBits × IndexBits
unfolding combine
op_or = combine bit_or

unfoldable pub op_and_not : IndexBits → IndexBits → IndexBits × IndexBits
unfolding combine
op_and_not = combine (λ d s. bit_and d (complement s))

unfoldable pub op_not : IndexBits → IndexBits
op_not b = if b.place_holder then b else record b { words = map complement b.words }

-- `opCopy`; the constructors and the assignment operator copy by it.
unfoldable pub op_copy : IndexBits → IndexBits
unfolding grow memcpy
op_copy source =
    let grown = grow reset (ints source) true in
    record { words = memcpy grown.words source.words; place_holder = source.place_holder }

unfoldable pub op_copy_not : IndexBits → IndexBits
unfolding op_copy op_not
op_copy_not source = op_not (op_copy source)

unfoldable pub count_words : List ℕ → ℕ
count_words [] = 0
count_words (w ∷ ws) = popcount 64 w + count_words ws

-- `for (; idx < idx + n; ++idx) count += bitState(idx) ? 1 : 0`.
unfoldable pub count_range : IndexBits → ℕ → ℕ → ℕ
unfolding bit_state
count_range b idx zero = 0
count_range b idx (suc n) = (if bit_state b idx then 1 else 0) + count_range b (idx + 1) n

unfoldable pub population : IndexBits → ℕ → ℕ
unfolding count_words count_range popcount
population b stop_bit =
    let past = ltb (ints b) (stop_bit / 64) in
    let last_int = if past then ints b else stop_bit / 64 in
    let stop = if past then last_int * 64 else stop_bit in
    if ints b == 0
    then 0
    else count_words (take last_int b.words) + count_range b (last_int * 64) (stop - last_int * 64)

-- The inner loop of `linearIter`: the first i with a digit, among the `n` from `i` on.
unfoldable pub scan_word : ℕ → ℕ → ℕ → Option ℕ
unfolding test_mask
scan_word w i zero = none
scan_word w i (suc n) = let rest = scan_word w (i + 1) n in if test_mask w i then some i else rest

-- The outer loop. The list holds the words from `current` on; the result is the value returned with
-- the linear id that the reference argument is left with.
unfoldable pub iter_words : List ℕ → ℕ → ℕ → ℕ → Bool × ℕ
unfolding scan_word
iter_words [] current lin_id stop_bit = (false, lin_id)
iter_words (w ∷ ws) current lin_id stop_bit =
    let rest = iter_words ws (current + 1) ((current + 1) * 64) stop_bit in
    if w == 0
    then rest
    else if leb stop_bit lin_id
    then (false, lin_id)
    else elim (scan_word w (lin_id % 64) (64 - lin_id % 64)) [
      | some i ↦ (true, current * 64 + i)
      | none ↦ rest
    ]

-- A linear id is none where the source has -1; `++linId` is the bit to begin at.
abbrev pub next_id : Option ℕ → ℕ
next_id none = 0
next_id (some n) = n + 1

unfoldable pub linear_iter : IndexBits → Option ℕ → ℕ → Bool × ℕ
unfolding iter_words
linear_iter b lin_id stop_bit =
    let start = next_id lin_id in iter_words (drop (start / 64) b.words) (start / 64) start stop_bit
