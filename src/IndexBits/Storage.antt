-- ===== src/IndexBits/Storage.antt =====
-- `store` and `mount`: the compressed form of an index that src/attributes.h keeps.
use openset.IndexBits.{IndexBits, ints, grow, memcpy, bit_set, population, linear_iter}
use openset.Prelude.{
  ℕ, ◌+◌, ◌-◌, ◌*◌, ◌%◌, ◌≤◌, ◌≡◌, ltb, true, false, List, [], ◌∷◌, ◌++◌, Option, none, some, ◌==◌,
  if◌then◌else◌, length, take, drop, replicate,
}

-- LZ4, of which the source uses one call each way. A block that was compressed from `n` words is
-- decompressed to these words when `n` words are asked for, and it is never empty.
pub record Lz4 : Type 1 where
  pub Block : Type 0
  pub compress : List ℕ → Block
  pub size : Block → ℕ
  pub decompress : Block → ℕ → List ℕ
  pub decompress-compress : (ws : List ℕ) → decompress (compress ws) (length ws) ≡ ws
  pub size_pos : (ws : List ℕ) → 1 ≤ size (compress ws)

-- A product that the source keeps in an `int`, of 32 bits. A negative one here is a multiple of 64, and
-- as a stop bit does what 0 does: no word is counted or scanned.
abbrev pub to_int : ℕ → ℕ
to_int n = if ltb (n % 4294967296) 2147483648 then n % 4294967296 else 0

-- `ints * 64`.
unfoldable pub all_bits : IndexBits → ℕ
all_bits b = to_int (ints b * 64)

-- A linear id of 64 bits in the `int32_t` of a record; a negative one is none, as -1 is.
abbrev pub to_lin_id : Option ℕ → Option ℕ
to_lin_id none = none
to_lin_id (some id) = if ltb (id % 4294967296) 2147483648 then some (id % 4294967296) else none

-- The loop of `store`: the first and the last index of a word that is not 0.
unfoldable pub bounds : List ℕ → ℕ → Option ℕ → ℕ → Option (ℕ × ℕ)
bounds [] idx none last = none
bounds [] idx (some first) last = some (first, last)
bounds (w ∷ ws) idx first last =
    bounds ws (idx + 1) (if w == 0 then first else elim first [ none ↦ some idx | some i ↦ some i ])
      (if w == 0 then last else idx)

module _ (lz4 : Lz4) where
  open lz4 use {Block, compress, size, decompress}

  -- The buffer that is returned, or the null pointer, and the reference arguments.
  pub record Stored : Type 0 where
    pub buffer : Option Block
    pub compressed_bytes : ℕ
    pub lin_id : Option ℕ
    pub offset : ℕ
    pub len : ℕ

  stored_words : IndexBits → ℕ × ℕ → Stored
  stored_words b (first, last) =
      let count = last - first + 1 in
      let block = compress (take count (drop first b.words)) in
      record {
        buffer = some block;
        compressed_bytes = size block;
        lin_id = none;
        offset = first;
        len = count;
      }

  abbrev stored_bare : Option ℕ → Stored
  stored_bare id = record { buffer = none; compressed_bytes = 0; lin_id = id; offset = 0; len = 0 }

  -- `linearIter(linId, …)` writes the id whether it finds one or not.
  unfoldable pub store : IndexBits → IndexBits × Stored
  unfolding stored_words all_bits
  store b =
      let b' = if ints b == 0 then grow b 1 true else b in
      let pop = population b' (all_bits b') in
      if pop == 0
      then (b', stored_bare none)
      else if pop == 1
      then (b', stored_bare (some (linear_iter b' none (all_bits b')).1))
      else (
        b',
        elim (bounds b'.words 0 none 0) [
          | some range ↦ stored_words b' range
          | none ↦ stored_bare none
        ],
      )

  abbrev pub decoded : Option Block → ℕ → List ℕ
  decoded none len = []
  decoded (some block) len = decompress block len

  unfoldable pub mount : Option Block → ℕ → ℕ → ℕ → Option ℕ → IndexBits
  mount buffer integers offset len (some id) =
      bit_set (record { words = 0 ∷ []; place_holder = false }) id
  mount buffer integers offset len none =
      if integers == 0 then record { words = 0 ∷ []; place_holder = false } else record {
        words =
            take offset (replicate integers 0)
            ++ memcpy (drop offset (replicate integers 0)) (decoded buffer len);
        place_holder = false;
      }
