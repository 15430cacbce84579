-- ===== src/Grid/Codec.antt =====
-- `commit` and `prepare` of src/grid.cpp: the rows of a customer as bytes and back.
--
-- The bytes are those that LZ4 compresses and expands. A cell that is not NONE is its property and
-- its 64 bits, or its property, the number of its values and the values; 65535, which is -1 in 16 bits,
-- ends a row. A read past the end is none.
pub mod Numbers
pub mod Runs
pub mod Cells
pub mod Fill
pub mod Rows
use openset.Attributes.{none_value}
use openset.Bytes.{le_bytes, read_le, ◌>>=◌}
use openset.Grid.{Row, cell, stamp_of, bits_of, set_length, set_offset, set_cell, slice, is_omitted}
use openset.Properties.{Properties, property_at}
use openset.PropertyMapping.{PropertyMap, property_count}
use openset.Prelude.{
  ℕ, zero, suc, ◌+◌, ◌%◌, Bool, true, false, ◌||◌, List, [], ◌∷◌, ◌++◌, Option, none, some, ltb,
  ◌==◌, if◌then◌else◌, length, set, replicate,
}

abbrev pub row_end : ℕ
row_end = 65535

-- How often a loop up to a number of 16 bits runs: not at all where it is negative.
abbrev pub short_count : ℕ → ℕ
short_count n = if ltb (n % 65536) 32768 then n % 65536 else 0

-- The same number in 32 bits.
abbrev pub widened : ℕ → ℕ
widened n = if ltb (n % 65536) 32768 then n % 65536 else n % 65536 + 4294901760

abbrev pub cell_of : ℕ → ℕ
cell_of bits = (bits + 9223372036854775808) % 18446744073709551616

unfoldable pub encode_values : List ℕ → List ℕ
encode_values [] = []
encode_values (v ∷ vs) = le_bytes 8 (bits_of v) ++ encode_values vs

unfoldable pub encode_cell : Properties → List ℕ → ℕ → ℕ → List ℕ
encode_cell props set_data p v =
    if v == none_value || is_omitted p
    then []
    else if (property_at props p).is_set
    then le_bytes 2 p
      ++ (le_bytes 2 (set_length v)
          ++ encode_values (slice set_data (set_offset v) (short_count (set_length v))))
    else le_bytes 2 p ++ le_bytes 8 (bits_of v)

unfoldable pub encode_cells : Properties → List ℕ → List ℕ → Row → List ℕ
encode_cells props set_data [] row = []
encode_cells props set_data (p ∷ properties) [] = []
encode_cells props set_data (p ∷ properties) (v ∷ row) =
    encode_cell props set_data p v ++ encode_cells props set_data properties row

-- `pushRow`, for every row.
unfoldable pub encode_rows : Properties → PropertyMap → List ℕ → List Row → List ℕ
encode_rows props cm set_data [] = []
encode_rows props cm set_data (row ∷ rows) =
    encode_cells props set_data cm.property_map row
    ++ (le_bytes 2 row_end ++ encode_rows props cm set_data rows)

-- What `prepare` keeps: the row that it fills, and what it has read.
pub record Reading : Type 0 where
  pub row : Row
  pub rows : List Row
  pub set_data : List ℕ
  pub session : ℕ
  pub last_session_time : ℕ

abbrev pub new_row : PropertyMap → ℕ → Row
new_row cm id = elim cm.uuid_prop_index [
  | none ↦ replicate (property_count cm) none_value
  | some c ↦ set (replicate (property_count cm) none_value) c id
]

-- Before the first byte; the time of the last session is 0.
abbrev pub begun : Row → Reading
begun blank = record {
  row = blank;
  rows = [];
  set_data = [];
  session = 0;
  last_session_time = 9223372036854775808;
}

unfoldable pub read_values : ℕ → List ℕ → Option (List ℕ × List ℕ)
read_values zero bytes = some ([], bytes)
read_values (suc n) bytes =
    read_le 8 bytes
    >>= (λ (bits, rest). read_values n rest >>= (λ (vs, more). some (cell_of bits ∷ vs, more)))

-- A property that has no column is skipped; no column is at the count of columns or beyond.
abbrev pub set_mapped : Option ℕ → Row → ℕ → Row
set_mapped none row v = row
set_mapped (some c) row v = set row c v

module _ (props : Properties) (cm : PropertyMap) (blank : Row) (session_time : ℕ) where
  abbrev pub number_session : Reading → Reading
  number_session r = elim cm.session_prop_index [
    | none ↦ r
    | some c ↦
        let next =
          if ltb (r.last_session_time + session_time) (stamp_of r.row)
          then r.session + 1
          else r.session in
        record r {
          row = set r.row c (next + 9223372036854775808);
          session = next;
          last_session_time = stamp_of r.row;
        }
  ]

  abbrev pub finish_row : Reading → Reading
  finish_row r =
      let done = number_session r in record done { row = blank; rows = done.rows ++ done.row ∷ [] }

  unfoldable pub decode_cell : ℕ → List ℕ → Reading → Option (Reading × List ℕ)
  decode_cell p bytes r =
      if (property_at props p).is_set
      then read_le 2 bytes >>= (λ (count, rest).
        read_values (short_count count) rest >>= (λ (vs, more). some (
          record r {
            row =
                set_mapped (cm.reverse_map p) r.row (set_cell (widened count) (length r.set_data));
            set_data = r.set_data ++ vs;
          },
          more,
        )))
      else read_le 8 bytes >>= (λ (bits, rest).
        some (record r { row = set_mapped (cm.reverse_map p) r.row (cell_of bits) }, rest))

  unfoldable pub decode_step : List ℕ → Reading → Option (Reading × List ℕ)
  decode_step bytes r =
      read_le 2 bytes
      >>= (λ (p, rest). if p == row_end then some (finish_row r, rest) else decode_cell p rest r)

  -- The loop of `prepare`.
  unfoldable pub decode : ℕ → List ℕ → Reading → Option Reading
  decode fuel [] r = some r
  decode zero (b ∷ bytes) r = none
  decode (suc fuel) (b ∷ bytes) r =
      decode_step (b ∷ bytes) r >>= (λ (r', rest). decode fuel rest r')
