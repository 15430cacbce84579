-- ===== src/Examples/Packing.antt =====
-- The theorems about the packing and the change of rows, at two rows of four columns.
use openset.Examples.Properties.{city}
use openset.Bytes.{le_bytes}
use openset.Grid.Diff.Changes.{listed, listed-iter_rows}
use openset.Grid.Diff.{cell_values, add_rows, iter_added, iter_removed}
use openset.Grid.Codec.Fill.{AreCells, AreEmpty}
use openset.Grid.Codec.Numbers.{AllCells}
use openset.Grid.Codec.Rows.{AllRows, AllShow, SessionOmitted, decode-encode_rows}
use openset.Grid.Codec.Runs.{IsCell}
use openset.Grid.Codec.{
  Reading, begun, new_row, encode_values, encode_cell, encode_cells, encode_rows, decode,
}
use openset.Grid.{Row, set_cell}
use openset.Properties.{Properties, property_at}
use openset.PropertyMapping.{PropertyMap, no_columns}
use openset.Prelude.{
  ℕ, ◌<◌, ◌≡◌, refl, true, false, List, [], ◌∷◌, ◌++◌, none, some, ◌==◌, if◌then◌else◌, length,
  replicate, arith,
}

-- The property 7 is a set.
abbrev tagged : Properties
tagged = record {
  properties = replicate 7 city ++ record city { is_set = true } ∷ [];
  name_map = [];
  customer_property_map = [];
  property_count = 8;
}

-- The stamp, the customer, the session and the set.
abbrev four_columns : PropertyMap
four_columns = record (no_columns 0) {
  uuid_prop_index = some 1;
  session_prop_index = some 2;
  property_map = 0 ∷ 2 ∷ 6 ∷ 7 ∷ [];
  reverse_map = λ p.
      if p == 0
      then some 0
      else if p == 2
      then some 1
      else if p == 6
      then some 2
      else if p == 7
      then some 3
      else none;
}

abbrev tags : List ℕ
tags = 5 ∷ 6 ∷ 7 ∷ []

abbrev empty_row : Row
empty_row = new_row four_columns 9

abbrev early : Row
early = 100 ∷ 9 ∷ 0 ∷ set_cell 2 1 ∷ []

abbrev late : Row
late = 200 ∷ 9 ∷ 0 ∷ 0 ∷ []

abbrev early_late : List Row
early_late = early ∷ late ∷ []

tags_low : AllCells tags
tags_low = (omega arith, (omega arith, (omega arith, tt)))

session_hidden : SessionOmitted tagged four_columns empty_row 30 tags tags_low
session_hidden s p here column = ground (arith, here, column)

plain_ok : (p v : ℕ) → v < 300 → (property_at tagged p).is_set ≡ false → IsCell tagged tags p v
plain_ok p v low plain = record {
  wide = omega (arith, low);
  short = λ is real. absurd (ground (arith, is, plain));
  inside = λ is real. absurd (ground (arith, is, plain));
}

no_tags_ok : IsCell tagged tags 7 0
no_tags_ok = record {
  wide = omega arith;
  short = λ is real. absurd (ground (arith, real));
  inside = λ is real. absurd (ground (arith, real));
}

two_tags_ok : IsCell tagged tags 7 (set_cell 2 1)
two_tags_ok = record {
  wide = omega arith;
  short = λ is real. omega arith;
  inside = λ is real. omega arith;
}

columns_ok :
    (stamp v : ℕ)
    → stamp < 300
    → IsCell tagged tags 7 v
    → AreCells tagged four_columns empty_row 30 tags tags_low four_columns.property_map
        (stamp ∷ 9 ∷ 0 ∷ v ∷ [])
        0
columns_ok stamp v low tags_ok = (
  omega arith,
  refl,
  plain_ok 0 stamp low refl,
  (
    omega arith,
    refl,
    plain_ok 2 9 (omega arith) refl,
    (omega arith, refl, plain_ok 6 0 (omega arith) refl, (omega arith, refl, tags_ok, tt)),
  ),
)

rows_ok : AllRows tagged four_columns empty_row 30 tags tags_low early_late
rows_ok = (
  columns_ok 100 (set_cell 2 1) (omega arith) two_tags_ok,
  (columns_ok 200 0 (omega arith) no_tags_ok, tt),
)

nothing_set :
    AreEmpty tagged four_columns empty_row 30 tags tags_low four_columns.property_map empty_row 0
nothing_set =
    (λ shown. refl, (λ shown. absurd (ground (arith, shown)), (λ shown. refl, (λ shown. refl, tt))))

decode-encode_rows_example :
    (last : Reading) × (decode tagged four_columns empty_row 30
        (length (encode_rows tagged four_columns tags early_late))
        (encode_rows tagged four_columns tags early_late)
        (begun empty_row)
      ≡ some last)
    × AllShow tagged four_columns empty_row 30 tags tags_low early_late last.rows last.set_data
unfolding encode_rows encode_cells encode_cell encode_values le_bytes
decode-encode_rows_example =
    decode-encode_rows tagged four_columns empty_row 30 tags tags_low early_late session_hidden
      rows_ok nothing_set refl (omega arith)

-- The values of the set go with the first row.
listed-iter_rows_example :
    (listed
        (7, 6)
        (iter_removed
          (add_rows tagged four_columns tags early_late [])
          (add_rows tagged four_columns tags (late ∷ []) []))
      ≡ true)
    × (listed
          (7, 6)
          (iter_added
            (add_rows tagged four_columns tags early_late [])
            (add_rows tagged four_columns tags (late ∷ []) []))
        ≡ false)
unfolding cell_values
listed-iter_rows_example =
    listed-iter_rows tagged four_columns tags tags early_late (late ∷ []) 7 6 refl
