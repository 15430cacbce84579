-- ===== src/Grid/Codec/Runs.antt =====
-- Runs of the loop of `prepare` over one cell.
use openset.Attributes.{none_value}
use openset.Bytes.{le_bytes, read_le-le_bytes, length-le_bytes, ◌>>=◌}
use openset.Grid.{Row, bits_of, set_length, set_offset, set_cell, set_values}
use openset.Grid.Codec.Numbers.{
  bits_of_low, cell_of-bits_of, AllCells, read_values-encode_values, short_count_of,
}
use openset.Grid.Codec.{
  Reading, row_end, encode_values, read_values, decode_cell, decode_step, decode, finish_row,
}
use openset.Properties.{Properties, property_at}
use openset.PropertyMapping.{PropertyMap}
use openset.Prelude.{
  ℕ, suc, ◌+◌, ◌≤◌, ◌<◌, ◌≡◌, refl, ◌∙◌, true, false, List, [], ◌∷◌, ◌++◌, Option, none, some, ◌==◌,
  if◌then◌else◌, length, set, arith, length-append,
}
use mathlib.Core.List.{append_assoc, append-nil}

-- What a cell stands for: nothing, the values of a set, or one value.
abbrev pub view : Properties → List ℕ → ℕ → ℕ → Option (List ℕ)
view props set_data p v =
    if v == none_value
    then none
    else some (if (property_at props p).is_set then set_values set_data v else v ∷ [])

-- A cell of 64 bits; a set has fewer than 2 ^ 15 values, which are in the data.
pub record IsCell (props : Properties) (set_data : List ℕ) (p v : ℕ) : Type 0 where
  pub wide : v < 18446744073709551616
  pub short : (property_at props p).is_set ≡ true → v == none_value ≡ false → set_length v < 32768
  pub inside :
      (property_at props p).is_set ≡ true
      → v == none_value ≡ false
      → set_offset v + set_length v ≤ length set_data

module _ (props : Properties) (cm : PropertyMap) (blank : Row) (session_time : ℕ) where
  pub record Runs (bytes : List ℕ) (r r' : Reading) : Type 0 where
    pub steps : ℕ
    pub few : steps ≤ length bytes
    pub runs :
        (rest : List ℕ) (fuel : ℕ)
        → decode props cm blank session_time (fuel + steps) (bytes ++ rest) r
          ≡ decode props cm blank session_time fuel rest r'

  pub no_run : (r : Reading) → Runs [] r r
  no_run r = record {
    steps = 0;
    few = omega arith;
    runs = λ rest fuel. let e : fuel + 0 ≡ fuel = omega arith in rw e;
  }

  pub run-append : {p q : List ℕ} {r s t : Reading} → Runs p r s → Runs q s t → Runs (p ++ q) r t
  run-append {p} {q} {r} {s} {t} first second = record {
    steps = first.steps + second.steps;
    few = omega (arith, first.few, second.few, length-append p q);
    runs = λ rest fuel.
        let e : fuel + (first.steps + second.steps) ≡ fuel + second.steps + first.steps =
          omega arith in
        rw (e, append_assoc p q rest)
          (first.runs (q ++ rest) (fuel + second.steps) ∙ second.runs rest fuel);
  }

  begin :
      (p : ℕ) (more : List ℕ) (fuel : ℕ) (r : Reading)
      → decode props cm blank session_time (suc fuel) (le_bytes 2 p ++ more) r ≡ (
          decode_step props cm blank session_time (le_bytes 2 p ++ more) r
          >>= (λ (r', rest). decode props cm blank session_time fuel rest r'))
  unfolding decode le_bytes
  begin p more fuel r = refl

  -- One step over a property and what follows it.
  decode_tag :
      (p : ℕ) (more : List ℕ) (fuel : ℕ) (r : Reading)
      → p < 65536
      → decode props cm blank session_time (suc fuel) (le_bytes 2 p ++ more) r ≡ (
          (if p == row_end
            then some (finish_row props cm blank session_time r, more)
            else decode_cell props cm blank session_time p more r)
          >>= (λ (r', rest). decode props cm blank session_time fuel rest r'))
  unfolding decode_step
  decode_tag p more fuel r h = begin p more fuel r ∙ rw (read_le-le_bytes 2 p more h) refl

  single_run :
      (bytes : List ℕ) (r r' : Reading)
      → 0 < length bytes
      → ((rest : List ℕ) (fuel : ℕ)
          → decode props cm blank session_time (suc fuel) (bytes ++ rest) r
            ≡ decode props cm blank session_time fuel rest r')
      → Runs bytes r r'
  single_run bytes r r' some_bytes runs = record {
    steps = 1;
    few = some_bytes;
    runs = λ rest fuel. let e : fuel + 1 ≡ suc fuel = omega arith in rw e (runs rest fuel);
  }

  pub end_run :
      (r : Reading) → Runs (le_bytes 2 row_end) r (finish_row props cm blank session_time r)
  end_run r =
      single_run (le_bytes 2 row_end) r (finish_row props cm blank session_time r)
        (omega (arith, length-le_bytes 2 row_end))
        (λ rest fuel. decode_tag row_end rest fuel r (omega arith))

  -- The reading after a cell that has the column `c` and is `x` there, with the values of a set.
  abbrev pub placed : Reading → ℕ → ℕ → List ℕ → Reading
  placed r c x vs = record r { row = set r.row c x; set_data = r.set_data ++ vs }

  pub plain_run :
      (p v c : ℕ) (r : Reading)
      → p < row_end
      → v < 18446744073709551616
      → (property_at props p).is_set ≡ false
      → cm.reverse_map p ≡ some c
      → Runs (le_bytes 2 p ++ le_bytes 8 (bits_of v)) r (placed r c v [])
  unfolding decode_cell
  plain_run p v c r known wide plain column =
      let other : p == row_end ≡ false = ground (arith, known) in
      single_run (le_bytes 2 p ++ le_bytes 8 (bits_of v)) r (placed r c v [])
        (omega (arith, length-append (le_bytes 2 p) (le_bytes 8 (bits_of v)), length-le_bytes 2 p))
        (λ rest fuel. rw (append_assoc (le_bytes 2 p) (le_bytes 8 (bits_of v)) rest) (
          decode_tag p (le_bytes 8 (bits_of v) ++ rest) fuel r (omega (arith, known))
          ∙ rw
              (
                other,
                plain,
                read_le-le_bytes 8 (bits_of v) rest (bits_of_low v),
                cell_of-bits_of v wide,
                column,
                append-nil r.set_data,
              )
              refl))

  pub set_run :
      (p n c : ℕ) (vs : List ℕ) (r : Reading)
      → p < row_end
      → n < 32768
      → length vs ≡ n
      → AllCells vs
      → (property_at props p).is_set ≡ true
      → cm.reverse_map p ≡ some c
      → Runs
          (le_bytes 2 p ++ (le_bytes 2 n ++ encode_values vs))
          r
          (placed r c (set_cell n (length r.set_data)) vs)
  unfolding decode_cell
  set_run p n c vs r known short count all is column =
      let other : p == row_end ≡ false = ground (arith, known) in
      let (low, wide) = short_count_of n short in
      let values = le_bytes 2 n ++ encode_values vs in
      single_run (le_bytes 2 p ++ values) r (placed r c (set_cell n (length r.set_data)) vs)
        (omega (arith, length-append (le_bytes 2 p) values, length-le_bytes 2 p))
        (λ rest fuel.
          let back : read_values n (encode_values vs ++ rest) ≡ some (vs, rest) =
            rw count at (read_values-encode_values vs rest all) in
          rw
            (
              append_assoc (le_bytes 2 p) values rest,
              append_assoc (le_bytes 2 n) (encode_values vs) rest,
            )
            (decode_tag p (le_bytes 2 n ++ (encode_values vs ++ rest)) fuel r (omega (arith, known))
              ∙ rw
                  (
                    other,
                    is,
                    read_le-le_bytes 2 n (encode_values vs ++ rest) (omega (arith, short)),
                    low,
                    wide,
                    back,
                    column,
                  )
                  refl))
