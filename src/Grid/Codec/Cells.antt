-- ===== src/Grid/Codec/Cells.antt =====
-- The cells of one row, written and read.
use openset.Attributes.{none_value}
use openset.Bytes.{le_bytes}
use openset.Grid.{Row, cell, set_length, set_offset, set_cell, slice, is_omitted}
use openset.Grid.Codec.Numbers.{
  set_length-set_cell, set_offset-set_cell, set_cell_some, AllCells, AllCells-take, AllCells-drop,
  length-encode_values, slice_behind, short_count_of,
}
use openset.Grid.Codec.Runs.{view, IsCell, Runs, no_run, plain_run, set_run}
use openset.Grid.Codec.{Reading, row_end, encode_values, encode_cell}
use openset.Properties.{Properties, property_at}
use openset.PropertyMapping.{PropertyMap}
use openset.Prelude.{
  ℕ, ◌≤◌, ◌<◌, ◌≡◌, ◌≢◌, refl, ap, true, false, ◌||◌, List, [], ◌++◌, some, ◌==◌, length, set, drop,
  arith, inl, inr, Bool-cases, length-append, length-take, length-drop, length-set, get_or-set_self,
  get_or-set_ne,
}
use mathlib.Core.List.{append_assoc, append-nil}

-- A reading after some bytes: other cells and more values, with nothing else changed.
abbrev pub refilled : Reading → Row → List ℕ → Reading
refilled r filled added = record r { row = filled; set_data = r.set_data ++ added }

module _ (props : Properties) (cm : PropertyMap) (blank : Row) (session_time : ℕ)
    (set_data : List ℕ) (values_low : AllCells set_data) where
  -- What one cell leaves.
  pub record One (p v c : ℕ) (r : Reading) : Type 0 where
    pub filled : Row
    pub added : List ℕ
    pub run :
        Runs props cm blank session_time
          (encode_cell props set_data p v)
          r
          (refilled r filled added)
    pub size : length filled ≡ length r.row
    pub few_values : length added ≤ length (encode_cell props set_data p v)
    pub others : (j : ℕ) → c ≢ j → cell filled j ≡ cell r.row j
    pub kept :
        is_omitted p ≡ false
        → (more : List ℕ)
        → view props ((r.set_data ++ added) ++ more) p (cell filled c) ≡ view props set_data p v

  skipped :
      (p v c : ℕ) (r : Reading)
      → (v == none_value || is_omitted p) ≡ true
      → (is_omitted p ≡ false → cell r.row c ≡ none_value)
      → One p v c r
  unfolding encode_cell
  skipped p v c r gone empty =
      let same : refilled r r.row [] ≡ r =
        ap (λ d. record r { set_data = d }) (append-nil r.set_data) in
      record {
        filled = r.row;
        added = [];
        run = rw (gone, same) (no_run props cm blank session_time r);
        size = refl;
        few_values = omega arith;
        others = λ j apart. refl;
        kept = λ shown more.
            let was : v == none_value ≡ true = ground (arith, gone, shown) in
            rw (empty shown, was) refl;
      }

  plain-One :
      (p v c : ℕ) (r : Reading)
      → p < row_end
      → IsCell props set_data p v
      → (v == none_value || is_omitted p) ≡ false
      → (property_at props p).is_set ≡ false
      → cm.reverse_map p ≡ some c
      → c < length r.row
      → One p v c r
  unfolding encode_cell
  plain-One p v c r known ok there plain column low = record {
    filled = set r.row c v;
    added = [];
    run =
        rw (there, plain)
          (plain_run props cm blank session_time p v c r known ok.wide plain column);
    size = length-set r.row c v;
    few_values = omega arith;
    others = λ j apart. get_or-set_ne r.row c j v none_value apart;
    kept = λ shown more. rw (get_or-set_self r.row c v none_value low, plain) refl;
  }

  set-One :
      (p v c : ℕ) (r : Reading)
      → p < row_end
      → IsCell props set_data p v
      → (v == none_value || is_omitted p) ≡ false
      → (property_at props p).is_set ≡ true
      → cm.reverse_map p ≡ some c
      → c < length r.row
      → length r.set_data < 2147483648
      → One p v c r
  unfolding encode_cell
  set-One p v c r known ok there is column low few =
      let real : v == none_value ≡ false = ground (arith, there) in
      let n = set_length v in
      let short : n < 32768 = ok.short is real in
      let inside = ok.inside is real in
      let vs = slice set_data (set_offset v) n in
      let all =
        AllCells-take n (drop (set_offset v) set_data)
          (AllCells-drop (set_offset v) set_data values_low) in
      let count : length vs ≡ n =
        length-take n (drop (set_offset v) set_data)
          (omega (arith, inside, length-drop (set_offset v) set_data)) in
      let x = set_cell n (length r.set_data) in
      let code = le_bytes 2 n ++ encode_values vs in
      record {
        filled = set r.row c x;
        added = vs;
        run =
            rw (there, is, (short_count_of n short).0)
              (set_run props cm blank session_time p n c vs r known short count all is column);
        size = length-set r.row c x;
        few_values =
            rw (there, is, (short_count_of n short).0)
              (omega (
                arith,
                length-append (le_bytes 2 p) code,
                length-append (le_bytes 2 n) (encode_values vs),
                length-encode_values vs,
              ));
        others = λ j apart. get_or-set_ne r.row c j x none_value apart;
        kept = λ shown more.
            let wide : n < 4294967296 = omega (arith, short) in
            let at : slice (r.set_data ++ (vs ++ more)) (length r.set_data) n ≡ vs =
              rw count at (slice_behind r.set_data vs more) in
            rw
              (
                get_or-set_self r.row c x none_value low,
                set_cell_some n (length r.set_data) wide few,
                real,
                is,
                set_offset-set_cell n (length r.set_data) wide few,
                set_length-set_cell n (length r.set_data) wide few,
                append_assoc r.set_data vs more,
                at,
              )
              refl;
      }

  pub one :
      (p v c : ℕ) (r : Reading)
      → p < row_end
      → IsCell props set_data p v
      → cm.reverse_map p ≡ some c
      → c < length r.row
      → length r.set_data < 2147483648
      → (is_omitted p ≡ false → cell r.row c ≡ none_value)
      → One p v c r
  one p v c r known ok column low few empty = elim (Bool-cases (v == none_value || is_omitted p)) [
    | inl gone ↦ skipped p v c r gone empty
    | inr there ↦ elim (Bool-cases (property_at props p).is_set) [
      | inl is ↦ set-One p v c r known ok there is column low few
      | inr plain ↦ plain-One p v c r known ok there plain column low
    ]
  ]
