-- ===== src/Grid/Codec/Fill.antt =====
-- All cells of a row, from a column on, written and read.
use openset.Attributes.{none_value}
use openset.Grid.{Row, cell, is_omitted}
use openset.Grid.Codec.Cells.{one, refilled}
use openset.Grid.Codec.Numbers.{AllCells}
use openset.Grid.Codec.Runs.{view, IsCell, Runs, no_run, run-append}
use openset.Grid.Codec.{Reading, row_end, encode_cell, encode_cells}
use openset.Properties.{Properties}
use openset.PropertyMapping.{PropertyMap}
use openset.Prelude.{
  ℕ, suc, ◌+◌, ◌≤◌, ◌<◌, ◌≡◌, ◌≢◌, refl, ap, ◌∙◌, false, List, [], ◌∷◌, ◌++◌, some, length, arith,
  length-append,
}
use mathlib.Core.List.{append_assoc, append-nil}
use mathlib.Core.Path.{subst}

module _ (props : Properties) (cm : PropertyMap) (blank : Row) (session_time : ℕ)
    (set_data : List ℕ) (values_low : AllCells set_data) where
  -- The cells of a row under their properties, from column `c` on.
  abbrev pub AreCells : List ℕ → Row → ℕ → Type 0
  AreCells [] [] c = Unit
  AreCells [] (v ∷ row) c = ⊥
  AreCells (p ∷ ps) [] c = ⊥
  AreCells (p ∷ ps) (v ∷ row) c =
      (p < row_end)
      × (cm.reverse_map p ≡ some c)
      × IsCell props set_data p v
      × AreCells ps row (suc c)

  -- The columns that are still to be filled are empty.
  abbrev pub AreEmpty : List ℕ → Row → ℕ → Type 0
  AreEmpty [] row c = Unit
  AreEmpty (p ∷ ps) row c =
      (is_omitted p ≡ false → cell row c ≡ none_value) × AreEmpty ps row (suc c)

  -- The columns of a row under their properties show what the cells do, whatever follows in the data.
  abbrev pub Shows : List ℕ → Row → ℕ → Row → List ℕ → Type 0
  Shows [] row c filled held = Unit
  Shows (p ∷ ps) [] c filled held = Unit
  Shows (p ∷ ps) (v ∷ row) c filled held =
      (is_omitted p ≡ false
        → (more : List ℕ) → view props (held ++ more) p (cell filled c) ≡ view props set_data p v)
      × Shows ps row (suc c) filled held

  pub record Filled (ps : List ℕ) (row : Row) (c : ℕ) (r : Reading) : Type 0 where
    pub filled : Row
    pub added : List ℕ
    pub run :
        Runs props cm blank session_time
          (encode_cells props set_data ps row)
          r
          (refilled r filled added)
    pub size : length filled ≡ length r.row
    pub few_values : length added ≤ length (encode_cells props set_data ps row)
    pub before : (j : ℕ) → j < c → cell filled j ≡ cell r.row j
    pub shows : Shows ps row c filled (r.set_data ++ added)

  AreEmpty-one :
      (ps : List ℕ) (before after : Row) (c d : ℕ)
      → c < d
      → ((j : ℕ) → c ≢ j → cell after j ≡ cell before j)
      → AreEmpty ps before d
      → AreEmpty ps after d
  AreEmpty-one [] before after c d h same empty = tt
  AreEmpty-one (p ∷ ps) before after c d h same (first, empty) = (
    λ shown. same d (λ e. omega (arith, e)) ∙ first shown,
    AreEmpty-one ps before after c (suc d) (omega arith) same empty,
  )

  pub fill :
      (ps : List ℕ) (row : Row) (c : ℕ) (r : Reading)
      → AreCells ps row c
      → AreEmpty ps r.row c
      → c + length ps ≡ length r.row
      → length r.set_data + length (encode_cells props set_data ps row) < 2147483648
      → Filled ps row c r
  unfolding encode_cells
  fill [] [] c r cells empty size few =
      let same : refilled r r.row [] ≡ r =
        ap (λ d. record r { set_data = d }) (append-nil r.set_data) in
      record {
        filled = r.row;
        added = [];
        run = rw same (no_run props cm blank session_time r);
        size = refl;
        few_values = omega arith;
        before = λ j h. refl;
        shows = tt;
      }
  fill [] (v ∷ row) c r cells empty size few = absurd cells
  fill (p ∷ ps) [] c r cells empty size few = absurd cells
  fill (p ∷ ps) (v ∷ row) c r (known, column, ok, cells) (first, empty) size few =
      let bytes = encode_cell props set_data p v in
      let later = encode_cells props set_data ps row in
      let total = length-append bytes later in
      let head =
        one props cm blank session_time set_data values_low p v c r known ok column
          (omega (arith, size)) (omega (arith, few)) first in
      let next : Reading = record r { row = head.filled; set_data = r.set_data ++ head.added } in
      let tail =
        fill ps row (suc c) next cells
          (AreEmpty-one ps r.row head.filled c (suc c) (omega arith) head.others empty)
          (omega (arith, size, head.size))
          (omega (arith, few, total, head.few_values, length-append r.set_data head.added)) in
      let held = append_assoc r.set_data head.added tail.added in
      record {
        filled = tail.filled;
        added = head.added ++ tail.added;
        run =
            subst (Runs props cm blank session_time (bytes ++ later) r)
              (ap (λ d. record r { row = tail.filled; set_data = d }) held)
              (run-append props cm blank session_time head.run tail.run);
        size = tail.size ∙ head.size;
        few_values =
            omega
              (arith, total, head.few_values, tail.few_values, length-append head.added tail.added);
        before = λ j h. tail.before j (omega (arith, h)) ∙ head.others j (λ e. omega (arith, e, h));
        shows = (
          λ shown more.
              let e : (r.set_data ++ (head.added ++ tail.added)) ++ more
                  ≡ (r.set_data ++ head.added) ++ (tail.added ++ more) =
                simp append_assoc in
              rw (e, tail.before c (omega arith)) (head.kept shown (tail.added ++ more)),
          subst (Shows ps row (suc c) tail.filled) held tail.shows,
        );
      }
