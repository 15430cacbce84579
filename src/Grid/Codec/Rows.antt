-- ===== src/Grid/Codec/Rows.antt =====
-- `prepare` reads the rows that `commit` has written.
use openset.Attributes.{none_value}
use openset.Bytes.{le_bytes}
use openset.Grid.{Row, is_omitted}
use openset.Grid.Codec.Cells.{refilled}
use openset.Grid.Codec.Fill.{AreCells, AreEmpty, Shows, Filled, fill}
use openset.Grid.Codec.Numbers.{AllCells}
use openset.Grid.Codec.Runs.{Runs, no_run, run-append, end_run}
use openset.Grid.Codec.{
  Reading, row_end, encode_cells, encode_rows, number_session, finish_row, decode, begun,
}
use openset.Properties.{Properties}
use openset.PropertyMapping.{PropertyMap, property_count}
use openset.Prelude.{
  ℕ, zero, suc, ◌+◌, ◌-◌, ◌≤◌, ◌<◌, ◌≡◌, refl, sym, ap, ◌∙◌, true, List, [], ◌∷◌, ◌++◌, some, ◌==◌,
  length, set, arith, inl, inr, Bool-cases, Option-cases, length-append, get_or-set_ne,
}
use mathlib.Core.List.{append_assoc, append-nil}
use mathlib.Core.Path.{subst}

module _ (props : Properties) (cm : PropertyMap) (blank : Row) (session_time : ℕ)
    (set_data : List ℕ) (values_low : AllCells set_data) where
  -- Each row has a cell for each column.
  abbrev pub AllRows : List Row → Type 0
  AllRows [] = Unit
  AllRows (row ∷ rows) =
      AreCells props cm blank session_time set_data values_low cm.property_map row 0 × AllRows rows

  -- The rows that are read show what the rows do.
  abbrev pub AllShow : List Row → List Row → List ℕ → Type 0
  AllShow [] [] held = Unit
  AllShow [] (f ∷ read) held = ⊥
  AllShow (row ∷ rows) [] held = ⊥
  AllShow (row ∷ rows) (f ∷ read) held =
      Shows props cm blank session_time set_data values_low cm.property_map row 0 f held
      × AllShow rows read held

  -- A column of the numbers of sessions is of a property that is not written.
  abbrev pub SessionOmitted : Type 0
  SessionOmitted =
      (s p : ℕ) → cm.session_prop_index ≡ some s → cm.reverse_map p ≡ some s → is_omitted p ≡ true

  Shows-more :
      (ps : List ℕ) (row : Row) (c : ℕ) (f : Row) (held more : List ℕ)
      → Shows props cm blank session_time set_data values_low ps row c f held
      → Shows props cm blank session_time set_data values_low ps row c f (held ++ more)
  Shows-more [] row c f held more shows = tt
  Shows-more (p ∷ ps) [] c f held more shows = tt
  Shows-more (p ∷ ps) (v ∷ row) c f held more (first, shows) = (
    λ shown further. rw (append_assoc held more further) (first shown (more ++ further)),
    Shows-more ps row (suc c) f held more shows,
  )

  Shows-set :
      (ps : List ℕ) (row : Row) (c : ℕ) (f : Row) (held : List ℕ) (s x : ℕ)
      → ((p : ℕ) → cm.reverse_map p ≡ some s → is_omitted p ≡ true)
      → AreCells props cm blank session_time set_data values_low ps row c
      → Shows props cm blank session_time set_data values_low ps row c f held
      → Shows props cm blank session_time set_data values_low ps row c (set f s x) held
  Shows-set [] row c f held s x hidden cells shows = tt
  Shows-set (p ∷ ps) [] c f held s x hidden cells shows = tt
  Shows-set (p ∷ ps) (v ∷ row) c f held s x hidden (known, column, ok, cells) (first, shows) = (
    λ shown more. elim (Bool-cases (s == c)) [
      | inl same ↦
          let e : c ≡ s = ground (arith, same) in
          absurd (ground (arith, shown, hidden p (column ∙ ap some e)))
      | inr apart ↦
          rw (get_or-set_ne f s c x none_value (λ e. ground (arith, apart, e))) (first shown more)
    ],
    Shows-set ps row (suc c) f held s x hidden cells shows,
  )

  -- The number of the session changes nothing that shows.
  numbered :
      (r : Reading)
      → SessionOmitted
      → ((number_session props cm blank session_time r).rows ≡ r.rows)
        × ((number_session props cm blank session_time r).set_data ≡ r.set_data)
        × ((row : Row)
            → AreCells props cm blank session_time set_data values_low cm.property_map row 0
            → Shows props cm blank session_time set_data values_low cm.property_map row 0 r.row
                r.set_data
            → Shows props cm blank session_time set_data values_low cm.property_map row 0
                (number_session props cm blank session_time r).row
                r.set_data)
  numbered r hidden = elim (Option-cases cm.session_prop_index) [
    | inl no_column ↦ rw no_column (refl, refl, λ row cells shows. shows)
    | inr (s, column) ↦ rw column (
      refl,
      refl,
      λ row cells shows.
          Shows-set cm.property_map row 0 r.row r.set_data s _ (λ p e. hidden s p column e) cells
            shows,
    )
  ]

  AllShow-more :
      (rows read : List Row) (held more : List ℕ)
      → AllShow rows read held
      → AllShow rows read (held ++ more)
  AllShow-more [] [] held more all = tt
  AllShow-more [] (f ∷ read) held more all = absurd all
  AllShow-more (row ∷ rows) [] held more all = absurd all
  AllShow-more (row ∷ rows) (f ∷ read) held more (shows, all) =
      (Shows-more cm.property_map row 0 f held more shows, AllShow-more rows read held more all)

  record AllRead (rows : List Row) (r : Reading) : Type 0 where
    last : Reading
    read : List Row
    added : List ℕ
    run : Runs props cm blank session_time (encode_rows props cm set_data rows) r last
    read_rows : last.rows ≡ r.rows ++ read
    held : last.set_data ≡ r.set_data ++ added
    all : AllShow rows read last.set_data

  -- A row and its end, in front of what is read after it.
  read_after :
      (row : Row) (rows : List Row) (r : Reading)
      (f : Filled props cm blank session_time set_data values_low cm.property_map row 0 r)
      → SessionOmitted
      → AreCells props cm blank session_time set_data values_low cm.property_map row 0
      → AllRead rows (finish_row props cm blank session_time (refilled r f.filled f.added))
      → AllRead (row ∷ rows) r
  unfolding encode_rows
  read_after row rows r f hidden cells tail =
      let full = refilled r f.filled f.added in
      let done = number_session props cm blank session_time full in
      let (same_rows, same_data, shows) = numbered full hidden in
      let after : tail.last.set_data ≡ (r.set_data ++ f.added) ++ tail.added =
        tail.held ∙ ap (λ d. d ++ tail.added) same_data in
      record {
        last = tail.last;
        read = done.row ∷ tail.read;
        added = f.added ++ tail.added;
        run = run-append props cm blank session_time f.run (
            run-append props cm blank session_time (end_run props cm blank session_time full)
              tail.run);
        read_rows =
            tail.read_rows
            ∙ ap (λ l. (l ++ done.row ∷ []) ++ tail.read) same_rows
            ∙ append_assoc r.rows (done.row ∷ []) tail.read;
        held = after ∙ append_assoc r.set_data f.added tail.added;
        all = (
          subst
              (Shows props cm blank session_time set_data values_low cm.property_map row 0 done.row)
              (sym after)
              (Shows-more cm.property_map row 0 done.row (r.set_data ++ f.added) tail.added
                (shows row cells f.shows)),
          tail.all,
        );
      }

  data_after :
      (row : Row) (r : Reading)
      (f : Filled props cm blank session_time set_data values_low cm.property_map row 0 r)
      → SessionOmitted
      → length (finish_row props cm blank session_time (refilled r f.filled f.added)).set_data
        ≤ length r.set_data + length (encode_cells props set_data cm.property_map row)
  data_after row r f hidden =
      rw ((numbered (refilled r f.filled f.added) hidden).1)
        (omega (arith, f.few_values, length-append r.set_data f.added))

  read_all :
      (rows : List Row) (r : Reading)
      → SessionOmitted
      → AllRows rows
      → r.row ≡ blank
      → AreEmpty props cm blank session_time set_data values_low cm.property_map blank 0
      → property_count cm ≡ length blank
      → length r.set_data + length (encode_rows props cm set_data rows) < 2147483648
      → AllRead rows r
  unfolding encode_rows
  read_all [] r hidden cells start empty size few = record {
    last = r;
    read = [];
    added = [];
    run = no_run props cm blank session_time r;
    read_rows = sym (append-nil r.rows);
    held = sym (append-nil r.set_data);
    all = tt;
  }
  read_all (row ∷ rows) r hidden (cells, more) start empty size few =
      let bytes = encode_cells props set_data cm.property_map row in
      let later = encode_rows props cm set_data rows in
      let total = length-append bytes (le_bytes 2 row_end ++ later) in
      let rest = length-append (le_bytes 2 row_end) later in
      let f =
        fill props cm blank session_time set_data values_low cm.property_map row 0 r cells
          (rw start empty) (rw start (omega (arith, size))) (omega (arith, few, total)) in
      let next = finish_row props cm blank session_time (refilled r f.filled f.added) in
      let held = data_after row r f hidden in
      read_after row rows r f hidden cells
        (read_all rows next hidden more refl empty size (omega (arith, few, total, rest, held)))

  decode_end : (fuel : ℕ) (r : Reading) → decode props cm blank session_time fuel [] r ≡ some r
  unfolding decode
  decode_end zero r = refl
  decode_end (suc fuel) r = refl

  -- What `prepare` reads from the bytes that `commit` writes shows, in every column of a property that
  -- is written, what the rows show: no value, the value, or the values of the set. The bytes are
  -- fewer than 2 ^ 31, each cell is one of a column of the map, of 64 bits, a set has fewer than 2 ^ 15
  -- values, and a new row is empty but for properties that are not written.
  pub decode-encode_rows :
      (rows : List Row)
      → SessionOmitted
      → AllRows rows
      → AreEmpty props cm blank session_time set_data values_low cm.property_map blank 0
      → property_count cm ≡ length blank
      → length (encode_rows props cm set_data rows) < 2147483648
      → (last : Reading) × (decode props cm blank session_time
            (length (encode_rows props cm set_data rows))
            (encode_rows props cm set_data rows)
            (begun blank)
          ≡ some last)
        × AllShow rows last.rows last.set_data
  decode-encode_rows rows hidden cells empty size few =
      let bytes = encode_rows props cm set_data rows in
      let all = read_all rows (begun blank) hidden cells refl empty size (omega (arith, few)) in
      let e : (length bytes - all.run.steps) + all.run.steps ≡ length bytes =
        omega (arith, all.run.few) in
      (
        all.last,
        rw (append-nil bytes, e) at (all.run.runs [] (length bytes - all.run.steps))
            ∙ decode_end (length bytes - all.run.steps) all.last,
        rw all.read_rows all.all,
      )
