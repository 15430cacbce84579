-- ===== src/Grid/Twice.antt =====
-- What `insertEvent` replaces: a row that comes twice, and a row of a later order.
use openset.Grid.Linear.{insert_group, insert_linear}
use openset.Grid.Insert.{insert_row-insert_linear, insert_row-IsSorted, linear-append}
use openset.Grid.Sorted.{AllBelow, IsSorted}
use openset.Grid.{Row, stamp_of, order_of, insert_row}
use openset.Prelude.{
  ℕ, ◌<◌, ◌≡◌, refl, sym, ap, ◌∙◌, true, false, ◌||◌, List, [], ◌∷◌, ◌++◌, ltb, ◌==◌, arith, inl,
  inr, Bool-cases,
}

module _ (order : ℕ → ℕ) (hash : Row → ℕ) (new : Row) where
  group_self : (rows : List Row) → insert_group order hash new (new ∷ rows) ≡ new ∷ rows
  unfolding insert_group
  group_self rows =
      let level : ltb (stamp_of new) (stamp_of new) ≡ false = ground arith in
      let even : ltb (order_of order new) (order_of order new) ≡ false = ground arith in
      let same : hash new == hash new ≡ true = ground arith in rw (level, even, same) refl

  linear_self : (rows : List Row) → insert_linear order hash new (new ∷ rows) ≡ new ∷ rows
  unfolding insert_linear
  linear_self rows =
      let level : ltb (stamp_of new) (stamp_of new) ≡ false = ground arith in
      let same : order_of order new == order_of order new ≡ true = ground arith in
      rw (level, same) (rw level at (group_self rows))

  group_twice :
      (rows : List Row)
      → insert_group order hash new (insert_group order hash new rows)
        ≡ insert_group order hash new rows
  unfolding insert_group
  group_twice [] = group_self []
  group_twice (row ∷ rows) =
      let over =
        ltb (stamp_of new) (stamp_of row) || ltb (order_of order new) (order_of order row) in
      elim (Bool-cases over) [
        | inl past ↦ rw past (group_self (row ∷ rows))
        | inr not_past ↦ elim (Bool-cases (hash new == hash row)) [
          | inl same ↦ rw (not_past, same) (group_self rows)
          | inr other ↦
              rw (not_past, other) (rw (not_past, other) (ap (λ r. row ∷ r) (group_twice rows)))
        ]
      ]

  -- From the first row of the new row's stamp and order on.
  group_again :
      (row : Row) (rows : List Row)
      → ltb (stamp_of row) (stamp_of new) ≡ false
      → ltb (stamp_of new) (stamp_of row) ≡ false
      → order_of order row == order_of order new ≡ true
      → insert_linear order hash new (insert_group order hash new (row ∷ rows))
        ≡ insert_group order hash new (row ∷ rows)
  unfolding insert_group insert_linear
  group_again row rows not_before not_past group =
      let even : ltb (order_of order new) (order_of order row) ≡ false = ground (arith, group) in
      elim (Bool-cases (hash new == hash row)) [
        | inl same ↦ rw (not_past, even, same) (linear_self rows)
        | inr other ↦
            rw (not_past, even, other)
              (rw (not_before, not_past, group, even, other) (ap (λ r. row ∷ r) (group_twice rows)))
      ]

  linear_twice :
      (rows : List Row)
      → insert_linear order hash new (insert_linear order hash new rows)
        ≡ insert_linear order hash new rows
  unfolding insert_linear
  linear_twice [] = linear_self []
  linear_twice (row ∷ rows) =
      let onward = ap (λ r. row ∷ r) (linear_twice rows) in
      elim (Bool-cases (ltb (stamp_of row) (stamp_of new))) [
        | inl before ↦ rw before (rw before onward)
        | inr not_before ↦ elim (Bool-cases (ltb (stamp_of new) (stamp_of row))) [
          | inl past ↦ rw (not_before, past) (linear_self (row ∷ rows))
          | inr not_past ↦ elim (Bool-cases (order_of order row == order_of order new)) [
            | inl group ↦
                rw (not_before, not_past, group)
                  (rw not_past at (group_again row rows not_before not_past group))
            | inr apart ↦ elim (Bool-cases (ltb (order_of order new) (order_of order row))) [
              | inl later ↦ rw (not_before, not_past, apart, later) (linear_self rows)
              | inr earlier ↦
                  rw (not_before, not_past, apart, earlier)
                    (rw (not_before, not_past, apart, earlier) onward)
            ]
          ]
        ]
      ]

  -- A row that is inserted twice is there as if it was inserted once, in sorted rows.
  pub insert_row-insert_row :
      (rows : List Row)
      → IsSorted rows
      → insert_row order hash new (insert_row order hash new rows) ≡ insert_row order hash new rows
  insert_row-insert_row rows sorted =
      insert_row-insert_linear order hash new (insert_row order hash new rows)
        (insert_row-IsSorted order hash new rows sorted)
      ∙ ap (insert_linear order hash new) (insert_row-insert_linear order hash new rows sorted)
      ∙ linear_twice rows
      ∙ sym (insert_row-insert_linear order hash new rows sorted)

  linear-later :
      (row : Row) (rows : List Row)
      → stamp_of row ≡ stamp_of new
      → order_of order new < order_of order row
      → insert_linear order hash new (row ∷ rows) ≡ new ∷ rows
  unfolding insert_linear
  linear-later row rows level above =
      let not_before : ltb (stamp_of row) (stamp_of new) ≡ false = ground (arith, level) in
      let not_past : ltb (stamp_of new) (stamp_of row) ≡ false = ground (arith, level) in
      let apart : order_of order row == order_of order new ≡ false = ground (arith, above) in
      let later : ltb (order_of order new) (order_of order row) ≡ true = ground (arith, above) in
      rw (not_before, not_past, apart, later) refl

  -- Where the first row of the new row's stamp has a later order, the new row takes its place: that
  -- row is lost, though it is another event.
  pub insert_row_later :
      (pre : List Row) (row : Row) (rows : List Row)
      → IsSorted (pre ++ row ∷ rows)
      → AllBelow (stamp_of new) pre
      → stamp_of row ≡ stamp_of new
      → order_of order new < order_of order row
      → insert_row order hash new (pre ++ row ∷ rows) ≡ pre ++ new ∷ rows
  insert_row_later pre row rows sorted below level above =
      insert_row-insert_linear order hash new (pre ++ row ∷ rows) sorted
      ∙ linear-append order hash new pre (row ∷ rows) below
      ∙ ap (λ r. pre ++ r) (linear-later row rows level above)
