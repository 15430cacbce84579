-- ===== src/Grid/Sorted.antt =====
-- Rows sorted by their stamps, and the walk of Grid/Linear keeps them so.
use openset.Grid.{Row, stamp_of, order_of}
use openset.Grid.Linear.{insert_group, insert_linear}
use openset.Prelude.{
  ℕ, zero, suc, ◌≤◌, ◌<◌, ◌||◌, List, [], ◌∷◌, ltb, ◌==◌, length, get_or, take, arith, inl, inr,
  Bool-cases,
}

abbrev pub AllFrom : ℕ → List Row → Type 0
AllFrom s [] = Unit
AllFrom s (row ∷ rows) = (s ≤ stamp_of row) × AllFrom s rows

abbrev pub AllBelow : ℕ → List Row → Type 0
AllBelow s [] = Unit
AllBelow s (row ∷ rows) = (stamp_of row < s) × AllBelow s rows

abbrev pub IsSorted : List Row → Type 0
IsSorted [] = Unit
IsSorted (row ∷ rows) = AllFrom (stamp_of row) rows × IsSorted rows

AllFrom-below : (s t : ℕ) (rows : List Row) → s ≤ t → AllFrom t rows → AllFrom s rows
AllFrom-below s t [] h all = tt
AllFrom-below s t (row ∷ rows) h (first, all) = (omega arith, AllFrom-below s t rows h all)

pub AllFrom-at :
    (s : ℕ) (rows : List Row) (i : ℕ)
    → AllFrom s rows
    → i < length rows
    → s ≤ stamp_of (get_or rows i [])
AllFrom-at s [] i all h = absurd (omega arith)
AllFrom-at s (row ∷ rows) zero (first, all) h = first
AllFrom-at s (row ∷ rows) (suc i) (first, all) h = AllFrom-at s rows i all (omega arith)

-- The rows before one that is below the stamp are below it.
pub below_take :
    (s : ℕ) (rows : List Row) (i : ℕ)
    → IsSorted rows
    → i < length rows
    → stamp_of (get_or rows i []) < s
    → AllBelow s (take (suc i) rows)
below_take s [] i sorted h low = absurd (omega arith)
below_take s (row ∷ rows) zero sorted h low = (low, tt)
below_take s (row ∷ rows) (suc i) (from, sorted) h low =
    let first = AllFrom-at (stamp_of row) rows i from (omega arith) in
    (omega arith, below_take s rows i sorted (omega arith) low)

-- The row before one with at most the stamp has at most the stamp.
pub sorted_step :
    (rows : List Row) (i : ℕ)
    → IsSorted rows
    → suc i < length rows
    → stamp_of (get_or rows i []) ≤ stamp_of (get_or rows (suc i) [])
sorted_step [] i sorted h = absurd (omega arith)
sorted_step (row ∷ rows) zero (from, sorted) h = AllFrom-at (stamp_of row) rows 0 from (omega arith)
sorted_step (row ∷ rows) (suc i) (from, sorted) h = sorted_step rows i sorted (omega arith)

module _ (order : ℕ → ℕ) (hash : Row → ℕ) (new : Row) where
  group-AllFrom :
      (s : ℕ) (rows : List Row)
      → AllFrom s rows
      → s ≤ stamp_of new
      → AllFrom s (insert_group order hash new rows)
  unfolding insert_group
  group-AllFrom s [] all low = (low, tt)
  group-AllFrom s (row ∷ rows) (first, all) low =
      let rest = group-AllFrom s rows all low in
      let over =
        ltb (stamp_of new) (stamp_of row) || ltb (order_of order new) (order_of order row) in
      elim (Bool-cases over) [
        | inl past ↦ rw past (low, (first, all))
        | inr not_past ↦ elim (Bool-cases (hash new == hash row)) [
          | inl same ↦ rw (not_past, same) (low, all)
          | inr other ↦ rw (not_past, other) (first, rest)
        ]
      ]

  linear-AllFrom :
      (s : ℕ) (rows : List Row)
      → AllFrom s rows
      → s ≤ stamp_of new
      → AllFrom s (insert_linear order hash new rows)
  unfolding insert_linear
  linear-AllFrom s [] all low = (low, tt)
  linear-AllFrom s (row ∷ rows) (first, all) low =
      let rest = linear-AllFrom s rows all low in
      elim (Bool-cases (ltb (stamp_of row) (stamp_of new))) [
        | inl before ↦ rw before (first, rest)
        | inr not_before ↦ elim (Bool-cases (ltb (stamp_of new) (stamp_of row))) [
          | inl past ↦ rw (not_before, past) (low, (first, all))
          | inr not_past ↦ elim (Bool-cases (order_of order row == order_of order new)) [
            | inl group ↦
                rw (not_before, not_past, group)
                  (rw not_past at (group-AllFrom s (row ∷ rows) (first, all) low))
            | inr apart ↦ elim (Bool-cases (ltb (order_of order new) (order_of order row))) [
              | inl later ↦ rw (not_before, not_past, apart, later) (low, all)
              | inr earlier ↦ rw (not_before, not_past, apart, earlier) (first, rest)
            ]
          ]
        ]
      ]

  -- In a group of rows none of which is below the new one.
  group-IsSorted :
      (rows : List Row)
      → IsSorted rows
      → AllFrom (stamp_of new) rows
      → IsSorted (insert_group order hash new rows)
  unfolding insert_group
  group-IsSorted [] sorted all = (tt, tt)
  group-IsSorted (row ∷ rows) (from, sorted) (first, all) =
      let rest = group-IsSorted rows sorted all in
      let over =
        ltb (stamp_of new) (stamp_of row) || ltb (order_of order new) (order_of order row) in
      elim (Bool-cases (ltb (stamp_of new) (stamp_of row))) [
        | inl past ↦ rw past ((first, all), (from, sorted))
        | inr not_past ↦ elim (Bool-cases (ltb (order_of order new) (order_of order row))) [
          | inl later ↦ rw (not_past, later) ((first, all), (from, sorted))
          | inr earlier ↦ elim (Bool-cases (hash new == hash row)) [
            | inl same ↦ rw (not_past, earlier, same) (all, sorted)
            | inr other ↦
                let low : stamp_of row ≤ stamp_of new = ground (arith, not_past) in
                rw (not_past, earlier, other) (group-AllFrom (stamp_of row) rows from low, rest)
          ]
        ]
      ]

  pub linear-IsSorted :
      (rows : List Row) → IsSorted rows → IsSorted (insert_linear order hash new rows)
  unfolding insert_linear
  linear-IsSorted [] sorted = (tt, tt)
  linear-IsSorted (row ∷ rows) (from, sorted) =
      let rest = linear-IsSorted rows sorted in
      elim (Bool-cases (ltb (stamp_of row) (stamp_of new))) [
        | inl before ↦
            let low : stamp_of row ≤ stamp_of new = ground (arith, before) in
            rw before (linear-AllFrom (stamp_of row) rows from low, rest)
        | inr not_before ↦
            let first : stamp_of new ≤ stamp_of row = ground (arith, not_before) in
            let all = AllFrom-below (stamp_of new) (stamp_of row) rows first from in
            elim (Bool-cases (ltb (stamp_of new) (stamp_of row))) [
              | inl past ↦ rw (not_before, past) ((first, all), (from, sorted))
              | inr not_past ↦
                  let low : stamp_of row ≤ stamp_of new = ground (arith, not_past) in
                  elim (Bool-cases (order_of order row == order_of order new)) [
                    | inl group ↦
                        rw (not_before, not_past, group)
                          (rw not_past at (group-IsSorted (row ∷ rows) (from, sorted) (first, all)))
                    | inr apart ↦
                        elim (Bool-cases (ltb (order_of order new) (order_of order row))) [
                          | inl later ↦ rw (not_before, not_past, apart, later) (all, sorted)
                          | inr earlier ↦
                              rw (not_before, not_past, apart, earlier)
                                (linear-AllFrom (stamp_of row) rows from low, rest)
                        ]
                  ]
            ]
      ]
