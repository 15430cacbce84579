-- ===== src/Grid/Insert.antt =====
-- `insertEvent` on sorted rows: the binary search and the walk back find where the walk of Grid/Linear
-- would be.
use openset.Grid.Linear.{insert_linear, scan_rows_lem}
use openset.Grid.Sorted.{AllBelow, IsSorted, below_take, sorted_step, linear-IsSorted}
use openset.Grid.{Row, stamp_of, find_insert, walk_back, scan_rows, put_row, insert_row}
use openset.Prelude.{
  ℕ, zero, suc, ◌+◌, ◌-◌, ◌/◌, ◌≤◌, ◌<◌, ◌≡◌, refl, sym, ap, ◌∙◌, true, List, [], ◌∷◌, ◌++◌, ltb,
  leb, ◌==◌, length, get_or, take, drop, arith, inl, inr, ◌⊎◌, Bool-cases, length-take,
}

-- Where the search ends: at a row of the stamp, or where all the rows before are below it.
abbrev Found : ℕ → List Row → ℕ → Type 0
Found s rows i =
    (i ≤ length rows)
    × (((i < length rows) × (stamp_of (get_or rows i []) ≤ s)) ⊎ AllBelow s (take i rows))

find_insert-Found :
    (fuel : ℕ) (rows : List Row) (s first end : ℕ)
    → IsSorted rows
    → first ≤ length rows
    → end ≤ length rows
    → AllBelow s (take first rows)
    → Found s rows (find_insert fuel rows s first end)
unfolding find_insert
find_insert-Found zero rows s first end sorted low high below = (low, inr below)
find_insert-Found (suc fuel) rows s first end sorted low high below =
    let mid = (first + end - 1) / 2 in
    elim (Bool-cases (leb end first)) [
      | inl done ↦ rw done (low, inr below)
      | inr more ↦
          let room : first < end = ground (arith, more) in
          let inside : mid < end = omega (arith, room) in
          elim (Bool-cases (ltb (stamp_of (get_or rows mid [])) s)) [
            | inl before ↦
                let lower : stamp_of (get_or rows mid []) < s = ground (arith, before) in
                let e : mid + 1 ≡ suc mid = omega arith in
                let rest = below_take s rows mid sorted (omega arith) lower in
                rw (more, before)
                  (find_insert-Found fuel rows s (mid + 1) end sorted (omega arith) high
                    (rw e rest))
            | inr not_before ↦ elim (Bool-cases (ltb s (stamp_of (get_or rows mid [])))) [
              | inl past ↦
                  rw (more, not_before, past)
                    (find_insert-Found fuel rows s first mid sorted low (omega arith) below)
              | inr not_past ↦
                  let upto : stamp_of (get_or rows mid []) ≤ s = ground (arith, not_past) in
                  rw (more, not_before, not_past) (omega arith, inl (omega arith, upto))
            ]
          ]
    ]

find_insert_done :
    (fuel : ℕ) (rows : List Row) (s first end : ℕ)
    → end ≤ first
    → find_insert fuel rows s first end ≡ first
unfolding find_insert
find_insert_done zero rows s first end h = refl
find_insert_done (suc fuel) rows s first end h =
    let e : leb end first ≡ true = ground (arith, h) in rw e refl

-- A search with more fuel than there are rows between the bounds has enough: more changes nothing.
pub find_insert-more :
    (fuel more : ℕ) (rows : List Row) (s first end : ℕ)
    → end < first + fuel
    → find_insert (fuel + more) rows s first end ≡ find_insert fuel rows s first end
unfolding find_insert
find_insert-more zero more rows s first end h =
    find_insert_done (0 + more) rows s first end (omega (arith, h))
find_insert-more (suc fuel) more rows s first end h =
    let mid = (first + end - 1) / 2 in
    let e : suc fuel + more ≡ suc (fuel + more) = omega arith in
    rw e (elim (Bool-cases (leb end first)) [
      | inl done ↦ rw done refl
      | inr left ↦
          let room : first < end = ground (arith, left) in
          rw
            (
              left,
              find_insert-more fuel more rows s (mid + 1) end (omega (arith, room, h)),
              find_insert-more fuel more rows s first mid (omega (arith, room, h)),
            )
            refl
    ])

walk_back-below :
    (rows : List Row) (s i : ℕ)
    → IsSorted rows
    → i < length rows
    → (stamp_of (get_or rows i []) ≤ s) ⊎ AllBelow s (take i rows)
    → (walk_back rows s i ≤ length rows) × AllBelow s (take (walk_back rows s i) rows)
unfolding walk_back
walk_back-below rows s zero sorted h at = (omega arith, tt)
walk_back-below rows s (suc i) sorted h at =
    elim (Bool-cases (stamp_of (get_or rows (suc i) []) == s)) [
      | inl same ↦
          let step = sorted_step rows i sorted h in
          let upto : stamp_of (get_or rows i []) ≤ s = ground (arith, same, step) in
          rw same (walk_back-below rows s i sorted (omega arith) (inl upto))
      | inr apart ↦ rw apart (
        omega arith,
        elim at [
          | inr below ↦ below
          | inl upto ↦
              let step = sorted_step rows i sorted h in
              below_take s rows i sorted (omega arith) (ground (arith, apart, upto, step))
        ],
      )
    ]

take-drop : (i : ℕ) (rows : List Row) → take i rows ++ drop i rows ≡ rows
take-drop zero rows = refl
take-drop (suc i) [] = refl
take-drop (suc i) (row ∷ rows) = ap (λ r. row ∷ r) (take-drop i rows)

take_all : (rows : List Row) → take (length rows) rows ≡ rows
take_all [] = refl
take_all (row ∷ rows) = ap (λ r. row ∷ r) (take_all rows)

module _ (order : ℕ → ℕ) (hash : Row → ℕ) (new : Row) where
  pub linear-append :
      (pre rows : List Row)
      → AllBelow (stamp_of new) pre
      → insert_linear order hash new (pre ++ rows) ≡ pre ++ insert_linear order hash new rows
  unfolding insert_linear
  linear-append [] rows below = refl
  linear-append (row ∷ pre) rows (first, below) =
      let before : ltb (stamp_of row) (stamp_of new) ≡ true = ground (arith, first) in
      rw before (ap (λ r. row ∷ r) (linear-append pre rows below))

  linear-end :
      (rows : List Row)
      → AllBelow (stamp_of new) rows
      → insert_linear order hash new rows ≡ rows ++ new ∷ []
  unfolding insert_linear
  linear-end [] below = refl
  linear-end (row ∷ rows) (first, below) =
      let before : ltb (stamp_of row) (stamp_of new) ≡ true = ground (arith, first) in
      rw before (ap (λ r. row ∷ r) (linear-end rows below))

  scan_from :
      (rows : List Row) (i : ℕ)
      → i ≤ length rows
      → AllBelow (stamp_of new) (take i rows)
      → put_row new rows (scan_rows order hash new (drop i rows) i)
        ≡ insert_linear order hash new rows
  scan_from rows i low below =
      rw (length-take i rows low, take-drop i rows) at
        (scan_rows_lem order hash new (take i rows) (drop i rows))
      ∙ sym (linear-append (take i rows) (drop i rows) below)
      ∙ ap (insert_linear order hash new) (take-drop i rows)

  -- On sorted rows the code's binary search, its walk back and its scan do what one walk over the
  -- rows from the first on does.
  pub insert_row-insert_linear :
      (rows : List Row)
      → IsSorted rows
      → insert_row order hash new rows ≡ insert_linear order hash new rows
  unfolding insert_row
  insert_row-insert_linear rows sorted =
      let s = stamp_of new in
      let count = length rows in
      let found = find_insert (suc count) rows s 0 count in
      let (low, at) =
        find_insert-Found (suc count) rows s 0 count sorted (omega arith) (omega arith) tt in
      elim (Bool-cases (found == count)) [
        | inl end ↦ rw end (elim at [
          | inl (inside, upto) ↦ absurd (ground (arith, end, inside))
          | inr below ↦
              let e : found ≡ count = ground (arith, end) in
              sym (linear-end rows (rw (e, take_all rows) at below))
        ])
        | inr inside ↦
            let (high, below) =
              walk_back-below rows s found sorted (ground (arith, low, inside))
                (elim at [ inl (room, upto) ↦ inl upto | inr below ↦ inr below ]) in
            rw inside (scan_from rows (walk_back rows s found) high below)
      ]

  -- Rows sorted by their stamps stay sorted when a row is inserted, whether it replaces one or not.
  pub insert_row-IsSorted :
      (rows : List Row) → IsSorted rows → IsSorted (insert_row order hash new rows)
  insert_row-IsSorted rows sorted =
      rw (insert_row-insert_linear rows sorted) (linear-IsSorted order hash new rows sorted)
