-- ===== src/Grid/Linear.antt =====
-- Inserting a row by one walk over the rows, without the binary search: what `insertEvent` comes to
-- on rows sorted by their stamps.
use openset.Grid.{Row, stamp_of, order_of, scan_group, scan_rows, put_row}
use openset.Prelude.{
  ℕ, suc, ◌+◌, ◌≡◌, refl, ap, Bool, true, false, ◌||◌, List, [], ◌∷◌, ◌++◌, Option, some, ltb, ◌==◌,
  if◌then◌else◌, length, take, drop, arith, inl, inr, Bool-cases, length-append,
}
use mathlib.Core.List.{append_assoc, append-nil}

module _ (order : ℕ → ℕ) (hash : Row → ℕ) (new : Row) where
  -- Among the rows of its stamp and its order, a row with the same hash is replaced.
  unfoldable pub insert_group : List Row → List Row
  insert_group [] = new ∷ []
  insert_group (row ∷ rows) =
      let rest = insert_group rows in
      if ltb (stamp_of new) (stamp_of row) || ltb (order_of order new) (order_of order row)
      then new ∷ row ∷ rows
      else if hash new == hash row
      then new ∷ rows
      else row ∷ rest

  unfoldable pub insert_linear : List Row → List Row
  unfolding insert_group
  insert_linear [] = new ∷ []
  insert_linear (row ∷ rows) =
      let rest = insert_linear rows in
      if ltb (stamp_of row) (stamp_of new)
      then row ∷ rest
      else if ltb (stamp_of new) (stamp_of row)
      then new ∷ row ∷ rows
      else if order_of order row == order_of order new
      then insert_group (row ∷ rows)
      else if ltb (order_of order new) (order_of order row)
      then new ∷ rows
      else row ∷ rest

take_whole : (pre rows : List Row) → take (length pre) (pre ++ rows) ≡ pre
take_whole [] rows = refl
take_whole (p ∷ pre) rows = ap (λ r. p ∷ r) (take_whole pre rows)

drop_whole : (pre rows : List Row) → drop (length pre) (pre ++ rows) ≡ rows
drop_whole [] rows = refl
drop_whole (p ∷ pre) rows = drop_whole pre rows

drop_one :
    (pre : List Row) (row : Row) (rows : List Row)
    → drop (length pre + 1) (pre ++ row ∷ rows) ≡ rows
drop_one [] row rows = refl
drop_one (p ∷ pre) row rows =
    let e : suc (length pre) + 1 ≡ suc (length pre + 1) = omega arith in
    rw e (drop_one pre row rows)

length_snoc : (pre : List Row) (row : Row) → length (pre ++ row ∷ []) ≡ length pre + 1
length_snoc pre row = length-append pre (row ∷ [])

put_here :
    (new : Row) (pre rows : List Row)
    → put_row new (pre ++ rows) (some (length pre, false)) ≡ pre ++ new ∷ rows
unfolding put_row
put_here new pre rows = rw (take_whole pre rows, drop_whole pre rows)

put_over :
    (new : Row) (pre : List Row) (row : Row) (rows : List Row)
    → put_row new (pre ++ row ∷ rows) (some (length pre, true)) ≡ pre ++ new ∷ rows
unfolding put_row
put_over new pre row rows = rw (take_whole pre (row ∷ rows), drop_one pre row rows)

onward :
    (new : Row) (scan : ℕ → Option (ℕ × Bool)) (pre : List Row) (row : Row) (rows done : List Row)
    → put_row new ((pre ++ row ∷ []) ++ rows) (scan (length (pre ++ row ∷ [])))
      ≡ (pre ++ row ∷ []) ++ done
    → put_row new (pre ++ row ∷ rows) (scan (length pre + 1)) ≡ pre ++ row ∷ done
onward new scan pre row rows done h =
    rw (length_snoc pre row, append_assoc pre (row ∷ []) rows, append_assoc pre (row ∷ []) done) at
      h

scan_group_lem :
    (order : ℕ → ℕ) (hash : Row → ℕ) (new : Row) (pre rows : List Row)
    → put_row new (pre ++ rows) (scan_group order hash new rows (length pre))
      ≡ pre ++ insert_group order hash new rows
unfolding put_row scan_group insert_group
scan_group_lem order hash new pre [] = ap (λ l. l ++ new ∷ []) (append-nil pre)
scan_group_lem order hash new pre (row ∷ rows) =
    let past = ltb (stamp_of new) (stamp_of row) || ltb (order_of order new) (order_of order row) in
    elim (Bool-cases past) [
      | inl over ↦ rw over (put_here new pre (row ∷ rows))
      | inr under ↦ rw under (elim (Bool-cases (hash new == hash row)) [
        | inl same ↦ rw same (put_over new pre row rows)
        | inr other ↦ rw other (
            onward new (scan_group order hash new rows) pre row rows
              (insert_group order hash new rows)
              (scan_group_lem order hash new (pre ++ row ∷ []) rows))
      ])
    ]

-- What the scan finds from a row on, put into the rows, is the walk from there.
pub scan_rows_lem :
    (order : ℕ → ℕ) (hash : Row → ℕ) (new : Row) (pre rows : List Row)
    → put_row new (pre ++ rows) (scan_rows order hash new rows (length pre))
      ≡ pre ++ insert_linear order hash new rows
unfolding put_row scan_rows insert_linear
scan_rows_lem order hash new pre [] = ap (λ l. l ++ new ∷ []) (append-nil pre)
scan_rows_lem order hash new pre (row ∷ rows) =
    let next =
      onward new (scan_rows order hash new rows) pre row rows (insert_linear order hash new rows)
        (scan_rows_lem order hash new (pre ++ row ∷ []) rows) in
    elim (Bool-cases (ltb (stamp_of row) (stamp_of new))) [
      | inl before ↦
          let differs : stamp_of row == stamp_of new ≡ false = ground (arith, before) in
          let not_past : ltb (stamp_of new) (stamp_of row) ≡ false = ground (arith, before) in
          rw (differs, not_past, before) next
      | inr not_before ↦ elim (Bool-cases (ltb (stamp_of new) (stamp_of row))) [
        | inl past ↦
            let differs : stamp_of row == stamp_of new ≡ false = ground (arith, past) in
            rw (differs, not_before, past) (put_here new pre (row ∷ rows))
        | inr not_past ↦
            let same : stamp_of row == stamp_of new ≡ true = ground (arith, not_before, not_past) in
            rw (same, not_before, not_past)
              (elim (Bool-cases (order_of order row == order_of order new)) [
                | inl group ↦
                    rw group (rw not_past at (scan_group_lem order hash new pre (row ∷ rows)))
                | inr apart ↦
                    rw apart (elim (Bool-cases (ltb (order_of order new) (order_of order row))) [
                      | inl later ↦ rw later (put_over new pre row rows)
                      | inr earlier ↦ rw earlier next
                    ])
              ])
      ]
    ]
