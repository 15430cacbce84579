-- ===== src/Result/Sorted.antt =====
-- `makeSortedList`, and rows in the order of their keys.
use mathlib.Core.List.{reverse-cons}
use openset.Result.Keys.{
  Key, key_eq, key_lt, eq_of_key_eq, key_lt_irrefl, key_lt_trans, key_compare, key_eq_of_lt,
}
use openset.Result.{Row, find_row, insert_row, sort_rows}
use openset.Prelude.{
  ◌≡◌, refl, ap, ◌∙◌, ◌⊎◌, inl, inr, true, false, List, [], ◌∷◌, ◌++◌, Option, none, some,
  if◌then◌else◌, arith, Bool-cases, reverse,
}

-- Every row has a key after the given one.
abbrev pub Above : Key → List Row → Type 0
Above k [] = Unit {0}
Above k (r ∷ rs) = (key_lt k r.key ≡ true) × Above k rs

abbrev pub IsIncreasing : List Row → Type 0
IsIncreasing [] = Unit {0}
IsIncreasing (r ∷ rs) = Above r.key rs × IsIncreasing rs

-- Every row has a key before the given one.
abbrev pub Below : Key → List Row → Type 0
Below k [] = Unit {0}
Below k (r ∷ rs) = (key_lt r.key k ≡ true) × Below k rs

abbrev pub IsDecreasing : List Row → Type 0
IsDecreasing [] = Unit {0}
IsDecreasing (r ∷ rs) = Below r.key rs × IsDecreasing rs

-- No two rows have one key.
abbrev pub HasKeysOnce : List Row → Type 0
HasKeysOnce [] = Unit {0}
HasKeysOnce (r ∷ rs) = (find_row r.key rs ≡ none) × HasKeysOnce rs

pub Above-trans : (k l : Key) (rs : List Row) → key_lt k l ≡ true → Above l rs → Above k rs
Above-trans k l [] lt h = tt
Above-trans k l (r ∷ rs) lt h = (key_lt_trans k l r.key lt h.0, Above-trans k l rs lt h.1)

pub Below-trans : (k l : Key) (rs : List Row) → key_lt k l ≡ true → Below k rs → Below l rs
Below-trans k l [] lt h = tt
Below-trans k l (r ∷ rs) lt h = (key_lt_trans r.key k l h.0 lt, Below-trans k l rs lt h.1)

key_ne_of_lt : (k l : Key) → key_lt k l ≡ true → key_eq l k ≡ false
key_ne_of_lt k l lt = elim (Bool-cases (key_eq l k)) [
  | inr apart ↦ apart
  | inl same ↦
      let e : l ≡ k = eq_of_key_eq l k same in
      let loop : key_lt k k ≡ true = rw e at lt in cc (key_lt_irrefl k)
]

pub find_row-Above : (k : Key) (rs : List Row) → Above k rs → find_row k rs ≡ none
unfolding find_row
find_row-Above k [] h = refl
find_row-Above k (r ∷ rs) h = ground (arith, key_ne_of_lt k r.key h.0, find_row-Above k rs h.1)

pub find_row-Below : (k : Key) (rs : List Row) → Below k rs → find_row k rs ≡ none
unfolding find_row
find_row-Below k [] h = refl
find_row-Below k (r ∷ rs) h = ground (arith, key_eq_of_lt r.key k h.0, find_row-Below k rs h.1)

Above-insert_row :
    (k : Key) (r : Row) (rs : List Row)
    → key_lt k r.key ≡ true
    → Above k rs
    → Above k (insert_row r rs)
unfolding insert_row
Above-insert_row k r [] lt h = (lt, tt)
Above-insert_row k r (s ∷ rs) lt h = ground (arith, Above-insert_row k r rs lt h.1)

insert_row-IsIncreasing :
    (r : Row) (rs : List Row)
    → IsIncreasing rs
    → find_row r.key rs ≡ none
    → IsIncreasing (insert_row r rs)
unfolding insert_row find_row
insert_row-IsIncreasing r [] inc new = (tt, tt)
insert_row-IsIncreasing r (s ∷ rs) inc new = elim (Bool-cases (key_lt s.key r.key)) [
  | inl before ↦
      rw before (
        Above-insert_row s.key r rs before inc.0,
        insert_row-IsIncreasing r rs inc.1 (ground arith),
      )
  | inr not_before ↦ rw not_before (here not_before (key_compare s.key r.key), inc)
]
  where
    here :
        key_lt s.key r.key ≡ false
        → (key_lt s.key r.key ≡ true) ⊎ ((key_eq s.key r.key ≡ true) ⊎ (key_lt r.key s.key ≡ true))
        → (key_lt r.key s.key ≡ true) × Above r.key rs
    here late (inl lt) = absurd (ground arith)
    here late (inr (inl same)) = absurd (ground arith)
    here late (inr (inr gt)) = (gt, Above-trans r.key s.key rs gt inc.0)

find_row-insert_row :
    (k : Key) (r : Row) (rs : List Row)
    → find_row k (insert_row r rs) ≡ (if key_eq r.key k then some r else find_row k rs)
unfolding insert_row find_row
find_row-insert_row k r [] = refl
find_row-insert_row k r (s ∷ rs) = elim (Bool-cases (key_lt s.key r.key)) [
  | inr here ↦ rw here
  | inl before ↦ elim (Bool-cases (key_eq r.key k)) [
    | inr other ↦ rw before (ground (arith, find_row-insert_row k r rs))
    | inl same ↦
        let e : r.key ≡ k = eq_of_key_eq r.key k same in
        rw before (
          ground (
            arith,
            key_eq_of_lt s.key r.key before,
            ap (key_eq s.key) e,
            find_row-insert_row k r rs,
          ))
  ]
]

-- Sorting keeps the row of every key.
pub find_row-sort_rows : (k : Key) (rs : List Row) → find_row k (sort_rows rs) ≡ find_row k rs
unfolding sort_rows find_row
find_row-sort_rows k [] = refl
find_row-sort_rows k (r ∷ rs) =
    find_row-insert_row k r (sort_rows rs) ∙ ground (arith, find_row-sort_rows k rs)

pub sort_rows-IsIncreasing : (rs : List Row) → HasKeysOnce rs → IsIncreasing (sort_rows rs)
unfolding sort_rows
sort_rows-IsIncreasing [] h = tt
sort_rows-IsIncreasing (r ∷ rs) h =
    insert_row-IsIncreasing r (sort_rows rs) (sort_rows-IsIncreasing rs h.1)
      (find_row-sort_rows r.key rs ∙ h.0)

or_else : Option Row → Option Row → Option Row
or_else none o = o
or_else (some r) o = some r

find_row-append :
    (k : Key) (rs ss : List Row) → find_row k (rs ++ ss) ≡ or_else (find_row k rs) (find_row k ss)
unfolding find_row or_else
find_row-append k [] ss = refl
find_row-append k (r ∷ rs) ss = ground (arith, find_row-append k rs ss)

Above-append :
    (k : Key) (rs : List Row) (s : Row)
    → Above k rs
    → key_lt k s.key ≡ true
    → Above k (rs ++ s ∷ [])
Above-append k [] s h lt = (lt, tt)
Above-append k (r ∷ rs) s h lt = (h.0, Above-append k rs s h.1 lt)

Below-append :
    (k : Key) (rs : List Row) (s : Row)
    → Below k rs
    → key_lt s.key k ≡ true
    → Below k (rs ++ s ∷ [])
Below-append k [] s h lt = (lt, tt)
Below-append k (r ∷ rs) s h lt = (h.0, Below-append k rs s h.1 lt)

IsIncreasing-append :
    (rs : List Row) (s : Row) → IsIncreasing rs → Below s.key rs → IsIncreasing (rs ++ s ∷ [])
IsIncreasing-append [] s inc h = (tt, tt)
IsIncreasing-append (r ∷ rs) s inc h =
    (Above-append r.key rs s inc.0 h.0, IsIncreasing-append rs s inc.1 h.1)

Below-reverse : (k : Key) (rs : List Row) → Below k rs → Below k (reverse rs)
Below-reverse k [] h = tt
Below-reverse k (r ∷ rs) h =
    rw reverse-cons (Below-append k (reverse rs) r (Below-reverse k rs h.1) h.0)

pub reverse-IsIncreasing : (rs : List Row) → IsDecreasing rs → IsIncreasing (reverse rs)
reverse-IsIncreasing [] h = tt
reverse-IsIncreasing (r ∷ rs) h =
    rw reverse-cons (
      IsIncreasing-append (reverse rs) r (reverse-IsIncreasing rs h.1) (Below-reverse r.key rs h.0))

pub find_row-reverse :
    (k : Key) (rs : List Row) → IsDecreasing rs → find_row k (reverse rs) ≡ find_row k rs
unfolding find_row or_else
find_row-reverse k [] h = refl
find_row-reverse k (r ∷ rs) h =
    rw (reverse-cons, find_row-append k (reverse rs) (r ∷ []), find_row-reverse k rs h.1)
      (elim (Bool-cases (key_eq r.key k)) [
        | inr other ↦ ground arith
        | inl same ↦
            let e : r.key ≡ k = eq_of_key_eq r.key k same in
            let gone : find_row k rs ≡ none = rw (← e) (find_row-Below r.key rs h.0) in
            ground (arith, gone)
      ])
