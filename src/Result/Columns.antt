-- ===== src/Result/Columns.antt =====
-- The loops of `mergeResultSets` over the columns of two rows with one key.
use native.Mathlib.Nat.{mod-eq_of_lt, mod-eq-sub-mod}
use openset.Result.{
  Modifier, Accumulation, unset, none_value, Row, merge_column, merge_columns, merge_segments, join,
}
use openset.Prelude.{
  ℕ, zero, suc, ◌+◌, ◌-◌, ◌*◌, ◌%◌, ◌≤◌, ◌≡◌, ◌≢◌, refl, ap, ◌∙◌, ◌&&◌, List, [], ◌∷◌, ltb, leb,
  ◌==◌, if◌then◌else◌, length, get_or, set, length-set, get_or-set_self, get_or-set_ne, arith, inl,
  inr, Bool-cases, min, max,
}

abbrev at : List Accumulation → ℕ → Accumulation
at cs i = get_or cs i unset

length-merge_columns :
    (mods : List Modifier) (n index : ℕ) (left right : List Accumulation)
    → length (merge_columns mods n index left right) ≡ length left
unfolding merge_columns
length-merge_columns [] zero index left right = refl
length-merge_columns [] (suc n) index left right = refl
length-merge_columns (m ∷ mods) zero index left right = refl
length-merge_columns (m ∷ mods) (suc n) index left right =
    length-merge_columns mods n (index + 1) _ right
    ∙ length-set left index (merge_column m (at left index) (at right index))

-- The loop over the columns of a segment treats each once, by its modifier.
get_or-merge_columns :
    (mods : List Modifier) (n index : ℕ) (left right : List Accumulation) (i : ℕ)
    → n ≤ length mods
    → index + n ≤ length left
    → get_or (merge_columns mods n index left right) i unset ≡ (
        if leb index i && ltb i (index + n)
        then merge_column (get_or mods (i - index) Modifier.sum) (at left i) (at right i)
        else at left i)
unfolding merge_columns
get_or-merge_columns [] zero index left right i p q = ground arith
get_or-merge_columns [] (suc n) index left right i p q = absurd (omega arith)
get_or-merge_columns (m ∷ mods) zero index left right i p q = ground arith
get_or-merge_columns (m ∷ mods) (suc n) index left right i p q =
    get_or-merge_columns mods n (index + 1) written right i (omega arith)
      (omega (arith, length-set left index new))
    ∙ elim (Bool-cases (index == i)) [
      | inl here ↦
          let e : index ≡ i = ground arith in
          let now : at written i ≡ new =
            rw (← e) (get_or-set_self left index new unset (omega arith)) in
          let first : i - index ≡ 0 = omega arith in rw (now, first, ← e) (ground arith)
      | inr there ↦
          let kept : at written i ≡ at left i =
            get_or-set_ne left index i new unset (ground arith) in
          rw kept (elim (Bool-cases (ltb index i)) [
            | inl later ↦
                let next : i - index ≡ suc (i - (index + 1)) = ground arith in
                rw next (ground arith)
            | inr earlier ↦ ground arith
          ])
    ]
  where
    new : Accumulation
    new = merge_column m (at left index) (at right index)

    written : List Accumulation
    written = set left index new

length-merge_segments :
    (mods : List Modifier) (columns n offset : ℕ) (left right : List Accumulation)
    → length (merge_segments mods columns n offset left right) ≡ length left
unfolding merge_segments
length-merge_segments mods columns zero offset left right = refl
length-merge_segments mods columns (suc n) offset left right =
    length-merge_segments mods columns n (offset + columns) _ right
    ∙ length-merge_columns mods columns offset left right

get_or-merge_segments :
    (mods : List Modifier) (columns n offset : ℕ) (left right : List Accumulation) (i : ℕ)
    → columns ≤ length mods
    → offset + n * columns ≤ length left
    → get_or (merge_segments mods columns n offset left right) i unset ≡ (
        if leb offset i && ltb i (offset + n * columns)
        then merge_column
            (get_or mods ((i - offset) % columns) Modifier.sum)
            (at left i)
            (at right i)
        else at left i)
unfolding merge_segments
get_or-merge_segments mods columns zero offset left right i p q = ground arith
get_or-merge_segments mods columns (suc n) offset left right i p q =
    get_or-merge_segments mods columns n (offset + columns)
      (merge_columns mods columns offset left right) right i p
      (omega (arith, length-merge_columns mods columns offset left right))
    ∙ rw (get_or-merge_columns mods columns offset left right i p (omega arith))
        (elim (Bool-cases (ltb i offset)) [
          | inl before ↦ ground arith
          | inr from ↦ elim (Bool-cases (ltb i (offset + columns))) [
            | inl here ↦
                let small : (i - offset) % columns ≡ i - offset = mod-eq_of_lt (ground arith) in
                rw small (ground arith)
            | inr later ↦
                let down : (i - offset) % columns ≡ (i - (offset + columns)) % columns =
                  mod-eq-sub-mod (ground arith) ∙ ap (λ x. x % columns) (ground arith) in
                rw down (ground arith)
          ]
        ])

-- Two rows of one group are merged column by column: each column of each segment by the modifier of
-- its column, and nothing else changes. The row has a column for each column of each segment.
pub columns-join :
    (mods : List Modifier) (columns segments : ℕ) (l r : Row) (i : ℕ)
    → columns ≤ length mods
    → length l.columns ≡ segments * columns
    → get_or (join mods columns segments l r).columns i unset ≡ (
        if ltb i (segments * columns)
        then merge_column
            (get_or mods (i % columns) Modifier.sum)
            (get_or l.columns i unset)
            (get_or r.columns i unset)
        else get_or l.columns i unset)
unfolding join
columns-join mods columns segments l r i p q =
    let start : i - 0 ≡ i = omega arith in
    let none_before : 0 + segments * columns ≡ segments * columns = omega arith in
    get_or-merge_segments mods columns segments 0 l.columns r.columns i p (omega arith)
    ∙ rw (start, none_before) (ground arith)

-- The merge of two columns that are both set keeps the greater value for `min` and the smaller for
-- `max`.
pub merge_column_min_max :
    (l r : Accumulation)
    → l.value ≢ none_value
    → r.value ≢ none_value
    → ((merge_column Modifier.min l r).value ≡ max l.value r.value)
      × ((merge_column Modifier.max l r).value ≡ min l.value r.value)
unfolding merge_column
merge_column_min_max l r p q = (ground arith, ground arith)

-- A column that only one of the two rows has set becomes that column, whatever the modifier.
merge_column_unset :
    (m : Modifier) (l r : Accumulation)
    → (r.value ≡ none_value → merge_column m l r ≡ l)
      × (r.value ≢ none_value → l.value ≡ none_value → merge_column m l r ≡ r)
unfolding merge_column
merge_column_unset m l r = (λ e. rw e, λ ne e. ground arith)
