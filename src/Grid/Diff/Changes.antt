-- ===== src/Grid/Diff/Changes.antt =====
-- What `iterRemoved` and `iterAdded` call back with, by the values in the rows.
use openset.Attributes.Memory.{AttrKey, key_eq}
use openset.Attributes.{none_value}
use openset.Grid.{Row}
use openset.Grid.Diff.{
  CvMap, has, increment, add_value, add_values, cell_values, add_cells, add_rows, iter_added,
  iter_removed,
}
use openset.Properties.{Properties}
use openset.PropertyMapping.{PropertyMap}
use openset.Prelude.{
  ℕ, ◌≡◌, refl, ◌∙◌, Bool, true, false, not, ◌&&◌, ◌||◌, List, [], ◌∷◌, ◌==◌, arith, inl, inr,
  Bool-cases,
}

has-increment : (k j : AttrKey) (m : CvMap) → has j (increment k m) ≡ (key_eq k j || has j m)
unfolding has increment
has-increment k j [] = refl
has-increment k j ((i, n) ∷ m) = elim (Bool-cases (key_eq i k)) [
  | inl same ↦ rw same (ground (arith, same))
  | inr apart ↦ rw apart (ground (arith, has-increment k j m))
]

has_congr : (k j : AttrKey) (m : CvMap) → key_eq k j ≡ true → has k m ≡ has j m
unfolding has
has_congr k j [] e = refl
has_congr k j ((i, n) ∷ m) e = ground (arith, has_congr k j m e)

-- Whether a value is among some, and among those of the cells and of the rows.
abbrev pub among : ℕ → List ℕ → Bool
among v [] = false
among v (w ∷ ws) = w == v || among v ws

abbrev pub in_cells : Properties → List ℕ → ℕ → ℕ → List ℕ → Row → Bool
in_cells props set_data p v [] row = false
in_cells props set_data p v (q ∷ qs) [] = false
in_cells props set_data p v (q ∷ qs) (w ∷ row) =
    (q == p && among v (cell_values props set_data q w)) || in_cells props set_data p v qs row

abbrev pub in_rows : Properties → PropertyMap → List ℕ → ℕ → ℕ → List Row → Bool
in_rows props cm set_data p v [] = false
in_rows props cm set_data p v (row ∷ rows) =
    in_cells props set_data p v cm.property_map row || in_rows props cm set_data p v rows

has-add_value :
    (p : ℕ) (m : CvMap) (w q v : ℕ)
    → v == none_value ≡ false
    → has (q, v) (add_value p m w) ≡ ((p == q && w == v) || has (q, v) m)
unfolding add_value
has-add_value p m w q v real =
    let here = has-increment (p, w) (q, v) m in
    let also = has-increment (p, none_value) (q, v) (increment (p, w) m) in
    elim (Bool-cases (w == none_value)) [
      | inl gone ↦ rw (add_value, gone) here
      | inr some_value ↦ rw (add_value, some_value) (ground (arith, here, also, real))
    ]

has-add_values :
    (p : ℕ) (vs : List ℕ) (m : CvMap) (q v : ℕ)
    → v == none_value ≡ false
    → has (q, v) (add_values p vs m) ≡ ((p == q && among v vs) || has (q, v) m)
unfolding add_values
has-add_values p [] m q v real = ground arith
has-add_values p (w ∷ ws) m q v real =
    has-add_values p ws (add_value p m w) q v real ∙ ground (arith, has-add_value p m w q v real)

has-add_cells :
    (props : Properties) (set_data : List ℕ) (ps : List ℕ) (row : Row) (m : CvMap) (q v : ℕ)
    → v == none_value ≡ false
    → has (q, v) (add_cells props set_data ps row m)
      ≡ (in_cells props set_data q v ps row || has (q, v) m)
unfolding add_cells
has-add_cells props set_data [] row m q v real = refl
has-add_cells props set_data (p ∷ ps) [] m q v real = refl
has-add_cells props set_data (p ∷ ps) (w ∷ row) m q v real =
    let values = cell_values props set_data p w in
    has-add_cells props set_data ps row (add_values p values m) q v real
    ∙ ground (arith, has-add_values p values m q v real)

has-add_rows :
    (props : Properties) (cm : PropertyMap) (set_data : List ℕ) (rows : List Row) (m : CvMap)
    (q v : ℕ)
    → v == none_value ≡ false
    → has (q, v) (add_rows props cm set_data rows m)
      ≡ (in_rows props cm set_data q v rows || has (q, v) m)
unfolding add_rows
has-add_rows props cm set_data [] m q v real = refl
has-add_rows props cm set_data (row ∷ rows) m q v real =
    let filled = add_cells props set_data cm.property_map row m in
    has-add_rows props cm set_data rows filled q v real
    ∙ ground (arith, has-add_cells props set_data cm.property_map row m q v real)

abbrev pub listed : AttrKey → List AttrKey → Bool
listed k [] = false
listed k (j ∷ js) = key_eq j k || listed k js

listed-iter_removed :
    (before after : CvMap) (q v : ℕ)
    → v == none_value ≡ false
    → listed (q, v) (iter_removed before after) ≡ (has (q, v) before && not (has (q, v) after))
unfolding iter_removed has
listed-iter_removed [] after q v real = refl
listed-iter_removed ((k, n) ∷ before) after q v real =
    let rest = listed-iter_removed before after q v real in
    elim (Bool-cases (not (has k after) && not (k.1 == none_value))) [
      | inl gone ↦ rw gone (elim (Bool-cases (key_eq k (q, v))) [
        | inl same ↦ ground (arith, rest, gone, same, has_congr k (q, v) after same)
        | inr apart ↦ ground (arith, rest, apart)
      ])
      | inr kept ↦ rw kept (elim (Bool-cases (key_eq k (q, v))) [
        | inl same ↦ ground (arith, rest, kept, real, same, has_congr k (q, v) after same)
        | inr apart ↦ ground (arith, rest, apart)
      ])
    ]

listed-iter_added :
    (before after : CvMap) (k : AttrKey)
    → listed k (iter_added before after) ≡ (has k after && not (has k before))
unfolding iter_added has
listed-iter_added before [] k = refl
listed-iter_added before ((j, n) ∷ after) k =
    let rest = listed-iter_added before after k in
    elim (Bool-cases (has j before)) [
      | inl there ↦ rw there (elim (Bool-cases (key_eq j k)) [
        | inl same ↦ ground (arith, rest, there, same, has_congr j k before same)
        | inr apart ↦ ground (arith, rest, apart)
      ])
      | inr new ↦ rw new (elim (Bool-cases (key_eq j k)) [
        | inl same ↦ ground (arith, rest, new, same, has_congr j k before same)
        | inr apart ↦ ground (arith, rest, apart)
      ])
    ]

-- Of the rows before and after a change, `iterRemoved` calls back with a value, other than NONE, of a
-- property exactly if some row before has it and no row after has it, and `iterAdded` exactly if some
-- row after has it and no row before. Rows have the values of the properties that are written.
pub listed-iter_rows :
    (props : Properties) (cm : PropertyMap) (set_data set_data' : List ℕ) (rows rows' : List Row)
    (q v : ℕ)
    → v == none_value ≡ false
    → (listed
          (q, v)
          (iter_removed (add_rows props cm set_data rows []) (add_rows props cm set_data' rows' []))
        ≡ (in_rows props cm set_data q v rows && not (in_rows props cm set_data' q v rows')))
      × (listed
            (q, v)
            (iter_added (add_rows props cm set_data rows []) (add_rows props cm set_data' rows' []))
          ≡ (in_rows props cm set_data' q v rows' && not (in_rows props cm set_data q v rows)))
unfolding has
listed-iter_rows props cm set_data set_data' rows rows' q v real =
    let before = add_rows props cm set_data rows [] in
    let after = add_rows props cm set_data' rows' [] in
    let of_before = has-add_rows props cm set_data rows [] q v real in
    let of_after = has-add_rows props cm set_data' rows' [] q v real in
    (
      listed-iter_removed before after q v real ∙ ground (arith, of_before, of_after),
      listed-iter_added before after (q, v) ∙ ground (arith, of_before, of_after),
    )
