-- ===== src/Grid/Diff.antt =====
-- `IndexDiffing` of src/grid.h and src/grid.cpp: which values of a customer come and go with a change
-- of the rows. A counting map is an association list.
pub mod Changes
use openset.Attributes.Memory.{AttrKey, key_eq}
use openset.Attributes.{none_value}
use openset.Grid.{Row, set_values, is_omitted}
use openset.Properties.{Properties, property_at}
use openset.PropertyMapping.{PropertyMap}
use openset.Prelude.{ℕ, suc, Bool, true, false, not, ◌&&◌, ◌||◌, List, [], ◌∷◌, ◌==◌, if◌then◌else◌}

abbrev pub CvMap : Type 0
CvMap = List (AttrKey × ℕ)

-- `find(key) != end()`.
unfoldable pub has : AttrKey → CvMap → Bool
has k [] = false
has k ((j, n) ∷ m) = key_eq j k || has k m

unfoldable pub increment : AttrKey → CvMap → CvMap
increment k [] = (k, 1) ∷ []
increment k ((j, n) ∷ m) = if key_eq j k then (j, suc n) ∷ m else (j, n) ∷ increment k m

-- `add` of a value: the property counts as referenced, too.
unfoldable pub add_value : ℕ → CvMap → ℕ → CvMap
add_value p m v =
    if v == none_value then increment (p, v) m else increment (p, none_value) (increment (p, v) m)

unfoldable pub add_values : ℕ → List ℕ → CvMap → CvMap
add_values p [] m = m
add_values p (v ∷ vs) m = add_values p vs (add_value p m v)

-- The values of a cell that are added.
unfoldable pub cell_values : Properties → List ℕ → ℕ → ℕ → List ℕ
cell_values props set_data p v =
    if v == none_value || is_omitted p
    then []
    else if (property_at props p).is_set
    then set_values set_data v
    else v ∷ []

unfoldable pub add_cells : Properties → List ℕ → List ℕ → Row → CvMap → CvMap
add_cells props set_data [] row m = m
add_cells props set_data (p ∷ ps) [] m = m
add_cells props set_data (p ∷ ps) (v ∷ row) m =
    add_cells props set_data ps row (add_values p (cell_values props set_data p v) m)

-- `add` of the rows of a grid.
unfoldable pub add_rows : Properties → PropertyMap → List ℕ → List Row → CvMap → CvMap
add_rows props cm set_data [] m = m
add_rows props cm set_data (row ∷ rows) m =
    add_rows props cm set_data rows (add_cells props set_data cm.property_map row m)

-- The keys that `iterAdded` and `iterRemoved` call back with.
unfoldable pub iter_added : CvMap → CvMap → List AttrKey
iter_added before [] = []
iter_added before ((k, n) ∷ after) =
    let rest = iter_added before after in if has k before then rest else k ∷ rest

unfoldable pub iter_removed : CvMap → CvMap → List AttrKey
iter_removed [] after = []
iter_removed ((k, n) ∷ before) after =
    let rest = iter_removed before after in
    if not (has k after) && not (k.1 == none_value) then k ∷ rest else rest
