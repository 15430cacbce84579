-- ===== src/Grid.antt =====
-- src/grid.h and src/grid.cpp: the rows of a customer, in the columns of a property map, sorted by
-- their time stamps.
--
-- A cell is a number that stands for itself less 2 ^ 63, so that `<` is `<` on the integers and NONE
-- is 0; a cell of a set holds the offset and the length of its values in `setData`. A row is the list
-- of its cells. The parsing of an event and customer properties, which work on JSON, are left out.
pub mod Linear
pub mod Sorted
pub mod Insert
pub mod Twice
pub mod Cull
pub mod Codec
pub mod Diff
use openset.Attributes.{none_value}
use openset.Properties.{Properties, property_at}
use openset.PropertyMapping.{PropertyMap, property_count, prop_uuid, prop_session}
use openset.Prelude.{
  ℕ, zero, suc, ◌+◌, ◌-◌, ◌*◌, ◌/◌, ◌%◌, ◌^◌, Bool, true, false, not, ◌&&◌, ◌||◌, List, [], ◌∷◌,
  ◌++◌, Option, none, some, ltb, leb, ◌==◌, if◌then◌else◌, length, get_or, set, take, drop,
  replicate,
}

abbrev pub Row : Type 0
Row = List ℕ

abbrev pub prop_stamp : ℕ
prop_stamp = 0

abbrev pub prop_event : ℕ
prop_event = 1

-- PROP_INDEX_USER_DATA.
abbrev pub first_user_data : ℕ
first_user_data = 7

abbrev pub cell : Row → ℕ → ℕ
cell row c = get_or row c none_value

abbrev pub stamp_of : Row → ℕ
stamp_of row = cell row prop_stamp

-- The 64 bits of a cell, and `SetInfo_s` in them.
abbrev pub bits_of : ℕ → ℕ
bits_of v = (v + 9223372036854775808) % 18446744073709551616

abbrev pub set_length : ℕ → ℕ
set_length v = bits_of v % 4294967296

abbrev pub set_offset : ℕ → ℕ
set_offset v = bits_of v / 4294967296

abbrev pub set_cell : ℕ → ℕ → ℕ
set_cell count offset = (count + 4294967296 * offset + 9223372036854775808) % 18446744073709551616

-- `setData[idx]` for the indexes of a set.
abbrev pub slice : List ℕ → ℕ → ℕ → List ℕ
slice values offset count = take count (drop offset values)

-- The values of a set, with the sign of the 32-bit numbers left out.
abbrev pub set_values : List ℕ → ℕ → List ℕ
set_values set_data v = slice set_data (set_offset v) (set_length v)

-- Placeholders and properties that are made, which are neither written nor indexed.
abbrev pub is_omitted : ℕ → Bool
is_omitted property = leb prop_uuid property && leb property prop_session

unfoldable pub hash_values : (ℕ → ℕ → ℕ) → List ℕ → ℕ → ℕ
hash_values hash_pair [] hash = hash
hash_values hash_pair (v ∷ vs) hash = hash_values hash_pair vs (hash_pair v hash)

-- The loop of `getRowHash`, over the cells from a column on with their properties.
unfoldable pub hash_cells : (ℕ → ℕ → ℕ) → Properties → List ℕ → List ℕ → List ℕ → ℕ → ℕ
unfolding hash_values
hash_cells hash_pair props set_data [] properties hash = hash
hash_cells hash_pair props set_data (v ∷ vs) [] hash = hash
hash_cells hash_pair props set_data (v ∷ vs) (idx ∷ properties) hash =
    let info = property_at props idx in
    hash_cells hash_pair props set_data vs properties (
      if v == none_value || (info.deleted || info.is_customer_property)
      then hash
      else if info.is_set
      then hash_values hash_pair (set_values set_data v) hash
      else hash_pair v hash)

unfoldable pub row_hash : (ℕ → ℕ → ℕ) → Properties → PropertyMap → List ℕ → Row → ℕ
unfolding hash_cells
row_hash hash_pair props cm set_data row =
    hash_cells hash_pair props set_data (drop first_user_data row)
      (drop first_user_data cm.property_map) (stamp_of row)

-- `findInsert`: the index of a row with the stamp, or else the index to insert at. `first` and
-- `last + 1` are the bounds.
unfoldable pub find_insert : ℕ → List Row → ℕ → ℕ → ℕ → ℕ
find_insert zero rows stamp first end = first
find_insert (suc fuel) rows stamp first end =
    let mid = (first + end - 1) / 2 in
    let here = stamp_of (get_or rows mid []) in
    let up = find_insert fuel rows stamp (mid + 1) end in
    let down = find_insert fuel rows stamp first mid in
    if leb end first
    then first
    else if ltb here stamp
    then up
    else if ltb stamp here
    then down
    else mid

-- Back to the beginning of the rows with the stamp, and one further if there is one.
unfoldable pub walk_back : List Row → ℕ → ℕ → ℕ
walk_back rows stamp zero = zero
walk_back rows stamp (suc i) =
    if stamp_of (get_or rows (suc i) []) == stamp then walk_back rows stamp i else suc i

-- `getEventOrder` of the event of a row.
abbrev pub order_of : (ℕ → ℕ) → Row → ℕ
order_of order row = order (cell row prop_event)

unfoldable pub put_row : Row → List Row → Option (ℕ × Bool) → List Row
put_row new rows none = rows ++ new ∷ []
put_row new rows (some (before, replace)) =
    take before rows ++ new ∷ drop (if replace then before + 1 else before) rows

module _ (order : ℕ → ℕ) (hash : Row → ℕ) (new : Row) where
  -- Where the new row goes, with whether it takes the place of the row that is there; none is the end.
  unfoldable pub scan_group : List Row → ℕ → Option (ℕ × Bool)
  scan_group [] i = none
  scan_group (row ∷ rows) i =
      let rest = scan_group rows (i + 1) in
      if ltb (stamp_of new) (stamp_of row) || ltb (order_of order new) (order_of order row)
      then some (i, false)
      else if hash new == hash row
      then some (i, true)
      else rest

  unfoldable pub scan_rows : List Row → ℕ → Option (ℕ × Bool)
  unfolding scan_group
  scan_rows [] i = none
  scan_rows (row ∷ rows) i =
      let rest = scan_rows rows (i + 1) in
      if stamp_of row == stamp_of new
      then (if order_of order row == order_of order new
          then scan_group (row ∷ rows) i
          else if ltb (order_of order new) (order_of order row)
          then some (i, true)
          else rest)
      else if ltb (stamp_of new) (stamp_of row)
      then some (i, false)
      else rest

  -- The end of `insertEvent`, once the row is parsed and its stamp is set.
  unfoldable pub insert_row : List Row → List Row
  unfolding find_insert walk_back scan_rows put_row
  insert_row rows =
      let count = length rows in
      let found = find_insert (suc count) rows (stamp_of new) 0 count in
      if found == count
      then rows ++ new ∷ []
      else let i = walk_back rows (stamp_of new) found in
        put_row new rows (scan_rows (drop i rows) i)
