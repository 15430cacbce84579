-- ===== src/Grid/Cull.antt =====
-- `Grid::cull`: what is left of the rows of a customer that are over the limits of its table.
use openset.Grid.{Row, stamp_of}
use openset.Prelude.{
  ℕ, suc, ◌-◌, ◌≤◌, ◌<◌, ◌≡◌, refl, ap, Bool, true, false, ◌&&◌, List, [], ◌∷◌, ◌++◌, ltb, ◌==◌,
  if◌then◌else◌, length, drop, arith, length-append,
}

-- How many rows come before the first that is newer than the stamp.
unfoldable pub expired_count : ℕ → List Row → ℕ
expired_count cull_stamp [] = 0
expired_count cull_stamp (row ∷ rows) =
    let rest = expired_count cull_stamp rows in
    if ltb cull_stamp (stamp_of row) then 0 else suc rest

-- The rows beyond `eventMax`, from the oldest on.
abbrev pub trim : ℕ → List Row → List Row
trim event_max rows =
    if ltb event_max (length rows) then drop (length rows - event_max) rows else rows

-- The rows after it, and whether some were removed; the stamp is `Now() - eventTtl`, and `first` is
-- that of the first row.
unfoldable pub cull : ℕ → ℕ → List Row → List Row × Bool
unfolding expired_count
cull event_max cull_stamp [] = ([], false)
cull event_max cull_stamp (row ∷ rows) =
    let all = row ∷ rows in
    let kept = trim event_max all in
    let expired = expired_count cull_stamp kept in
    if ltb (length all) event_max && ltb cull_stamp (stamp_of row)
    then (all, false)
    else if expired == 0
    then (kept, ltb event_max (length all))
    else (drop (length kept - expired) kept, true)

abbrev pub AllOld : ℕ → List Row → Type 0
AllOld s [] = Unit
AllOld s (row ∷ rows) = (stamp_of row ≤ s) × AllOld s rows

abbrev pub AllNew : ℕ → List Row → Type 0
AllNew s [] = Unit
AllNew s (row ∷ rows) = (s < stamp_of row) × AllNew s rows

expired_count-append :
    (s : ℕ) (old new : List Row)
    → AllOld s old
    → AllNew s new
    → expired_count s (old ++ new) ≡ length old
unfolding expired_count
expired_count-append s [] [] a b = refl
expired_count-append s [] (row ∷ new) a (late, b) =
    let e : ltb s (stamp_of row) ≡ true = ground (arith, late) in rw e refl
expired_count-append s (row ∷ old) new (early, a) b =
    let e : ltb s (stamp_of row) ≡ false = ground (arith, early) in
    rw e (ap suc (expired_count-append s old new a b))

-- A customer within the limit of rows, the first `old` of which have expired, while the others have
-- not: the code drops as many rows from the front as have not expired.
pub cull_lem :
    (event_max cull_stamp : ℕ) (row : Row) (old new : List Row)
    → length ((row ∷ old) ++ new) ≤ event_max
    → AllOld cull_stamp (row ∷ old)
    → AllNew cull_stamp new
    → cull event_max cull_stamp ((row ∷ old) ++ new)
      ≡ (drop (length new) ((row ∷ old) ++ new), true)
unfolding cull
cull_lem event_max cull_stamp row old new fits (early, a) b =
    let all = (row ∷ old) ++ new in
    let within : ltb event_max (length all) ≡ false = ground (arith, fits) in
    let expired : ltb cull_stamp (stamp_of row) ≡ false = ground (arith, early) in
    let checked : (ltb (length all) event_max && ltb cull_stamp (stamp_of row)) ≡ false =
      ground (arith, expired) in
    let count = expired_count-append cull_stamp (row ∷ old) new (early, a) b in
    let size : length all - length (row ∷ old) ≡ length new =
      omega (arith, length-append (row ∷ old) new) in
    let some_old : suc (length old) == 0 ≡ false = ground arith in
    rw (checked, within, count, size, some_old) refl
