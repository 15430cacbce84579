-- ===== src/Examples/Log.antt =====
-- The theorems about SideLog on a log of three transactions with two readers.
use openset.SideLog.{
  Entry, SideLog, read, update_read_head, entries_after, get_last_read, is_referenced,
  trim_side_log,
}
use openset.SideLog.Delivery.{pending, read-update_read_head, pending-read_other}
use openset.SideLog.Image.{serialize, relinked, deserialize}
use openset.SideLog.Pending.{AddressesOnce, texts_for}
use openset.SideLog.Wellformed.{IsWellformed, deserialize-IsWellformed}
use openset.Prelude.{ℕ, ◌≡◌, refl, List, [], ◌∷◌, ◌++◌, Option, none, some, arith, inr}

abbrev entry : ℕ → ℕ → List ℕ → Entry
entry address partition json = record {
  address = address;
  stamp = 100;
  table_hash = 1;
  partition = partition;
  json = json;
}

abbrev log : SideLog
log = record {
  entries = entry 0 2 (b'a' ∷ []) ∷ entry 1 3 (b'b' ∷ []) ∷ entry 2 2 (b'c' ∷ []) ∷ [];
  log_size = 3;
  read_heads = ((1, 2), some 0) ∷ ((1, 3), none) ∷ [];
  next_address = 3;
}

log-once : AddressesOnce log.entries
unfolding entries_after
log-once = (refl, (refl, (refl, tt)))

log-IsWellformed : IsWellformed log
unfolding entries_after
log-IsWellformed = record { once = log-once; below = omega arith; sized = refl }

read-update_read_head_example :
    (out : List (List ℕ)) × (position : Option ℕ) × (log' : SideLog) × (rest : List (List ℕ))
    × (read 90_000 log (1, 3) 1 ≡ some (out, position, log'))
    × ((b'b' ∷ []) ∷ [] ≡ out ++ rest)
    × (pending (update_read_head log' (1, 3) position) (1, 3) ≡ some rest)
unfolding get_last_read is_referenced texts_for
read-update_read_head_example =
    read-update_read_head 90_000 log (1, 3) 1 ((b'b' ∷ []) ∷ []) log-once refl refl

pending-read_other_example :
    pending (update_read_head (trim_side_log 90_000 log) (1, 3) (some 2)) (1, 2)
    ≡ pending log (1, 2)
unfolding get_last_read is_referenced read
pending-read_other_example =
    pending-read_other 90_000 log (trim_side_log 90_000 log) (1, 3) (1, 2) 5 ((b'b' ∷ []) ∷ [])
      (some 2) (some 2) refl refl refl

abbrev block : List ℕ
block = serialize (record log { entries = entry 9 2 (b'd' ∷ []) ∷ [] })

abbrev restarted : SideLog
restarted = record {
  entries =
      entry 3 2 (b'd' ∷ [])
      ∷ record (entry 0 2 (b'a' ∷ [])) { stamp = 500 }
      ∷ record (entry 1 3 (b'b' ∷ [])) { stamp = 500 }
      ∷ record (entry 2 2 (b'c' ∷ [])) { stamp = 500 }
      ∷ [];
  log_size = 4;
  read_heads = ((1, 2), none) ∷ ((1, 3), none) ∷ [];
  next_address = 4;
}

deserialize-IsWellformed_example : IsWellformed restarted
unfolding deserialize serialize relinked
deserialize-IsWellformed_example =
    deserialize-IsWellformed 500 log restarted block refl (inr (omega arith)) log-IsWellformed
