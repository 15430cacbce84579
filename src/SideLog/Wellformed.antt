-- ===== src/SideLog/Wellformed.antt =====
-- The invariant of the log: no address twice, each below the next one that the pool gives, and
-- `logSize` the number of entries.
mod Ranges
use openset.Bytes.{read_le}
use openset.SideLog.{
  Entry, Reader, ReadMap, SideLog, trim_loop, trim_side_log, add, entries_after, entries_from,
  get_last_read, read, log_max_age,
}
use openset.SideLog.Image.{read_entry, read_entries, restamp, relinked, deserialize}
use openset.SideLog.Pending.{AddressesOnce}
use openset.Prelude.{
  ℕ, zero, suc, ◌+◌, ◌-◌, ◌≤◌, ◌<◌, ◌≡◌, refl, ap, ◌∙◌, ◌⊎◌, List, [], ◌∷◌, ◌++◌, map, Option, none,
  some, length, length-append, length-map, arith, inl, inr, Option-cases,
}
use openset.SideLog.Wellformed.Ranges.{
  AreWithin, AreWithin-weaken, AreWithin-append, entries_after_outside, AddressesOnce-append,
}

pub record IsWellformed (log : SideLog) : Type 0 where
  pub once : AddressesOnce log.entries
  pub below : AreWithin 0 log.next_address log.entries
  pub sized : log.log_size ≡ length log.entries

-- `add` keeps the invariant.
pub add-IsWellformed :
    (now : ℕ) (log : SideLog) (key : Reader) (json : List ℕ)
    → IsWellformed log
    → IsWellformed (add now log key json)
unfolding add entries_after
add-IsWellformed now log key json w = record {
  once =
      AddressesOnce-append 0 log.next_address log.next_address (log.next_address + 1) log.entries _
        w.once (refl, tt) w.below (omega arith) (inl (omega arith));
  below =
      AreWithin-append 0 (log.next_address + 1) log.entries _
        (AreWithin-weaken 0 0 log.next_address (log.next_address + 1) log.entries (omega arith)
          (omega arith) w.below)
        (omega arith);
  sized = omega (arith, length-append {0} log.entries, w.sized);
}

trim_loop-keeps :
    (heads : ReadMap) (keep hi : ℕ) (es : List Entry) (size : ℕ)
    → AddressesOnce es
    → AreWithin 0 hi es
    → size ≡ length es
    → AddressesOnce (trim_loop heads keep es size).0
      × AreWithin 0 hi (trim_loop heads keep es size).0
      × ((trim_loop heads keep es size).1 ≡ length (trim_loop heads keep es size).0)
unfolding trim_loop
trim_loop-keeps heads keep hi [] size once below sized = (tt, tt, sized)
trim_loop-keeps heads keep hi (e ∷ es) size once below sized =
    ground (arith, trim_loop-keeps heads keep hi es (size - 1) once.1 below.2)

-- Trimming keeps the invariant.
pub trim_side_log-IsWellformed :
    (now : ℕ) (log : SideLog) → IsWellformed log → IsWellformed (trim_side_log now log)
unfolding trim_side_log
trim_side_log-IsWellformed now log w =
    let (once, below, sized) =
      trim_loop-keeps log.read_heads (now - log_max_age) log.next_address log.entries log.log_size
        w.once w.below w.sized in
    ground arith

-- `read` keeps the invariant.
pub read-IsWellformed :
    (now : ℕ) (log log' : SideLog) (key : Reader) (limit : ℕ) (out : List (List ℕ))
    (position : Option ℕ)
    → read now log key limit ≡ some (out, position, log')
    → IsWellformed log
    → IsWellformed log'
unfolding read
read-IsWellformed now log log' key limit out position done w =
    elim (Option-cases (entries_from log.entries (get_last_read log.read_heads key))) [
      | inl dangling ↦ absurd (ground (arith, dangling, done))
      | inr (es, at) ↦
          let same : trim_side_log now log ≡ log' = ground (arith, at, done) in
          rw (← same) (trim_side_log-IsWellformed now log w)
    ]

read_entry-address :
    (address : ℕ) (mem rest : List ℕ) (e : Entry)
    → read_entry address mem ≡ some (e, rest)
    → e.address ≡ address
unfolding read_entry
read_entry-address address mem rest e h = ground arith

read_entries-keeps :
    (n address : ℕ) (mem : List ℕ) (es : List Entry)
    → read_entries n address mem ≡ some es
    → AddressesOnce es × AreWithin address (address + n) es × (length es ≡ n)
unfolding read_entries
read_entries-keeps zero address mem es h = let e : [] ≡ es = ground arith in rw (← e) (tt, tt, refl)
read_entries-keeps (suc n) address mem es h = elim (Option-cases (read_entry address mem)) [
  | inl short ↦ absurd (ground (arith, short))
  | inr ((e, mem'), one) ↦ elim (Option-cases (read_entries n (suc address) mem')) [
    | inl short ↦ absurd (ground (arith, one, short))
    | inr (more, others) ↦
        let (once, within, count) = read_entries-keeps n (suc address) mem' more others in
        let at = read_entry-address address mem mem' e one in
        let all : e ∷ more ≡ es = ground (arith, one, others) in
        rw (← all) (
          (
            entries_after_outside (suc address) (suc address + n) e.address more within
                (inl (omega (arith, at))),
            once,
          ),
          (
            omega (arith, at),
            omega (arith, at),
            AreWithin-weaken (suc address) address (suc address + n) (address + suc n) more
                (omega arith) (omega arith) within,
          ),
          omega (arith, count),
        )
  ]
]

entries_after-restamp :
    (now a : ℕ) (es : List Entry)
    → entries_after es a ≡ none
    → entries_after (map (restamp now) es) a ≡ none
unfolding entries_after
entries_after-restamp now a [] h = refl
entries_after-restamp now a (e ∷ es) h = ground (arith, entries_after-restamp now a es)

restamp-keeps :
    (now hi : ℕ) (es : List Entry)
    → AddressesOnce es
    → AreWithin 0 hi es
    → AddressesOnce (map (restamp now) es) × AreWithin 0 hi (map (restamp now) es)
restamp-keeps now hi [] p q = (tt, tt)
restamp-keeps now hi (e ∷ es) p q =
    let (once, below) = restamp-keeps now hi es p.1 q.2 in
    ((entries_after-restamp now e.address es p.0, once), (q.0, q.1, below))

-- The joined list, where the block has an entry or the log had none.
relinked-keeps :
    (n next : ℕ) (es old : List Entry)
    → AddressesOnce es × AreWithin next (next + n) es
    → AddressesOnce old × AreWithin 0 next old
    → (length old ≡ 0) ⊎ (0 < length (relinked es old))
    → AddressesOnce (relinked es old)
      × AreWithin 0 (next + n) (relinked es old)
      × (length (relinked es old) ≡ length es + length old)
unfolding relinked
relinked-keeps n next [] old new before (inl none_old) = (tt, tt, omega arith)
relinked-keeps n next [] old new before (inr left) = absurd (omega arith)
relinked-keeps n next (e ∷ es) old (once, within) (old_once, old_below) kept = (
  AddressesOnce-append next (next + n) 0 next (e ∷ es) old once old_once within old_below
      (inr (omega arith)),
  AreWithin-append 0 (next + n) (e ∷ es) old
      (AreWithin-weaken next 0 (next + n) (next + n) (e ∷ es) (omega arith) (omega arith) within)
      (AreWithin-weaken 0 0 next (next + n) old (omega arith) (omega arith) old_below),
  length-append {0} (e ∷ es) old,
)

-- `deserialize` keeps the invariant, whatever the block holds, where it does not run past its end,
-- provided that the log was empty before or is not empty after.
pub deserialize-IsWellformed :
    (now : ℕ) (log log' : SideLog) (mem : List ℕ)
    → deserialize now log mem ≡ some log'
    → (length log.entries ≡ 0) ⊎ (0 < length log'.entries)
    → IsWellformed log
    → IsWellformed log'
unfolding deserialize
deserialize-IsWellformed now log log' mem done left w = elim (Option-cases (read_le 8 mem)) [
  | inl short ↦ absurd (ground (arith, short))
  | inr ((count, m), head) ↦ elim (Option-cases (read_entries count log.next_address m)) [
    | inl short ↦ absurd (ground (arith, head, short))
    | inr (es, body) ↦
        let (once, within, size) = read_entries-keeps count log.next_address m es body in
        let old = map (restamp now) log.entries in
        let built : SideLog = record {
          entries = relinked es old;
          log_size = count + length log.entries;
          read_heads = log'.read_heads;
          next_address = log.next_address + count;
        } in
        let same : built ≡ log' = ground (arith, head, body) in
        let old_size : length old ≡ length log.entries =
          length-map {0, 0} log.entries (restamp now) in
        let left' : (length old ≡ 0) ⊎ (0 < length (relinked es old)) = elim left [
          | inl e ↦ inl (old_size ∙ e)
          | inr lt ↦ inr (rw (ap (λ l. length l.entries) same) lt)
        ] in
        let (all_once, all_below, all_sized) =
          relinked-keeps count log.next_address es old (once, within)
            (restamp-keeps now log.next_address log.entries w.once w.below) left' in
        rw (← same) (record {
          once = all_once;
          below = all_below;
          sized = omega (arith, all_sized, old_size, size);
        })
  ]
]
