-- ===== src/SideLog.antt =====
-- src/sidelog.h: the log of inserted transactions, which each partition of a table reads in order.
--
-- The linked list from `head` to `tail` is the list of its entries. A pointer to an entry is its
-- address, and none is the null pointer; the pool gives each entry the address `next_address`. Every
-- operation is called under the lock of the log. `now` is what Now() reads during the call. The
-- members `lastTrim` and `lastLogSize`, which only limit debug output, are left out.
pub mod Pending
pub mod Delivery
pub mod Image
pub mod Wellformed
use openset.Prelude.{
  ℕ, zero, suc, ◌+◌, ◌-◌, ◌*◌, Bool, true, false, not, ◌&&◌, ◌||◌, List, [], ◌∷◌, ◌++◌, map, Option,
  none, some, ltb, ◌==◌, if◌then◌else◌, length,
}

-- `SideLogCursor_s`; the JSON text is its bytes.
pub record Entry : Type 0 where
  pub address : ℕ
  pub stamp : ℕ
  pub table_hash : ℕ
  pub partition : ℕ
  pub json : List ℕ

-- Table hash and partition.
abbrev pub Reader : Type 0
Reader = ℕ × ℕ

abbrev pub reader_eq : Reader → Reader → Bool
reader_eq (a, b) (c, d) = a == c && b == d

abbrev pub ReadMap : Type 0
ReadMap = List (Reader × Option ℕ)

pub record SideLog : Type 0 where
  pub entries : List Entry
  pub log_size : ℕ
  pub read_heads : ReadMap
  pub next_address : ℕ

abbrev pub log_max_age : ℕ
log_max_age = 15_000

abbrev pub min_log_size : ℕ
min_log_size = 1_000

-- `getLastRead`.
unfoldable pub get_last_read : ReadMap → Reader → Option ℕ
get_last_read [] key = none
get_last_read ((k, p) ∷ heads) key = if reader_eq k key then p else get_last_read heads key

-- `setLastRead`.
unfoldable pub set_last_read : ReadMap → Reader → Option ℕ → ReadMap
set_last_read [] key link = (key, link) ∷ []
set_last_read ((k, p) ∷ heads) key link =
    if reader_eq k key then (k, link) ∷ heads else (k, p) ∷ set_last_read heads key link

abbrev pub is_link : Option ℕ → Option ℕ → Bool
is_link none none = true
is_link (some a) (some b) = a == b
is_link _ _ = false

-- `getReferencedEntries().count(link)`.
unfoldable pub is_referenced : ReadMap → Option ℕ → Bool
is_referenced [] link = false
is_referenced ((k, p) ∷ heads) link = is_link p link || is_referenced heads link

-- The loop of `trimSideLog`: the entries that are left, and `logSize`.
unfoldable pub trim_loop : ReadMap → ℕ → List Entry → ℕ → List Entry × ℕ
unfolding is_referenced
trim_loop heads keep_stamp [] size = ([], size)
trim_loop heads keep_stamp (e ∷ es) size =
    let rest = trim_loop heads keep_stamp es (size - 1) in
    if ltb min_log_size size && ltb e.stamp keep_stamp && not (is_referenced heads (some e.address))
    then rest
    else (e ∷ es, size)

unfoldable pub trim_side_log : ℕ → SideLog → SideLog
unfolding trim_loop
trim_side_log now log =
    if is_referenced log.read_heads none
    then log
    else let trimmed = trim_loop log.read_heads (now - log_max_age) log.entries log.log_size in
      record log { entries = trimmed.0; log_size = trimmed.1 }

unfoldable pub add : ℕ → SideLog → Reader → List ℕ → SideLog
add now log (table, partition) json = record log {
  entries =
      log.entries
      ++ record {
        address = log.next_address;
        stamp = now;
        table_hash = table;
        partition = partition;
        json = json;
      }
        ∷ [];
  log_size = log.log_size + 1;
  next_address = log.next_address + 1;
}

-- The entries behind a cursor. There is none if the cursor is no entry of the list, where the source
-- would follow a dangling pointer.
unfoldable pub entries_after : List Entry → ℕ → Option (List Entry)
entries_after [] address = none
entries_after (e ∷ es) address = if e.address == address then some es else entries_after es address

abbrev pub entries_from : List Entry → Option ℕ → Option (List Entry)
entries_from es none = some es
entries_from es (some a) = entries_after es a

abbrev pub is_for : Reader → Entry → Bool
is_for key e = reader_eq (e.table_hash, e.partition) key

-- The loop of `read` behind the cursor `last`, with `count` results so far: the results, and the
-- last entry that it has looked at.
unfoldable pub scan : Reader → ℕ → List Entry → ℕ → Option ℕ → List (List ℕ) × Option ℕ
scan key limit [] count last = ([], last)
scan key limit (e ∷ es) count last =
    let found = scan key limit es (count + 1) (some e.address) in
    let passed = scan key limit es count (some e.address) in
    if is_for key e
    then if count + 1 == limit then (e.json ∷ [], some e.address) else (e.json ∷ found.0, found.1)
    else passed

-- The results, the read position and the log; none is the fault of a dangling read head.
unfoldable pub read : ℕ → SideLog → Reader → ℕ → Option (List (List ℕ) × Option ℕ × SideLog)
unfolding get_last_read entries_after scan trim_side_log
read now log key limit =
    let last = get_last_read log.read_heads key in
    elim (entries_from log.entries last) [
      | none ↦ none
      | some es ↦
          let found = scan key limit es 0 last in some (found.0, found.1, trim_side_log now log)
    ]

unfoldable pub update_read_head : SideLog → Reader → Option ℕ → SideLog
unfolding set_last_read
update_read_head log key handle = record log {
  read_heads = set_last_read log.read_heads key handle;
}

unfoldable pub reset_read_head : SideLog → Reader → SideLog
unfolding set_last_read
reset_read_head log key = record log { read_heads = set_last_read log.read_heads key none }

unfoldable pub erase_partition : ReadMap → ℕ → ReadMap
erase_partition [] partition = []
erase_partition ((k, p) ∷ heads) partition =
    let rest = erase_partition heads partition in if k.1 == partition then rest else (k, p) ∷ rest

unfoldable pub remove_read_heads_by_partition : SideLog → ℕ → SideLog
unfolding erase_partition
remove_read_heads_by_partition log partition = record log {
  read_heads = erase_partition log.read_heads partition;
}

unfoldable pub reset_read_heads : ReadMap → ReadMap
reset_read_heads [] = []
reset_read_heads ((k, p) ∷ heads) = (k, none) ∷ reset_read_heads heads
