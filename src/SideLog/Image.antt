-- ===== src/SideLog/Image.antt =====
-- `serialize` and `deserialize`: a log moves to another node as a block of bytes. What is written to
-- the HeapStack is the list of the bytes that its `flatten` returns. A JSON text has no zero byte, so
-- `strlen` is its length.
use openset.Bytes.{le_bytes, read_le, take_bytes, ◌>>=◌}
use openset.SideLog.{Entry, SideLog, reset_read_heads}
use openset.Prelude.{ℕ, zero, suc, ◌+◌, ◌^◌, ◌<◌, List, [], ◌∷◌, ◌++◌, map, Option, some, length}

-- `SideLogCursor_s::serialize`.
unfoldable pub write_entry : Entry → List ℕ
unfolding le_bytes
write_entry e =
    le_bytes 8 e.stamp
    ++ (le_bytes 8 e.table_hash
        ++ (le_bytes 4 e.partition ++ (le_bytes 4 (length e.json) ++ e.json)))

unfoldable pub write_entries : List Entry → List ℕ
unfolding write_entry
write_entries [] = []
write_entries (e ∷ es) = write_entry e ++ write_entries es

unfoldable pub serialize : SideLog → List ℕ
unfolding write_entries le_bytes
serialize log = le_bytes 8 (length log.entries) ++ write_entries log.entries

-- `SideLogCursor_s::deserialize`, with the memory that is left.
unfoldable pub read_entry : ℕ → List ℕ → Option (Entry × List ℕ)
unfolding read_le take_bytes
read_entry address mem = do
  (stamp, m₁) ← read_le 8 mem
  (table, m₂) ← read_le 8 m₁
  (partition, m₃) ← read_le 4 m₂
  (json_length, m₄) ← read_le 4 m₃
  (json, m₅) ← take_bytes json_length m₄
  some (
    record {
      address = address;
      stamp = stamp;
      table_hash = table;
      partition = partition;
      json = json;
    },
    m₅,
  )

unfoldable pub read_entries : ℕ → ℕ → List ℕ → Option (List Entry)
unfolding read_entry
read_entries zero address mem = some []
read_entries (suc n) address mem = do
  (e, mem') ← read_entry address mem
  es ← read_entries n (suc address) mem'
  some (e ∷ es)

abbrev pub restamp : ℕ → Entry → Entry
restamp now e = record e { stamp = now }

-- The list from `head`, which is set by the entries that are read and by no other: the old ones are
-- linked to a tail that is not there, where none is read, and no pointer leads to them.
unfoldable pub relinked : List Entry → List Entry → List Entry
relinked [] old = []
relinked (e ∷ es) old = e ∷ es ++ old

-- `SideLog::deserialize`: what is read comes before what the log held, and every reader starts anew.
unfoldable pub deserialize : ℕ → SideLog → List ℕ → Option SideLog
unfolding read_le read_entries reset_read_heads relinked
deserialize now log mem = do
  (count, m) ← read_le 8 mem
  es ← read_entries count log.next_address m
  some (record {
    entries = relinked es (map (restamp now) log.entries);
    log_size = count + length log.entries;
    read_heads = reset_read_heads log.read_heads;
    next_address = log.next_address + count;
  })

-- The fields fit their places in the block.
abbrev pub IsWritable : Entry → Type 0
IsWritable e =
    (e.stamp < 2 ^ 64) × (e.table_hash < 2 ^ 64) × (e.partition < 2 ^ 32) × (length e.json < 2 ^ 32)

abbrev pub AreWritable : List Entry → Type 0
AreWritable [] = Unit {0}
AreWritable (e ∷ es) = IsWritable e × AreWritable es

-- The entries with the addresses that the pool gives them.
abbrev readdress : ℕ → List Entry → List Entry
readdress address [] = []
readdress address (e ∷ es) = record e { address = address } ∷ readdress (suc address) es
