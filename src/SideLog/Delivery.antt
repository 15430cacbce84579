-- ===== src/SideLog/Delivery.antt =====
-- `add`, `read` with `updateReadHead` and `trimSideLog`, on what a reader has still to read.
use openset.SideLog.{
  Entry, Reader, reader_eq, ReadMap, SideLog, get_last_read, set_last_read, is_referenced,
  trim_side_log, add, entries_after, entries_from, scan, read, update_read_head, reset_read_heads,
  log_max_age,
}
use openset.SideLog.Pending.{
  texts_for, AddressesOnce, Reaches, scan-splits, entries_after-trim, entries_after-trim_later,
  entries_after-later,
}
use openset.Prelude.{
  ℕ, ◌-◌, ◌≡◌, refl, sym, ap, ◌∙◌, true, false, List, [], ◌∷◌, ◌++◌, Option, none, some,
  if◌then◌else◌, arith, inl, inr, Bool-cases, Option-cases,
}

abbrev texts_of : Reader → Option (List Entry) → Option (List (List ℕ))
texts_of key none = none
texts_of key (some es) = some (texts_for key es)

-- The texts that a reader has still to read; none if its read head dangles.
abbrev pub pending : SideLog → Reader → Option (List (List ℕ))
pending log key = texts_of key (entries_from log.entries (get_last_read log.read_heads key))

-- The log keeps a read head for the reader, which may be null.
abbrev pub IsRegistered : SideLog → Reader → Type 0
IsRegistered log key = is_referenced log.read_heads (get_last_read log.read_heads key) ≡ true

entries_from-trim :
    (now : ℕ) (log : SideLog) (link : Option ℕ)
    → is_referenced log.read_heads link ≡ true
    → entries_from (trim_side_log now log).entries link ≡ entries_from log.entries link
unfolding trim_side_log
entries_from-trim now log none held = rw held
entries_from-trim now log (some a) held = elim (Bool-cases (is_referenced log.read_heads none)) [
  | inl waiting ↦ rw waiting
  | inr going ↦
      rw going
        (entries_after-trim log.read_heads (now - log_max_age) log.entries log.log_size a held)
]

read_heads-trim : (now : ℕ) (log : SideLog) → (trim_side_log now log).read_heads ≡ log.read_heads
unfolding trim_side_log
read_heads-trim now log = ground arith

-- Trimming takes nothing from a registered reader that it has still to read.
pub pending-trim_side_log :
    (now : ℕ) (log : SideLog) (key : Reader)
    → IsRegistered log key
    → pending (trim_side_log now log) key ≡ pending log key
pending-trim_side_log now log key held =
    rw read_heads-trim
      (ap (texts_of key) (entries_from-trim now log (get_last_read log.read_heads key) held))

get_last_read-set_last_read :
    (heads : ReadMap) (key other : Reader) (link : Option ℕ)
    → get_last_read (set_last_read heads key link) other
      ≡ (if reader_eq key other then link else get_last_read heads other)
unfolding get_last_read set_last_read
get_last_read-set_last_read [] key other link = ground arith
get_last_read-set_last_read ((k, p) ∷ heads) key other link =
    ground (arith, get_last_read-set_last_read heads key other link)

reader_eq_refl : (key : Reader) → reader_eq key key ≡ true
reader_eq_refl (a, b) = ground arith

-- Where a position that a scan may end at leads to, also after the trim of the same call.
position_survives :
    (now : ℕ) (log : SideLog) (last position : Option ℕ) (es rest : List Entry)
    → AddressesOnce log.entries
    → is_referenced log.read_heads last ≡ true
    → entries_from log.entries last ≡ some es
    → entries_from log.entries position ≡ some rest
    → Reaches es last position
    → entries_from (trim_side_log now log).entries position ≡ some rest
position_survives now log last position es rest once held at here (inl same) =
    rw same (entries_from-trim now log last held ∙ rw same at here)
position_survives now log none position es rest once held at here (inr found) =
    unfold trim_side_log in rw held here
position_survives now log (some a) position es rest once held at here (inr (b, behind, e, found)) =
    unfold trim_side_log in
    elim (Bool-cases (is_referenced log.read_heads none)) [
      | inl waiting ↦ rw waiting here
      | inr going ↦
          rw (going, e)
            (entries_after-trim_later log.read_heads (now - log_max_age) log.entries log.log_size a
                b es behind once held at found
              ∙ sym (entries_after-later log.entries a b es behind once at found)
              ∙ rw e at here)
    ]

-- `read` with the `updateReadHead` that acknowledges it hands a registered reader the first of the
-- texts that it has still to read, in order, and leaves it exactly the rest, although the call trims
-- the log. Its read head leads into the log, and no two entries have one address.
pub read-update_read_head :
    (now : ℕ) (log : SideLog) (key : Reader) (limit : ℕ) (texts : List (List ℕ))
    → AddressesOnce log.entries
    → IsRegistered log key
    → pending log key ≡ some texts
    → (out : List (List ℕ)) × (position : Option ℕ) × (log' : SideLog) × (rest : List (List ℕ))
      × (read now log key limit ≡ some (out, position, log'))
      × (texts ≡ out ++ rest)
      × (pending (update_read_head log' key position) key ≡ some rest)
unfolding read update_read_head
read-update_read_head now log key limit texts once held waiting =
    elim (Option-cases (entries_from log.entries (get_last_read log.read_heads key))) [
      | inl dangling ↦ absurd (ground (arith, dangling, waiting))
      | inr (es, at) ↦
          let last = get_last_read log.read_heads key in
          let found = scan key limit es 0 last in
          let (behind, here, split, reach) = scan-splits key limit es 0 last log.entries at once in
          (
            found.0,
            found.1,
            trim_side_log now log,
            texts_for key behind,
            rw (at, read),
            (let all : texts ≡ texts_for key es = ground (arith, at, waiting) in all) ∙ split,
            rw (get_last_read-set_last_read, reader_eq_refl)
                (ap (texts_of key)
                  (position_survives now log last found.1 es behind once held at here reach)),
          )
    ]

-- Neither the reading of one reader nor its acknowledgement takes anything from another registered
-- reader.
pub pending-read_other :
    (now : ℕ) (log log' : SideLog) (key other : Reader) (limit : ℕ) (out : List (List ℕ))
    (position link : Option ℕ)
    → reader_eq key other ≡ false
    → IsRegistered log other
    → read now log key limit ≡ some (out, position, log')
    → pending (update_read_head log' key link) other ≡ pending log other
unfolding read update_read_head
pending-read_other now log log' key other limit out position link apart held done =
    elim (Option-cases (entries_from log.entries (get_last_read log.read_heads key))) [
      | inl dangling ↦ absurd (ground (arith, dangling, done))
      | inr (es, at) ↦
          let same : trim_side_log now log ≡ log' = ground (arith, at, done) in
          rw (get_last_read-set_last_read, apart, ← same) (pending-trim_side_log now log other held)
    ]

entries_after-append :
    (es more rest : List Entry) (a : ℕ)
    → entries_after es a ≡ some rest
    → entries_after (es ++ more) a ≡ some (rest ++ more)
unfolding entries_after
entries_after-append [] more rest a at = cc
entries_after-append (e ∷ es) more rest a at = ground (arith, entries_after-append es more rest a)

pub texts_for-append :
    (key : Reader) (es more : List Entry)
    → texts_for key (es ++ more) ≡ texts_for key es ++ texts_for key more
unfolding texts_for
texts_for-append key [] more = refl
texts_for-append key (e ∷ es) more = ground (arith, texts_for-append key es more)

-- What is added is read last, and by the readers of its table and partition only.
pub pending-add :
    (now : ℕ) (log : SideLog) (target key : Reader) (json : List ℕ) (texts : List (List ℕ))
    → pending log key ≡ some texts
    → pending (add now log target json) key
      ≡ some (texts ++ (if reader_eq target key then json ∷ [] else []))
unfolding add texts_for
pending-add now log target key json texts waiting = added (get_last_read log.read_heads key) waiting
  where
    new : Entry
    new = record {
      address = log.next_address;
      stamp = now;
      table_hash = target.0;
      partition = target.1;
      json = json;
    }

    ended :
        (es : List Entry)
        → texts_for key es ≡ texts
        → texts_for key (es ++ new ∷ []) ≡ texts ++ (if reader_eq target key then json ∷ [] else [])
    ended es e = texts_for-append key es (new ∷ []) ∙ rw e (ground arith)

    added :
        (link : Option ℕ)
        → texts_of key (entries_from log.entries link) ≡ some texts
        → texts_of key (entries_from (log.entries ++ new ∷ []) link)
          ≡ some (texts ++ (if reader_eq target key then json ∷ [] else []))
    added none w = ap some (ended log.entries (ground arith))
    added (some a) w = elim (Option-cases (entries_after log.entries a)) [
      | inl dangling ↦ absurd (ground (arith, dangling))
      | inr (es, at) ↦
          rw (entries_after-append log.entries (new ∷ []) es a at)
            (ap some (ended es (ground (arith, at))))
    ]

pub get_last_read-reset :
    (heads : ReadMap) (key : Reader) → get_last_read (reset_read_heads heads) key ≡ none
unfolding get_last_read reset_read_heads
get_last_read-reset [] key = refl
get_last_read-reset ((k, p) ∷ heads) key = ground (arith, get_last_read-reset heads key)
