-- ===== src/SideLog/Pending.antt =====
-- The transactions that a reader has still to read.
use openset.Prelude.{
  ℕ, ◌+◌, ◌-◌, ◌≡◌, refl, ap, true, ◌⊎◌, List, [], ◌∷◌, ◌++◌, Option, none, some, ◌==◌,
  if◌then◌else◌, arith, inl, inr, Bool-cases,
}
use openset.SideLog.{
  Entry, Reader, ReadMap, is_referenced, trim_loop, entries_after, entries_from, is_for, scan,
}

-- The texts of the entries for a reader, in order.
unfoldable pub texts_for : Reader → List Entry → List (List ℕ)
texts_for key [] = []
texts_for key (e ∷ es) = let rest = texts_for key es in if is_for key e then e.json ∷ rest else rest

-- Whether a pointer is null or leads to an entry.
abbrev pub IsLive : List Entry → Option ℕ → Type 0
IsLive es link = (rest : List Entry) × (entries_from es link ≡ some rest)

-- No two entries have one address.
abbrev pub AddressesOnce : List Entry → Type 0
AddressesOnce [] = Unit {0}
AddressesOnce (e ∷ es) = (entries_after es e.address ≡ none) × AddressesOnce es

entries_after-next :
    (all : List Entry) (a : ℕ) (e : Entry) (es : List Entry)
    → AddressesOnce all
    → entries_after all a ≡ some (e ∷ es)
    → entries_after all e.address ≡ some es
unfolding entries_after
entries_after-next [] a e es once h = cc
entries_after-next (x ∷ xs) a e es once h = elim (Bool-cases (x.address == a)) [
  | inl here ↦
      let tail : xs ≡ e ∷ es = ground (arith, h) in ground (arith, once.0, tail, head_found)
  | inr there ↦
      let later = entries_after-next xs a e es once.1 (rw there at h) in
      ground (arith, once.0, later)
]
  where
    head_found : entries_after (e ∷ es) e.address ≡ some es
    head_found = ground arith

entries_from-next :
    (all : List Entry) (last : Option ℕ) (e : Entry) (es : List Entry)
    → AddressesOnce all
    → entries_from all last ≡ some (e ∷ es)
    → entries_after all e.address ≡ some es
unfolding entries_after
entries_from-next all none e es once h =
    let same : all ≡ e ∷ es = ground (arith, h) in rw same (ground arith)
entries_from-next all (some a) e es once h = entries_after-next all a e es once h

-- The position of a scan is where it began, or the address of an entry that it passed.
abbrev pub Reaches : List Entry → Option ℕ → Option ℕ → Type 0
Reaches es last position =
    (position ≡ last)
    ⊎ ((b : ℕ) × (rest : List Entry) × (position ≡ some b) × (entries_after es b ≡ some rest))

Reaches-cons :
    (e : Entry) (es : List Entry) (last position : Option ℕ)
    → Reaches es (some e.address) position
    → Reaches (e ∷ es) last position
unfolding entries_after
Reaches-cons e es last position (inl p) = inr (e.address, es, p, ground arith)
Reaches-cons e es last position (inr (b, rest, p, h)) = elim (Bool-cases (e.address == b)) [
  | inl here ↦ inr (b, es, p, rw here)
  | inr there ↦ inr (b, rest, p, rw there h)
]

-- What a scan returns and what stands behind its position are together what it began with.
pub scan-splits :
    (key : Reader) (limit : ℕ) (es : List Entry) (count : ℕ) (last : Option ℕ) (all : List Entry)
    → entries_from all last ≡ some es
    → AddressesOnce all
    → (rest : List Entry) × (entries_from all (scan key limit es count last).1 ≡ some rest)
      × (texts_for key es ≡ (scan key limit es count last).0 ++ texts_for key rest)
      × Reaches es last (scan key limit es count last).1
unfolding scan texts_for
scan-splits key limit [] count last all at once = ([], at, refl, inl refl)
scan-splits key limit (e ∷ es) count last all at once =
    let next : entries_from all (some e.address) ≡ some es =
      entries_from-next all last e es once at in
    elim (Bool-cases (is_for key e)) [
      | inr other ↦
          let (rest, here, split, reach) =
            scan-splits key limit es count (some e.address) all next once in
          rw other (rest, here, split, Reaches-cons e es last _ reach)
      | inl mine ↦ elim (Bool-cases (count + 1 == limit)) [
        | inl full ↦
            rw (mine, full) (es, next, refl, Reaches-cons e es last (some e.address) (inl refl))
        | inr more ↦
            let (rest, here, split, reach) =
              scan-splits key limit es (count + 1) (some e.address) all next once in
            rw (mine, more) (rest, here, ap (◌∷◌ e.json) split, Reaches-cons e es last _ reach)
      ]
    ]

-- The trim stops at an entry that a read head is at.
pub entries_after-trim :
    (heads : ReadMap) (keep : ℕ) (es : List Entry) (size a : ℕ)
    → is_referenced heads (some a) ≡ true
    → entries_after (trim_loop heads keep es size).0 a ≡ entries_after es a
unfolding trim_loop entries_after
entries_after-trim heads keep [] size a held = refl
entries_after-trim heads keep (e ∷ es) size a held = elim (Bool-cases (e.address == a)) [
  | inl here ↦ let same : e.address ≡ a = ground arith in ground (arith, rw (← same) at held)
  | inr there ↦ ground (arith, entries_after-trim heads keep es (size - 1) a held)
]

pub entries_after-later :
    (es : List Entry) (a b : ℕ) (after rest : List Entry)
    → AddressesOnce es
    → entries_after es a ≡ some after
    → entries_after after b ≡ some rest
    → entries_after es b ≡ some rest
unfolding entries_after
entries_after-later [] a b after rest once at later = cc
entries_after-later (e ∷ es) a b after rest once at later = elim (Bool-cases (e.address == b)) [
  | inl here ↦
      let same : e.address ≡ b = ground arith in
      let gone : entries_after es b ≡ none = rw (← same) once.0 in
      ground (arith, gone, entries_after-later es a b after rest once.1)
  | inr there ↦ ground (arith, entries_after-later es a b after rest once.1)
]

-- It keeps what stands behind such an entry too.
pub entries_after-trim_later :
    (heads : ReadMap) (keep : ℕ) (es : List Entry) (size a b : ℕ) (after rest : List Entry)
    → AddressesOnce es
    → is_referenced heads (some a) ≡ true
    → entries_after es a ≡ some after
    → entries_after after b ≡ some rest
    → entries_after (trim_loop heads keep es size).0 b ≡ some rest
unfolding trim_loop entries_after
entries_after-trim_later heads keep [] size a b after rest once held at later = cc
entries_after-trim_later heads keep (e ∷ es) size a b after rest once held at later =
    elim (Bool-cases (e.address == a)) [
      | inl here ↦
          let same : e.address ≡ a = ground arith in
          ground
            (arith, rw (← same) at held, entries_after-later (e ∷ es) a b after rest once at later)
      | inr there ↦ ground (
        arith,
        entries_after-later (e ∷ es) a b after rest once at later,
        entries_after-trim_later heads keep es (size - 1) a b after rest once.1 held,
      )
    ]
