-- ===== src/SideLog/Wellformed/Ranges.antt =====
-- Addresses of the entries of src/sidelog.h in ranges that the pool gives.
use openset.SideLog.{Entry, entries_after}
use openset.SideLog.Pending.{AddressesOnce}
use openset.Prelude.{ℕ, ◌≤◌, ◌<◌, ◌≡◌, refl, ◌⊎◌, List, [], ◌∷◌, ◌++◌, none, arith, inl, inr}

abbrev pub AreWithin : ℕ → ℕ → List Entry → Type 0
AreWithin lo hi [] = Unit {0}
AreWithin lo hi (e ∷ es) = (lo ≤ e.address) × (e.address < hi) × AreWithin lo hi es

pub AreWithin-weaken :
    (lo lo' hi hi' : ℕ) (es : List Entry)
    → lo' ≤ lo
    → hi ≤ hi'
    → AreWithin lo hi es
    → AreWithin lo' hi' es
AreWithin-weaken lo lo' hi hi' [] p q h = tt
AreWithin-weaken lo lo' hi hi' (e ∷ es) p q h =
    (omega arith, omega arith, AreWithin-weaken lo lo' hi hi' es p q h.2)

pub AreWithin-append :
    (lo hi : ℕ) (xs ys : List Entry)
    → AreWithin lo hi xs
    → AreWithin lo hi ys
    → AreWithin lo hi (xs ++ ys)
AreWithin-append lo hi [] ys a b = b
AreWithin-append lo hi (x ∷ xs) ys a b = (a.0, a.1, AreWithin-append lo hi xs ys a.2 b)

-- An address outside the range of a list is not in it.
pub entries_after_outside :
    (lo hi a : ℕ) (es : List Entry)
    → AreWithin lo hi es
    → (a < lo) ⊎ (hi ≤ a)
    → entries_after es a ≡ none
unfolding entries_after
entries_after_outside lo hi a [] h out = refl
entries_after_outside lo hi a (e ∷ es) h out =
    ground (arith, entries_after_outside lo hi a es h.2 out)

entries_after_not_in :
    (xs ys : List Entry) (a : ℕ)
    → entries_after xs a ≡ none
    → entries_after ys a ≡ none
    → entries_after (xs ++ ys) a ≡ none
unfolding entries_after
entries_after_not_in [] ys a p q = q
entries_after_not_in (x ∷ xs) ys a p q = ground (arith, entries_after_not_in xs ys a)

-- Two lists of distinct addresses in ranges that do not meet.
pub AddressesOnce-append :
    (lo hi lo' hi' : ℕ) (xs ys : List Entry)
    → AddressesOnce xs
    → AddressesOnce ys
    → AreWithin lo hi xs
    → AreWithin lo' hi' ys
    → (hi ≤ lo') ⊎ (hi' ≤ lo)
    → AddressesOnce (xs ++ ys)
AddressesOnce-append lo hi lo' hi' [] ys p q a b apart = q
AddressesOnce-append lo hi lo' hi' (x ∷ xs) ys p q a b apart = (
  entries_after_not_in xs ys x.address p.0
      (entries_after_outside lo' hi' x.address ys b (outside apart)),
  AddressesOnce-append lo hi lo' hi' xs ys p.1 q a.2 b apart,
)
  where
    outside : (hi ≤ lo') ⊎ (hi' ≤ lo) → (x.address < lo') ⊎ (hi' ≤ x.address)
    outside (inl p) = inl (omega arith)
    outside (inr p) = inr (omega arith)
