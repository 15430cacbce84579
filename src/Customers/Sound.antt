-- ===== src/Customers/Sound.antt =====
-- The table by linear id and the map by identity agree, whatever is done to them.
use openset.Customers.{
  Person, Customers, no_customers, find_id, get_customer_by_lin, get_customer_by_id, at_lin,
  replace_customer_record, drop_customer,
}
use mathlib.Core.Path.{subst}
use openset.Prelude.{
  ℕ, zero, suc, ◌+◌, ◌<◌, ◌≡◌, refl, sym, ap, ◌∙◌, List, [], ◌∷◌, ◌++◌, Option, none, some, length,
  set, get_or, arith, inl, inr, Option-cases, ◌⊎◌, length-set,
}

abbrev pub AllBelow : List ℕ → ℕ → Type 0
AllBelow [] n = Unit
AllBelow (l ∷ ls) n = (l < n) × AllBelow ls n

pub AllBelow-suc : (ls : List ℕ) (n : ℕ) → AllBelow ls n → AllBelow ls (n + 1)
AllBelow-suc [] n b = tt
AllBelow-suc (l ∷ ls) n (low, b) = (omega arith, AllBelow-suc ls n b)

-- A record stands under its own linear id, and the map leads from its identity to it.
pub record IsSound (c : Customers) : Type 0 where
  pub slots :
      (i : ℕ) (p : Person)
      → get_customer_by_lin c i ≡ some p
      → (p.lin_id ≡ i) × (find_id p.id c.customer_map ≡ some i)
  pub mapped : (id i : ℕ) → find_id id c.customer_map ≡ some i → i < length c.customer_linear
  pub free : AllBelow c.reuse (length c.customer_linear)

pub no_customers-IsSound : IsSound no_customers
unfolding find_id
no_customers-IsSound = record {
  slots = λ i p e. ground arith;
  mapped = λ id i e. ground arith;
  free = tt;
}

-- What a table with one slot written holds.
pub slot-set :
    (xs : List (Option Person)) (k i : ℕ) (v : Option Person) (p : Person)
    → get_or (set xs k v) i none ≡ some p
    → ((k ≡ i) × (v ≡ some p)) ⊎ (get_or xs i none ≡ some p)
slot-set [] k i v p e = inr e
slot-set (x ∷ xs) zero zero v p e = inl (refl, e)
slot-set (x ∷ xs) zero (suc i) v p e = inr e
slot-set (x ∷ xs) (suc k) zero v p e = inr e
slot-set (x ∷ xs) (suc k) (suc i) v p e = elim (slot-set xs k i v p e) [
  | inl (same, here) ↦ inl (ap suc same, here)
  | inr before ↦ inr before
]

pub slot-append :
    (xs : List (Option Person)) (i : ℕ) (q p : Person)
    → get_or (xs ++ some q ∷ []) i none ≡ some p
    → ((i ≡ length xs) × (q ≡ p)) ⊎ (get_or xs i none ≡ some p)
slot-append [] zero q p e = inl (refl, ground arith)
slot-append [] (suc i) q p e = inr e
slot-append (x ∷ xs) zero q p e = inr e
slot-append (x ∷ xs) (suc i) q p e = elim (slot-append xs i q p e) [
  | inl (same, here) ↦ inl (ap suc same, here)
  | inr before ↦ inr before
]

abbrev pub dropped : Customers → Person → Customers
dropped c p = record c {
  customer_linear = set c.customer_linear p.lin_id none;
  reuse = p.lin_id ∷ c.reuse;
}

-- The slot of a record that the map leads to.
pub found_slot :
    (c : Customers) (id : ℕ) (p : Person)
    → IsSound c
    → get_customer_by_id c id ≡ some p
    → (find_id id c.customer_map ≡ some p.lin_id) × (get_customer_by_lin c p.lin_id ≡ some p)
found_slot c id p s found = elim (Option-cases (find_id id c.customer_map)) [
  | inl gone ↦ absurd (ground (arith, found, gone))
  | inr (i, there) ↦
      let at_i : get_customer_by_lin c i ≡ some p = ap (at_lin c) (sym there) ∙ found in
      let own : p.lin_id ≡ i = (s.slots i p at_i).0 in
      (there ∙ ap some (sym own), ap (get_customer_by_lin c) own ∙ at_i)
]

pub slot_below :
    (xs : List (Option Person)) (i : ℕ) (p : Person) → get_or xs i none ≡ some p → i < length xs
slot_below [] i p e = absurd (ground (arith, e))
slot_below (x ∷ xs) zero p e = omega arith
slot_below (x ∷ xs) (suc i) p e = omega (arith, slot_below xs i p e)

dropped-IsSound :
    (c : Customers) (id : ℕ) (p : Person)
    → IsSound c
    → get_customer_by_id c id ≡ some p
    → IsSound (dropped c p)
dropped-IsSound c id p s found =
    let (there, at_p) = found_slot c id p s found in
    record {
      slots = λ i q e. elim (slot-set c.customer_linear p.lin_id i none q e) [
        | inl (same, here) ↦ absurd (ground (arith, here))
        | inr before ↦ s.slots i q before
      ];
      mapped = λ id i e. rw (length-set c.customer_linear p.lin_id none) (s.mapped id i e);
      free =
          rw (length-set c.customer_linear p.lin_id none)
            (slot_below c.customer_linear p.lin_id p at_p, s.free);
    }

pub drop_customer-IsSound : (c : Customers) (id : ℕ) → IsSound c → IsSound (drop_customer c id)
unfolding drop_customer
drop_customer-IsSound c id s = elim (Option-cases (get_customer_by_id c id)) [
  | inl gone ↦
      let same : drop_customer c id ≡ c = rw (drop_customer, gone) in subst IsSound (sym same) s
  | inr (p, found) ↦
      let turn : drop_customer c id ≡ dropped c p = rw (drop_customer, found) in
      subst IsSound (sym turn) (dropped-IsSound c id p s found)
]

pub replace-IsSound :
    (c : Customers) (p : Person)
    → IsSound c
    → find_id p.id c.customer_map ≡ some p.lin_id
    → IsSound (replace_customer_record c p)
unfolding replace_customer_record
replace-IsSound c p s own = record {
  slots = λ i q e. elim (slot-set c.customer_linear p.lin_id i (some p) q e) [
    | inl (same, here) ↦
        let eq : p ≡ q = ground arith in
        subst (λ r. (r.lin_id ≡ i) × (find_id r.id c.customer_map ≡ some i)) eq
          (same, own ∙ ap some same)
    | inr before ↦ s.slots i q before
  ];
  mapped = λ id i e. rw (length-set c.customer_linear p.lin_id (some p)) (s.mapped id i e);
  free = rw (length-set c.customer_linear p.lin_id (some p)) s.free;
}
