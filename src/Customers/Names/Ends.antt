-- ===== src/Customers/Names/Ends.antt =====
-- The loop over the hashes of a text ends.
use openset.Customers.Names.Rounds.{known_in_row}
use openset.Customers.Names.{
  next_hash, same_text, probe, rounds, cut, outcome, get_customer_by_name, create_customer_by_name,
}
use openset.Customers.{Person, Customers, find_id, get_customer_by_id, at_lin}
use openset.Prelude.{
  ℕ, zero, suc, ◌+◌, ◌%◌, ◌≤◌, ◌<◌, ◌≡◌, ◌≢◌, sym, ap, ◌∙◌, false, List, Option, none, some, length,
  ltb, arith, inl, inr, Bool-cases, Option-cases,
}

wrapped_next :
    (h i : ℕ) → (next_hash h + i) % 18446744073709551616 ≡ (h + suc i) % 18446744073709551616
wrapped_next h i = omega arith

probe_unknown :
    (fuel : ℕ) (c : Customers) (h : ℕ) (text : List ℕ)
    → get_customer_by_id c h ≡ none
    → probe (suc fuel) c h text ≡ some (h, none)
unfolding probe
probe_unknown fuel c h text unknown = rw (probe, unknown)

probe_out :
    (fuel : ℕ) (c : Customers) (h : ℕ) (text : List ℕ)
    → probe (suc fuel) c h text ≡ none
    → probe fuel c (next_hash h) text ≡ none
unfolding probe
probe_out fuel c h text out = elim (Option-cases (get_customer_by_id c h)) [
  | inl gone ↦ absurd (ground (arith, sym out ∙ probe_unknown fuel c h text gone))
  | inr (p, found) ↦ elim (Bool-cases (same_text p.id_str text)) [
    | inl same ↦
        let hit : probe (suc fuel) c h text ≡ some (h, some p) = rw (probe, found, same) in
        absurd (ground (arith, sym out ∙ hit))
    | inr other ↦
        let on : probe (suc fuel) c h text ≡ probe fuel c (next_hash h) text =
          rw (probe, found, other) in
        sym on ∙ out
  ]
]

-- A probe that runs out of rounds has met a known number in each.
probe-known :
    (fuel : ℕ) (c : Customers) (h : ℕ) (text : List ℕ)
    → h < 18446744073709551616
    → probe fuel c h text ≡ none
    → (i : ℕ) → i < fuel
    → find_id ((h + i) % 18446744073709551616) c.customer_map ≢ none
unfolding probe
probe-known zero c h text low out i below gone = omega arith
probe-known (suc fuel) c h text low out zero below gone =
    let here : (h + 0) % 18446744073709551616 ≡ h = omega arith in
    let unknown : get_customer_by_id c h ≡ none =
      ap (at_lin c) (ap (λ k. find_id k c.customer_map) (sym here) ∙ gone) in
    absurd (ground (arith, sym out ∙ probe_unknown fuel c h text unknown))
probe-known (suc fuel) c h text low out (suc i) below gone =
    probe-known fuel c (next_hash h) text (omega arith) (probe_out fuel c h text out) i
      (omega arith) (ap (λ k. find_id k c.customer_map) (wrapped_next h i) ∙ gone)

probe_returns :
    (c : Customers) (h : ℕ) (text : List ℕ)
    → h < 18446744073709551616
    → length c.customer_map < 18446744073709551616
    → (r : ℕ × Option Person) × (probe (rounds c) c h text ≡ some r)
probe_returns c h text low few = elim (Option-cases (probe (rounds c) c h text)) [
  | inr there ↦ there
  | inl out ↦ absurd (
      omega (
        arith,
        known_in_row (rounds c) h c.customer_map (omega arith)
            (probe-known (rounds c) c h text low out),
      ))
]

cut_short : (text : List ℕ) → length text ≤ 64 → cut text ≡ text
cut_short text short = let no : ltb 64 (length text) ≡ false = small (length text) short in rw no
  where
    small : (n : ℕ) → n ≤ 64 → ltb 64 n ≡ false
    small n h = ground arith

person_of : Option (ℕ × Option Person) → Option Person
person_of none = none
person_of (some end) = end.1

outcome_found :
    (c : Customers) (text : List ℕ) (end : ℕ × Option Person) (p : Person)
    → end.1 ≡ some p
    → outcome c text end ≡ (c, p)
unfolding outcome
outcome_found c text (h, none) p e = absurd (ground (arith, e))
outcome_found c text (h, some q) p e = let same : q ≡ p = ground (arith, e) in ap (λ r. (c, r)) same

-- Both forms that take a text end, with one round more than there are known numbers: the loop finds
-- the text or an unknown number. `createCustomer` then changes nothing and returns the customer, for a
-- text of at most 64 characters that `getCustomerByID` finds. The hash function gives a number of 64
-- bits, and fewer numbers than these are known.
pub create_customer_by_name-get_customer_by_name :
    (make_hash : List ℕ → ℕ) (c : Customers) (text : List ℕ)
    → ((t : List ℕ) → make_hash t < 18446744073709551616)
    → length c.customer_map < 18446744073709551616
    → (found : Option Person) × (r : Customers × Person) × (get_customer_by_name make_hash c text
        ≡ some found)
      × (create_customer_by_name make_hash c text ≡ some r)
      × ((p : Person) → length text ≤ 64 → found ≡ some p → r ≡ (c, p))
unfolding get_customer_by_name create_customer_by_name person_of
create_customer_by_name-get_customer_by_name make_hash c text low few =
    let (end, e) = probe_returns c (make_hash text) text (low text) few in
    let (end', e') = probe_returns c (make_hash (cut text)) (cut text) (low (cut text)) few in
    (
      end.1,
      outcome c (cut text) end',
      rw (get_customer_by_name, e),
      rw (create_customer_by_name, e'),
      λ p short is_p.
          let whole : cut text ≡ text = cut_short text short in
          let same : some end' ≡ some end =
            sym e' ∙ ap (λ t. probe (rounds c) c (make_hash t) t) whole ∙ e in
          outcome_found c (cut text) end' p (ap person_of same ∙ is_p),
    )
