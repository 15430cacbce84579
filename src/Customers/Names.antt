-- ===== src/Customers/Names.antt =====
-- The forms of `getCustomerByID` and `createCustomer` of src/customers.cpp that take a text: they look
-- at the hash of the text and at the numbers after it until one is unknown or has the text.
--
-- The loop runs on fuel: one round more than the map has entries is enough.
mod Rounds
pub mod Ends
use openset.Customers.{Person, Customers, find_id, get_customer_by_id, at_lin, new_customer}
use openset.Prelude.{
  ℕ, zero, suc, ◌+◌, ◌-◌, ◌%◌, ◌≤◌, ◌<◌, ◌≡◌, ◌≢◌, refl, sym, ap, ◌∙◌, Bool, true, false, ◌&&◌,
  List, [], ◌∷◌, ◌++◌, Option, none, some, length, take, drop, ltb, ◌==◌, if◌then◌else◌, arith, inl,
  inr, Bool-cases, Option-cases,
}

-- `hashId++`.
abbrev pub next_hash : ℕ → ℕ
next_hash hash_id = (hash_id + 1) % 18446744073709551616

unfoldable pub same_text : List ℕ → List ℕ → Bool
same_text [] [] = true
same_text [] (y ∷ ys) = false
same_text (x ∷ xs) [] = false
same_text (x ∷ xs) (y ∷ ys) = x == y && same_text xs ys

-- The loop of both: the number where it ends, with the record that has the text, if any.
unfoldable pub probe : ℕ → Customers → ℕ → List ℕ → Option (ℕ × Option Person)
unfolding same_text
probe zero c hash_id text = none
probe (suc fuel) c hash_id text =
    let rest = probe fuel c (next_hash hash_id) text in
    elim (get_customer_by_id c hash_id) [
      | none ↦ some (hash_id, none)
      | some person ↦ if same_text person.id_str text then some (hash_id, some person) else rest
    ]

abbrev pub rounds : Customers → ℕ
rounds c = suc (length c.customer_map)

unfoldable pub get_customer_by_name : (List ℕ → ℕ) → Customers → List ℕ → Option (Option Person)
unfolding probe
get_customer_by_name make_hash c text = elim (probe (rounds c) c (make_hash text) text) [
  | none ↦ none
  | some (hash_id, person) ↦ some person
]

-- `erase` with one iterator takes out one character.
abbrev pub cut : List ℕ → List ℕ
cut text = if ltb 64 (length text) then take 64 text ++ drop 65 text else text

unfoldable pub outcome : Customers → List ℕ → ℕ × Option Person → Customers × Person
unfolding new_customer
outcome c text (hash_id, none) = new_customer c hash_id (take 64 text)
outcome c text (hash_id, some person) = (c, person)

unfoldable pub create_customer_by_name :
    (List ℕ → ℕ) → Customers → List ℕ → Option (Customers × Person)
unfolding probe outcome
create_customer_by_name make_hash c text =
    elim (probe (rounds c) c (make_hash (cut text)) (cut text)) [
      | none ↦ none
      | some end ↦ some (outcome c (cut text) end)
    ]
