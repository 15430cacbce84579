-- ===== src/Customers/Reuse.antt =====
-- A linear id that a dropped customer leaves and another takes.
use openset.Customers.Sound.{IsSound, dropped, slot-set, slot_below, found_slot}
use openset.Customers.{
  Person, Customers, find_id, put_id, find_id-put_id, get_customer_by_lin, get_customer_by_id,
  at_lin, new_customer, create_customer, replace_customer_record, drop_customer,
}
use openset.Prelude.{
  ℕ, ◌<◌, ◌≡◌, refl, sym, ap, ◌∙◌, false, List, [], ◌∷◌, none, some, length, set, get_or, ◌==◌,
  arith, inl, inr, Bool-cases, Option-cases, get_or-set_self, length-set,
}

unfound_after_drop :
    (c : Customers) (p : Person) (id : ℕ)
    → get_customer_by_id c id ≡ none
    → get_customer_by_id (dropped c p) id ≡ none
unfound_after_drop c p id gone = elim (Option-cases (find_id id c.customer_map)) [
  | inl nowhere ↦ rw nowhere
  | inr (i, there) ↦ rw there (still_empty i (ap (at_lin c) (sym there) ∙ gone))
]
  where
    still_empty :
        (i : ℕ)
        → get_or c.customer_linear i none ≡ none
        → get_or (set c.customer_linear p.lin_id none) i none ≡ none
    still_empty i empty =
        elim (Option-cases (get_or (set c.customer_linear p.lin_id none) i none)) [
          | inl e ↦ e
          | inr (q, e) ↦ elim (slot-set c.customer_linear p.lin_id i none q e) [
            | inl (same, here) ↦ absurd (ground (arith, here))
            | inr before ↦ absurd (ground (arith, sym before ∙ empty))
          ]
        ]

reused : Customers → ℕ → ℕ → List ℕ → Customers × Person
reused c id lin rest = (
  record c { reuse = rest; customer_map = put_id id lin c.customer_map },
  record { id = id; lin_id = lin; id_str = [] },
)

create_reused :
    (c : Customers) (id lin : ℕ) (rest : List ℕ)
    → get_customer_by_id c id ≡ none
    → c.reuse ≡ lin ∷ rest
    → create_customer c id ≡ reused c id lin rest
unfolding create_customer new_customer reused
create_reused c id lin rest gone free = rw (create_customer, gone, new_customer, free)

-- A customer that is created on a linear id of `reuse` is not in the table: the record is returned
-- with the linear id, but `getCustomerByID` still finds none under its id, until the record is put
-- in by `replaceCustomerRecord`. The id was unknown, and the slot of the linear id was empty.
pub get_customer_by_id-create_customer :
    (c : Customers) (id lin : ℕ) (rest : List ℕ)
    → get_customer_by_id c id ≡ none
    → c.reuse ≡ lin ∷ rest
    → get_customer_by_lin c lin ≡ none
    → lin < length c.customer_linear
    → ((create_customer c id).1.lin_id ≡ lin)
      × (get_customer_by_id (create_customer c id).0 id ≡ none)
      × (get_customer_by_id
            (replace_customer_record (create_customer c id).0 (create_customer c id).1)
            id
          ≡ some (create_customer c id).1)
unfolding reused replace_customer_record
get_customer_by_id-create_customer c id lin rest gone free empty low =
    let mine : find_id id (put_id id lin c.customer_map) ≡ some lin =
      ground (arith, find_id-put_id id id lin c.customer_map) in
    rw (create_reused c id lin rest gone free) (
      refl,
      rw mine empty,
      rw mine (
          get_or-set_self c.customer_linear lin
            (some (record { id = id; lin_id = lin; id_str = [] })) none low),
    )

-- A dropped customer's id leads to the customer who takes over its linear id: where `drop` of a
-- customer `a` is followed by the creation of another, `b`, whose record is put in, `getCustomerByID`
-- of `a` returns the record of `b`. The table agreed with the map, and `b` was unknown.
pub get_customer_by_id-drop_customer :
    (c : Customers) (a b : ℕ) (p : Person)
    → IsSound c
    → get_customer_by_id c a ≡ some p
    → get_customer_by_id c b ≡ none
    → let made = create_customer (drop_customer c a) b in
      (made.1.id ≡ b) × (get_customer_by_id (replace_customer_record made.0 made.1) a ≡ some made.1)
unfolding replace_customer_record drop_customer reused
get_customer_by_id-drop_customer c a b p s found gone =
    let (there, at_p) = found_slot c a p s found in
    let turn : drop_customer c a ≡ dropped c p = rw (drop_customer, found) in
    let made : create_customer (dropped c p) b ≡ reused (dropped c p) b p.lin_id c.reuse =
      create_reused (dropped c p) b p.lin_id c.reuse (unfound_after_drop c p b gone) refl in
    let low : p.lin_id < length (set c.customer_linear p.lin_id none) =
      rw (length-set c.customer_linear p.lin_id none)
        (slot_below c.customer_linear p.lin_id p at_p) in
    let away : b == a ≡ false = elim (Bool-cases (b == a)) [
      | inl same ↦
          let eq : b ≡ a = ground arith in
          absurd (ground (arith, sym gone ∙ ap (get_customer_by_id c) eq ∙ found))
      | inr apart ↦ apart
    ] in
    let stale : find_id a (put_id b p.lin_id c.customer_map) ≡ some p.lin_id =
      ground (arith, find_id-put_id b a p.lin_id c.customer_map) in
    rw (turn, made)
      (
        refl,
        rw stale (
            get_or-set_self (set c.customer_linear p.lin_id none) p.lin_id
              (some (record { id = b; lin_id = p.lin_id; id_str = [] })) none low),
      )
