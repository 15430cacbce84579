-- ===== src/Customers/Create.antt =====
-- `createCustomer` by number: the table and the map agree after it.
use openset.Customers.Sound.{IsSound, AllBelow, AllBelow-suc, found_slot, slot-append}
use openset.Customers.{
  Person, Customers, find_id, put_id, find_id-put_id, get_customer_by_lin, get_customer_by_id,
  at_lin, new_customer, create_customer, customer_count,
}
use mathlib.Core.Path.{subst}
use openset.Prelude.{
  ℕ, ◌+◌, ◌<◌, ◌≡◌, refl, sym, ap, ◌∙◌, true, false, List, [], ◌∷◌, ◌++◌, none, some, length,
  get_or, ◌==◌, if◌then◌else◌, arith, inl, inr, Bool-cases, Option-cases, get_or-append_left,
  get_or-append_last, length-append, ◌⊎◌,
}

abbrev new_slot : Customers → ℕ → List ℕ → Customers
new_slot c id str = record c {
  customer_linear =
      c.customer_linear
      ++ some (record { id = id; lin_id = length c.customer_linear; id_str = str }) ∷ [];
  customer_map = put_id id (length c.customer_linear) c.customer_map;
}

abbrev pub old_slot : Customers → ℕ → ℕ → List ℕ → Customers
old_slot c id lin rest = record c { reuse = rest; customer_map = put_id id lin c.customer_map }

found_put :
    (k j lin i : ℕ) (m : List (ℕ × ℕ))
    → find_id j (put_id k lin m) ≡ some i
    → ((k == j ≡ true) × (lin ≡ i)) ⊎ (find_id j m ≡ some i)
found_put k j lin i m e = elim (Bool-cases (k == j)) [
  | inl same ↦ inl (same, ground (arith, find_id-put_id k j lin m))
  | inr away ↦ inr (ground (arith, find_id-put_id k j lin m))
]

-- An id that a record has is found.
found_own :
    (c : Customers) (id i : ℕ) (p : Person)
    → IsSound c
    → get_customer_by_id c id ≡ none
    → get_customer_by_lin c i ≡ some p
    → id == p.id ≡ false
found_own c id i p s gone e = elim (Bool-cases (id == p.id)) [
  | inr away ↦ away
  | inl same ↦
      let eq : id ≡ p.id = ground arith in
      let there : get_customer_by_id c p.id ≡ some p = ap (at_lin c) (s.slots i p e).1 ∙ e in
      absurd (ground (arith, sym gone ∙ ap (get_customer_by_id c) eq ∙ there))
]

new_slot-IsSound :
    (c : Customers) (id : ℕ) (str : List ℕ)
    → IsSound c
    → c.reuse ≡ []
    → get_customer_by_id c id ≡ none
    → IsSound (new_slot c id str)
new_slot-IsSound c id str s empty gone =
    let q : Person = record { id = id; lin_id = length c.customer_linear; id_str = str } in
    let more : length (new_slot c id str).customer_linear ≡ length c.customer_linear + 1 =
      length-append c.customer_linear (some q ∷ []) in
    record {
      slots = λ i p e. elim (slot-append c.customer_linear i q p e) [
        | inl (last, same) ↦
            subst (λ r. (r.lin_id ≡ i) × (find_id r.id (new_slot c id str).customer_map ≡ some i))
              same
              (
                sym last,
                ground
                    (arith, find_id-put_id id id (length c.customer_linear) c.customer_map, last),
              )
        | inr before ↦
            let away = found_own c id i p s gone before in
            (
              (s.slots i p before).0,
              rw (find_id-put_id id p.id (length c.customer_linear) c.customer_map, away)
                  (s.slots i p before).1,
            )
      ];
      mapped = λ j i e.
          rw more (bound j i (found_put id j (length c.customer_linear) i c.customer_map e));
      free = rw more (AllBelow-suc c.reuse (length c.customer_linear) s.free);
    }
  where
    bound :
        (j i : ℕ)
        → ((id == j ≡ true) × (length c.customer_linear ≡ i)) ⊎ (find_id j c.customer_map ≡ some i)
        → i < length c.customer_linear + 1
    bound j i (inl (same, new)) = omega arith
    bound j i (inr old) = omega (arith, s.mapped j i old)

old_slot-IsSound :
    (c : Customers) (id lin : ℕ) (rest : List ℕ)
    → IsSound c
    → c.reuse ≡ lin ∷ rest
    → get_customer_by_id c id ≡ none
    → IsSound (old_slot c id lin rest)
old_slot-IsSound c id lin rest s some_free gone =
    let (low, below) : (lin < length c.customer_linear) × AllBelow rest (length c.customer_linear) =
      subst (λ r. AllBelow r (length c.customer_linear)) some_free s.free in
    record {
      slots = λ i p e.
          let away = found_own c id i p s gone e in
          (
            (s.slots i p e).0,
            rw (find_id-put_id id p.id lin c.customer_map, away) (s.slots i p e).1,
          );
      mapped = λ j i e. elim (found_put id j lin i c.customer_map e) [
        | inl (same, new) ↦ omega arith
        | inr old ↦ s.mapped j i old
      ];
      free = below;
    }

-- What `createCustomer` leaves: the returned record has its place in the map.
pub record Created (id : ℕ) (r : Customers × Person) : Type 0 where
  pub sound : IsSound r.0
  pub placed : find_id r.1.id r.0.customer_map ≡ some r.1.lin_id

new_customer-Created :
    (c : Customers) (id : ℕ) (str : List ℕ)
    → IsSound c
    → get_customer_by_id c id ≡ none
    → Created id (new_customer c id str)
unfolding new_customer
new_customer-Created c id str s gone = go c.reuse refl
  where
    go : (r : List ℕ) → c.reuse ≡ r → Created id (new_customer c id str)
    go [] e =
        rw (new_customer, e)
          (record {
            sound = new_slot-IsSound c id str s e gone;
            placed = ground (arith, find_id-put_id id id (length c.customer_linear) c.customer_map);
          })
    go (lin ∷ rest) e =
        rw (new_customer, e)
          (record {
            sound = old_slot-IsSound c id lin rest s e gone;
            placed = ground (arith, find_id-put_id id id lin c.customer_map);
          })

pub create_customer-Created :
    (c : Customers) (id : ℕ) → IsSound c → Created id (create_customer c id)
unfolding create_customer
create_customer-Created c id s = elim (Option-cases (get_customer_by_id c id)) [
  | inl gone ↦
      let turn : create_customer c id ≡ new_customer c id [] = rw (create_customer, gone) in
      subst (Created id) (sym turn) (new_customer-Created c id [] s gone)
  | inr (p, found) ↦
      let turn : create_customer c id ≡ (c, p) = rw (create_customer, found) in
      let (there, at_p) = found_slot c id p s found in
      subst (Created id) (sym turn) (record { sound = s; placed = (s.slots p.lin_id p at_p).1 })
]

-- An unknown customer who is created while no linear id is free again gets the next linear id, is
-- found under the id from then on, and every other id leads where it led. The table agreed with the
-- map.
pub create_customer_lem :
    (c : Customers) (id : ℕ)
    → IsSound c
    → c.reuse ≡ []
    → get_customer_by_id c id ≡ none
    → ((create_customer c id).1.lin_id ≡ customer_count c)
      × (customer_count (create_customer c id).0 ≡ customer_count c + 1)
      × ((j : ℕ)
          → get_customer_by_id (create_customer c id).0 j
            ≡ (if id == j then some (create_customer c id).1 else get_customer_by_id c j))
unfolding new_customer create_customer
create_customer_lem c id s empty gone =
    let last = length c.customer_linear in
    let q : Person = record { id = id; lin_id = last; id_str = [] } in
    let turn : create_customer c id ≡ (new_slot c id [], q) =
      rw (create_customer, gone, new_customer, empty)
        (ap (λ r. (record (new_slot c id []) { reuse = r }, q)) empty) in
    rw turn (
      refl,
      length-append c.customer_linear (some q ∷ []),
      λ j. elim (Bool-cases (id == j)) [
        | inl same ↦ rw (find_id-put_id id j last c.customer_map, same) (appended q)
        | inr away ↦ elim (Option-cases (find_id j c.customer_map)) [
          | inl nowhere ↦ rw (find_id-put_id id j last c.customer_map, away, nowhere)
          | inr (i, there) ↦
              rw (find_id-put_id id j last c.customer_map, away, there)
                (get_or-append_left c.customer_linear (some q ∷ []) i none (s.mapped j i there))
        ]
      ],
    )
  where
    appended :
        (q : Person)
        → get_or (c.customer_linear ++ some q ∷ []) (length c.customer_linear) none ≡ some q
    appended q = get_or-append_last c.customer_linear (some q) none
