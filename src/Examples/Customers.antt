-- ===== src/Examples/Customers.antt =====
-- The theorems about customers, at a partition of two.
use openset.Customers.History.{Call, insert, drop, run_calls, get_customer_by_id-run_calls}
use openset.Customers.Names.Ends.{create_customer_by_name-get_customer_by_name}
use openset.Customers.Names.{get_customer_by_name, create_customer_by_name}
use openset.Customers.Reuse.{get_customer_by_id-create_customer, get_customer_by_id-drop_customer}
use openset.Customers.Sound.{IsSound}
use openset.Customers.{
  Person, Customers, no_customers, find_id, get_customer_by_id, get_customer_by_lin,
  create_customer, replace_customer_record, drop_customer,
}
use mathlib.Core.Path.{subst}
use openset.Prelude.{Option, ◌≤◌, ℕ, ◌≡◌, refl, List, [], ◌∷◌, none, some, arith, zero, suc}

abbrev ann : Person
ann = record { id = 11; lin_id = 0; id_str = 97 ∷ [] }

abbrev bob : Person
bob = record { id = 22; lin_id = 1; id_str = 98 ∷ [] }

abbrev two_people : Customers
two_people = record {
  customer_map = (11, 0) ∷ (22, 1) ∷ [];
  customer_linear = some ann ∷ some bob ∷ [];
  reuse = [];
}

-- After `drop` of the first.
abbrev one_left : Customers
one_left = record {
  customer_map = (11, 0) ∷ (22, 1) ∷ [];
  customer_linear = none ∷ some bob ∷ [];
  reuse = 0 ∷ [];
}

two_people-IsSound : IsSound two_people
unfolding find_id
two_people-IsSound = record { slots = slots_two; mapped = λ id i e. ground arith; free = tt }
  where
    slots_two :
        (i : ℕ) (p : Person)
        → get_customer_by_lin two_people i ≡ some p
        → (p.lin_id ≡ i) × (find_id p.id two_people.customer_map ≡ some i)
    slots_two zero p e =
        let same : ann ≡ p = ground (arith, e) in
        subst (λ r. (r.lin_id ≡ 0) × (find_id r.id two_people.customer_map ≡ some 0)) same
          (refl, refl)
    slots_two (suc zero) p e =
        let same : bob ≡ p = ground (arith, e) in
        subst (λ r. (r.lin_id ≡ 1) × (find_id r.id two_people.customer_map ≡ some 1)) same
          (refl, refl)
    slots_two (suc (suc i)) p e = absurd (ground (arith, e))

abbrev three_calls : List Call
three_calls = insert 11 (97 ∷ []) ∷ insert 22 (98 ∷ []) ∷ drop 11 ∷ []

bob_stays : get_customer_by_lin (run_calls three_calls no_customers) 1 ≡ some bob
unfolding run_calls create_customer replace_customer_record drop_customer find_id
bob_stays = refl

get_customer_by_id-run_calls_example :
    (bob.lin_id ≡ 1)
    × (get_customer_by_id (run_calls three_calls no_customers) 22 ≡ some bob)
    × ((j : ℕ) (q : Person)
        → get_customer_by_lin (run_calls three_calls no_customers) j ≡ some q
        → q.id ≡ 22
        → j ≡ 1)
get_customer_by_id-run_calls_example = get_customer_by_id-run_calls three_calls 1 bob bob_stays

get_customer_by_id-create_customer_example :
    ((create_customer one_left 33).1.lin_id ≡ 0)
    × (get_customer_by_id (create_customer one_left 33).0 33 ≡ none)
    × (get_customer_by_id
          (replace_customer_record (create_customer one_left 33).0 (create_customer one_left 33).1)
          33
        ≡ some (create_customer one_left 33).1)
unfolding find_id
get_customer_by_id-create_customer_example =
    get_customer_by_id-create_customer one_left 33 0 [] refl refl refl (omega arith)

-- The dropped customer 11 leads to the new customer 33.
get_customer_by_id-drop_customer_example :
    let made = create_customer (drop_customer two_people 11) 33 in
    (made.1.id ≡ 33) × (get_customer_by_id (replace_customer_record made.0 made.1) 11 ≡ some made.1)
unfolding find_id
get_customer_by_id-drop_customer_example =
    get_customer_by_id-drop_customer two_people 11 33 ann two_people-IsSound refl refl

-- The hash of every text is 11 here.
create_customer_by_name-get_customer_by_name_example :
    (found : Option Person) × (r : Customers × Person) × (get_customer_by_name
        (λ t. 11)
        two_people
        (97 ∷ [])
      ≡ some found)
    × (create_customer_by_name (λ t. 11) two_people (97 ∷ []) ≡ some r)
    × ((p : Person) → 1 ≤ 64 → found ≡ some p → r ≡ (two_people, p))
create_customer_by_name-get_customer_by_name_example =
    create_customer_by_name-get_customer_by_name (λ t. 11) two_people (97 ∷ []) (λ t. omega arith)
      (omega arith)
