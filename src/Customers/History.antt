-- ===== src/Customers/History.antt =====
-- The customers after any sequence of calls. A customer is inserted as the insert loop and
-- `Customer::commit` of src/customer.cpp do it: the record that `createCustomer` returns is replaced by
-- one with the same id and linear id.
use openset.Customers.Create.{create_customer-Created}
use openset.Customers.Sound.{IsSound, no_customers-IsSound, replace-IsSound, drop_customer-IsSound}
use openset.Customers.{
  Person, Customers, no_customers, find_id, get_customer_by_lin, get_customer_by_id, at_lin,
  create_customer, replace_customer_record, drop_customer,
}
use openset.Prelude.{ℕ, ◌≡◌, sym, ap, ◌∙◌, List, [], ◌∷◌, some, arith}

pub data Call : Type 0 where
  create : ℕ → Call
  insert : ℕ → List ℕ → Call
  drop : ℕ → Call

unfoldable pub run_call : Call → Customers → Customers
unfolding create_customer replace_customer_record drop_customer
run_call (create id) c = (create_customer c id).0
run_call (insert id id_str) c =
    let (c', p) = create_customer c id in replace_customer_record c' (record p { id_str = id_str })
run_call (drop id) c = drop_customer c id

unfoldable pub run_calls : List Call → Customers → Customers
unfolding run_call
run_calls [] c = c
run_calls (call ∷ calls) c = run_calls calls (run_call call c)

run_call-IsSound : (call : Call) (c : Customers) → IsSound c → IsSound (run_call call c)
unfolding run_call
run_call-IsSound (create id) c s = (create_customer-Created c id s).sound
run_call-IsSound (insert id id_str) c s =
    let r = create_customer-Created c id s in
    replace-IsSound (create_customer c id).0 (record (create_customer c id).1 { id_str = id_str })
      r.sound r.placed
run_call-IsSound (drop id) c s = drop_customer-IsSound c id s

run_calls-IsSound : (calls : List Call) (c : Customers) → IsSound c → IsSound (run_calls calls c)
unfolding run_calls
run_calls-IsSound [] c s = s
run_calls-IsSound (call ∷ calls) c s =
    run_calls-IsSound calls (run_call call c) (run_call-IsSound call c s)

-- After any sequence of creations, insertions and drops on a partition that had no customers, a
-- record that the table has is found under its linear id and under its id, and no second linear id
-- has a record with that id.
pub get_customer_by_id-run_calls :
    (calls : List Call) (i : ℕ) (p : Person)
    → get_customer_by_lin (run_calls calls no_customers) i ≡ some p
    → (p.lin_id ≡ i)
      × (get_customer_by_id (run_calls calls no_customers) p.id ≡ some p)
      × ((j : ℕ) (q : Person)
          → get_customer_by_lin (run_calls calls no_customers) j ≡ some q
          → q.id ≡ p.id
          → j ≡ i)
get_customer_by_id-run_calls calls i p e =
    let c = run_calls calls no_customers in
    let s = run_calls-IsSound calls no_customers no_customers-IsSound in
    let (own, there) = s.slots i p e in
    (
      own,
      ap (at_lin c) there ∙ e,
      λ j q e_q same.
          let met : some j ≡ some i =
            sym (s.slots j q e_q).1 ∙ ap (λ id. find_id id c.customer_map) same ∙ there in
          ground (arith, met),
    )
