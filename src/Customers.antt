-- ===== src/Customers.antt =====
-- src/customers.h, src/customers.cpp and `PersonData_s` of src/grid.h: the customers of a partition,
-- by identity and by linear id.
--
-- An id is a number below 2 ^ 64, the bits of the source's. A record is kept without its events, and
-- a pointer to one is the record. The hash map is an association list; `reuse` has its back first.
pub mod Sound
pub mod Create
pub mod Reuse
pub mod History
pub mod Names
use openset.Prelude.{
  ℕ, zero, suc, ◌+◌, ◌%◌, ◌^◌, ◌≡◌, Bool, true, false, List, [], ◌∷◌, ◌++◌, Option, none, some,
  length, set, get_or, ◌==◌, if◌then◌else◌, arith,
}

pub record Person : Type 0 where
  pub id : ℕ
  pub lin_id : ℕ
  pub id_str : List ℕ

pub record Customers : Type 0 where
  pub customer_map : List (ℕ × ℕ)
  pub customer_linear : List (Option Person)
  pub reuse : List ℕ

abbrev pub no_customers : Customers
no_customers = record { customer_map = []; customer_linear = []; reuse = [] }

unfoldable pub find_id : ℕ → List (ℕ × ℕ) → Option ℕ
find_id k [] = none
find_id k ((j, lin) ∷ m) = if j == k then some lin else find_id k m

-- `customerMap[userId] = linId`.
unfoldable pub put_id : ℕ → ℕ → List (ℕ × ℕ) → List (ℕ × ℕ)
put_id k lin [] = (k, lin) ∷ []
put_id k lin ((j, l) ∷ m) = if j == k then (j, lin) ∷ m else (j, l) ∷ put_id k lin m

pub find_id-put_id :
    (k j lin : ℕ) (m : List (ℕ × ℕ))
    → find_id j (put_id k lin m) ≡ (if k == j then some lin else find_id j m)
unfolding find_id put_id
find_id-put_id k j lin [] = ground arith
find_id-put_id k j lin ((i, l) ∷ m) = ground (arith, find_id-put_id k j lin m)

abbrev pub get_customer_by_lin : Customers → ℕ → Option Person
get_customer_by_lin c lin_id = get_or c.customer_linear lin_id none

abbrev pub at_lin : Customers → Option ℕ → Option Person
at_lin c none = none
at_lin c (some lin_id) = get_customer_by_lin c lin_id

abbrev pub get_customer_by_id : Customers → ℕ → Option Person
get_customer_by_id c user_id = at_lin c (find_id user_id c.customer_map)

-- A record for an id that was not found: on a linear id that is free again, or else on a new one.
unfoldable pub new_customer : Customers → ℕ → List ℕ → Customers × Person
unfolding put_id
new_customer c user_id id_str = elim c.reuse [
  | [] ↦
      let lin : ℕ = length c.customer_linear in
      let person : Person = record { id = user_id; lin_id = lin; id_str = id_str } in
      (
        record c {
          customer_linear = c.customer_linear ++ some person ∷ [];
          customer_map = put_id user_id lin c.customer_map;
        },
        person,
      )
  | lin ∷ rest ↦ (
    record c { reuse = rest; customer_map = put_id user_id lin c.customer_map },
    record { id = user_id; lin_id = lin; id_str = id_str },
  )
]

unfoldable pub create_customer : Customers → ℕ → Customers × Person
unfolding new_customer
create_customer c user_id = elim (get_customer_by_id c user_id) [
  | some person ↦ (c, person)
  | none ↦ new_customer c user_id []
]

unfoldable pub replace_customer_record : Customers → Person → Customers
replace_customer_record c new_record = record c {
  customer_linear = set c.customer_linear new_record.lin_id (some new_record);
}

abbrev pub customer_count : Customers → ℕ
customer_count c = length c.customer_linear

-- `drop`.
unfoldable pub drop_customer : Customers → ℕ → Customers
drop_customer c user_id = elim (get_customer_by_id c user_id) [
  | none ↦ c
  | some info ↦ record c {
    customer_linear = set c.customer_linear info.lin_id none;
    reuse = info.lin_id ∷ c.reuse;
  }
]
