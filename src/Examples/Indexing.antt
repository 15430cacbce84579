-- ===== src/Examples/Indexing.antt =====
-- The theorem about the index of a condition, at a table of two properties.
use openset.Attributes.{Attributes, get_bits}
use openset.Examples.Attributes.{many_customers, one_customer}
use openset.Examples.Index.{copying}
use openset.Examples.Properties.{two_properties}
use openset.IndexBits.Storage.{mount}
use openset.IndexBits.Words.{IsValid}
use openset.IndexBits.{IndexBits, bit_state, bit_set, memcpy}
use openset.Word.{bit_mask}
use openset.Properties.{get_property}
use openset.NameMap.{find}
use openset.QueryIndexing.Gather.{AllReadable}
use openset.QueryIndexing.Meaning.{
  Condition, compare, both, equal, unequal, less, hints_of, satisfies, compares, is_present,
}
use openset.QueryIndexing.Postfix.{build_index-hints_of, build_index-compare}
use openset.QueryIndexing.{StackItem, build_index}
use openset.Prelude.{
  ℕ, zero, suc, ◌<◌, ◌≡◌, refl, List, [], ◌∷◌, none, some, ◌==◌, ◌||◌, if◌then◌else◌, arith,
}

-- The city 40 is that of the customers 1, 3 and 64, and the customer 5 has the age 9.
abbrev city_and_age : Attributes copying
city_and_age = record {
  property_index = ((0, 40), 0) ∷ ((1, 9), 1) ∷ [];
  change_index = [];
  memory = λ p. if p == 0 then some many_customers else if p == 1 then some one_customer else none;
  next_address = 2;
  blob = [];
}

many-IsValid : IsValid (get_bits copying many_customers)
unfolding get_bits mount memcpy
many-IsValid zero = omega arith
many-IsValid (suc zero) = omega arith
many-IsValid (suc (suc i)) = omega arith

one-IsValid : IsValid (get_bits copying one_customer)
unfolding get_bits mount bit_set bit_mask
one-IsValid zero = omega arith
one-IsValid (suc i) = omega arith

all_readable : AllReadable copying city_and_age city_and_age.property_index
all_readable = ((many_customers, refl, many-IsValid), ((one_customer, refl, one-IsValid), tt))

-- Who is from the city and has another age.
abbrev from_city : Condition
from_city = both (compare "city" equal 40) (compare "age" unequal 9)

build_index-hints_of_example :
    (r : IndexBits × List StackItem) × (build_index copying two_properties city_and_age 70 []
        (hints_of from_city)
        70
      ≡ some r)
    × ((lin : ℕ)
        → lin < 70
        → bit_state r.0 lin ≡ satisfies copying two_properties city_and_age from_city lin)
unfolding get_property find
build_index-hints_of_example =
    build_index-hints_of copying two_properties city_and_age 70 from_city [] 70 (omega arith)
      all_readable ((0, refl), (1, refl)) (refl, refl)

-- The city of the customers 1, 3 and 64 is 100, and the entry of NONE says that they have one.
abbrev one_city : Attributes copying
one_city = record {
  property_index = ((0, 100), 0) ∷ ((0, 0), 1) ∷ [];
  change_index = [];
  memory = λ p. if p == 0 || p == 1 then some many_customers else none;
  next_address = 2;
  blob = [];
}

one_city-readable : AllReadable copying one_city one_city.property_index
one_city-readable =
    ((many_customers, refl, many-IsValid), ((many_customers, refl, many-IsValid), tt))

build_index-compare_example :
    (r : IndexBits × List StackItem) × (build_index copying two_properties one_city 70 []
        (hints_of (compare "city" less 40))
        70
      ≡ some r)
    × ((lin : ℕ)
        → lin < 70
        → bit_state r.0 lin ≡ (
            compares copying two_properties one_city 0 less 40 lin
            || is_present copying two_properties one_city 0 lin))
unfolding get_property find
build_index-compare_example =
    build_index-compare copying two_properties one_city 70 "city" less 40 0 [] 70 (omega arith)
      one_city-readable refl
