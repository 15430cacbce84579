-- ===== src/QueryIndexing/Compare.antt =====
-- One comparison: `compositeBits` computes the customers whom its mode takes.
use openset.Attributes.Holds.{holds}
use openset.Attributes.{Attributes, ListMode, present, get_property_values_by, none_value}
use openset.Attributes.ListMode.{eq, neq, gt, gte, lt, lte}
use openset.IndexBits.Storage.{Lz4}
use openset.IndexBits.{IndexBits, bit_state}
use openset.Properties.{Properties}
use openset.QueryIndexing.Gather.{AreReadable, AllReadable, any_bit, composite_of_lem}
use openset.QueryIndexing.Meaning.{
  Comparison, equal, unequal, greater, greater_equal, less, less_equal, mode_of, passes, some_value,
  list_readable, any_list, one_readable,
}
use openset.QueryIndexing.Sets.{IsFilled}
use openset.QueryIndexing.{StackItem, lookup_mode, composite_of}
use openset.Prelude.{
  ℕ, ◌<◌, ◌≡◌, ap, ◌∙◌, Bool, true, false, not, Option, some, ◌==◌, if◌then◌else◌, inl, inr,
  Bool-cases,
}

module _ (lz4 : Lz4) (props : Properties) (a : Attributes lz4) (stop_bit : ℕ) where
  -- An item with a set, whose members below the stop bit are told by the test.
  pub record IsAnswer (made : Option StackItem) (item : StackItem) (test : ℕ → Bool) : Type 0 where
    pub bits : IndexBits
    pub made_it : made ≡ some (record item { bits = bits })
    pub set : IsFilled bits
    pub answers : (lin : ℕ) → lin < stop_bit → bit_state bits lin ≡ test lin

  -- The lookup of records under a mode, where the union of the records is known.
  looked_up :
      (idx : ℕ) (mode : ListMode) (negate : Bool) (item : StackItem) (test : ℕ → Bool)
      → AreReadable lz4 a (get_property_values_by lz4 a idx mode item.hash)
      → ((lin : ℕ) → any_bit lz4 a (get_property_values_by lz4 a idx mode item.hash) lin ≡ test lin)
      → IsAnswer
          (composite_of lz4 props a stop_bit idx mode negate item)
          item
          (λ lin. if negate then not (test lin) else test lin)
  looked_up idx mode negate item test readable union =
      let (bits, made, set, states) =
        composite_of_lem lz4 props a stop_bit idx mode negate item readable in
      record {
        bits = bits;
        made_it = made;
        set = set;
        answers = λ lin low. states lin low ∙ ap (λ b. if negate then not b else b) (union lin);
      }

  IsAnswer-congr :
      (made : Option StackItem) (item : StackItem) (t u : ℕ → Bool)
      → IsAnswer made item t
      → ((lin : ℕ) → t lin ≡ u lin)
      → IsAnswer made item u
  IsAnswer-congr made item t u answer same = record {
    bits = answer.bits;
    made_it = answer.made_it;
    set = answer.set;
    answers = λ lin low. answer.answers lin low ∙ same lin;
  }

  pub compare_of :
      (idx : ℕ) (c : Comparison) (item : StackItem)
      → AllReadable lz4 a a.property_index
      → IsAnswer
          (composite_of lz4 props a stop_bit idx
            (lookup_mode (mode_of c) item.hash).0
            (lookup_mode (mode_of c) item.hash).1
            item)
          item
          (passes lz4 props a idx c item.hash)
  unfolding lookup_mode get_property_values_by
  compare_of idx greater item r =
      looked_up idx gt false item (passes lz4 props a idx greater item.hash)
        (list_readable lz4 props a a.property_index idx gt item.hash r)
        (λ lin. any_list lz4 props a a.property_index idx gt item.hash lin)
  compare_of idx greater_equal item r =
      looked_up idx gte false item (passes lz4 props a idx greater_equal item.hash)
        (list_readable lz4 props a a.property_index idx gte item.hash r)
        (λ lin. any_list lz4 props a a.property_index idx gte item.hash lin)
  compare_of idx less item r =
      looked_up idx lt false item (passes lz4 props a idx less item.hash)
        (list_readable lz4 props a a.property_index idx lt item.hash r)
        (λ lin. any_list lz4 props a a.property_index idx lt item.hash lin)
  compare_of idx less_equal item r =
      looked_up idx lte false item (passes lz4 props a idx less_equal item.hash)
        (list_readable lz4 props a a.property_index idx lte item.hash r)
        (λ lin. any_list lz4 props a a.property_index idx lte item.hash lin)
  compare_of idx equal item r = elim (Bool-cases (item.hash == none_value)) [
    | inl nil ↦ rw nil (
        IsAnswer-congr (composite_of lz4 props a stop_bit idx present true item) item
          (λ lin. not (some_value lz4 props a a.property_index idx (λ v. true) lin))
          (passes lz4 props a idx equal item.hash)
          (looked_up idx present true item (some_value lz4 props a a.property_index idx (λ v. true))
            (list_readable lz4 props a a.property_index idx present item.hash r)
            (λ lin. any_list lz4 props a a.property_index idx present item.hash lin))
          (λ lin. rw nil))
    | inr value ↦
        let (readable, union) = one_readable lz4 props a idx item.hash r in
        rw value (
          IsAnswer-congr (composite_of lz4 props a stop_bit idx eq false item) item
            (λ lin. holds lz4 a (idx, item.hash) lin) (passes lz4 props a idx equal item.hash)
            (looked_up idx eq false item (holds lz4 a (idx, item.hash)) readable union)
            (λ lin. rw value))
  ]
  compare_of idx unequal item r = elim (Bool-cases (item.hash == none_value)) [
    | inl nil ↦ rw nil (
        IsAnswer-congr (composite_of lz4 props a stop_bit idx present false item) item
          (λ lin. some_value lz4 props a a.property_index idx (λ v. true) lin)
          (passes lz4 props a idx unequal item.hash)
          (looked_up idx present false item
            (some_value lz4 props a a.property_index idx (λ v. true))
            (list_readable lz4 props a a.property_index idx present item.hash r)
            (λ lin. any_list lz4 props a a.property_index idx present item.hash lin))
          (λ lin. rw nil))
    | inr value ↦
        let (readable, union) = one_readable lz4 props a idx item.hash r in
        rw value (
          IsAnswer-congr (composite_of lz4 props a stop_bit idx neq true item) item
            (λ lin. not (holds lz4 a (idx, item.hash) lin))
            (passes lz4 props a idx unequal item.hash)
            (looked_up idx neq true item (holds lz4 a (idx, item.hash)) readable union)
            (λ lin. rw value))
  ]
