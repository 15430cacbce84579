-- ===== src/QueryIndexing/Meaning.antt =====
-- A condition in postfix form, as the compiler of src/queryparserosl.h lists it, and the customers
-- that satisfy it: the machine computes this set.
use Prim.Native.String.{String}
use openset.Attributes.Holds.{holds, bit_in}
use openset.Attributes.Memory.{AttrKey, key_eq, lookup}
use openset.Attributes.{
  Attributes, ListMode, get, list_values, get_property_values_by, none_value, mode_takes,
}
use openset.Attributes.ListMode.{eq, neq, gt, gte, lt, lte}
use openset.IndexBits.Storage.{Lz4}
use openset.Properties.{Properties, get_property}
use openset.QueryIndexing.Gather.{IsReadable, AreReadable, AllReadable, any_bit}
use openset.QueryIndexing.{
  HintOp, op_eq, op_neq, op_gt, op_gte, op_lt, op_lte, push_val, push_tbl, bit_or, bit_and,
}
use mathlib.Core.Path.{subst}
use openset.Prelude.{
  ℕ, ◌≡◌, refl, ap, ◌∙◌, Bool, true, false, not, ◌&&◌, ◌||◌, List, [], ◌∷◌, ◌++◌, Option, none,
  some, ltb, leb, ◌==◌, if◌then◌else◌, arith, inl, inr, Bool-cases, Option-cases,
}

pub data Comparison : Type 0 where
  equal unequal greater greater_equal less less_equal : Comparison

pub data Condition : Type 0 where
  compare : String → Comparison → ℕ → Condition
  both either : Condition → Condition → Condition

abbrev pub op_of : Comparison → HintOp
op_of equal = op_eq
op_of unequal = op_neq
op_of greater = op_gt
op_of greater_equal = op_gte
op_of less = op_lt
op_of less_equal = op_lte

abbrev pub mode_of : Comparison → ListMode
mode_of equal = eq
mode_of unequal = neq
mode_of greater = gt
mode_of greater_equal = gte
mode_of less = lt
mode_of less_equal = lte

unfoldable pub hints_of : Condition → List HintOp
hints_of (compare name c value) = push_tbl name ∷ push_val value ∷ op_of c ∷ []
hints_of (both p q) = hints_of p ++ hints_of q ++ bit_and ∷ []
hints_of (either p q) = hints_of p ++ hints_of q ++ bit_or ∷ []

-- Whether the lookup for a comparison takes the entry of NONE, as if it was a value.
abbrev pub takes_none : Comparison → ℕ → Bool
takes_none equal value = false
takes_none unequal value = false
takes_none greater value = ltb value none_value
takes_none greater_equal value = leb value none_value
takes_none less value = ltb none_value value
takes_none less_equal value = leb none_value value

-- No comparison of the condition does.
abbrev pub IsPlain : Condition → Type 0
IsPlain (compare name c value) = takes_none c value ≡ false
IsPlain (both p q) = IsPlain p × IsPlain q
IsPlain (either p q) = IsPlain p × IsPlain q

module _ (lz4 : Lz4) (props : Properties) (a : Attributes lz4) where
  -- Whether the index has the customer under a value of the property that passes the test.
  abbrev pub some_value : List (AttrKey × ℕ) → ℕ → (ℕ → Bool) → ℕ → Bool
  some_value [] prop test lin = false
  some_value (((i, v), p) ∷ m) prop test lin =
      (i == prop && test v && bit_in lz4 (a.memory p) lin) || some_value m prop test lin

  -- What the modes of the lookup take: the entries of NONE count too.
  abbrev pub passes : ℕ → Comparison → ℕ → ℕ → Bool
  passes prop equal value lin =
      if value == none_value
      then not (some_value a.property_index prop (λ v. true) lin)
      else holds lz4 a (prop, value) lin
  passes prop unequal value lin =
      if value == none_value
      then some_value a.property_index prop (λ v. true) lin
      else not (holds lz4 a (prop, value) lin)
  passes prop greater value lin = some_value a.property_index prop (λ v. ltb value v) lin
  passes prop greater_equal value lin = some_value a.property_index prop (λ v. leb value v) lin
  passes prop less value lin = some_value a.property_index prop (λ v. ltb v value) lin
  passes prop less_equal value lin = some_value a.property_index prop (λ v. leb v value) lin

  abbrev pub passes_at : Option ℕ → Comparison → ℕ → ℕ → Bool
  passes_at none c value lin = false
  passes_at (some prop) c value lin = passes prop c value lin

  unfoldable pub matched : Condition → ℕ → Bool
  matched (compare name c value) lin = passes_at (get_property props name) c value lin
  matched (both p q) lin = matched p lin && matched q lin
  matched (either p q) lin = matched p lin || matched q lin

  -- NONE stands for no value, and is under none of the order's comparisons. To be equal to it is to
  -- be under no entry of the property, its entry of NONE included, which says that the property is there.
  abbrev pub compares : ℕ → Comparison → ℕ → ℕ → Bool
  compares prop equal value lin =
      if value == none_value
      then not (some_value a.property_index prop (λ v. true) lin)
      else holds lz4 a (prop, value) lin
  compares prop unequal value lin =
      if value == none_value
      then some_value a.property_index prop (λ v. true) lin
      else not (holds lz4 a (prop, value) lin)
  compares prop greater value lin =
      some_value a.property_index prop (λ v. not (v == none_value) && ltb value v) lin
  compares prop greater_equal value lin =
      some_value a.property_index prop (λ v. not (v == none_value) && leb value v) lin
  compares prop less value lin =
      some_value a.property_index prop (λ v. not (v == none_value) && ltb v value) lin
  compares prop less_equal value lin =
      some_value a.property_index prop (λ v. not (v == none_value) && leb v value) lin

  abbrev pub compares_at : Option ℕ → Comparison → ℕ → ℕ → Bool
  compares_at none c value lin = false
  compares_at (some prop) c value lin = compares prop c value lin

  unfoldable pub satisfies : Condition → ℕ → Bool
  satisfies (compare name c value) lin = compares_at (get_property props name) c value lin
  satisfies (both p q) lin = satisfies p lin && satisfies q lin
  satisfies (either p q) lin = satisfies p lin || satisfies q lin

  -- The entry of NONE of a property.
  abbrev pub is_present : ℕ → ℕ → Bool
  is_present prop lin = some_value a.property_index prop (λ v. v == none_value) lin

  some_value-none :
      (m : List (AttrKey × ℕ)) (prop : ℕ) (test : ℕ → Bool) (lin : ℕ)
      → some_value m prop test lin ≡ (
          some_value m prop (λ v. not (v == none_value) && test v) lin
          || test none_value && some_value m prop (λ v. v == none_value) lin)
  some_value-none [] prop test lin = ground arith
  some_value-none (((i, v), p) ∷ m) prop test lin = elim (Bool-cases (v == none_value)) [
    | inl nil ↦
        let same : test v ≡ test none_value = ap test (ground arith) in
        ground (arith, some_value-none m prop test lin, same)
    | inr value ↦ ground (arith, some_value-none m prop test lin)
  ]

  -- A comparison takes whom it should and, where it takes NONE, all who have the property.
  pub passes-compares :
      (prop : ℕ) (c : Comparison) (value lin : ℕ)
      → passes prop c value lin
        ≡ (compares prop c value lin || takes_none c value && is_present prop lin)
  passes-compares prop equal value lin = ground arith
  passes-compares prop unequal value lin = ground arith
  passes-compares prop greater value lin =
      some_value-none a.property_index prop (λ v. ltb value v) lin
  passes-compares prop greater_equal value lin =
      some_value-none a.property_index prop (λ v. leb value v) lin
  passes-compares prop less value lin = some_value-none a.property_index prop (λ v. ltb v value) lin
  passes-compares prop less_equal value lin =
      some_value-none a.property_index prop (λ v. leb v value) lin

  passes_at-compares_at :
      (prop : Option ℕ) (c : Comparison) (value lin : ℕ)
      → takes_none c value ≡ false
      → passes_at prop c value lin ≡ compares_at prop c value lin
  passes_at-compares_at none c value lin plain = refl
  passes_at-compares_at (some prop) c value lin plain =
      passes-compares prop c value lin ∙ rw plain (ground arith)

  pub matched-satisfies : (p : Condition) (lin : ℕ) → IsPlain p → matched p lin ≡ satisfies p lin
  unfolding matched satisfies
  matched-satisfies (compare name c value) lin plain =
      passes_at-compares_at (get_property props name) c value lin plain
  matched-satisfies (both p q) lin (plain_p, plain_q) =
      rw (matched-satisfies p lin plain_p, matched-satisfies q lin plain_q)
  matched-satisfies (either p q) lin (plain_p, plain_q) =
      rw (matched-satisfies p lin plain_p, matched-satisfies q lin plain_q)

  pub list_readable :
      (m : List (AttrKey × ℕ)) (prop : ℕ) (mode : ListMode) (value : ℕ)
      → AllReadable lz4 a m
      → AreReadable lz4 a (list_values lz4 m prop mode value)
  unfolding list_values
  list_readable [] prop mode value r = tt
  list_readable (((i, v), p) ∷ m) prop mode value (one, r) =
      elim (Bool-cases (i == prop && mode_takes lz4 mode v value)) [
        | inl taken ↦ rw taken (one, list_readable m prop mode value r)
        | inr left ↦ rw left (list_readable m prop mode value r)
      ]

  pub any_list :
      (m : List (AttrKey × ℕ)) (prop : ℕ) (mode : ListMode) (value lin : ℕ)
      → any_bit lz4 a (list_values lz4 m prop mode value) lin
        ≡ some_value m prop (λ v. mode_takes lz4 mode v value) lin
  unfolding list_values
  any_list [] prop mode value lin = refl
  any_list (((i, v), p) ∷ m) prop mode value lin =
      elim (Bool-cases (i == prop && mode_takes lz4 mode v value)) [
        | inl taken ↦ rw taken (ground (arith, any_list m prop mode value lin))
        | inr left ↦ rw left (ground (arith, any_list m prop mode value lin))
      ]

  lookup-IsReadable :
      (m : List (AttrKey × ℕ)) (k : AttrKey) (p : ℕ)
      → AllReadable lz4 a m
      → lookup k m ≡ some p
      → IsReadable lz4 a p
  unfolding lookup
  lookup-IsReadable [] k p r e = absurd (ground (arith, e))
  lookup-IsReadable ((j, q) ∷ m) k p (one, r) e = elim (Bool-cases (key_eq j k)) [
    | inl here ↦ subst (IsReadable lz4 a) (ground (arith, e)) one
    | inr further ↦ lookup-IsReadable m k p r (ground (arith, e))
  ]

  -- The pointers for one value.
  pub one_readable :
      (prop value : ℕ)
      → AllReadable lz4 a a.property_index
      → AreReadable lz4 a (get_property_values_by lz4 a prop eq value)
        × ((lin : ℕ)
            → any_bit lz4 a (get_property_values_by lz4 a prop eq value) lin
              ≡ holds lz4 a (prop, value) lin)
  unfolding get_property_values_by get
  one_readable prop value r = elim (Option-cases (lookup (prop, value) a.property_index)) [
    | inl gone ↦ rw gone (tt, λ lin. refl)
    | inr (p, at_p) ↦
        rw at_p
          ((lookup-IsReadable a.property_index (prop, value) p r at_p, tt), λ lin. ground arith)
  ]
