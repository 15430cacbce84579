-- ===== src/QueryIndexing/Postfix.antt =====
-- `buildIndex` on the postfix form of a condition.
use Prim.Native.String.{String}
use openset.Attributes.{Attributes}
use openset.IndexBits.Combine.{bit_state-op_copy}
use openset.IndexBits.Storage.{Lz4}
use openset.IndexBits.Words.{bit_state-grow}
use openset.IndexBits.{IndexBits, bit_state, op_copy}
use openset.Properties.{Properties, get_property}
use openset.QueryIndexing.Gather.{AllReadable}
use openset.QueryIndexing.Meaning.{
  Comparison, Condition, compare, hints_of, satisfies, matched, matched-satisfies, passes-compares,
  compares, takes_none, is_present, IsPlain,
}
use openset.QueryIndexing.{StackItem, Machine, run_hints, result_of, build_index}
use mathlib.Core.List.{append-nil}
use openset.Prelude.{
  ℕ, ◌+◌, ◌/◌, ◌<◌, ◌≡◌, sym, ap, ◌∙◌, ◌&&◌, ◌||◌, true, false, List, [], ◌∷◌, some, ◌==◌, arith,
}
use openset.QueryIndexing.Computes.{AreKnown, machine, hints_of-Computes}

module _ (lz4 : Lz4) (props : Properties) (a : Attributes lz4) (stop_bit : ℕ) where
  build_index-matched :
      (p : Condition) (stack : List StackItem) (max_lin_id : ℕ)
      → 0 < stop_bit
      → AllReadable lz4 a a.property_index
      → AreKnown lz4 props a stop_bit p
      → (r : IndexBits × List StackItem) × (build_index lz4 props a stop_bit stack
            (hints_of p)
            max_lin_id
          ≡ some r)
        × ((lin : ℕ) → lin < stop_bit → bit_state r.0 lin ≡ matched lz4 props a p lin)
  unfolding build_index run_hints result_of
  build_index-matched p stack max_lin_id some_bits r known =
      let c = hints_of-Computes lz4 props a stop_bit p stack "" 0 r known in
      let final : Machine = machine lz4 props a stop_bit (c.item ∷ stack) c.name' c.count' in
      let ran : run_hints lz4 props a stop_bit (hints_of p)
            (machine lz4 props a stop_bit stack "" 0)
          ≡ some final =
        ap (λ code. run_hints lz4 props a stop_bit code (machine lz4 props a stop_bit stack "" 0))
          (sym (append-nil (hints_of p)))
        ∙ c.runs [] in
      let real : stop_bit == 0 ≡ false = ground arith in
      let some_count : c.count' == 0 ≡ false = ground (arith, c.counted) in
      (
        (result_of lz4 props a stop_bit max_lin_id final, c.item ∷ stack),
        rw (build_index, real, ran),
        λ lin low. rw some_count (
            bit_state-grow (op_copy c.item.bits) (stop_bit / 64 + 1) true lin
            ∙ bit_state-op_copy c.item.bits lin
            ∙ c.answers lin low),
      )

  -- The index of a condition holds exactly the customers below the stop bit who satisfy it, by what
  -- the index on attributes holds, whatever an earlier index has left on the stack. No comparison
  -- takes NONE for a value, which `<` and `<=` do. The stop bit is not 0, the condition names properties of the table, and each pointer of the index on attributes leads
  -- to a record whose words are below 2 ^ 64.
  pub build_index-hints_of :
      (p : Condition) (stack : List StackItem) (max_lin_id : ℕ)
      → 0 < stop_bit
      → AllReadable lz4 a a.property_index
      → AreKnown lz4 props a stop_bit p
      → IsPlain p
      → (r : IndexBits × List StackItem) × (build_index lz4 props a stop_bit stack
            (hints_of p)
            max_lin_id
          ≡ some r)
        × ((lin : ℕ) → lin < stop_bit → bit_state r.0 lin ≡ satisfies lz4 props a p lin)
  build_index-hints_of p stack max_lin_id some_bits r known plain =
      let (made, done, bits) = build_index-matched p stack max_lin_id some_bits r known in
      (made, done, λ lin low. bits lin low ∙ matched-satisfies lz4 props a p lin plain)

  -- The index of one comparison holds exactly the customers below the stop bit who satisfy it and,
  -- for `<` and a value other than NONE, for `<=` and for `>=` and NONE, every customer whom the
  -- property's entry of NONE holds, whatever value he has. The stop bit is not 0, the name is that of a
  -- property, and each pointer of the index on attributes leads to a record whose words are below
  -- 2 ^ 64.
  pub build_index-compare :
      (name : String) (c : Comparison) (value prop : ℕ) (stack : List StackItem) (max_lin_id : ℕ)
      → 0 < stop_bit
      → AllReadable lz4 a a.property_index
      → get_property props name ≡ some prop
      → (r : IndexBits × List StackItem) × (build_index lz4 props a stop_bit stack
            (hints_of (compare name c value))
            max_lin_id
          ≡ some r)
        × ((lin : ℕ)
            → lin < stop_bit
            → bit_state r.0 lin ≡ (
                compares lz4 props a prop c value lin
                || takes_none c value && is_present lz4 props a prop lin))
  unfolding matched
  build_index-compare name c value prop stack max_lin_id some_bits r named =
      let p = compare name c value in
      let (made, done, bits) = build_index-matched p stack max_lin_id some_bits r (prop, named) in
      (
        made,
        done,
        λ lin low. bits lin low ∙ rw named (passes-compares lz4 props a prop c value lin),
      )
