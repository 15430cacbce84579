-- ===== src/QueryIndexing/Computes.antt =====
-- The machine on the postfix form of a condition: it leaves one more set on the stack.
use Prim.Native.String.{String}
use openset.Attributes.{Attributes}
use openset.IndexBits.Combine.{bit_state-op_copy}
use openset.IndexBits.Storage.{Lz4}
use openset.IndexBits.{IndexBits, bit_state, reset, op_and, op_or, op_copy}
use openset.Properties.{Properties, get_property}
use openset.QueryIndexing.Compare.{compare_of}
use openset.QueryIndexing.Gather.{AllReadable}
use openset.QueryIndexing.Meaning.{
  Comparison, equal, unequal, greater, greater_equal, less, less_equal, Condition, compare, both,
  either, op_of, mode_of, hints_of, matched,
}
use openset.QueryIndexing.Sets.{
  IsFilled, op_copy-IsFilled, op_or-IsFilled, op_and-IsFilled, or_state, and_state,
}
use openset.QueryIndexing.{
  HintOp, bit_or, bit_and, StackItem, Machine, set_item, composite_bits, compare_top, combine_top,
  run_hint, run_hints,
}
use mathlib.Core.List.{append_assoc}
use openset.Prelude.{ℕ, ◌+◌, ◌<◌, ◌≡◌, refl, ap, ◌∙◌, Bool, List, [], ◌∷◌, ◌++◌, some, arith}

module _ (lz4 : Lz4) (props : Properties) (a : Attributes lz4) (stop_bit : ℕ) where
  -- The condition names properties of the table.
  abbrev pub AreKnown : Condition → Type 0
  AreKnown (compare name c value) = (idx : ℕ) × (get_property props name ≡ some idx)
  AreKnown (both p q) = AreKnown p × AreKnown q
  AreKnown (either p q) = AreKnown p × AreKnown q

  abbrev pub machine : List StackItem → String → ℕ → Machine
  machine stack name count = record { stack = stack; column_name = name; count = count }

  -- The code leaves one more set on the stack, that of the test, in front of any further code.
  pub record Computes (code : List HintOp) (test : ℕ → Bool) (stack : List StackItem)
      (name : String) (count : ℕ) : Type 0 where
    pub item : StackItem
    pub name' : String
    pub count' : ℕ
    pub runs :
        (rest : List HintOp)
        → run_hints lz4 props a stop_bit (code ++ rest) (machine stack name count)
          ≡ run_hints lz4 props a stop_bit rest (machine (item ∷ stack) name' count')
    pub counted : 0 < count'
    pub set : IsFilled item.bits
    pub answers : (lin : ℕ) → lin < stop_bit → bit_state item.bits lin ≡ test lin

  run_op_of :
      (c : Comparison) (m : Machine)
      → run_hint lz4 props a stop_bit (op_of c) m ≡ compare_top lz4 props a stop_bit (mode_of c) m
  unfolding run_hint
  run_op_of equal m = refl
  run_op_of unequal m = refl
  run_op_of greater m = refl
  run_op_of greater_equal m = refl
  run_op_of less m = refl
  run_op_of less_equal m = refl

  compare-Computes :
      (prop_name : String) (c : Comparison) (value : ℕ) (stack : List StackItem) (name : String)
      (count : ℕ)
      → AllReadable lz4 a a.property_index
      → AreKnown (compare prop_name c value)
      → Computes
          (hints_of (compare prop_name c value))
          (matched lz4 props a (compare prop_name c value))
          stack
          name
          count
  unfolding hints_of matched run_hints run_hint compare_top composite_bits
  compare-Computes prop_name c value stack name count r (idx, named) =
      let start : StackItem = record { column_name = prop_name; hash = value; bits = reset } in
      let answer = compare_of lz4 props a stop_bit idx c start r in
      let pushed : Machine = machine (start ∷ stack) prop_name count in
      let ran : run_hint lz4 props a stop_bit (op_of c) pushed
          ≡ some (machine (record start { bits = answer.bits } ∷ stack) prop_name (count + 1)) =
        run_op_of c pushed ∙ rw (compare_top, composite_bits, named, answer.made_it) in
      record {
        item = record start { bits = answer.bits };
        name' = prop_name;
        count' = count + 1;
        runs = λ rest. rw (run_hints, ran);
        counted = omega arith;
        set = answer.set;
        answers = λ lin low. rw named (answer.answers lin low);
      }

  -- What `&&` and `||` leave of two sets.
  abbrev joined :
      (IndexBits → IndexBits → IndexBits × IndexBits) → StackItem → StackItem → StackItem
  joined f left right = set_item (f (op_copy left.bits) (op_copy right.bits)).0

  combine-Computes :
      (p q : List HintOp) (op : HintOp) (f : IndexBits → IndexBits → IndexBits × IndexBits)
      (stack : List StackItem) (name : String) (count : ℕ) (s t u : ℕ → Bool)
      (first : Computes p s stack name count)
      → Computes q t (first.item ∷ stack) first.name' first.count'
      → ((m : Machine) → run_hint lz4 props a stop_bit op m ≡ combine_top lz4 props a stop_bit f m)
      → ((b c : IndexBits) → IsFilled b → IsFilled c → IsFilled (f b c).0)
      → ((b c : IndexBits) (lin : ℕ)
          → IsFilled b
          → IsFilled c
          → lin < stop_bit
          → bit_state c lin ≡ s lin
          → bit_state b lin ≡ t lin
          → bit_state (f b c).0 lin ≡ u lin)
      → Computes (p ++ q ++ op ∷ []) u stack name count
  unfolding run_hints combine_top
  combine-Computes p q op f stack name count s t u first second runs_op keeps states =
      let left = op_copy second.item.bits in
      let right = op_copy first.item.bits in
      let l = op_copy-IsFilled second.item.bits second.set in
      let r = op_copy-IsFilled first.item.bits first.set in
      let both_set = keeps left right l r in
      record {
        item = joined f second.item first.item;
        name' = second.name';
        count' = second.count' + 1;
        runs = λ rest.
            let shape : ((p ++ q) ++ op ∷ []) ++ rest ≡ p ++ (q ++ op ∷ rest) = simp append_assoc in
            ap (λ code. run_hints lz4 props a stop_bit code (machine stack name count)) shape
            ∙ first.runs (q ++ op ∷ rest)
            ∙ second.runs (op ∷ rest)
            ∙ rw (run_hints, runs_op, combine_top);
        counted = omega arith;
        set = op_copy-IsFilled (f left right).0 both_set;
        answers = λ lin low.
            bit_state-op_copy (f left right).0 lin
            ∙ states left right lin l r low
                (bit_state-op_copy first.item.bits lin ∙ first.answers lin low)
                (bit_state-op_copy second.item.bits lin ∙ second.answers lin low);
      }

  -- The postfix form of a condition leaves the set of the customers whom it matches on the stack.
  pub hints_of-Computes :
      (p : Condition) (stack : List StackItem) (name : String) (count : ℕ)
      → AllReadable lz4 a a.property_index
      → AreKnown p
      → Computes (hints_of p) (matched lz4 props a p) stack name count
  unfolding hints_of matched run_hint
  hints_of-Computes (compare prop_name c value) stack name count r known =
      compare-Computes prop_name c value stack name count r known
  hints_of-Computes (both p q) stack name count r (known_p, known_q) =
      let first = hints_of-Computes p stack name count r known_p in
      let second = hints_of-Computes q (first.item ∷ stack) first.name' first.count' r known_q in
      combine-Computes (hints_of p) (hints_of q) bit_and op_and stack name count
        (matched lz4 props a p) (matched lz4 props a q) (matched lz4 props a (both p q)) first
        second (λ m. refl) op_and-IsFilled
        (λ b c lin s t low on_c on_b. rw (and_state b c lin s t, on_c, on_b) (ground arith))
  hints_of-Computes (either p q) stack name count r (known_p, known_q) =
      let first = hints_of-Computes p stack name count r known_p in
      let second = hints_of-Computes q (first.item ∷ stack) first.name' first.count' r known_q in
      combine-Computes (hints_of p) (hints_of q) bit_or op_or stack name count
        (matched lz4 props a p) (matched lz4 props a q) (matched lz4 props a (either p q)) first
        second (λ m. refl) op_or-IsFilled
        (λ b c lin s t low on_c on_b. rw (or_state b c lin s t, on_c, on_b) (ground arith))
