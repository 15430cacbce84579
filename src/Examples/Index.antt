-- ===== src/Examples/Index.antt =====
-- The theorems about IndexBits at two small indexes.
use openset.IndexBits.Combine.{AreReady}
use openset.IndexBits.Iterate.{Outcome, linear_iter-Outcome}
use openset.IndexBits.Population.{count_true, population-count_true}
use Prim.Native.Nat.{suc-le-suc, zero-le}
use openset.IndexBits.Restore.{restored, bit_state-restored}
use openset.IndexBits.Storage.{Lz4}
use openset.IndexBits.Words.{IsValid}
use openset.IndexBits.{IndexBits, bit_state, population, linear_iter}
use openset.Prelude.{ℕ, zero, suc, ◌≡◌, List, length, refl, false, [], ◌∷◌, some, arith}

-- The ids 1, 3 and 64, and the ids 3 and 5.
abbrev pub three_ids : IndexBits
three_ids = record { words = 10 ∷ 1 ∷ []; place_holder = false }

abbrev pub two_ids : IndexBits
two_ids = record { words = 40 ∷ []; place_holder = false }

ready : AreReady three_ids two_ids
ready = record { this_real = refl; source_real = refl; source_present = omega arith }

two_ids-IsValid : IsValid two_ids
two_ids-IsValid zero = omega arith
two_ids-IsValid (suc i) = omega arith

population-count_true_example : population three_ids 64 ≡ count_true (bit_state three_ids) 0 64
population-count_true_example = population-count_true three_ids 64

linear_iter-Outcome_example :
    Outcome (bit_state three_ids) 4 128 (linear_iter three_ids (some 3) 128)
linear_iter-Outcome_example = linear_iter-Outcome three_ids (some 3) 128

-- A compressor that copies, with a byte before the words.
abbrev pub copying : Lz4
copying = record {
  Block = List ℕ;
  compress = λ ws. ws;
  size = λ ws. suc (length ws);
  decompress = λ block n. block;
  decompress-compress = λ ws. refl;
  size_pos = λ ws. suc-le-suc zero-le;
}

bit_state-restored_example : bit_state (restored copying three_ids) 64 ≡ bit_state three_ids 64
bit_state-restored_example = bit_state-restored copying three_ids 64 (omega arith)
