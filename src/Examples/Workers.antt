-- ===== src/Examples/Workers.antt =====
-- The theorems about the workers of a node, at two workers and three partitions.
use openset.AsyncPool.Busy.{IsEven, init_partition-IsEven}
use openset.AsyncPool.Even.{balance_partitions-even}
use openset.AsyncPool.{AsyncPool, new_pool, jobs_of, init_partition, balance_partitions}
use openset.Prelude.{ℕ, zero, suc, ◌+◌, ◌≤◌, refl, Bool, [], ◌∷◌, some, ◌==◌, length, arith}

-- All partitions at the first worker.
abbrev one_busy : AsyncPool
one_busy = record (new_pool 3 2) {
  jobs = (0 ∷ 1 ∷ 2 ∷ []) ∷ [] ∷ [];
  partitions = some 0 ∷ some 1 ∷ some 2 ∷ [];
  next_address = 3;
}

abbrev owns_first : ℕ → Bool
owns_first partition = partition == 0

balance_partitions-even_example :
    length (jobs_of (balance_partitions owns_first (0 ∷ 1 ∷ 2 ∷ []) one_busy).jobs 0)
    ≤ length (jobs_of (balance_partitions owns_first (0 ∷ 1 ∷ 2 ∷ []) one_busy).jobs 1) + 2
balance_partitions-even_example =
    balance_partitions-even owns_first (0 ∷ 1 ∷ 2 ∷ []) one_busy 0 1 refl (omega arith)
      (omega arith)

all_idle : IsEven (new_pool 3 2)
all_idle zero w low_v low_w = omega arith
all_idle (suc zero) w low_v low_w = omega arith
all_idle (suc (suc v)) w low_v low_w = absurd (omega (arith, low_v))

init_partition-IsEven_example : IsEven (init_partition (new_pool 3 2) 1).0
init_partition-IsEven_example = init_partition-IsEven (new_pool 3 2) 1 (omega arith) refl all_idle
