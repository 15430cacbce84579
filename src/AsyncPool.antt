-- ===== src/AsyncPool.antt =====
-- src/asyncpool.h and src/asyncpool.cpp: the partitions of a node and the workers that run them.
--
-- A pointer to a partition's record is an address, under which its worker is kept. Which partitions
-- the map gives to the node, and which it is the owner of, are arguments. The threads are left out.
pub mod Even
pub mod Busy
use openset.Prelude.{
  ℕ, zero, suc, ◌+◌, ◌%◌, Bool, true, false, not, List, [], ◌∷◌, ◌++◌, Option, none, some, ltb,
  ◌==◌, if◌then◌else◌, length, get_or, set, replicate, map,
}

pub record AsyncPool : Type 0 where
  pub worker_max : ℕ
  pub jobs : List (List ℕ)
  pub partitions : List (Option ℕ)
  pub worker_of : ℕ → ℕ
  pub zombie_partitions : List ℕ
  pub next_address : ℕ

abbrev pub new_pool : ℕ → ℕ → AsyncPool
new_pool partition_max worker_max = record {
  worker_max = worker_max;
  jobs = replicate worker_max [];
  partitions = replicate partition_max none;
  worker_of = λ address. 0;
  zombie_partitions = [];
  next_address = 0;
}

abbrev pub jobs_of : List (List ℕ) → ℕ → List ℕ
jobs_of jobs worker = get_or jobs worker []

-- The loop of `getLeastBusy` from worker `i` on.
unfoldable pub least_from : List (List ℕ) → ℕ → ℕ → ℕ → ℕ
least_from jobs zero i idx = idx
least_from jobs (suc n) i idx =
    let better = least_from jobs n (i + 1) i in
    let same = least_from jobs n (i + 1) idx in
    if ltb (length (jobs_of jobs i)) (length (jobs_of jobs idx)) then better else same

unfoldable pub get_least_busy : AsyncPool → ℕ
unfolding least_from
get_least_busy pool = least_from pool.jobs pool.worker_max 0 0

-- `workerInfo[worker].jobs.push_back(part)`.
abbrev pub push_job : List (List ℕ) → ℕ → ℕ → List (List ℕ)
push_job jobs worker part = set jobs worker (jobs_of jobs worker ++ part ∷ [])

abbrev pub move_to : (ℕ → ℕ) → ℕ → ℕ → ℕ → ℕ
move_to worker_of part worker j = if part == j then worker else worker_of j

unfoldable pub init_partition : AsyncPool → ℕ → AsyncPool × ℕ
unfolding get_least_busy
init_partition pool partition = elim (get_or pool.partitions partition none) [
  | some part ↦ (pool, part)
  | none ↦
      let worker = get_least_busy pool in
      let part = pool.next_address in
      (
        record pool {
          jobs = push_job pool.jobs worker part;
          partitions = set pool.partitions partition (some part);
          worker_of = move_to pool.worker_of part worker;
          next_address = part + 1;
        },
        part,
      )
]

-- The records of the listed partitions, of those that are owned or of the others.
unfoldable pub gather_parts : (ℕ → Bool) → List (Option ℕ) → List ℕ → List ℕ
gather_parts wanted partitions [] = []
gather_parts wanted partitions (p ∷ ps) =
    let rest = gather_parts wanted partitions ps in
    elim (get_or partitions p none) [
      | none ↦ rest
      | some part ↦ if wanted p then part ∷ rest else rest
    ]

-- Both loops that distribute records evenly, from the `i`-th on.
unfoldable pub distribute : ℕ → List ℕ → ℕ → List (List ℕ) × (ℕ → ℕ) → List (List ℕ) × (ℕ → ℕ)
distribute worker_max [] i (jobs, worker_of) = (jobs, worker_of)
distribute worker_max (part ∷ parts) i (jobs, worker_of) =
    let worker = i % worker_max in
    distribute worker_max parts (suc i) (push_job jobs worker part, move_to worker_of part worker)

unfoldable pub balance_partitions : (ℕ → Bool) → List ℕ → AsyncPool → AsyncPool
unfolding gather_parts distribute
balance_partitions is_active partition_list pool =
    let actives = gather_parts is_active pool.partitions partition_list in
    let clones = gather_parts (λ p. not (is_active p)) pool.partitions partition_list in
    let first = distribute pool.worker_max actives 0 (map (λ jobs. []) pool.jobs, pool.worker_of) in
    let second = distribute pool.worker_max clones 0 first in
    record pool { jobs = second.0; worker_of = second.1 }

unfoldable pub free_partition : AsyncPool → ℕ → AsyncPool
free_partition pool partition = elim (get_or pool.partitions partition none) [
  | none ↦ pool
  | some part ↦ record pool {
    zombie_partitions = pool.zombie_partitions ++ part ∷ [];
    partitions = set pool.partitions partition none;
  }
]

unfoldable pub count : List (Option ℕ) → ℕ
count [] = 0
count (none ∷ ps) = count ps
count (some part ∷ ps) = suc (count ps)
