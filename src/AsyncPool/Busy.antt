-- ===== src/AsyncPool/Busy.antt =====
-- `initPartition` gives a new partition to a worker that has the fewest.
use openset.AsyncPool.{AsyncPool, jobs_of, least_from, get_least_busy, init_partition}
use openset.AsyncPool.Even.{push_job-length}
use openset.Prelude.{
  ℕ, zero, suc, ◌+◌, ◌≤◌, ◌<◌, ◌≡◌, refl, ap, List, none, ltb, ◌==◌, length, get_or, arith, inl,
  inr, Bool-cases, Option-cases,
}

load : List (List ℕ) → ℕ → ℕ
load jobs w = length (jobs_of jobs w)

least_from-load :
    (jobs : List (List ℕ)) (n i idx w : ℕ)
    → (load jobs (least_from jobs n i idx) ≤ load jobs idx)
      × (i ≤ w → w < i + n → load jobs (least_from jobs n i idx) ≤ load jobs w)
unfolding least_from load
least_from-load jobs zero i idx w = (omega arith, λ from below. absurd (omega arith))
least_from-load jobs (suc n) i idx w =
    let (as_i, later_i) = least_from-load jobs n (i + 1) i w in
    let (as_idx, later_idx) = least_from-load jobs n (i + 1) idx w in
    elim (Bool-cases (ltb (length (jobs_of jobs i)) (length (jobs_of jobs idx)))) [
      | inl better ↦ rw better (
        ground (arith, better, as_i),
        λ from below. elim (Bool-cases (i == w)) [
          | inl same ↦
              let e : i ≡ w = ground (arith, same) in
              omega (arith, as_i, ap (λ u. length (jobs_of jobs u)) e)
          | inr apart ↦ later_i (ground (arith, from, apart)) (omega (arith, below))
        ],
      )
      | inr worse ↦ rw worse (
        as_idx,
        λ from below. elim (Bool-cases (i == w)) [
          | inl same ↦
              let e : i ≡ w = ground (arith, same) in
              ground (arith, worse, as_idx, ap (λ u. length (jobs_of jobs u)) e)
          | inr apart ↦ later_idx (ground (arith, from, apart)) (omega (arith, below))
        ],
      )
    ]

least_from_low :
    (jobs : List (List ℕ)) (n i idx bound : ℕ)
    → idx < bound
    → i + n ≤ bound
    → least_from jobs n i idx < bound
unfolding least_from
least_from_low jobs zero i idx bound low room = low
least_from_low jobs (suc n) i idx bound low room =
    elim (Bool-cases (ltb (length (jobs_of jobs i)) (length (jobs_of jobs idx)))) [
      | inl better ↦ rw better (least_from_low jobs n (i + 1) i bound (omega arith) (omega arith))
      | inr worse ↦ rw worse (least_from_low jobs n (i + 1) idx bound low (omega arith))
    ]

-- No worker has more than two partitions more than another.
abbrev pub IsEven : AsyncPool → Type 0
IsEven pool =
    (v w : ℕ)
    → v < pool.worker_max
    → w < pool.worker_max
    → length (jobs_of pool.jobs v) ≤ length (jobs_of pool.jobs w) + 2

init_partition-worker_max :
    (pool : AsyncPool) (partition : ℕ)
    → (init_partition pool partition).0.worker_max ≡ pool.worker_max
unfolding init_partition
init_partition-worker_max pool partition =
    elim (Option-cases (get_or pool.partitions partition none)) [
      | inr (part, there) ↦ rw (init_partition, there) refl
      | inl new ↦ rw (init_partition, new) refl
    ]

-- `initPartition` keeps the workers even: no worker has more than two partitions more than another,
-- also where a new partition is added. There is a worker.
pub init_partition-IsEven :
    (pool : AsyncPool) (partition : ℕ)
    → 0 < pool.worker_max
    → length pool.jobs ≡ pool.worker_max
    → IsEven pool
    → IsEven (init_partition pool partition).0
unfolding init_partition get_least_busy load
init_partition-IsEven pool partition some_workers size even v w below_v below_w =
    let low_v : v < pool.worker_max = rw (init_partition-worker_max pool partition) at below_v in
    let low_w : w < pool.worker_max = rw (init_partition-worker_max pool partition) at below_w in
    elim (Option-cases (get_or pool.partitions partition none)) [
      | inr (part, there) ↦ rw (init_partition, there) (even v w low_v low_w)
      | inl new ↦
          let n = pool.worker_max in
          let worker = least_from pool.jobs n 0 0 in
          let inside : worker < n = least_from_low pool.jobs n 0 0 n some_workers (omega arith) in
          let part = pool.next_address in
          let fewest = (least_from-load pool.jobs n 0 0 w).1 (omega arith) (omega (arith, low_w)) in
          let at_v = push_job-length pool.jobs worker part v (omega (arith, inside, size)) in
          let at_w = push_job-length pool.jobs worker part w (omega (arith, inside, size)) in
          rw (init_partition, new)
            (elim (Bool-cases (worker == v)) [
              | inl same ↦
                  let e : worker ≡ v = ground (arith, same) in
                  let of_v = ap (λ u. length (jobs_of pool.jobs u)) e in
                  ground (arith, at_v, at_w, fewest, of_v)
              | inr apart ↦ ground (arith, at_v, at_w, even v w low_v low_w, apart)
            ])
    ]
