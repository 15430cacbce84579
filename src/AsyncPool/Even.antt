-- ===== src/AsyncPool/Even.antt =====
-- The partitions of a node are spread evenly over its workers.
use native.Mathlib.Nat.{zero-add, mul-suc, mod-lt, div-add-mod, div-eq_of_lt-le, mul_comm, add-mul}
use openset.AsyncPool.{
  AsyncPool, jobs_of, push_job, move_to, distribute, balance_partitions, gather_parts,
}
use openset.Prelude.{
  ℕ, zero, suc, ◌+◌, ◌*◌, ◌/◌, ◌%◌, ◌≤◌, ◌<◌, ◌≡◌, refl, sym, ap, ◌∙◌, Bool, not, List, [], ◌∷◌,
  ◌++◌, ltb, ◌==◌, if◌then◌else◌, length, map, arith, inl, inr, Bool-cases, length-append,
  length-set, get_or-set_self, get_or-set_ne, length-map, ◌⊎◌,
}

-- How many of the first `k` numbers a worker gets in turn.
abbrev pub share : ℕ → ℕ → ℕ → ℕ
share workers k w = k / workers + (if ltb w (k % workers) then 1 else 0)

quotient_of : (n q r k : ℕ) → r < n → n * q + r ≡ k → k / n ≡ q
quotient_of n q r k low e =
    let swap = mul_comm n q in
    div-eq_of_lt-le n (omega (arith, e, swap)) (omega (arith, e, swap, low, add-mul q 1 n))

remainder_of : (n q r k : ℕ) → r < n → n * q + r ≡ k → k % n ≡ r
remainder_of n q r k low e =
    let whole : n * q + k % n ≡ k = rw (quotient_of n q r k low e) at (div-add-mod k n) in
    omega (arith, whole, e)

-- The share of the next number, from those of the quotient and the remainder.
next_share :
    (q r q' r' w : ℕ)
    → ((q' ≡ q) × (r' ≡ suc r)) ⊎ ((q' ≡ q + 1) × (r' ≡ 0) × (w ≤ r))
    → q' + (if ltb w r' then 1 else 0) ≡ q + (if ltb w r then 1 else 0) + (if r == w then 1 else 0)
next_share q r q' r' w (inl (same, next)) = ground arith
next_share q r q' r' w (inr (more, none_left, low)) = ground arith

share-suc : (n k w : ℕ) → w < n → share n (suc k) w ≡ share n k w + (if k % n == w then 1 else 0)
share-suc n k w low =
    let q = k / n in
    let r = k % n in
    let whole : n * q + r ≡ k = div-add-mod k n in
    let some_workers : 0 < n = omega (arith, low) in
    let small : r < n = mod-lt k some_workers in
    next_share q r (suc k / n) (suc k % n) w (elim (Bool-cases (ltb (suc r) n)) [
      | inl more ↦
          let room : suc r < n = ground (arith, more) in
          let e : n * q + suc r ≡ suc k = omega (arith, whole) in
          inl (quotient_of n q (suc r) (suc k) room e, remainder_of n q (suc r) (suc k) room e)
      | inr full ↦
          let last : suc r ≡ n = ground (arith, full, small) in
          let e : n * (q + 1) + 0 ≡ suc k = omega (arith, whole, last, mul-suc n q) in
          inr (
            quotient_of n (q + 1) 0 (suc k) some_workers e,
            remainder_of n (q + 1) 0 (suc k) some_workers e,
            omega (arith, last, low),
          )
    ])

pub push_job-length :
    (jobs : List (List ℕ)) (v part w : ℕ)
    → v < length jobs
    → length (jobs_of (push_job jobs v part) w)
      ≡ length (jobs_of jobs w) + (if v == w then 1 else 0)
push_job-length jobs v part w low = elim (Bool-cases (v == w)) [
  | inl same ↦
      let e : v ≡ w = ground (arith, same) in
      let added = length-append (jobs_of jobs v) (part ∷ []) in
      rw same (
        ap (λ u. length (jobs_of (push_job jobs v part) u)) (sym e)
        ∙ ap length (get_or-set_self jobs v (jobs_of jobs v ++ part ∷ []) [] low)
        ∙ added
        ∙ ap (λ u. length (jobs_of jobs u) + 1) e)
  | inr apart ↦
      let kept =
        get_or-set_ne jobs v w (jobs_of jobs v ++ part ∷ []) [] (λ e. ground (arith, e, apart)) in
      rw (apart, kept) (omega arith)
]

-- The worker `w` gets its share of the records, from the `i`-th on.
distribute-share :
    (n : ℕ) (parts : List ℕ) (i : ℕ) (jobs : List (List ℕ)) (worker_of : ℕ → ℕ) (w : ℕ)
    → w < n
    → length jobs ≡ n
    → (length (distribute n parts i (jobs, worker_of)).0 ≡ n)
      × (length (jobs_of (distribute n parts i (jobs, worker_of)).0 w) + share n i w
          ≡ length (jobs_of jobs w) + share n (i + length parts) w)
unfolding distribute
distribute-share n [] i jobs worker_of w low size =
    let e : i + 0 ≡ i = omega arith in (size, rw e refl)
distribute-share n (part ∷ parts) i jobs worker_of w low size =
    let v = i % n in
    let small : v < n = mod-lt i (omega (arith, low)) in
    let pushed = push_job-length jobs v part w (omega (arith, small, size)) in
    let (kept, rest) =
      distribute-share n parts (suc i) (push_job jobs v part) (move_to worker_of part v) w low
        (length-set jobs v (jobs_of jobs v ++ part ∷ []) ∙ size) in
    let e : suc i + length parts ≡ i + suc (length parts) = omega arith in
    let turn : share n (suc i + length parts) w ≡ share n (i + suc (length parts)) w =
      ap (λ k. share n k w) e in
    (kept, omega (arith, rest, pushed, share-suc n i w low, turn))

share-zero : (n w : ℕ) → w < n → share n 0 w ≡ 0
share-zero n w low =
    let some_workers : 0 < n = omega (arith, low) in
    let e : n * 0 + 0 ≡ 0 = omega arith in
    rw (quotient_of n 0 0 0 some_workers e, remainder_of n 0 0 0 some_workers e) (ground arith)

no_jobs : (jobs : List (List ℕ)) (w : ℕ) → jobs_of (map (λ j. []) jobs) w ≡ []
no_jobs [] w = refl
no_jobs (j ∷ jobs) zero = refl
no_jobs (j ∷ jobs) (suc w) = no_jobs jobs w

share_even : (n k v w : ℕ) → share n k v ≤ share n k w + 1
share_even n k v w = ground arith

-- What each worker gets: its turn of the records that are owned, and its turn of the others.
pub length-balance_partitions :
    (is_active : ℕ → Bool) (partition_list : List ℕ) (pool : AsyncPool) (w : ℕ)
    → length pool.jobs ≡ pool.worker_max
    → w < pool.worker_max
    → length (jobs_of (balance_partitions is_active partition_list pool).jobs w)
      ≡ share pool.worker_max (length (gather_parts is_active pool.partitions partition_list)) w
        + share pool.worker_max
            (length (gather_parts (λ p. not (is_active p)) pool.partitions partition_list))
            w
unfolding balance_partitions
length-balance_partitions is_active partition_list pool w size low =
    let n = pool.worker_max in
    let actives = gather_parts is_active pool.partitions partition_list in
    let clones = gather_parts (λ p. not (is_active p)) pool.partitions partition_list in
    let cleared = map (λ jobs. []) pool.jobs in
    let (first_size, first) =
      distribute-share n actives 0 cleared pool.worker_of w low
        (length-map pool.jobs (λ jobs. []) ∙ size) in
    let done = distribute n actives 0 (cleared, pool.worker_of) in
    let (second_size, second) = distribute-share n clones 0 done.0 done.1 w low first_size in
    let empty : length (jobs_of cleared w) ≡ 0 = ap length (no_jobs pool.jobs w) in
    let from_actives : share n (0 + length actives) w ≡ share n (length actives) w =
      ap (λ k. share n k w) (zero-add (length actives)) in
    let from_clones : share n (0 + length clones) w ≡ share n (length clones) w =
      ap (λ k. share n k w) (zero-add (length clones)) in
    omega (arith, first, second, empty, share-zero n w low, from_actives, from_clones)

-- After balancePartitions no worker has more than two partitions more than another.
pub balance_partitions-even :
    (is_active : ℕ → Bool) (partition_list : List ℕ) (pool : AsyncPool) (v w : ℕ)
    → length pool.jobs ≡ pool.worker_max
    → v < pool.worker_max
    → w < pool.worker_max
    → length (jobs_of (balance_partitions is_active partition_list pool).jobs v)
      ≤ length (jobs_of (balance_partitions is_active partition_list pool).jobs w) + 2
balance_partitions-even is_active partition_list pool v w size low_v low_w =
    let n = pool.worker_max in
    let actives = length (gather_parts is_active pool.partitions partition_list) in
    let clones = length (gather_parts (λ p. not (is_active p)) pool.partitions partition_list) in
    omega (
      arith,
      length-balance_partitions is_active partition_list pool v size low_v,
      length-balance_partitions is_active partition_list pool w size low_w,
      share_even n actives v w,
      share_even n clones v w,
    )
