-- ===== src/Agent/Workers/Unlimited.antt =====
-- The shares of the iterations, internal/agent/agent.go.
use Prim.Native.String.{String}
use load_wave.Prelude.{
  ℕ, zero, suc, ◌*◌, ◌≤◌, ◌<◌, ◌≡◌, refl, ap, ◌∙◌, Bool, true, false, ◌||◌, some, List, [], ◌∷◌,
  length, length-replicate, map, length-map, replicate, sum, ◌==◌, ℤ, pos, int64_end, arith,
}
use load_wave.Apportion.{largest}
use load_wave.Apportion.Exact.{weights_of}
use load_wave.Apportion.Shares.{IsFair, largest_total}
use load_wave.Apportion.Lengths.{length-largest}
use load_wave.Agent.Workers.{
  RunState, WorkerOrder, start_worker, set_worker_quota, worker_order, order_from, place_id,
  sort_ids, shared_quota, now_sent, rebalance_workers,
}

-- Whether a worker is started without a limit on its iterations, which the engine takes 0 for.
pub has_unlimited : List (String × WorkerOrder) → Bool
has_unlimited [] = false
has_unlimited ((id, start_worker vu rate iterations base) ∷ os) =
    (iterations == 0) || has_unlimited os
has_unlimited ((id, set_worker_quota vu rate ramp) ∷ os) = has_unlimited os

-- The worker that an order goes to.
abbrev pub receiver : String × WorkerOrder → String
receiver (id, order) = id

order_from-some :
    (i : ℕ) (r : RunState) (ids : List String) (vus rates iterations : List ℤ)
    → length vus ≡ length ids
    → length rates ≡ length ids
    → length iterations ≡ length ids
    → (os : List (String × WorkerOrder)) × (order_from i r ids vus rates iterations ≡ some os)
      × (map receiver os ≡ ids)
unfolding order_from
order_from-some i r [] vus rates ns a b c = ([], refl, refl)
order_from-some i r (id ∷ ids) [] rates ns a b c = absurd (omega arith)
order_from-some i r (id ∷ ids) (v ∷ vus) [] ns a b c = absurd (omega arith)
order_from-some i r (id ∷ ids) (v ∷ vus) (q ∷ rates) [] a b c = absurd (omega arith)
order_from-some i r (id ∷ ids) (v ∷ vus) (q ∷ rates) (n ∷ ns) a b c =
    let (os, e, to) =
      order_from-some (suc i) r ids vus rates ns (omega arith) (omega arith) (omega arith) in
    ((id, worker_order i r id v q n) ∷ os, ground (arith, e), ap (◌∷◌ id) to)

order_from-unlimited :
    (i : ℕ) (r : RunState) (ids : List String) (vus rates : List ℤ) (ns : List ℕ)
    → r.dispatched ≡ []
    → 0 < r.iteration_quota
    → length vus ≡ length ids
    → length rates ≡ length ids
    → length ns ≡ length ids
    → sum ns < length ids
    → (os : List (String × WorkerOrder)) × (order_from i r ids vus rates (map pos ns) ≡ some os)
      × (has_unlimited os ≡ true)
      × (map receiver os ≡ ids)
unfolding order_from has_unlimited
order_from-unlimited i r [] vus rates ns d q a b c h = absurd (omega arith)
order_from-unlimited i r (id ∷ ids) [] rates ns d q a b c h = absurd (omega arith)
order_from-unlimited i r (id ∷ ids) (v ∷ vus) [] ns d q a b c h = absurd (omega arith)
order_from-unlimited i r (id ∷ ids) (v ∷ vus) (w ∷ rates) [] d q a b c h = absurd (omega arith)
order_from-unlimited i r (id ∷ ids) (v ∷ vus) (w ∷ rates) (zero ∷ ns) d q a b c h =
    let (os, e, to) =
      order_from-some (suc i) r ids vus rates (map pos ns) (omega arith) (omega arith)
        (omega (arith, length-map ns pos)) in
    (
      (id, worker_order i r id v w (pos 0)) ∷ os,
      ground (arith, e),
      ground (arith, d, q),
      ap (◌∷◌ id) to,
    )
order_from-unlimited i r (id ∷ ids) (v ∷ vus) (w ∷ rates) (suc n ∷ ns) d q a b c h =
    let (os, e, u, to) =
      order_from-unlimited (suc i) r ids vus rates ns d q (omega arith) (omega arith) (omega arith)
        (omega arith) in
    (
      (id, worker_order i r id v w (pos (suc n))) ∷ os,
      ground (arith, e),
      ground (arith, d, q, u),
      ap (◌∷◌ id) to,
    )

length-place_id : (k : String) (js : List String) → length (place_id k js) ≡ suc (length js)
unfolding place_id
length-place_id k [] = refl
length-place_id k (j ∷ js) = ground (arith, length-place_id k js)

length-sort_ids : (ids : List String) → length (sort_ids ids) ≡ length ids
unfolding sort_ids
length-sort_ids [] = refl
length-sort_ids (k ∷ ks) = omega (arith, length-place_id k (sort_ids ks), length-sort_ids ks)

sum-ones : (n : ℕ) → sum (weights_of (replicate n (pos 1))) ≡ n
sum-ones zero = refl
sum-ones (suc n) = omega (arith, sum-ones n)

-- An agent that shares out fewer iterations than it has workers, none of which it has started yet,
-- sends one message to each, in the order of their ids, and starts one of them without any limit on its
-- iterations. The workers are at most 2 ^ 31, and their number times that of the iterations fits `int64`.
pub rebalance_workers-unlimited :
    (ids : List String) (r : RunState)
    → r.dispatched ≡ []
    → 0 < r.iteration_quota
    → r.iteration_quota < length ids
    → length ids ≤ 2147483648
    → r.iteration_quota * length ids < int64_end
    → (os : List (String × WorkerOrder)) × (r' : RunState) × (rebalance_workers ids r
        ≡ some (os, r'))
      × (map receiver os ≡ sort_ids ids)
      × (has_unlimited os ≡ true)
unfolding rebalance_workers
rebalance_workers-unlimited ids r none_sent some_quota few most fits =
    let sorted = sort_ids ids in
    let as_many = length-sort_ids ids in
    let ones = replicate (length sorted) (pos 1) in
    let shared : shared_quota r.iteration_quota ≡ pos r.iteration_quota =
      ground (arith, few, most) in
    let weight : sum (weights_of ones) ≡ length ids = sum-ones (length sorted) ∙ as_many in
    let fair : IsFair r.iteration_quota ones = record {
      some_total = some_quota;
      some_weight = omega (arith, weight, few);
      fits = rw weight fits;
    } in
    let (ns, shares, count, total) = largest_total r.iteration_quota ones fair in
    let many = length-replicate (length sorted) (pos 1) in
    let (os, e, u, to) =
      order_from-unlimited 0 r sorted (largest r.vu_quota ones) (largest r.rate_quota ones) ns
        none_sent some_quota (length-largest r.vu_quota ones ∙ many)
        (length-largest r.rate_quota ones ∙ many) (count ∙ many)
        (omega (arith, total, few, as_many)) in
    let not_empty : (length ids == 0) ≡ false = ground (arith, few) in
    (
      os,
      record r { dispatched = now_sent sorted r.dispatched; ramp = pos 0 },
      rw (not_empty, shared, shares, e),
      to,
      u,
    )
