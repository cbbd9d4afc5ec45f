-- ===== src/Agent/Workers.antt =====
-- How an agent shares a run out over its workers, `rebalance` of internal/agent/agent.go. A worker is
-- the id of its session, and what is sent is a value; whether a worker can be reached is not modelled,
-- as the agent only logs it.
pub mod Unlimited
use Prim.Native.String.{String, compare}
use text.Mathlib.Text.{◌==◌ as str_eq, is_lt}
use load_wave.Prelude.{
  ℕ, suc, ◌+◌, Bool, true, false, Option, none, some, List, [], ◌∷◌, length, replicate,
  if◌then◌else◌, ltb, ◌==◌, ℤ, pos, uint_32, uint_64,
}
use load_wave.Apportion.{largest}
use load_wave.Idspace.{worker_base}

-- What `runState` has of a run for the sharing.
pub record RunState : Type 0 where
  pub vu_quota : ℤ
  pub rate_quota : ℤ
  pub iteration_quota : ℕ
  pub vu_id_base : ℤ
  pub ramp : ℤ
  pub dispatched : List String

-- `StartRun` and `SetQuota` as the agent sends them.
pub data WorkerOrder : Type 0 where
  start_worker : (vu_quota rate_quota iteration_quota : ℕ) → (vu_id_base : ℤ) → WorkerOrder
  set_worker_quota : (vu_quota rate_quota : ℕ) → (ramp : ℤ) → WorkerOrder

-- The sort by id.
unfoldable pub place_id : String → List String → List String
place_id j [] = j ∷ []
place_id j (k ∷ ks) =
    let rest = place_id j ks in if is_lt (compare k j) then k ∷ rest else j ∷ k ∷ ks

unfoldable pub sort_ids : List String → List String
sort_ids [] = []
sort_ids (k ∷ ks) = place_id k (sort_ids ks)

abbrev pub was_sent : String → List String → Bool
was_sent k [] = false
was_sent k (j ∷ js) = if str_eq j k then true else was_sent k js

abbrev pub worker_order : ℕ → RunState → String → ℤ → ℤ → ℤ → WorkerOrder
worker_order i r id vu rate iterations =
    if was_sent id r.dispatched
    then set_worker_quota (uint_32 vu) (uint_32 rate) r.ramp
    else start_worker (uint_32 vu) (uint_32 rate)
        (if ltb 0 r.iteration_quota then uint_64 iterations else 0)
        (worker_base r.vu_id_base (pos i))

abbrev with_order :
    String
    → WorkerOrder
    → Option (List (String × WorkerOrder))
    → Option (List (String × WorkerOrder))
with_order id o none = none
with_order id o (some os) = some ((id, o) ∷ os)

-- The loop over the sessions; `none` is an index out of range.
unfoldable pub order_from :
    ℕ → RunState → List String → List ℤ → List ℤ → List ℤ → Option (List (String × WorkerOrder))
order_from i r [] vus rates iterations = some []
order_from i r (id ∷ ids) (v ∷ vus) (q ∷ rates) (n ∷ iterations) =
    with_order id (worker_order i r id v q n) (order_from (suc i) r ids vus rates iterations)
order_from i r (id ∷ ids) _ _ _ = none

abbrev pub now_sent : List String → List String → List String
now_sent [] sent = sent
now_sent (k ∷ ks) sent = if was_sent k sent then now_sent ks sent else now_sent ks (k ∷ sent)

-- `1<<31`
abbrev pub most_iterations : ℕ
most_iterations = 2147483648

abbrev pub shared_quota : ℕ → ℤ
shared_quota quota = if ltb most_iterations quota then pos most_iterations else pos quota

abbrev sent_to :
    List String
    → RunState
    → Option (List (String × WorkerOrder))
    → Option (List (String × WorkerOrder) × RunState)
sent_to ids r none = none
sent_to ids r (some os) =
    some (os, record r { dispatched = now_sent ids r.dispatched; ramp = pos 0 })

abbrev shared_over : List String → RunState → Option (List (String × WorkerOrder) × RunState)
shared_over ids r =
    let ones = replicate (length ids) (pos 1) in
    sent_to ids r (
      order_from 0 r ids (largest r.vu_quota ones) (largest r.rate_quota ones)
        (largest (shared_quota r.iteration_quota) ones))

-- `rebalance`, for the ids of the workers that are connected and a run that is there.
unfoldable pub rebalance_workers :
    List String → RunState → Option (List (String × WorkerOrder) × RunState)
rebalance_workers ids r = if length ids == 0 then some ([], r) else shared_over (sort_ids ids) r
