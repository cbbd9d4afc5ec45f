-- ===== src/Agent/Telemetry.antt =====
-- What an agent keeps of its run and of its workers, internal/agent/agent.go: `OnStartRun` and `OnSetQuota` up
-- to the work that they hand on, and what a worker's session tells. Each lock is held by one step at a time.
-- Resource figures are of a type `D`. Starting and stopping processes is not modelled.
mod Leaving
mod Tests
use Prim.Native.String.{String}
use text.Mathlib.Text.{◌==◌ as str_eq}
use load_wave.Prelude.{
  ℕ, ◌+◌, ◌%◌, Bool, true, false, Option, none, some, List, [], ◌∷◌, if◌then◌else◌, ltb, ◌==◌, ℤ,
  pos,
}
use load_wave.Prelude.Assoc.{string_eq, find, put, erase, total}
use load_wave.Agent.Workers.{RunState}
use load_wave.Agent.{fold_phases}
use load_wave.Coordinator.Phase.{Phase}
use load_wave.Registry.{Pointer, Registry, add, remove}

pub record ActiveRun : Type 0 where
  pub id : String
  pub state : RunState

pub record Agent (D : Type 0) : Type 0 where
  pub workers : Registry
  pub run : Option ActiveRun
  pub vu_by_worker : List (String × ℕ)
  pub active_vus : ℕ
  pub stats_by_worker : List (String × D)
  pub worker_phase : List (String × Phase)
  pub worker_iters : List (String × ℕ)

-- `StartRun` of proto/loadwave/v1/control.proto, what the agent reads of it.
pub record StartOrder : Type 0 where
  pub run_id : String
  pub workers_per_agent : ℕ
  pub vu_quota : ℕ
  pub iteration_rate_quota : ℕ
  pub iteration_quota : ℕ
  pub vu_id_base : ℤ

pub record QuotaOrder : Type 0 where
  pub run_id : String
  pub vu_quota : ℕ
  pub iteration_rate_quota : ℕ
  pub ramp : ℤ

-- The number of workers of a run, on what the agent is configured for.
abbrev at_most : ℕ → ℕ → ℕ
at_most bound n = if ltb bound n then bound else n

unfoldable pub worker_count : ℕ → ℕ → ℕ
worker_count configured asked =
    let wanted = if asked == 0 then configured else asked in
    let n = at_most configured wanted in if ltb n 1 then 1 else n

abbrev run_of : StartOrder → ActiveRun
run_of o = record {
  id = o.run_id;
  state = record {
    vu_quota = pos o.vu_quota;
    rate_quota = pos o.iteration_rate_quota;
    iteration_quota = o.iteration_quota;
    vu_id_base = o.vu_id_base;
    ramp = pos 0;
    dispatched = [];
  };
}

abbrev pub without : String → List String → List String
without id [] = []
without id (j ∷ js) = let rest = without id js in if str_eq j id then rest else j ∷ rest

abbrev forgotten : String → Option ActiveRun → Option ActiveRun
forgotten id none = none
forgotten id (some r) =
    some (record r { state = record r.state { dispatched = without id r.state.dispatched } })

abbrev values {ℓ} : {A : Type ℓ} → List (String × A) → List A
values [] = []
values ((k, v) ∷ m) = v ∷ values m

-- The sum of the counts, as an `int64` of numbers of 32 bits.
abbrev pub counted : List (String × ℕ) → ℕ
counted m = total (λ n. n) m

abbrev quota_of : QuotaOrder → ActiveRun → ActiveRun
quota_of o r = record r {
  state = record r.state {
    vu_quota = pos o.vu_quota;
    rate_quota = pos o.iteration_rate_quota;
    ramp = o.ramp;
  };
}

-- What the agent sends upstream.
pub record Status : Type 0 where
  pub run_id : String
  pub phase : Phase
  pub message : String
  pub active_vus : ℕ
  pub completed_iterations : ℕ

abbrev iterations_of : String → ℕ → List (String × ℕ) → List (String × ℕ)
iterations_of id n m = if ltb 0 n then put id n m else m

abbrev status_of : String → String → ℕ → Phase × ℕ → Status
status_of run_id message vus (phase, iterations) = record {
  run_id = run_id;
  phase = phase;
  message = message;
  active_vus = vus % 4294967296;
  completed_iterations = iterations;
}

module _ {D : Type 0} where
  -- `OnStartRun`, after the run before it was stopped.
  unfoldable pub on_start_run : StartOrder → Agent D → Agent D
  on_start_run o a = record a { run = some (run_of o); worker_phase = []; worker_iters = [] }

  -- `OnSetQuota` before it rebalances; `none` is its error.
  unfoldable pub on_set_quota : QuotaOrder → Agent D → Option (Agent D)
  on_set_quota o a = elim a.run [
    | none ↦ none
    | some r ↦ if str_eq r.id o.run_id then some (record a { run = some (quota_of o r) }) else none
  ]

  -- `OnJoin`; its answer is whether a rebalancing follows.
  unfoldable pub on_join : Pointer → Agent D → Agent D × Bool
  on_join s a =
      (record a { workers = (add s a.workers).0 }, elim a.run [ none ↦ false | some r ↦ true ])

  abbrev pub left : Pointer → Agent D → Registry × Bool → Agent D
  left s a (workers, false) = record a { workers = workers }
  left s a (workers, true) = record a {
    workers = workers;
    run = forgotten s.id a.run;
    vu_by_worker = erase s.id a.vu_by_worker;
    stats_by_worker = erase s.id a.stats_by_worker;
    worker_phase = erase s.id a.worker_phase;
  }

  -- `OnLeave`
  unfoldable pub on_leave : Pointer → Agent D → Agent D
  on_leave s a = left s a (remove s a.workers)

  -- `OnHeartbeat`, with the number of virtual users that the worker reports and its figures.
  unfoldable pub on_heartbeat : String → ℕ → D → Agent D → Agent D
  on_heartbeat id vus usage a =
      let vu_by_worker = put id vus a.vu_by_worker in
      record a {
        vu_by_worker = vu_by_worker;
        active_vus = counted vu_by_worker;
        stats_by_worker = put id usage a.stats_by_worker;
      }

  -- `OnRunStatus`, for what a worker reports of a run.
  unfoldable pub on_run_status : String → String → Phase → String → ℕ → Agent D → Agent D × Status
  on_run_status id run_id phase message completed a =
      let phases = put id phase a.worker_phase in
      let iters = iterations_of id completed a.worker_iters in
      (
        record a { worker_phase = phases; worker_iters = iters },
        status_of run_id message a.active_vus (fold_phases (values phases) (values iters)),
      )
