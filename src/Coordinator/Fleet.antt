-- ===== src/Coordinator/Fleet.antt =====
-- How the coordinator shares a run out over its agents, internal/coordinator/coordinator.go:
-- `dispatch` and `rebalance`. A message that is sent to an agent is a value; what `Send` answers is a
-- parameter, `none` or the text of an error. `none` of a loop is a panic, an index out of range.
-- The sessions are those that are not closed, as `healthySessions` returns them.
mod Quotas
mod Bases
mod Resets
mod Scaling
mod Tests
use Prim.Native.String.{String, compare}
use mathlib.Core.Option.{map as option_map}
use text.Mathlib.Text.{◌==◌ as str_eq, is_lt}
use load_wave.Prelude.{
  uint_32, uint_64, ℕ, suc, ◌+◌, ◌-◌, ◌%◌, ltb, Bool, true, false, Option, none, some, List, [],
  ◌∷◌, map, length, if◌then◌else◌, ◌==◌, ◌||◌, ℤ, pos, negsuc,
}
use load_wave.Prelude.Assoc.{string_eq, find, put}
use load_wave.Apportion.{largest}
use load_wave.Idspace.{agent_base}
use load_wave.Coordinator.Phase.{is_terminal, phase_pending, phase_failed, phase_running}
use load_wave.Coordinator.Thresholds.{Floats}
use load_wave.Coordinator.Run.{Run, Participant, set_participants}

-- `control.Session`: the id, and the number of virtual users that the agent advertised.
pub record Session : Type 0 where
  pub id : String
  pub max_vus : ℕ

-- `LoadProfile` of proto/loadwave/v1/plan.proto, what sharing out reads of it.
pub record Load : Type 0 where
  pub max_iterations_per_second : ℕ
  pub iterations : ℕ

-- `StartRun` and `SetQuota` of proto/loadwave/v1/control.proto. The run's id, plan, start time and
-- number of workers are the run's own in every message.
pub data Order : Type 0 where
  start_run :
      (vu_quota iteration_rate_quota shard_index shard_count : ℕ) (vu_id_base : ℤ)
      (iteration_quota : ℕ)
      → Order
  set_quota : (vu_quota iteration_rate_quota : ℕ) (ramp : ℤ) → Order

-- `sort.Slice` by id. The ids differ, so every sort gives this list.
abbrev pub comes_before : Session → Session → Bool
comes_before s t = is_lt (compare s.id t.id)

unfoldable pub place : Session → List Session → List Session
place s [] = s ∷ []
place s (t ∷ ts) = if comes_before t s then t ∷ place s ts else s ∷ t ∷ ts

unfoldable pub sort_sessions : List Session → List Session
sort_sessions [] = []
sort_sessions (s ∷ ss) = place s (sort_sessions ss)

-- `max(1, int(session.Hello.GetMaxVus()))`
abbrev pub weight_of : Session → ℤ
weight_of s = pos (if ltb s.max_vus 1 then 1 else s.max_vus)

-- `min(load.GetIterations(), 1<<31)`
abbrev pub shared_iterations : Load → ℤ
shared_iterations l = pos (if ltb l.iterations 2147483648 then l.iterations else 2147483648)

abbrev pub part_of : Session → ℕ → ℤ → ℤ → String → String → Participant
part_of s i vus rate phase message = record {
  agent_id = s.id;
  vu_quota = vus;
  rate_quota = rate;
  shard_index = i % 4294967296;
  phase = phase;
  message = message;
  dispatched = true;
}

-- What a loop over the sessions leaves: the participants, the messages in their order with the agent
-- that each goes to, and the quotas that the coordinator holds of its agents.
pub record Dispatched : Type 0 where
  pub parts : List Participant
  pub orders : List (String × Order)
  pub quotas : List (String × ℤ)

abbrev pub with_part : Participant → String → Order → Dispatched → Dispatched
with_part p id o d = record d { parts = p ∷ d.parts; orders = (id, o) ∷ d.orders }

abbrev note_quota : Option String → String → ℤ → List (String × ℤ) → List (String × ℤ)
note_quota (some error) id vus quotas = quotas
note_quota none id vus quotas = elim (find id quotas) [
  | none ↦ quotas
  | some old ↦ put id vus quotas
]

abbrev phase_after : Option String → String
phase_after none = phase_pending
phase_after (some error) = phase_failed

abbrev pub message_of : Option String → String
message_of none = ""
message_of (some error) = error

-- The message of `dispatch` to the session at an index.
abbrev pub start_order : ℕ → ℕ → Load → ℤ → ℤ → ℤ → Order
start_order count i load vus rate iterations =
    start_run (uint_32 vus) (uint_32 rate) (i % 4294967296) (count % 4294967296)
      (agent_base (pos i)) (if ltb 0 load.iterations then uint_64 iterations else 0)

-- The message of `rebalance` to an agent that has the run, and to one that has not.
abbrev pub quota_order : Bool → ℕ → ℕ → ℤ → ℤ → ℤ → Order
quota_order true count i ramp vus rate = set_quota (uint_32 vus) (uint_32 rate) ramp
quota_order false count i ramp vus rate =
    start_run (uint_32 vus) (uint_32 rate) (i % 4294967296) (count % 4294967296)
      (agent_base (pos i)) 0

-- Whether an agent has the run.
abbrev pub known_to : List (String × Participant) → String → Bool
known_to participants id = elim (find id participants) [ none ↦ false | some p ↦ p.dispatched ]

-- The id base of a message that starts a run.
abbrev pub base_of : Order → Option ℤ
base_of (start_run vus rate i n base iterations) = some base
base_of (set_quota vus rate ramp) = none

module _ (send : String → Order → Option String) where
  -- The loop of `dispatch`, from an index on.
  unfoldable pub dispatch_from :
      ℕ → ℕ → Load → List Session → List ℤ → List ℤ → List ℤ → List (String × ℤ) → Option Dispatched
  dispatch_from count i load [] vus rates iters quotas =
      some record { parts = []; orders = []; quotas = quotas }
  dispatch_from count i load (s ∷ ss) (v ∷ vs) (r ∷ rs) (n ∷ ns) quotas =
      let order = start_order count i load v r n in
      let error = send s.id order in
      let part = part_of s i v r (phase_after error) (message_of error) in
      option_map (with_part part s.id order)
        (dispatch_from count (suc i) load ss vs rs ns (note_quota error s.id v quotas))
  dispatch_from count i load (s ∷ ss) _ _ _ quotas = none

  unfoldable pub dispatch : Load → ℤ → List Session → List (String × ℤ) → Option Dispatched
  unfolding sort_sessions
  dispatch load peak sessions quotas =
      let ss = sort_sessions sessions in
      let weights = map weight_of ss in
      dispatch_from (length ss) 0 load ss (largest peak weights)
        (largest (pos load.max_iterations_per_second) weights)
        (largest (shared_iterations load) weights) quotas

  -- The loop of `rebalance`, from an index on; `known` says which agents have the run.
  unfoldable pub rebalance_from :
      (String → Bool)
      → ℕ
      → ℕ
      → ℤ
      → List Session
      → List ℤ
      → List ℤ
      → Option (List Participant × List (String × Order))
  rebalance_from known count i ramp [] vus rates = some ([], [])
  rebalance_from known count i ramp (s ∷ ss) (v ∷ vs) (r ∷ rs) =
      let order = quota_order (known s.id) count i ramp v r in
      let part = part_of s i v r phase_running (message_of (send s.id order)) in
      option_map (λ rest. (part ∷ rest.0, (s.id, order) ∷ rest.1))
        (rebalance_from known count (suc i) ramp ss vs rs)
  rebalance_from known count i ramp (s ∷ ss) _ _ = none

  module _ (F : Floats) where
    -- `rebalance` of a run, with the sessions that are healthy: the messages and the run.
    unfoldable pub rebalance : Load → List Session → Run F → Option (List (String × Order) × Run F)
    unfolding sort_sessions
    rebalance load sessions r =
        if is_terminal r.phase || (length sessions == 0)
        then some ([], r)
        else let ss = sort_sessions sessions in
          let weights = map weight_of ss in
          option_map (λ done. (done.1, set_participants F done.0 (record r { scale_ramp = pos 0 })))
            (rebalance_from (known_to r.participants) (length ss) 0 r.scale_ramp ss
              (largest r.peak_vus weights) (largest (pos load.max_iterations_per_second) weights))
