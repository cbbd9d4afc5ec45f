-- ===== src/Coordinator/Run.antt =====
-- The coordinator's record of one execution, internal/coordinator/run.go. A method that mutates the
-- run returns the new record; each is one step, since the code holds the run's lock throughout. A
-- time is a number of nanoseconds, and `none` is Go's zero time. The map of participants is an
-- association list.
pub mod Lifecycle
mod Events
mod Breach
mod Tests
use Prim.Native.String.{String}
use text.Mathlib.Text.{◌==◌ as str_eq}
use load_wave.Prelude.{
  ℕ, ◌-◌, ◌+◌, Bool, true, false, not, ◌&&◌, Option, none, some, List, [], ◌∷◌, ◌++◌, length, drop,
  if◌then◌else◌, ltb, ℤ, pos, is_pos,
}
use load_wave.Coordinator.Phase.{
  Phase, pending, running, stopping, failed, is_terminal, phase_pending,
}
use load_wave.Coordinator.Thresholds.{Floats, ThresholdResult, any_breached, is_breach}

pub record Event : Type 0 where
  pub time : Option ℕ
  pub level : String
  pub source : String
  pub message : String
  pub fields : List (String × String)

pub record Participant : Type 0 where
  pub agent_id : String
  pub vu_quota : ℤ
  pub rate_quota : ℤ
  pub shard_index : ℕ
  pub phase : String
  pub message : String
  pub dispatched : Bool

-- `maxRunEvents`
abbrev pub max_run_events : ℕ
max_run_events = 500

-- `defaultGraceBudget`, in nanoseconds
abbrev pub default_grace_budget : ℤ
default_grace_budget = pos 30000000000

abbrev pub is_zero_time : Option ℕ → Bool
is_zero_time none = true
is_zero_time (some _) = false

abbrev pub is_running : Phase → Bool
is_running Phase.running = true
is_running _ = false

abbrev pub is_stopping : Phase → Bool
is_stopping Phase.stopping = true
is_stopping _ = false

abbrev pub is_failed : Phase → Bool
is_failed Phase.failed = true
is_failed _ = false

module _ (F : Floats) where
  -- The fields that methods change. The identity, the plan and the metric store are fixed.
  pub record Run : Type 0 where
    pub phase : Phase
    pub created_at : Option ℕ
    pub start_at : Option ℕ
    pub started_at : Option ℕ
    pub stopping_at : Option ℕ
    pub ended_at : Option ℕ
    pub stop_why : String
    pub failure : String
    pub peak_vus : ℤ
    pub scale_ramp : ℤ
    pub participants : List (String × Participant)
    pub events : List Event
    pub thresholds : List (ThresholdResult F)
    pub breached : Bool

  unfoldable pub new_run : ℕ → ℤ → Run
  new_run now peak = record {
    phase = pending;
    created_at = some now;
    start_at = none;
    started_at = none;
    stopping_at = none;
    ended_at = none;
    stop_why = "";
    failure = "";
    peak_vus = peak;
    scale_ramp = pos 0;
    participants = [];
    events = [];
    thresholds = [];
    breached = false;
  }

  -- `switch` of `setPhase`, on the run whose phase is already the new one.
  abbrev stamp : ℕ → Phase → String → Run → Run
  stamp now p reason r =
      if is_running p && is_zero_time r.started_at
      then record r { started_at = some now }
      else if is_stopping p && is_zero_time r.stopping_at
      then record r { stopping_at = some now }
      else if is_terminal p
      then record r {
        ended_at = some now;
        stop_why = reason;
        failure = if is_failed p then reason else r.failure;
      }
      else r

  unfoldable pub set_phase : ℕ → Phase → String → Run → Run × Bool
  set_phase now p reason r =
      if is_terminal r.phase
      then (r, false)
      else (stamp now p reason (record r { phase = p }), true)

  -- The oldest entries beyond the bound are dropped.
  abbrev trim : List Event → List Event
  trim es = if ltb max_run_events (length es) then drop (length es - max_run_events) es else es

  abbrev timed : ℕ → Event → Event
  timed now e = if is_zero_time e.time then record e { time = some now } else e

  unfoldable pub add_event : ℕ → Event → Run → Run
  add_event now e r = record r { events = trim (r.events ++ timed now e ∷ []) }

  abbrev pub put_participant :
      String → Participant → List (String × Participant) → List (String × Participant)
  put_participant k p [] = (k, p) ∷ []
  put_participant k p ((j, q) ∷ m) =
      if str_eq j k then (k, p) ∷ m else (j, q) ∷ put_participant k p m

  abbrev pub get_participant : String → List (String × Participant) → Option Participant
  get_participant k [] = none
  get_participant k ((j, q) ∷ m) = if str_eq j k then some q else get_participant k m

  abbrev pub by_agent : List (String × Participant) → List Participant → List (String × Participant)
  by_agent m [] = m
  by_agent m (p ∷ ps) = by_agent (put_participant p.agent_id p m) ps

  unfoldable pub set_participants : List Participant → Run → Run
  set_participants parts r = record r { participants = by_agent [] parts }

  abbrev newcomer : String → Participant
  newcomer id = record {
    agent_id = id;
    vu_quota = pos 0;
    rate_quota = pos 0;
    shard_index = 0;
    phase = "";
    message = "";
    dispatched = false;
  }

  abbrev known_or_new : String → Option Participant → Participant
  known_or_new id none = newcomer id
  known_or_new id (some p) = p

  unfoldable pub update_participant : String → String → String → Run → Run
  update_participant id p message r =
      let entry = known_or_new id (get_participant id r.participants) in
      record r {
        participants =
            put_participant id (record entry { phase = p; message = message }) r.participants;
      }

  unfoldable pub set_thresholds : List (ThresholdResult F) → Run → Run
  unfolding any_breached
  set_thresholds results r = record r {
    thresholds = results;
    breached = if any_breached F results then true else r.breached;
  }

  -- `ScaleRun` of internal/coordinator/coordinator.go, the assignments under the run's lock.
  unfoldable pub set_scale : ℤ → ℤ → Run → Run
  set_scale peak ramp r = record r { peak_vus = peak; scale_ramp = ramp }

  -- `StoppingFor`, 0 if the run has not been asked to stop.
  unfoldable pub stopping_for : ℕ → Run → ℕ
  stopping_for now r = elim r.stopping_at [ none ↦ 0 | some t ↦ now - t ]

  -- The methods that mutate a run, each with the moment at which it reads the clock.
  pub data Operation : Type 0 where
    set_phase_op : ℕ → Phase → String → Operation
    add_event_op : ℕ → Event → Operation
    set_participants_op : List Participant → Operation
    update_participant_op : String → String → String → Operation
    set_thresholds_op : List (ThresholdResult F) → Operation
    set_scale_op : ℤ → ℤ → Operation

  unfoldable pub step : Operation → Run → Run
  step (set_phase_op now p reason) r = (set_phase now p reason r).0
  step (add_event_op now e) r = add_event now e r
  step (set_participants_op parts) r = set_participants parts r
  step (update_participant_op id p message) r = update_participant id p message r
  step (set_thresholds_op results) r = set_thresholds results r
  step (set_scale_op peak ramp) r = set_scale peak ramp r

  unfoldable pub steps : List Operation → Run → Run
  steps [] r = r
  steps (o ∷ os) r = steps os (step o r)

-- `GraceBudget`, on the plan's graceful stop.
unfoldable pub grace_budget : ℤ → ℤ
grace_budget grace = if is_pos grace then grace else default_grace_budget
