-- ===== src/Coordinator/History.antt =====
-- The runs that the coordinator knows, internal/coordinator/coordinator.go: `StartRun` where it holds the
-- lock, the eviction of finished runs, and the handling of what agents report of a run. A run is known by its
-- id, also where the code holds a pointer to it. Publishing to subscribers is left out.
mod Live
mod Single
mod Tests
use Prim.Native.String.{String}
use text.Mathlib.Text.{◌==◌ as str_eq}
use load_wave.Prelude.{
  ℕ, suc, ◌+◌, ◌-◌, Bool, true, false, ◌&&◌, not, Option, none, some, List, [], ◌∷◌, ◌++◌, length,
  drop, if◌then◌else◌, ltb, ℤ,
}
use load_wave.Prelude.Assoc.{string_eq, find, put, erase}
use load_wave.Coordinator.Phase.{Phase, running, failed, is_terminal, phase_name}
use load_wave.Coordinator.Run.{
  Run, Event, is_running, is_failed, set_phase, add_event, update_participant,
}
use load_wave.Coordinator.Thresholds.{Floats}

-- `RunStatusUpdate` of proto/loadwave/v1/control.proto, and the id of the session that sent it.
pub record RunStatus : Type 0 where
  pub session_id : String
  pub run_id : String
  pub phase : Phase
  pub message : String

-- `LogEvent` with its level.
pub data LogLevel : Type 0 where
  unspecified debug info warn error : LogLevel

pub record LogEvent : Type 0 where
  pub session_id : String
  pub time : Option ℕ
  pub level : LogLevel
  pub node_id : String
  pub run_id : String
  pub message : String
  pub fields : List (String × String)

-- `maxGlobalEvents`
abbrev pub max_global_events : ℕ
max_global_events = 500

-- Why `StartRun` refuses; the plan, the executor and the agents are looked at before the lock is taken.
pub data StartError : Type 0 where
  in_progress : String → StartError

abbrev pub error_event : RunStatus → Event
error_event u = record {
  time = none;
  level = "error";
  source = u.session_id;
  message = u.message;
  fields = [];
}

abbrev last_events : List Event → List Event
last_events es =
    if ltb max_global_events (length es) then drop (length es - max_global_events) es else es

abbrev stamped : ℕ → Event → Event
stamped now e = elim e.time [ none ↦ record e { time = some now } | some t ↦ e ]

abbrev level_name : LogLevel → String
level_name debug = "debug"
level_name warn = "warn"
level_name error = "error"
level_name _ = "info"

-- `AsTime` of no timestamp is the start of 1970.
abbrev as_time : Option ℕ → ℕ
as_time none = 0
as_time (some t) = t

abbrev pub entry : LogEvent → Event
entry e = record {
  time = some (as_time e.time);
  level = level_name e.level;
  source = if str_eq e.node_id "" then e.session_id else e.node_id;
  message = e.message;
  fields = e.fields;
}

module _ (F : Floats) where
  pub record History : Type 0 where
    pub runs : List (String × Run F)
    pub order : List String
    pub active : Option String
    pub events : List Event
    pub max_run_history : ℕ

  -- `Active` of the run of an id; a run that is not known is not active.
  abbrev pub is_live : Option (Run F) → Bool
  is_live none = false
  is_live (some r) = not (is_terminal r.phase)

  abbrev pub live : String → List (String × Run F) → Bool
  live id runs = is_live (find id runs)

  -- The loop of `trimHistoryLocked`: the runs, and the ids in the order of their starts.
  unfoldable pub trim_history :
      ℕ → List (String × Run F) → List String → List (String × Run F) × List String
  trim_history bound runs [] = (runs, [])
  trim_history bound runs (oldest ∷ order) =
      let rest = trim_history bound (erase oldest runs) order in
      if ltb bound (suc (length order))
      then (if live oldest runs then (runs, oldest ∷ order) else rest)
      else (runs, oldest ∷ order)

  abbrev pub active_id : History → Option String
  active_id h = elim h.active [ none ↦ none | some id ↦ if live id h.runs then some id else none ]

  abbrev pub entered : String → Run F → History → List (String × Run F) × List String → History
  entered id r h (runs, order) = record h { runs = runs; order = order; active = some id }

  -- What `StartRun` does under the lock, with the id and the record of the new run.
  unfoldable pub start_run : String → Run F → History → History × Option StartError
  start_run id r h = elim (active_id h) [
    | some other ↦ (h, some (in_progress other))
    | none ↦ (
      entered id r h (trim_history h.max_run_history (put id r h.runs) (h.order ++ id ∷ [])),
      none,
    )
  ]

  abbrev pub on_run : String → (Run F → Run F) → History → History
  on_run id f h = elim (find id h.runs) [
    | none ↦ h
    | some r ↦ record h { runs = put id (f r) h.runs }
  ]

  abbrev pub after_status : ℕ → RunStatus → Run F → Run F
  after_status now u r =
      let updated = update_participant F u.session_id (phase_name u.phase) u.message r in
      let moved = if is_running u.phase then (set_phase F now running "" updated).0 else updated in
      if is_failed u.phase then add_event F now (error_event u) moved else moved

  -- `OnRunStatus`
  unfoldable pub on_run_status : ℕ → RunStatus → History → History
  on_run_status now u h = on_run u.run_id (after_status now u) h

  -- `recordGlobal`
  unfoldable pub record_global : ℕ → Event → History → History
  record_global now e h = record h { events = last_events (h.events ++ stamped now e ∷ []) }

  -- `OnLog`
  unfoldable pub on_log : ℕ → LogEvent → History → History
  on_log now e h = elim (find e.run_id h.runs) [
    | none ↦ record_global now (entry e) h
    | some r ↦ record h { runs = put e.run_id (add_event F now (entry e) r) h.runs }
  ]

  -- `Runs`, newest first, as the records of the runs.
  abbrev with_run : Option (Run F) → List (Run F) → List (Run F)
  with_run none rest = rest
  with_run (some r) rest = rest ++ r ∷ []

  unfoldable pub newest_first : List (String × Run F) → List String → List (Run F)
  newest_first runs [] = []
  newest_first runs (id ∷ order) = with_run (find id runs) (newest_first runs order)
