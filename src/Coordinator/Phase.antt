-- ===== src/Coordinator/Phase.antt =====
-- The phases of a run, internal/coordinator/run.go. `Phase` is the enum of
-- proto/loadwave/v1/control.proto.
use Prim.Native.String.{String}
use load_wave.Prelude.{Bool, true, false}

pub data Phase : Type 0 where
  unspecified pending starting running stopping completed failed aborted : Phase

-- The names of the API.
abbrev pub phase_pending : String
phase_pending = "pending"

abbrev pub phase_starting : String
phase_starting = "starting"

abbrev pub phase_running : String
phase_running = "running"

abbrev pub phase_stopping : String
phase_stopping = "stopping"

abbrev pub phase_completed : String
phase_completed = "completed"

abbrev pub phase_failed : String
phase_failed = "failed"

abbrev pub phase_aborted : String
phase_aborted = "aborted"

-- A phase that the table `phaseNames` does not hold reads "pending".
abbrev pub phase_name : Phase → String
phase_name unspecified = phase_pending
phase_name pending = phase_pending
phase_name starting = phase_starting
phase_name running = phase_running
phase_name stopping = phase_stopping
phase_name completed = phase_completed
phase_name failed = phase_failed
phase_name aborted = phase_aborted

abbrev pub is_terminal : Phase → Bool
is_terminal completed = true
is_terminal failed = true
is_terminal aborted = true
is_terminal _ = false
