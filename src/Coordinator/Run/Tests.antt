-- ===== src/Coordinator/Run/Tests.antt =====
-- Runs and instances for internal/coordinator/run.go.
use load_wave.Prelude.{ℕ, ◌≡◌, refl, true, false, none, some, List, [], ◌∷◌, pos}
use load_wave.Coordinator.Phase.{Phase}
use load_wave.Coordinator.Thresholds.{Floats, ThresholdResult, any_breached}
use load_wave.Coordinator.Run.{
  Run, Event, new_run, set_phase, add_event, set_thresholds, Operation, set_phase_op, add_event_op,
  set_thresholds_op, step, steps,
}
use load_wave.Coordinator.Run.Lifecycle.{
  IsCoherent, new_run-IsCoherent, steps-IsCoherent, terminal_final,
}

abbrev bare : Floats
bare = record {
  Float = ℕ;
  zero_float = 0;
  of_uint64 = λ n. n;
  is_nan = λ _. false;
  lt_float = λ _ _. false;
  le_float = λ _ _. true;
  format_g = λ _. "";
}

abbrev failing : ThresholdResult bare
failing = record {
  metric = "m";
  stat = "max";
  op = "<";
  value = 1;
  actual = 2;
  evaluated = true;
  passed = false;
  abort_on_fail = true;
  description = "m max < 1";
}

abbrev note : Event
note = record { time = none; level = "info"; source = "s"; message = "m"; fields = [] }

abbrev life : List (Operation bare)
life =
    set_phase_op 5 Phase.running ""
    ∷ add_event_op 6 note
    ∷ set_thresholds_op (failing ∷ [])
    ∷ set_phase_op 7 Phase.aborted "why"
    ∷ set_phase_op 8 Phase.completed "late"
    ∷ []

life_ends :
    ((steps bare life (new_run bare 1 (pos 2))).phase ≡ Phase.aborted)
    × ((steps bare life (new_run bare 1 (pos 2))).stop_why ≡ "why")
    × ((steps bare life (new_run bare 1 (pos 2))).started_at ≡ some 5)
    × ((steps bare life (new_run bare 1 (pos 2))).breached ≡ true)
unfolding steps step set_phase add_event set_thresholds any_breached new_run
life_ends = (refl, refl, refl, refl)

steps-IsCoherent_example : IsCoherent bare (steps bare life (new_run bare 1 (pos 2)))
steps-IsCoherent_example =
    steps-IsCoherent bare life (new_run bare 1 (pos 2)) (new_run-IsCoherent bare 1 (pos 2))

abbrev over : Run bare
over = record {
  phase = Phase.completed;
  created_at = some 1;
  start_at = none;
  started_at = some 2;
  stopping_at = none;
  ended_at = some 9;
  stop_why = "done";
  failure = "";
  peak_vus = pos 3;
  scale_ramp = pos 0;
  participants = [];
  events = [];
  thresholds = [];
  breached = false;
}

terminal_final_example :
    ((steps bare life over).phase ≡ Phase.completed)
    × ((steps bare life over).started_at ≡ some 2)
    × ((steps bare life over).stopping_at ≡ none)
    × ((steps bare life over).ended_at ≡ some 9)
    × ((steps bare life over).stop_why ≡ "done")
    × ((steps bare life over).failure ≡ "")
terminal_final_example = terminal_final bare life over refl
