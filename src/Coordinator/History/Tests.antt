-- ===== src/Coordinator/History/Tests.antt =====
-- Runs and instances for the runs that the coordinator knows.
use Prim.Native.String.{String}
use load_wave.Prelude.{ℕ, ◌≡◌, refl, true, false, List, [], ◌∷◌, pos}
use load_wave.Coordinator.History.Single.{
  Step, start_step, phase_step, status_step, steps, no_runs, steps-single,
}
use load_wave.Coordinator.History.{live, start_run, on_run_status, trim_history}
use load_wave.Coordinator.Phase.{failed, completed}
use load_wave.Coordinator.Run.{new_run, add_event, update_participant, set_phase}
use load_wave.Coordinator.Thresholds.{Floats}

abbrev plain : Floats
plain = record {
  Float = ℕ;
  zero_float = 0;
  of_uint64 = λ n. n;
  is_nan = λ _. false;
  lt_float = λ _ _. false;
  le_float = λ _ _. true;
  format_g = λ _. "";
}

-- The second start is refused, as the failure of one agent does not end the run; the third is not.
abbrev starts : List (Step plain)
starts =
    start_step "a" (new_run plain 1 (pos 2))
    ∷ status_step 5 (record { session_id = "s"; run_id = "a"; phase = failed; message = "why" })
    ∷ start_step "b" (new_run plain 6 (pos 2))
    ∷ phase_step 7 "a" completed "done"
    ∷ start_step "c" (new_run plain 8 (pos 2))
    ∷ []

third_is_live : live plain "c" (steps plain starts (no_runs plain 5)).runs ≡ true
unfolding steps start_run on_run_status trim_history add_event update_participant set_phase new_run
third_is_live = refl

steps-single_example : ◌≡◌ {A = String} "c" "c"
steps-single_example = steps-single plain starts 5 "c" "c" third_is_live third_is_live
