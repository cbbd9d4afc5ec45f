-- ===== src/Agent/Telemetry/Tests.antt =====
-- Runs and instances for what an agent keeps of its workers.
use load_wave.Prelude.{ℕ, ◌≡◌, refl, true, none, [], ◌∷◌}
use load_wave.Agent.{fold_phases, total_iterations, count_phases}
use load_wave.Agent.Telemetry.{Agent, on_leave, on_run_status}
use load_wave.Coordinator.Phase.{failed, completed}
use load_wave.Registry.{Pointer, remove, new_registry}

abbrev session : Pointer
session = record { id = "w0"; serial = 1 }

-- An agent of one worker that has failed.
abbrev agent : Agent ℕ
agent = record {
  workers = record new_registry { sessions = ("w0", session) ∷ [] };
  run = none;
  vu_by_worker = ("w0", 5) ∷ [];
  active_vus = 5;
  stats_by_worker = [];
  worker_phase = ("w0", failed) ∷ [];
  worker_iters = [];
}

removes : (remove session agent.workers).1 ≡ true
unfolding remove
removes = refl

-- Once the worker that failed is gone, the next report is that the run completed, with its users still counted.
forgets_failure : (on_run_status "w1" "r" completed "" 3 (on_leave session agent)).1 ≡ record {
  run_id = "r";
  phase = completed;
  message = "";
  active_vus = 5;
  completed_iterations = 3;
}
unfolding on_run_status fold_phases on_leave remove total_iterations count_phases
forgets_failure = refl
