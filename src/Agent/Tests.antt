-- ===== src/Agent/Tests.antt =====
-- Workers and instances for `foldPhases` of internal/agent/agent.go.
use Prim.Native.String.{String}
use load_wave.Agent.Workers.{RunState, WorkerOrder, sort_ids, rebalance_workers}
use load_wave.Agent.Workers.Unlimited.{has_unlimited, receiver, rebalance_workers-unlimited}
use load_wave.Prelude.{map, some, pos, arith, ◌≡◌, refl, true, List, [], ◌∷◌}
use load_wave.Coordinator.Phase.{Phase, failed, completed, aborted, running}
use load_wave.Agent.{fold_phases, count_phases, total_iterations}

abbrev workers : List Phase
workers = completed ∷ aborted ∷ completed ∷ []

fold_runs : fold_phases (running ∷ failed ∷ []) (3 ∷ 4 ∷ []) ≡ (failed, 7)
unfolding fold_phases count_phases total_iterations
fold_runs = refl

-- One iteration for two workers.
abbrev one_iteration : RunState
one_iteration = record {
  vu_quota = pos 10;
  rate_quota = pos 0;
  iteration_quota = 1;
  vu_id_base = pos 0;
  ramp = pos 0;
  dispatched = [];
}

rebalance_workers-unlimited_example :
    (os : List (String × WorkerOrder)) × (r' : RunState) × (rebalance_workers
        ("w1" ∷ "w0" ∷ [])
        one_iteration
      ≡ some (os, r'))
    × (map receiver os ≡ sort_ids ("w1" ∷ "w0" ∷ []))
    × (has_unlimited os ≡ true)
rebalance_workers-unlimited_example =
    rebalance_workers-unlimited ("w1" ∷ "w0" ∷ []) one_iteration refl (omega arith) (omega arith)
      (omega arith) (omega arith)
