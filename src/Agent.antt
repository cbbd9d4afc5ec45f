-- ===== src/Agent.antt =====
-- How an agent sums up its workers, `foldPhases` of internal/agent/agent.go. Only the values of the two
-- maps are read, in an order that Go leaves open: they are lists.
mod Folding
mod Workers
mod Telemetry
mod Tests
use load_wave.Prelude.{ℕ, suc, ◌+◌, ◌%◌, List, [], ◌∷◌, length, if◌then◌else◌, ltb, ◌==◌, word}
use load_wave.Coordinator.Phase.{Phase, failed, completed, aborted, pending, running}

-- The first loop, with `uint64` addition.
unfoldable pub total_iterations : ℕ → List ℕ → ℕ
total_iterations total [] = total
total_iterations total (n ∷ ns) = total_iterations ((total + n) % word) ns

-- The second loop: the workers that failed, and those that completed or were aborted.
unfoldable pub count_phases : ℕ → ℕ → List Phase → ℕ × ℕ
count_phases fails dones [] = (fails, dones)
count_phases fails dones (failed ∷ ps) = count_phases (suc fails) dones ps
count_phases fails dones (completed ∷ ps) = count_phases fails (suc dones) ps
count_phases fails dones (aborted ∷ ps) = count_phases fails (suc dones) ps
count_phases fails dones (_ ∷ ps) = count_phases fails dones ps

abbrev verdict : ℕ → ℕ × ℕ → Phase
verdict total (fails, dones) =
    if ltb 0 fails then failed else if dones == total then completed else running

unfoldable pub fold_phases : List Phase → List ℕ → Phase × ℕ
fold_phases phases iters = (
  (if length phases == 0 then pending else verdict (length phases) (count_phases 0 0 phases)),
  total_iterations 0 iters,
)
