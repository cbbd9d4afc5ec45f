-- ===== src/Idspace/Tests.antt =====
-- Runs and instances for internal/idspace/idspace.go.
use load_wave.Prelude.{◌≡◌, refl, pos, negsuc, wrap}
use load_wave.Idspace.{agent_base, worker_base}
use load_wave.Idspace.Blocks.{negative_index}

worker_runs : worker_base (agent_base (pos 2)) (pos 103) ≡ pos 20300000
unfolding worker_base agent_base wrap
worker_runs = refl

negative_index_example :
    (agent_base (negsuc 4) ≡ agent_base (pos 0))
    × (worker_base (pos 10000000) (negsuc 4) ≡ worker_base (pos 10000000) (pos 0))
negative_index_example = negative_index 4 (pos 10000000)
