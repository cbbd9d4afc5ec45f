-- ===== src/Idspace.antt =====
-- internal/idspace/idspace.go: the static partition of the virtual user ids, over `int64` with its
-- wrap-around.
pub mod Blocks
mod Tests
use load_wave.Prelude.{if◌then◌else◌, ltb_ℤ, ℤ, pos, ◌+ℤ◌, ◌*ℤ◌, rem, wrap}

abbrev pub per_worker : ℤ
per_worker = pos 100000

abbrev pub per_agent : ℤ
per_agent = per_worker *ℤ pos 100

abbrev clamp_index : ℤ → ℤ
clamp_index i = if ltb_ℤ i (pos 0) then pos 0 else i

unfoldable pub agent_base : ℤ → ℤ
agent_base i = wrap (clamp_index i *ℤ per_agent)

unfoldable pub worker_base : ℤ → ℤ → ℤ
worker_base base i = wrap (base +ℤ rem (wrap (clamp_index i *ℤ per_worker)) per_agent)
