-- ===== src/Idspace/Blocks.antt =====
-- The blocks of ids that the bases of internal/idspace/idspace.go start.
use load_wave.Prelude.{ℕ, ◌+◌, ◌*◌, ◌%◌, ◌<◌, ◌≡◌, arith, ℤ, pos, negsuc, ◌+ℤ◌, wrap_pos}
use load_wave.Idspace.{agent_base, worker_base}

-- With fewer agents than this every id of every block is an `int64`.
abbrev pub max_agents : ℕ
max_agents = 922337203685

abbrev pub max_workers : ℕ
max_workers = 92233720368547

agent_base_of : (a : ℕ) → a < max_agents → agent_base (pos a) ≡ pos (a * 10000000)
unfolding agent_base
agent_base_of a h = ground (arith, wrap_pos (a * 10000000))

pub worker_base_of :
    (a w : ℕ)
    → a < max_agents
    → w < max_workers
    → worker_base (agent_base (pos a)) (pos w) ≡ pos (a * 10000000 + (w * 100000) % 10000000)
unfolding worker_base
worker_base_of a w h k =
    rw (agent_base_of a h)
      (ground (arith, wrap_pos (w * 100000), wrap_pos (a * 10000000 + (w * 100000) % 10000000)))

module _ (a b w v x y : ℕ) where
  split :
      x < 100000
      → y < 100000
      → a * 10000000 + (w * 100000) % 10000000 + x ≡ b * 10000000 + (v * 100000) % 10000000 + y
      → (a ≡ b) × (w % 100 ≡ v % 100) × (x ≡ y)
  split p q e = omega arith

-- Two virtual user ids, each the base of a worker of an agent plus an offset below 100000, are
-- equal only if the agents are the same, the worker indices agree modulo 100 and the offsets are
-- the same: distinct agents never share an id, however many workers each has.
pub ids_disjoint :
    (a b w v x y : ℕ)
    → a < max_agents
    → b < max_agents
    → w < max_workers
    → v < max_workers
    → x < 100000
    → y < 100000
    → worker_base (agent_base (pos a)) (pos w) +ℤ pos x
      ≡ worker_base (agent_base (pos b)) (pos v) +ℤ pos y
    → (a ≡ b) × (w % 100 ≡ v % 100) × (x ≡ y)
ids_disjoint a b w v x y ha hb hw hv hx hy e =
    split a b w v x y hx hy (ground (arith, worker_base_of a w ha hw, worker_base_of b v hb hv))

-- A negative agent index gets the block of index 0, and so does a negative worker index.
pub negative_index :
    (n : ℕ) (base : ℤ)
    → (agent_base (negsuc n) ≡ agent_base (pos 0))
      × (worker_base base (negsuc n) ≡ worker_base base (pos 0))
unfolding agent_base worker_base
negative_index n base = ground arith
