-- ===== src/Engine.antt =====
-- The engine of a node, internal/engine: the load profiles and the pool of virtual users.
pub mod Executor
pub mod Pool
