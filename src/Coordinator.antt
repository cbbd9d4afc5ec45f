-- ===== src/Coordinator.antt =====
-- The coordinator, internal/coordinator: a module for each part.
pub mod Phase
pub mod Thresholds
pub mod Run
pub mod Completion
pub mod Fleet
mod History
mod Cluster
