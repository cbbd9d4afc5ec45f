-- ===== src/Scenario.antt =====
-- The scenario files, internal/scenario.
mod Load
mod Template
mod Path
mod Step
mod Compile
mod Build
mod Running
mod Tests
