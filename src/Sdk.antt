-- ===== src/Sdk.antt =====
-- The SDK that scenarios are written with, pkg/loadwave.
pub mod Names
pub mod Floats
pub mod Pause
pub mod Scenarios
pub mod Http
pub mod Vu
pub mod Messages
mod Tests
