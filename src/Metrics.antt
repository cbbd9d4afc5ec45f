-- ===== src/Metrics.antt =====
-- The metrics of a run, internal/metrics: a module for each part.
pub mod Rle
pub mod Failures
pub mod Histogram
pub mod Aggregate
pub mod Delta
pub mod RecorderConfig
pub mod Measured
pub mod Recorder
pub mod Bucket
pub mod Ring
pub mod Store
