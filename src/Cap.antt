-- ===== src/Cap.antt =====
-- processors/nrcap: the cardinality protection processor.
pub mod Metric
pub mod Config
pub mod Env
pub mod Hash
pub mod Tracker
pub mod Limiter
