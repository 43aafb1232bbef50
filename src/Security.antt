-- ===== src/Security.antt =====
-- processors/nrsecurity: the processor that redacts sensitive attributes of telemetry.
pub mod Config
pub mod Value
pub mod Patterns
pub mod Redactor
pub mod Processor
pub mod Rules
pub mod Clean
pub mod Unchanged
pub mod Telemetry
