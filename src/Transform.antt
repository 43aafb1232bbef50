-- ===== src/Transform.antt =====
-- The processor nrtransform (processors/nrtransform), which adds metrics that are calculated from others.
pub mod Metric
pub mod Config
pub mod Calculator
pub mod Aggregation
pub mod Transformer
pub mod Scope
pub mod States
pub mod Slots
