-- ===== src/Tests.antt =====
-- The theorems at concrete inputs.
mod Data
mod CapTests
mod ServiceTests
mod SecurityTests
mod EngineTests
mod UnifiedTests
mod TransformTests
mod EnrichTests
mod JwtTests
mod ManagerTests
