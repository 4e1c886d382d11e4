-- ===== src/Core.antt =====
-- src/core and the public types: errors, enumerations, the configuration, overflow checks.
pub mod Status
pub mod Types
pub mod Config
pub mod CheckedMath
pub mod Validation
pub mod Rng
pub mod Names
pub mod Options
pub mod VectorOps
