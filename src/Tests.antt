-- ===== src/Tests.antt =====
-- The theorems at concrete inputs.
pub mod Search
pub mod Storage
pub mod Files
pub mod Others
pub mod Collection
