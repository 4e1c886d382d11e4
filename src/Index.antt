-- ===== src/Index.antt =====
-- src/index: the search backends.
pub mod Kernels
pub mod Flat
pub mod Backend
pub mod Live
pub mod NeighborSelect
