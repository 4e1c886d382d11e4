-- ===== src/Search.antt =====
-- src/search: orders, heaps and visited sets of the searches.
pub mod Heaps
pub mod VisitedSet
pub mod Order
