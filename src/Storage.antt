-- ===== src/Storage.antt =====
-- src/storage: what a collection keeps in memory, and the index file format.
pub mod IdMap
pub mod VectorStore
pub mod BinaryIo
pub mod Format
pub mod Tombstones
