-- ===== src/Collection.antt =====
-- src/collection/collection.cpp and collection_state.hpp: a collection, its writers and its queries.
-- A call under the locks is one step; what it leaves in the collection is a result beside the
-- value that it returns, also where that value is an error. Exceptions (failures of allocation) and
-- the messages of errors are left out.
pub mod State
pub mod Insert
pub mod Edit
pub mod Admitting
pub mod Admission
pub mod Commands
pub mod Batching
pub mod Batch
pub mod Keys
pub mod Answering
pub mod Query
pub mod Compacting
pub mod Creating
pub mod Removing
pub mod Adding
pub mod Inserting
pub mod Rows
pub mod Marks
pub mod Invariant
