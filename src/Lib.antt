-- ===== src/Lib.antt =====
-- VectorForge is a vector database: collections of vectors with external ids, searched exactly (flat) or
-- approximately (HNSW), kept in memory and in index files. This library models a collection and the
-- parts that it stands on, and proves what they promise.
--
-- A collection owns an id map, a set of tombstones, a vector store and a search backend. An insert
-- reserves its key in the id map, appends the vector to the store, and commits the key to the row;
-- a removal erases the key and marks the row. The flat backend scans the store's chunks, passes over
-- marked rows and keeps the best candidates in a heap. The HNSW search uses the visited set. The index
-- file is written by the binary writer in the format's encodings. Readers and writers of a collection
-- meet at the fair lock.
--
-- Common: lists, bits, words and association lists over native numbers, which the others share.
-- Core/Status: include/vectorforge/status.hpp and src/core/assert.hpp. Status and Result<T> are one type,
--   VF_CHECK and VF_ASSERT are `check`, whose failure is `fatal`.
-- Core/Types, Core/Config, Core/CheckedMath: include/vectorforge/types.hpp, src/core/types.cpp,
--   include/vectorforge/config.hpp, src/core/config.cpp, src/core/checked_math.hpp.
-- Core/Validation: src/core/validation.cpp, over a parameter for the test of one component.
-- Core/VectorOps: src/core/vector_ops.cpp, over an interface for the arithmetic of floats.
-- Core/Names: the names in src/core/status.cpp and src/storage/format.cpp.
-- Core/Options: the options in include/vectorforge/config.hpp; `no_payload` is Verify::None.
-- Core/Rng: src/core/rng.hpp, splitmix64, SplitMix64, Xoshiro256ss, mul_high_u64, uniform_below (on fuel); the state a
--   generator changes is a result.
-- Storage/IdMap: src/storage/id_map.hpp and id_map.cpp, one function to a method; the hash map is an
--   association list.
-- Storage/Tombstones: src/storage/tombstones.hpp.
-- Storage/VectorStore: src/storage/vector_store.hpp and vector_store.cpp; a directory entry is an offset
--   into the mapped memory or the number of a heap chunk.
-- Storage/BinaryIo, Storage/Format: src/storage/binary_io.hpp, binary_io.cpp, format.hpp, format.cpp; the
--   sink is the one in memory, and the checksum is a parameter.
-- Search/Order, Search/Heaps: src/search/heaps.hpp; floats are a strict weak order, without NaN, which
--   vectors cannot hold once they are validated.
-- Search/VisitedSet: src/search/visited_set.hpp.
-- Index/Kernels, Index/Flat: src/index/flat_backend.hpp, flat_backend.cpp, index_backend.hpp; the kernels
--   of src/simd are an interface whose laws say that a block has each row's value.
-- Index/Backend, Index/Live: src/index/index_backend.hpp; the calls go to the flat backend of Index/Flat
--   or to an HNSW backend, whose operations are an interface with the contract of that header as laws.
-- Collection: src/collection/collection.cpp and collection_state.hpp. Collection/State has the state,
--   attach_backend and Collection::create, Collection/Insert insert_reserved and Collection::add,
--   Collection/Batch and Collection/Keys Collection::add_batch, Collection/Edit remove, compact, get,
--   contains and size, Collection/Query search, search_into and search_batch. A call that fails returns
--   its error beside the state that it leaves. Collection/Invariant says when a collection is valid;
--   the other modules below Collection prove what the calls do to a valid one. add_batch_concurrent,
--   which links rows outside the lock, is an argument of `add_batch`.
-- Index/NeighborSelect: src/index/hnsw/neighbor_select.hpp.
-- Concurrency/Ranges: src/concurrency/thread_pool.cpp, the chunks of ThreadPool::run_ranges for a body
--   that does not throw; the calls on the atomic counter are one sequence.
-- Concurrency/FairMutex: src/concurrency/fair_shared_mutex.hpp, each section under its mutex a step. The
--   source says that the readers that wait when a writer leaves all enter before the next writer; its
--   code admits as many readers, among them late ones, as FairMutex says.
-- Tests: the theorems at concrete inputs.
--
-- Bounds and fuel: machine integers are numbers with their wrap-around written out, but for counters
-- that the size of memory bounds. The loops of sifting, scanning, padding and reserving take the rounds
-- left; each round makes progress, so the index, the number of rows, or the count is enough, and the
-- theorems are proved of the functions with that fuel. Words have 64 bits.
--
-- Not modelled: error messages, failure of allocation, byte counts for statistics, wake-ups of
-- condition variables, floating-point rounding, loading and saving a collection, its statistics,
-- the concurrent batch insert, the HNSW graph, the index reader and writer, snapshots and the
-- catalog, the queue of the thread pool, the kernels, the operating system, the server and the
-- bindings.
pub mod Common
pub mod Core
pub mod Storage
pub mod Search
pub mod Index
pub mod Collection
pub mod Concurrency
pub mod Tests
