-- ===== src/Storage/VectorStore/Moves.antt =====
-- src/storage/vector_store.cpp: the move operations of a store, with what they leave in the source.
use vector_forge.Common.{[]}
use vector_forge.Storage.VectorStore.{VectorStore}

module _ {F : Type 0} where
  -- What a move leaves in its source.
  unfoldable pub moved_from : VectorStore F → VectorStore F
  moved_from other = record other {
    size = 0;
    mapped_rows = 0;
    chunk_ptrs = [];
    owned_chunks = [];
    owner = [];
  }

  -- The new store, and the source.
  unfoldable pub move_construct : VectorStore F → VectorStore F × VectorStore F
  unfolding moved_from
  move_construct other = (other, moved_from other)

  -- The assignment to a store other than the source: the target, and the source.
  unfoldable pub move_assign : VectorStore F → VectorStore F → VectorStore F × VectorStore F
  unfolding moved_from
  move_assign this other = (other, moved_from other)
