-- ===== src/Index/Flat.antt =====
-- src/index/flat_backend.{hpp,cpp}: the exact search, chunk by chunk and block by block.
-- `fatal` is a failed assertion; a distance past the end of a block is `zero_float`.
pub mod Distances
pub mod Scan
pub mod Blocks
pub mod Chunks
pub mod Exact
use vector_forge.Common.{
  ℕ, zero, suc, ◌+◌, ◌-◌, ◌*◌, ◌%◌, ◌^◌, ◌≡◌, min, Bool, true, false, List, [], ◌∷◌, map, ◌&&◌,
  ◌||◌, not, if◌then◌else◌, ltb, leb, ◌==◌, length, get_or, take, drop,
}
use vector_forge.Core.Status.{Result, Status, ok, ◌>>=◌, ◌>>◌, check}
use vector_forge.Core.Types.{Metric, l2, inner_product, cosine}
use vector_forge.Search.Order.{FloatOrder, Scored, candidate_less}
use vector_forge.Search.Heaps.{BoundedMaxHeap, full, top, push, sort_ascending}
use vector_forge.Storage.Tombstones.{TombstoneSet, test, any}
use vector_forge.Storage.VectorStore.{VectorStore, rows_in_chunk, chunk_data}
use vector_forge.Index.Kernels.{FloatArithmetic, QueryView, KernelTable, max_float}

abbrev pub block_rows : ℕ
block_rows = 1024

pub record FlatBackend (F : Type 0) : Type 0 where
  pub vectors : VectorStore F
  pub deleted : TombstoneSet
  pub metric : Metric
  pub normalized : Bool
  pub kernels : KernelTable F

module _ {F : Type 0} (blank : F) ⦃o : FloatOrder F⦄ (a : FloatArithmetic F) where
  abbrev pub blank_hit : Scored F
  blank_hit = record { distance = blank; id = 0 }

  -- The row must be the last one appended.
  unfoldable pub add : FlatBackend F → ℕ → Status
  add b id = check (id + 1 == b.vectors.size)

  -- From a dot product to the distance, for rows of unit norm.
  unfoldable pub scale : Metric → F → F → F
  scale cosine s d = max_float a.zero_float (a.sub a.one_float (a.mul d s))
  scale l2 s d = max_float a.zero_float (a.sub a.two_float (a.mul (a.mul a.two_float d) s))
  scale inner_product s d = a.neg (a.mul d s)

  unfoldable pub block_distances : FlatBackend F → QueryView F → List F → ℕ → List F
  block_distances b q rows n =
      let dot = b.kernels.dot_1_to_n q.vector rows n b.vectors.dim in
      if not b.normalized
      then (elim b.metric [
        | l2 ↦ b.kernels.l2sq_1_to_n q.vector rows n b.vectors.dim
        | _ ↦ map a.neg dot
      ])
      else map (scale b.metric q.inv_norm) dot

  -- One row of a block.
  unfoldable pub scan_row :
      FlatBackend F → ℕ → F → BoundedMaxHeap (Scored F) → Result (BoundedMaxHeap (Scored F))
  scan_row b id d h =
      let pushed = (push blank_hit candidate_less h (record { distance = d; id = id })).1 in
      if any b.deleted && test b.deleted id
      then ok h
      else if full blank_hit candidate_less h
      then (do
        worst ← top blank_hit candidate_less h
        if not (o.lt d worst.distance) then ok h else ok pushed)
      else ok pushed

  -- Rows `r` to `r + n` of a block whose first row is `first`.
  unfoldable pub scan_rows :
      FlatBackend F
      → ℕ
      → List F
      → ℕ
      → ℕ
      → BoundedMaxHeap (Scored F)
      → Result (BoundedMaxHeap (Scored F))
  scan_rows b first distances r zero h = ok h
  scan_rows b first distances r (suc n) h = do
    next ← scan_row b ((first + r) % 2 ^ 32) (get_or distances r a.zero_float) h
    scan_rows b first distances (r + 1) n next

  -- The blocks of a chunk from row `start` on, with the rounds left; each takes a row at least.
  unfoldable pub scan_blocks :
      FlatBackend F
      → QueryView F
      → ℕ
      → List F
      → ℕ
      → ℕ
      → ℕ
      → BoundedMaxHeap (Scored F)
      → Result (BoundedMaxHeap (Scored F))
  scan_blocks b q base floats rows zero start h = ok h
  scan_blocks b q base floats rows (suc f) start h =
      let n = min block_rows (rows - start) in
      let block = block_distances b q (drop (start * b.vectors.dim) floats) n in
      if ltb start rows
      then (do
        next ← scan_rows b (base + start) block 0 n h
        scan_blocks b q base floats rows f (start + block_rows) next)
      else ok h

  -- `n` chunks from `chunk` on, whose first row is `base`.
  unfoldable pub scan_chunks :
      FlatBackend F
      → QueryView F
      → ℕ
      → ℕ
      → ℕ
      → BoundedMaxHeap (Scored F)
      → Result (BoundedMaxHeap (Scored F))
  scan_chunks b q chunk base zero h = ok h
  scan_chunks b q chunk base (suc n) h = do
    let rows = rows_in_chunk blank b.vectors chunk
    floats ← chunk_data blank b.vectors chunk
    next ← scan_blocks b q base floats rows rows 0 h
    scan_chunks b q (chunk + 1) (base + rows) n next

  -- The number of hits, and the first `k` places of the output, which start with the hits.
  unfoldable pub search :
      FlatBackend F → QueryView F → ℕ → List (Scored F) → Result (ℕ × List (Scored F))
  search b q k out = do
    check (leb 1 k && leb k (length out))
    h ←
        scan_chunks b q 0 0 (length b.vectors.chunk_ptrs)
          (record { storage = take k out; size = 0 })
    let sorted = sort_ascending blank_hit candidate_less h
    ok (sorted.0, sorted.1.storage)
