-- ===== src/Index/Flat/Chunks.antt =====
-- The chunks of the store, in the order of the directory, cover every row once.
use native.Mathlib.Nat.{mul-le-mul_right}
use vector_forge.Common.{
  ℕ, zero, suc, ◌+◌, ◌-◌, ◌*◌, ◌^◌, ◌<◌, ◌≤◌, ◌≡◌, refl, sym, ap, ◌∙◌, min, true, ltb, length,
  get_or, take, drop, arith,
}
use vector_forge.Core.Status.{ok, ◌>>=◌}
use vector_forge.Search.Order.{FloatOrder, Scored}
use vector_forge.Search.Heaps.{BoundedMaxHeap}
use vector_forge.Search.Heaps.TopK.{push_all}
use vector_forge.Storage.VectorStore.{row_at, rows_in_chunk, chunk_data, memory, heap, capacity}
use vector_forge.Storage.VectorStore.Invariant.{IsValid as StoreIsValid, row_at-chunk}
use vector_forge.Index.Kernels.{FloatArithmetic, QueryView}
use vector_forge.Index.Flat.{FlatBackend, scan_blocks, scan_chunks}
use vector_forge.Index.Flat.Distances.{row_distance}
use vector_forge.Index.Flat.Scan.{
  Ready, deleted_row, pushed, pushed-append, pushed-Ready, live_from,
}
use vector_forge.Index.Flat.Blocks.{scan_blocks-pushed}

module _ {F : Type 0} (blank : F) ⦃o : FloatOrder F⦄ (a : FloatArithmetic F) (b : FlatBackend F)
    (q : QueryView F) (v : StoreIsValid blank b.vectors) where
  -- The distance of the query to a row of the store.
  unfoldable pub distance_to : ℕ → F
  distance_to i = row_distance blank a b q (row_at blank b.vectors i)

  abbrev rows : ℕ → ℕ
  rows c = rows_in_chunk blank b.vectors c

  -- The first row of a chunk, or the end of the store.
  abbrev first : ℕ → ℕ
  first c = min (c * b.vectors.rows_per_chunk) b.vectors.size

  rows-first : (c : ℕ) → first c + rows c ≡ first (c + 1)
  unfolding rows_in_chunk
  rows-first c =
      let next : (c + 1) * b.vectors.rows_per_chunk
          ≡ c * b.vectors.rows_per_chunk + b.vectors.rows_per_chunk =
        omega arith in
      rw next (ground arith)

  rows-le : (c : ℕ) → rows c ≤ b.vectors.rows_per_chunk
  unfolding rows_in_chunk
  rows-le c = ground arith

  rows-some : (c : ℕ) → 0 < rows c → first c ≡ c * b.vectors.rows_per_chunk
  unfolding rows_in_chunk
  rows-some c h = ground arith

  first-last : (c : ℕ) → length b.vectors.chunk_ptrs ≤ c → first c ≡ b.vectors.size
  unfolding capacity
  first-last c h = omega (arith, v.room, mul-le-mul_right b.vectors.rows_per_chunk h)

  chunk-at :
      (c j : ℕ)
      → j < rows c
      → row_distance blank a b q (
          take b.vectors.dim (
            drop (j * b.vectors.dim) (
              memory blank b.vectors
                (get_or b.vectors.chunk_ptrs c (heap (length b.vectors.owned_chunks))))))
        ≡ distance_to (first c + j)
  unfolding distance_to
  chunk-at c j h =
      let start : first c ≡ c * b.vectors.rows_per_chunk = rows-some c (omega arith) in
      ap (row_distance blank a b q) (
        sym (row_at-chunk blank b.vectors v c j (omega (arith, rows-le c)))
        ∙ ap (λ i. row_at blank b.vectors (i + j)) (sym start))

  one_chunk :
      (c : ℕ) (h : BoundedMaxHeap (Scored F))
      → Ready blank a (first c) h
      → scan_blocks blank a b q
          (first c)
          (memory blank b.vectors
            (get_or b.vectors.chunk_ptrs c (heap (length b.vectors.owned_chunks))))
          (rows c)
          (rows c)
          0
          h
        ≡ ok (pushed blank a distance_to (deleted_row blank a b) h (first c) (rows c))
  one_chunk c h r =
      let here : first c + 0 ≡ first c = omega arith in
      let small : first c + rows c ≤ 2 ^ 32 = omega (arith, rows-first c, v.limit, v.width) in
      let whole =
        scan_blocks-pushed blank a b q distance_to (first c)
          (memory blank b.vectors
            (get_or b.vectors.chunk_ptrs c (heap (length b.vectors.owned_chunks))))
          (rows c) (chunk-at c) small (rows c) 0 h (omega arith) (omega arith) (rw here r) in
      let all : rows c - 0 ≡ rows c = omega arith in
      whole
      ∙ ap (λ k. ok (pushed blank a distance_to (deleted_row blank a b) h (first c + 0) k)) all
      ∙ ap (λ i. ok (pushed blank a distance_to (deleted_row blank a b) h i (rows c))) here

  pub scan_chunks-pushed :
      (n c : ℕ) (h : BoundedMaxHeap (Scored F))
      → c + n ≡ length b.vectors.chunk_ptrs
      → Ready blank a (first c) h
      → scan_chunks blank a b q c (first c) n h
        ≡ ok (
            pushed blank a distance_to
              (deleted_row blank a b)
              h
              (first c)
              (b.vectors.size - first c))
  unfolding scan_chunks chunk_data pushed live_from push_all
  scan_chunks-pushed zero c h e r =
      let none_ : b.vectors.size - first c ≡ 0 = omega (arith, first-last c (omega arith)) in
      rw none_ refl
  scan_chunks-pushed (suc n) c h e r =
      let inside : ltb c (length b.vectors.chunk_ptrs) ≡ true = ground arith in
      let dead = deleted_row blank a b in
      let next = pushed blank a distance_to dead h (first c) (rows c) in
      let there = rows-first c in
      let ready : Ready blank a (first (c + 1)) next =
        rw there at (pushed-Ready blank a distance_to dead (rows c) (first c) h r) in
      let total : rows c + (b.vectors.size - first (c + 1)) ≡ b.vectors.size - first c =
        omega (arith, there) in
      rw (inside, scan_chunks)
        (ap (λ m. m >>= λ x. scan_chunks blank a b q (c + 1) (first c + rows c) n x)
            (one_chunk c h r)
          ∙ ap (λ i. scan_chunks blank a b q (c + 1) i n next) there
          ∙ scan_chunks-pushed n (c + 1) next (omega arith) ready
          ∙ ap (λ i. ok (pushed blank a distance_to dead next i (b.vectors.size - first (c + 1))))
              (sym there)
          ∙ ap ok (
              pushed-append blank a distance_to dead h (first c) (rows c)
                (b.vectors.size - first (c + 1)))
          ∙ ap (λ k. ok (pushed blank a distance_to dead h (first c) k)) total)
