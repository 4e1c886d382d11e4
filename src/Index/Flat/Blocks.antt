-- ===== src/Index/Flat/Blocks.antt =====
-- The blocks of a chunk and the chunks of the store cover every row once, in order.
use vector_forge.Common.{
  ℕ, zero, suc, ◌+◌, ◌-◌, ◌*◌, ◌^◌, ◌<◌, ◌≤◌, ◌≡◌, refl, ap, ◌∙◌, min, false, List, ltb, leb,
  get_or, take, drop, arith, Bool-cases, inl, inr, drop-drop,
}
use vector_forge.Core.Status.{ok, ◌>>=◌}
use vector_forge.Search.Order.{FloatOrder, Scored}
use vector_forge.Search.Heaps.{BoundedMaxHeap}
use vector_forge.Search.Heaps.TopK.{push_all}
use vector_forge.Index.Kernels.{FloatArithmetic, QueryView}
use vector_forge.Index.Flat.{FlatBackend, block_rows, block_distances, scan_rows, scan_blocks}
use vector_forge.Index.Flat.Distances.{row_distance, block_distances-row}
use vector_forge.Index.Flat.Scan.{
  Ready, deleted_row, pushed, pushed-append, pushed-Ready, scan_rows-pushed, live_from,
}

module _ {F : Type 0} (blank : F) ⦃o : FloatOrder F⦄ (a : FloatArithmetic F) (b : FlatBackend F)
    (q : QueryView F) where
  module _ (dist : ℕ → F) (base : ℕ) (floats : List F) (rows : ℕ)
      (at : (j : ℕ)
        → j < rows
        → row_distance blank a b q (take b.vectors.dim (drop (j * b.vectors.dim) floats))
          ≡ dist (base + j))
      (small : base + rows ≤ 2 ^ 32) where
    scan_blocks-done :
        (f start : ℕ) (h : BoundedMaxHeap (Scored F))
        → rows ≤ start
        → scan_blocks blank a b q base floats rows f start h ≡ ok h
    unfolding scan_blocks
    scan_blocks-done zero start h p = refl
    scan_blocks-done (suc f) start h p =
        let past : ltb start rows ≡ false = ground arith in rw (past, scan_blocks) refl

    block-at :
        (start n j : ℕ)
        → start + n ≤ rows
        → j < n
        → get_or
            (block_distances blank a b q (drop (start * b.vectors.dim) floats) n)
            j
            a.zero_float
          ≡ dist (base + start + j)
    block-at start n j p l =
        let sum : start * b.vectors.dim + j * b.vectors.dim ≡ (start + j) * b.vectors.dim =
          omega arith in
        let place : base + (start + j) ≡ base + start + j = omega arith in
        block_distances-row blank a b q (drop (start * b.vectors.dim) floats) n j a.zero_float l
        ∙ ap (λ x. row_distance blank a b q (take b.vectors.dim x))
            (drop-drop (j * b.vectors.dim) (start * b.vectors.dim) floats
              ∙ ap (λ i. drop i floats) sum)
        ∙ at (start + j) (omega arith)
        ∙ ap dist place

    one_block :
        (start n : ℕ) (h : BoundedMaxHeap (Scored F))
        → start + n ≤ rows
        → Ready blank a (base + start) h
        → scan_rows blank a b
            (base + start)
            (block_distances blank a b q (drop (start * b.vectors.dim) floats) n)
            0
            n
            h
          ≡ ok (pushed blank a dist (deleted_row blank a b) h (base + start) n)
    one_block start n h p r =
        let here : base + start + 0 ≡ base + start = omega arith in
        let whole =
          scan_rows-pushed blank a b dist (base + start)
            (block_distances blank a b q (drop (start * b.vectors.dim) floats) n) n 0 h
            (λ j l. block-at start n j p (omega arith)) (omega arith) (rw here r) in
        rw here at whole

    pub scan_blocks-pushed :
        (f start : ℕ) (h : BoundedMaxHeap (Scored F))
        → start ≤ rows
        → rows ≤ start + f
        → Ready blank a (base + start) h
        → scan_blocks blank a b q base floats rows f start h
          ≡ ok (pushed blank a dist (deleted_row blank a b) h (base + start) (rows - start))
    unfolding scan_blocks pushed live_from push_all
    scan_blocks-pushed zero start h p l r =
        let none_ : rows - start ≡ 0 = omega arith in rw none_ refl
    scan_blocks-pushed (suc f) start h p l r = elim (Bool-cases (ltb start rows)) [
      | inr past ↦ let none_ : rows - start ≡ 0 = ground arith in rw (past, none_, scan_blocks) refl
      | inl more ↦ elim (Bool-cases (leb (start + block_rows) rows)) [
        | inl full_ ↦
            let n : min block_rows (rows - start) ≡ block_rows = ground arith in
            let next : base + (start + block_rows) ≡ base + start + block_rows = omega arith in
            let total : block_rows + (rows - (start + block_rows)) ≡ rows - start = ground arith in
            let dead = deleted_row blank a b in
            let rest =
              scan_blocks-pushed f (start + block_rows)
                (pushed blank a dist dead h (base + start) block_rows) (ground arith) (omega arith)
                (rw next (pushed-Ready blank a dist dead block_rows (base + start) h r)) in
            rw (more, n, scan_blocks)
              (ap
                  (λ m.
                    m >>= λ x. scan_blocks blank a b q base floats rows f (start + block_rows) x)
                  (one_block start block_rows h (ground arith) r)
                ∙ rest
                ∙ ap
                    (λ i. ok (
                      pushed blank a dist dead
                        (pushed blank a dist dead h (base + start) block_rows) i
                        (rows - (start + block_rows))))
                    next
                ∙ ap ok (
                    pushed-append blank a dist dead h (base + start) block_rows
                      (rows - (start + block_rows)))
                ∙ ap (λ i. ok (pushed blank a dist dead h (base + start) i)) total)
        | inr last ↦
            let n : min block_rows (rows - start) ≡ rows - start = ground arith in
            rw (more, n, scan_blocks)
              (ap
                  (λ m.
                    m >>= λ x. scan_blocks blank a b q base floats rows f (start + block_rows) x)
                  (one_block start (rows - start) h (ground arith) r)
                ∙ scan_blocks-done f (start + block_rows) _ (ground arith))
      ]
    ]
