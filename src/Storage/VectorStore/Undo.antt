-- ===== src/Storage/VectorStore/Undo.antt =====
-- `pop_back` undoes `append`.
use vector_forge.Common.{ℕ, ◌+◌, ◌-◌, ◌<◌, ◌≡◌, refl, sym, ◌∙◌, List, length, arith, lt→ltb}
use vector_forge.Core.Status.{Returns, ◌>>=◌}
use vector_forge.Storage.VectorStore.{VectorStore, capacity, memory, row_at, row, append, pop_back}
use vector_forge.Storage.VectorStore.Invariant.{IsValid}
use vector_forge.Storage.VectorStore.Append.{append-Appended, row-ok}

module _ {F : Type 0} (blank : F) where
  -- The store without its last row.
  pub record Popped (s u : VectorStore F) : Type 0 where
    pub valid : IsValid blank u
    pub size : u.size + 1 ≡ s.size
    pub dim : u.dim ≡ s.dim
    pub max_rows : u.max_rows ≡ s.max_rows
    pub rows : (i : ℕ) → i < u.size → row blank u i ≡ row blank s i

  pub pop_back-Popped :
      (s : VectorStore F)
      → IsValid blank s
      → s.mapped_rows < s.size
      → Returns (pop_back blank s) (λ u. Popped s u)
  unfolding pop_back row_at memory capacity
  pop_back-Popped s v h =
      rw (lt→ltb _ _ h, pop_back)
        (
          _,
          refl,
          record {
            valid = record {
              shift = v.shift;
              mask = v.mask;
              bytes = v.bytes;
              mapped_chunks = v.mapped_chunks;
              mapped_size = v.mapped_size;
              directory = v.directory;
              mapped_at = v.mapped_at;
              heap_at = v.heap_at;
              chunk_size = v.chunk_size;
              some_rows = omega arith;
              room = omega (arith, v.room);
              limit = omega (arith, v.limit);
              width = v.width;
            };
            size = omega arith;
            dim = refl;
            max_rows = refl;
            rows = λ i k.
                row-ok blank (record s { size = s.size - 1 }) i k
                ∙ sym (row-ok blank s i (omega arith));
          },
        )

  -- In a valid store, after appending a row of the right length below the limit, `pop_back`
  -- succeeds and leaves a valid store with the size and the rows of before.
  pub pop_back-append :
      (s : VectorStore F) (r : List F)
      → IsValid blank s
      → length r ≡ s.dim
      → s.size < s.max_rows
      → Returns (append blank s r >>= λ p. pop_back blank p.1) (λ u.
        IsValid blank u
        × (u.size ≡ s.size)
        × ((i : ℕ) → i < s.size → row blank u i ≡ row blank s i))
  pop_back-append s r v fits limit =
      let (pair, e, a) = append-Appended blank s r v fits limit in
      let (u, e', p) =
        pop_back-Popped pair.1 a.valid (omega (arith, a.size, a.mapped_rows, v.some_rows)) in
      rw (e, e')
        (
          u,
          refl,
          (
            p.valid,
            omega (arith, p.size, a.size),
            λ i h. p.rows i (omega (arith, p.size, a.size)) ∙ a.rows i h,
          ),
        )
