-- ===== src/Storage/VectorStore/Grow.antt =====
-- `add_chunk` makes room and keeps the rows.
use vector_forge.Common.{
  ℕ, ◌+◌, ◌-◌, ◌*◌, ◌/◌, ◌<◌, ◌≡◌, refl, sym, ap, ◌∙◌, [], ◌∷◌, length, replicate, arith,
  Bool-cases, inl, inr, ltb, ltb→lt, length-append, length-replicate, get_or-append_left,
  get_or-append_right,
}
use vector_forge.Storage.VectorStore.{VectorStore, heap, capacity, row_at, add_chunk}
use vector_forge.Storage.VectorStore.Invariant.{IsValid, row_at_congr}

module _ {F : Type 0} (blank : F) where
  -- A store with at least the rows of another, and the same parameters.
  pub record Extends (s t : VectorStore F) : Type 0 where
    pub valid : IsValid blank t
    pub size : t.size ≡ s.size
    pub dim : t.dim ≡ s.dim
    pub max_rows : t.max_rows ≡ s.max_rows
    pub mapped_rows : t.mapped_rows ≡ s.mapped_rows
    pub owner : t.owner ≡ s.owner
    pub rows_per_chunk : t.rows_per_chunk ≡ s.rows_per_chunk
    pub rows : (id : ℕ) → id < s.size → row_at blank t id ≡ row_at blank s id

  pub capacity-add_chunk :
      (s : VectorStore F) → capacity blank (add_chunk blank s) ≡ capacity blank s + s.rows_per_chunk
  unfolding capacity add_chunk
  capacity-add_chunk s =
      rw (length-append s.chunk_ptrs (heap (length s.owned_chunks) ∷ [])) (omega arith)

  module _ (s : VectorStore F) (v : IsValid blank s) where
    add_chunk-IsValid : IsValid blank (add_chunk blank s)
    unfolding add_chunk
    add_chunk-IsValid =
        let n = length s.owned_chunks in
        let fresh = replicate (s.chunk_bytes / 4) blank in
        let chunks = length-append s.owned_chunks (fresh ∷ []) in
        let ptrs = length-append s.chunk_ptrs (heap n ∷ []) in
        let floats : s.chunk_bytes / 4 ≡ s.rows_per_chunk * s.dim = omega (arith, v.bytes) in
        record {
          shift = v.shift;
          mask = v.mask;
          bytes = v.bytes;
          mapped_chunks = v.mapped_chunks;
          mapped_size = v.mapped_size;
          directory = omega (arith, ptrs, chunks, v.directory);
          mapped_at = λ c d h.
              get_or-append_left s.chunk_ptrs (heap n ∷ []) c d (omega (arith, v.directory))
              ∙ v.mapped_at c d h;
          heap_at = λ c d h. elim (Bool-cases (ltb c n)) [
            | inl old ↦
                get_or-append_left s.chunk_ptrs (heap n ∷ []) (v.mapped_chunks + c) d
                  (omega (arith, v.directory, ltb→lt _ _ old))
                ∙ v.heap_at c d (ltb→lt _ _ old)
            | inr new ↦
                let last : c ≡ n = ground (arith, chunks) in
                let place : v.mapped_chunks + c - length s.chunk_ptrs ≡ 0 =
                  omega (arith, v.directory) in
                rw
                  (
                    get_or-append_right s.chunk_ptrs (heap n ∷ []) (v.mapped_chunks + c) d
                        (omega (arith, v.directory)),
                    place,
                  )
                  (ap heap (sym last))
          ];
          chunk_size = λ c h. elim (Bool-cases (ltb c n)) [
            | inl old ↦
                rw (get_or-append_left s.owned_chunks (fresh ∷ []) c [] (ltb→lt _ _ old))
                  (v.chunk_size c (ltb→lt _ _ old))
            | inr new ↦
                let place : c - n ≡ 0 = ground (arith, chunks) in
                rw (get_or-append_right s.owned_chunks (fresh ∷ []) c [] (ground arith), place)
                  (omega (arith, length-replicate (s.chunk_bytes / 4) blank, floats))
          ];
          some_rows = v.some_rows;
          room = omega (arith, v.room, capacity-add_chunk s);
          limit = v.limit;
          width = v.width;
        }

    pub add_chunk-Extends : Extends s (add_chunk blank s)
    unfolding add_chunk
    add_chunk-Extends = record {
      valid = add_chunk-IsValid;
      size = refl;
      dim = refl;
      max_rows = refl;
      mapped_rows = refl;
      owner = refl;
      rows_per_chunk = refl;
      rows = λ id h.
          row_at_congr blank s (add_chunk blank s) v add_chunk-IsValid id refl refl refl refl
            (omega (arith, length-append s.owned_chunks (replicate (s.chunk_bytes / 4) blank ∷ [])))
            (omega (arith, v.room))
            (λ c e k.
              rw
                (get_or-append_left s.owned_chunks (replicate (s.chunk_bytes / 4) blank ∷ []) c []
                  k)
                refl);
    }
