-- ===== src/Storage/VectorStore/Invariant.antt =====
-- The layout of a store: mapped chunks first, then heap chunks, all of the same size.
use Prim.Native.Nat.{bit_and}
use native.Mathlib.Nat.{
  mul-add-div_right, mul-add-mod_self_right, mod-eq_of_lt, eq_of_mul-eq-mul_right, mod-lt,
  mul-le-mul_right, div-lt_iff_lt-mul, div-eq_of_lt,
}
use vector_forge.Common.{
  ℕ, ◌+◌, ◌-◌, ◌*◌, ◌/◌, ◌%◌, ◌^◌, ◌≤◌, ◌<◌, ◌≡◌, refl, sym, ap, ◌∙◌, [], length, get_or, take,
  drop, arith, Bool-cases, inl, inr, ltb, ltb→lt,
}
use vector_forge.Common.Bits.{mask-pos}
use vector_forge.Common.Words.{bit_and-ones}
use vector_forge.Storage.VectorStore.{VectorStore, Chunk, mapped, heap, capacity, memory, row_at}

module _ {F : Type 0} (blank : F) where
  pub record IsValid (s : VectorStore F) : Type 0 where
    pub shift : s.rows_per_chunk ≡ 2 ^ s.chunk_shift
    pub mask : s.chunk_mask ≡ s.rows_per_chunk - 1
    pub bytes : s.chunk_bytes ≡ s.rows_per_chunk * s.dim * 4
    pub mapped_chunks : ℕ
    pub mapped_size : s.mapped_rows ≡ mapped_chunks * s.rows_per_chunk
    pub directory : length s.chunk_ptrs ≡ mapped_chunks + length s.owned_chunks
    pub mapped_at :
        (c : ℕ) (d : Chunk)
        → c < mapped_chunks
        → get_or s.chunk_ptrs c d ≡ mapped (c * (s.rows_per_chunk * s.dim))
    pub heap_at :
        (c : ℕ) (d : Chunk)
        → c < length s.owned_chunks
        → get_or s.chunk_ptrs (mapped_chunks + c) d ≡ heap c
    pub chunk_size :
        (c : ℕ)
        → c < length s.owned_chunks
        → length (get_or s.owned_chunks c []) ≡ s.rows_per_chunk * s.dim
    pub some_rows : s.mapped_rows ≤ s.size
    pub room : s.size ≤ capacity blank s
    pub limit : s.size ≤ s.max_rows
    pub width : s.max_rows < 2 ^ 32

  module _ (s : VectorStore F) (v : IsValid s) where
    pub rows-pos : 0 < s.rows_per_chunk
    rows-pos = omega (arith, v.shift, mask-pos s.chunk_shift)

    pub shift-div : (id : ℕ) → id / 2 ^ s.chunk_shift ≡ id / s.rows_per_chunk
    shift-div id = ap (λ n. id / n) (sym v.shift)

    pub mask-mod : (id : ℕ) → bit_and id s.chunk_mask ≡ id % s.rows_per_chunk
    mask-mod id =
        let ones : s.chunk_mask ≡ 2 ^ s.chunk_shift - 1 = omega (arith, v.mask, v.shift) in
        rw (ones, v.shift) (bit_and-ones s.chunk_shift id)

    -- A row of a chunk lies within the chunk.
    pub row_end : (id : ℕ) → id % s.rows_per_chunk * s.dim + s.dim ≤ s.rows_per_chunk * s.dim
    row_end id = omega (arith, mul-le-mul_right s.dim (mod-lt id rows-pos))

    pub chunk-lt : (id : ℕ) → id < capacity blank s → id / s.rows_per_chunk < length s.chunk_ptrs
    unfolding capacity
    chunk-lt id h = (div-lt_iff_lt-mul rows-pos).1 h

    -- What a row is, in a mapped chunk and in a heap chunk.
    pub row_at-mapped :
        (id : ℕ)
        → id / s.rows_per_chunk < v.mapped_chunks
        → row_at blank s id
          ≡ take s.dim (
              drop
                (id % s.rows_per_chunk * s.dim)
                (drop (id / s.rows_per_chunk * (s.rows_per_chunk * s.dim)) s.owner))
    unfolding row_at memory
    row_at-mapped id h =
        rw
          (
            shift-div id,
            mask-mod id,
            v.mapped_at (id / s.rows_per_chunk) (heap (length s.owned_chunks)) h,
          )
          refl

    pub row_at-heap :
        (id c : ℕ)
        → id / s.rows_per_chunk ≡ v.mapped_chunks + c
        → c < length s.owned_chunks
        → row_at blank s id
          ≡ take s.dim (drop (id % s.rows_per_chunk * s.dim) (get_or s.owned_chunks c []))
    unfolding row_at memory
    row_at-heap id c e h =
        rw (shift-div id, mask-mod id, e, v.heap_at c (heap (length s.owned_chunks)) h) refl

    -- A row by its chunk and its place in it.
    pub row_at-chunk :
        (c j : ℕ)
        → j < s.rows_per_chunk
        → row_at blank s (c * s.rows_per_chunk + j)
          ≡ take s.dim (
              drop
                (j * s.dim)
                (memory blank s (get_or s.chunk_ptrs c (heap (length s.owned_chunks)))))
    unfolding row_at
    row_at-chunk c j h =
        let quotient : (c * s.rows_per_chunk + j) / s.rows_per_chunk ≡ c =
          omega (arith, mul-add-div_right rows-pos c j, div-eq_of_lt h) in
        let remainder : (c * s.rows_per_chunk + j) % s.rows_per_chunk ≡ j =
          mul-add-mod_self_right c s.rows_per_chunk j ∙ mod-eq_of_lt h in
        rw
          (
            shift-div (c * s.rows_per_chunk + j),
            mask-mod (c * s.rows_per_chunk + j),
            quotient,
            remainder,
          )
          refl

  -- Two stores with the same mapped part, whose heap chunks agree on a row.
  pub row_at_congr :
      (s t : VectorStore F) (v : IsValid s) (u : IsValid t) (id : ℕ)
      → t.rows_per_chunk ≡ s.rows_per_chunk
      → t.dim ≡ s.dim
      → t.mapped_rows ≡ s.mapped_rows
      → t.owner ≡ s.owner
      → length s.owned_chunks ≤ length t.owned_chunks
      → id < capacity blank s
      → ((c : ℕ)
          → id / s.rows_per_chunk ≡ v.mapped_chunks + c
          → c < length s.owned_chunks
          → take s.dim (drop (id % s.rows_per_chunk * s.dim) (get_or t.owned_chunks c []))
            ≡ take s.dim (drop (id % s.rows_per_chunk * s.dim) (get_or s.owned_chunks c [])))
      → row_at blank t id ≡ row_at blank s id
  row_at_congr s t v u id er ed same eo el h agree =
      let em : u.mapped_chunks ≡ v.mapped_chunks =
        eq_of_mul-eq-mul_right s.rows_per_chunk (rows-pos s v) u.mapped_chunks v.mapped_chunks
          (rw er at (sym u.mapped_size) ∙ same ∙ v.mapped_size) in
      elim (Bool-cases (ltb (id / s.rows_per_chunk) v.mapped_chunks)) [
        | inl low ↦
            let below = ltb→lt _ _ low in
            rw (row_at-mapped s v id below, row_at-mapped t u id (rw (er, em) below), er, ed, eo)
              refl
        | inr high ↦
            let c = id / s.rows_per_chunk - v.mapped_chunks in
            let split : id / s.rows_per_chunk ≡ v.mapped_chunks + c = ground arith in
            let inside : c < length s.owned_chunks =
              omega (arith, split, chunk-lt s v id h, v.directory) in
            rw
              (
                row_at-heap s v id c split inside,
                row_at-heap t u id c (rw (er, em) split) (omega arith),
                er,
                ed,
              )
              (agree c split inside)
      ]
