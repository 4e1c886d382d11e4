-- ===== src/Storage/VectorStore/Mapped.antt =====
-- `create_mapped`: the rows of the mapped memory, some of them copied.
use native.Mathlib.Nat.{
  div-lt_iff_lt-mul, div-mul-le_self, mul_assoc, div-add-mod', mul-le-mul_right,
}
use vector_forge.Common.{
  ℕ, zero, suc, ◌+◌, ◌-◌, ◌*◌, ◌/◌, ◌%◌, ◌≤◌, ◌<◌, ◌≡◌, refl, sym, ap, ◌∙◌, true, List, length,
  get_or, take, drop, arith, Bool-cases, inl, inr, ltb, ltb→lt, drop-drop, length-take, length-drop,
  leb,
}
use vector_forge.Core.Status.{ok, Returns}
use vector_forge.Storage.VectorStore.{VectorStore, Chunk, mapped, capacity, row}
use vector_forge.Storage.VectorStore.Invariant.{IsValid, rows-pos}
use vector_forge.Storage.VectorStore.{Options, create_mapped, append_tail, mapped_ptrs}
use vector_forge.Storage.VectorStore.Append.{Appended, append-Appended, row-ok}
use vector_forge.Storage.VectorStore.Invariant.{row_at-mapped}
use vector_forge.Storage.VectorStore.Create.{IsAcceptable, Created, create-Created}

module _ {F : Type 0} (blank : F) where
  length-mapped_ptrs : (bytes c n : ℕ) → length (mapped_ptrs blank bytes c n) ≡ n
  unfolding mapped_ptrs
  length-mapped_ptrs bytes c zero = refl
  length-mapped_ptrs bytes c (suc n) = ap suc (length-mapped_ptrs bytes (c + 1) n)

  mapped_ptrs-at :
      (bytes c n i : ℕ) (d : Chunk)
      → i < n
      → get_or (mapped_ptrs blank bytes c n) i d ≡ mapped ((c + i) * bytes / 4)
  unfolding mapped_ptrs
  mapped_ptrs-at bytes c zero i d h = absurd (omega arith)
  mapped_ptrs-at bytes c (suc n) zero d h = ap (λ k. mapped (k * bytes / 4)) (omega arith)
  mapped_ptrs-at bytes c (suc n) (suc i) d h =
      mapped_ptrs-at bytes (c + 1) n i d (omega arith)
      ∙ ap (λ k. mapped (k * bytes / 4)) (omega arith)

  -- Row `i` of the mapped memory.
  abbrev pub slice : ℕ → List F → ℕ → List F
  slice dim rows i = take dim (drop (i * dim) rows)

  -- A valid store with the first rows of the memory.
  pub record Holds (rows : List F) (count : ℕ) (s : VectorStore F) : Type 0 where
    pub valid : IsValid blank s
    pub size : s.size ≡ count
    pub all : (i : ℕ) → i < count → row blank s i ≡ ok (slice s.dim rows i)

  length-slice :
      (dim : ℕ) (rows : List F) (i : ℕ)
      → i * dim + dim ≤ length rows
      → length (slice dim rows i) ≡ dim
  length-slice dim rows i h =
      omega (arith, length-take dim (drop (i * dim) rows), length-drop (i * dim) rows)

  Holds-append :
      (rows : List F) (count id : ℕ) (s t : VectorStore F)
      → Holds rows count s
      → Appended blank s (slice s.dim rows count) id t
      → Holds rows (suc count) t
  Holds-append rows count id s t h a = record {
    valid = a.valid;
    size = omega (arith, a.size, h.size);
    all = λ i p. elim (Bool-cases (ltb i count)) [
      | inl old ↦
          a.rows i (omega (arith, h.size, ltb→lt _ _ old))
          ∙ h.all i (ltb→lt _ _ old)
          ∙ ap (λ d. ok (slice d rows i)) (sym a.dim)
      | inr new ↦
          let same : i ≡ count = ground arith in
          let last : i ≡ id = omega (arith, same, a.next, h.size) in
          ap (row blank t) last
          ∙ a.new
          ∙ ap (λ n. ok (slice s.dim rows n)) (sym same)
          ∙ ap (λ d. ok (slice d rows i)) (sym a.dim)
    ];
  }

  append_tail-Holds :
      (rows : List F) (tail r count n : ℕ) (s : VectorStore F)
      → Holds rows count s
      → count ≡ s.mapped_rows + r
      → n ≡ count + tail
      → n ≤ s.max_rows
      → n * s.dim ≤ length rows
      → Returns
          (append_tail blank rows r tail s)
          (λ t. Holds rows n t × (t.dim ≡ s.dim) × (t.max_rows ≡ s.max_rows))
  unfolding append_tail
  append_tail-Holds rows zero r count n s h at sum l k =
      let done : count ≡ n = omega arith in (s, refl, (rw done at h, refl, refl))
  append_tail-Holds rows (suc tail) r count n s h at sum l k =
      let inside : count * s.dim + s.dim ≤ length rows =
        omega (arith, mul-le-mul_right {m = suc count} {n = n} s.dim (omega arith)) in
      let (pair, e, a) =
        append-Appended blank s (slice s.dim rows count) h.valid
          (length-slice s.dim rows count inside) (omega (arith, h.size)) in
      let (u, e', p) =
        append_tail-Holds rows tail (r + 1) (suc count) n pair.1
          (Holds-append rows count pair.0 s pair.1 h a) (omega (arith, a.mapped_rows)) (omega arith)
          (omega (arith, a.max_rows)) (rw a.dim k) in
      rw (sym at, e) (u, e', (p.0, p.1 ∙ a.dim, p.2 ∙ a.max_rows))

  module _ (o : Options) (rows : List F) (count : ℕ) (s : VectorStore F) (c : Created blank o s)
      (some_rows : count * o.dim ≤ length rows) (limit : count ≤ o.max_rows) where
    abbrev full : ℕ
    full = count / s.rows_per_chunk

    abbrev base : VectorStore F
    base = record s {
      chunk_ptrs = mapped_ptrs blank s.chunk_bytes 0 full;
      mapped_rows = full * s.rows_per_chunk;
      size = full * s.rows_per_chunk;
      owner = rows;
    }

    ptr_offset : (i : ℕ) → i * s.chunk_bytes / 4 ≡ i * (s.rows_per_chunk * s.dim)
    ptr_offset i = rw (c.valid.bytes, sym (mul_assoc i (s.rows_per_chunk * s.dim) 4)) (omega arith)

    base-IsValid : IsValid blank base
    unfolding capacity
    base-IsValid =
        let chunks : length s.owned_chunks ≡ 0 = ap length c.no_chunks in
        let ptrs = length-mapped_ptrs s.chunk_bytes 0 full in
        let low = div-mul-le_self count s.rows_per_chunk in
        record {
          shift = c.valid.shift;
          mask = c.valid.mask;
          bytes = c.valid.bytes;
          mapped_chunks = full;
          mapped_size = refl;
          directory = omega (arith, ptrs, chunks);
          mapped_at = λ i d h.
              mapped_ptrs-at s.chunk_bytes 0 full i d h
              ∙ ap mapped (ap (λ k. k * s.chunk_bytes / 4) (omega arith) ∙ ptr_offset i);
          heap_at = λ i d h. absurd (omega (arith, chunks));
          chunk_size = λ i h. absurd (omega (arith, chunks));
          some_rows = omega arith;
          room = rw ptrs (omega arith);
          limit = omega (arith, low, c.max_rows);
          width = c.valid.width;
        }

    base-Holds : Holds rows (base.mapped_rows + 0) base
    unfolding base-IsValid
    base-Holds = record {
      valid = base-IsValid;
      size = omega arith;
      all = λ i h.
          let chunk : i / s.rows_per_chunk < full =
            (div-lt_iff_lt-mul (rows-pos blank s c.valid)).1 (omega arith) in
          let place : i / s.rows_per_chunk * (s.rows_per_chunk * s.dim)
                + i % s.rows_per_chunk * s.dim
              ≡ i * s.dim =
            let split = ap (λ n. n * s.dim) (div-add-mod' i s.rows_per_chunk) in
            rw (sym (mul_assoc (i / s.rows_per_chunk) s.rows_per_chunk s.dim))
              (omega (arith, split)) in
          row-ok blank base i (omega arith)
          ∙ ap ok (
              row_at-mapped blank base base-IsValid i chunk
              ∙ ap (take s.dim) (
                  drop-drop (i % s.rows_per_chunk * s.dim)
                    (i / s.rows_per_chunk * (s.rows_per_chunk * s.dim)) rows
                  ∙ ap (λ n. drop n rows) place));
    }

  -- For acceptable options, no more rows than the limit, and a memory that has them:
  -- `create_mapped` returns a valid store of `count` rows, each of them the row of that number in
  -- the memory.
  pub create_mapped-Holds :
      (o : Options) (rows : List F) (count : ℕ)
      → IsAcceptable o
      → count ≤ o.max_rows
      → count * o.dim ≤ length rows
      → Returns
          (create_mapped blank o rows count)
          (λ s. Holds rows count s × (s.dim ≡ o.dim) × (s.max_rows ≡ o.max_rows))
  unfolding create_mapped
  create_mapped-Holds o rows count a limit some_rows =
      let (s, e, c) = create-Created blank o a in
      let fits : leb count s.max_rows ≡ true = ground (arith, c.max_rows) in
      let low = div-mul-le_self count s.rows_per_chunk in
      let start = base o rows count s c some_rows limit in
      let (t, e', p) =
        append_tail-Holds rows (count - start.mapped_rows) 0 (start.mapped_rows + 0) count start
          (base-Holds o rows count s c some_rows limit) refl (omega (arith, low))
          (omega (arith, c.max_rows)) (rw c.dim some_rows) in
      rw (e, fits, create_mapped) (t, e', (p.0, p.1 ∙ c.dim, p.2 ∙ c.max_rows))
