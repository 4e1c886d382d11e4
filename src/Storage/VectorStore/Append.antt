-- ===== src/Storage/VectorStore/Append.antt =====
-- `append`, `pop_back` and `reserve`: the store is a sequence of rows.
use native.Mathlib.Nat.{mod-eq_of_lt}
use vector_forge.Common.{
  ℕ, zero, suc, ◌+◌, ◌%◌, ◌^◌, ◌≤◌, ◌<◌, ◌≡◌, ◌≢◌, refl, sym, ap, ◌∙◌, true, false, List, length,
  arith, Bool-cases, inl, inr, ltb, lt→ltb, ◌==◌, leb,
}
use vector_forge.Core.Status.{ok, err, Returns, ◌>>=◌, dimension_mismatch, resource_exhausted}
use vector_forge.Storage.VectorStore.{
  VectorStore, capacity, memory, row_at, row, add_chunk, write_heap_row, append, reserve,
  reserve_loop,
}
use vector_forge.Storage.VectorStore.Invariant.{IsValid, rows-pos}
use vector_forge.Storage.VectorStore.Grow.{Extends, capacity-add_chunk, add_chunk-Extends}
use vector_forge.Storage.VectorStore.Write.{write_heap_row-Written}

module _ {F : Type 0} (blank : F) where
  -- What `append` does to the rows.
  pub record Appended (s : VectorStore F) (r : List F) (id : ℕ) (t : VectorStore F) : Type 0 where
    pub next : id ≡ s.size
    pub valid : IsValid blank t
    pub size : t.size ≡ s.size + 1
    pub dim : t.dim ≡ s.dim
    pub max_rows : t.max_rows ≡ s.max_rows
    pub mapped_rows : t.mapped_rows ≡ s.mapped_rows
    pub owner : t.owner ≡ s.owner
    pub rows_per_chunk : t.rows_per_chunk ≡ s.rows_per_chunk
    pub new : row blank t id ≡ ok r
    pub rows : (i : ℕ) → i < s.size → row blank t i ≡ row blank s i

  pub Extends-refl : (s : VectorStore F) → IsValid blank s → Extends blank s s
  Extends-refl s v = record {
    valid = v;
    size = refl;
    dim = refl;
    max_rows = refl;
    mapped_rows = refl;
    owner = refl;
    rows_per_chunk = refl;
    rows = λ id h. refl;
  }

  Extends-trans :
      (s t u : VectorStore F) → Extends blank s t → Extends blank t u → Extends blank s u
  Extends-trans s t u a b = record {
    valid = b.valid;
    size = b.size ∙ a.size;
    dim = b.dim ∙ a.dim;
    max_rows = b.max_rows ∙ a.max_rows;
    mapped_rows = b.mapped_rows ∙ a.mapped_rows;
    owner = b.owner ∙ a.owner;
    rows_per_chunk = b.rows_per_chunk ∙ a.rows_per_chunk;
    rows = λ id h. b.rows id (omega (arith, a.size)) ∙ a.rows id h;
  }

  bumped-IsValid :
      (t : VectorStore F)
      → IsValid blank t
      → t.size < capacity blank t
      → t.size < t.max_rows
      → IsValid blank (record t { size = t.size + 1 })
  unfolding capacity
  bumped-IsValid t v room limit = record {
    shift = v.shift;
    mask = v.mask;
    bytes = v.bytes;
    mapped_chunks = v.mapped_chunks;
    mapped_size = v.mapped_size;
    directory = v.directory;
    mapped_at = v.mapped_at;
    heap_at = v.heap_at;
    chunk_size = v.chunk_size;
    some_rows = omega (arith, v.some_rows);
    room = omega arith;
    limit = omega arith;
    width = v.width;
  }

  pub row-ok : (s : VectorStore F) (id : ℕ) → id < s.size → row blank s id ≡ ok (row_at blank s id)
  unfolding row
  row-ok s id h = rw (lt→ltb _ _ h, row) refl

  -- The store after room was made.
  module _ (s t : VectorStore F) (r : List F) (e : Extends blank s t)
      (room : t.size < capacity blank t) (limit : s.size < s.max_rows)
      (fits : length r ≡ s.dim) where
    append_to :
        Returns {A = ℕ × VectorStore F}
          (do
            written ← write_heap_row blank (record t { size = t.size + 1 }) (t.size % 2 ^ 32) r
            ok (t.size % 2 ^ 32, written))
          (λ (p : ℕ × VectorStore F). Appended s r p.0 p.1)
    unfolding capacity row_at memory
    append_to =
        let u = e.valid in
        let id : t.size % 2 ^ 32 ≡ t.size =
          mod-eq_of_lt (omega (arith, e.size, e.max_rows, u.width)) in
        let bumped = bumped-IsValid t u room (omega (arith, e.size, e.max_rows)) in
        let (written, eq, w) =
          write_heap_row-Written blank (record t { size = t.size + 1 }) bumped t.size r u.some_rows
            (omega arith) (fits ∙ sym e.dim) in
        rw (id, eq)
          (
            (t.size, written),
            refl,
            record {
              next = e.size;
              valid = w.valid;
              size = omega (arith, w.size, e.size);
              dim = w.dim ∙ e.dim;
              max_rows = w.max_rows ∙ e.max_rows;
              mapped_rows = w.mapped_rows ∙ e.mapped_rows;
              owner = w.owner ∙ e.owner;
              rows_per_chunk = w.rows_per_chunk ∙ e.rows_per_chunk;
              new = row-ok written t.size (omega (arith, w.size)) ∙ ap ok w.new;
              rows = λ i h.
                  row-ok written i (omega (arith, w.size, e.size))
                  ∙ ap ok
                      (w.rows i (omega (arith, e.size)) (λ p. omega (arith, e.size)) ∙ e.rows i h)
                  ∙ sym (row-ok s i h);
            },
          )

  -- In a valid store, a row of the right length, below the limit: `append` returns the next id and
  -- a valid store with the row under that id and every earlier row unchanged.
  pub append-Appended :
      (s : VectorStore F) (r : List F)
      → IsValid blank s
      → length r ≡ s.dim
      → s.size < s.max_rows
      → Returns (append blank s r) (λ p. Appended s r p.0 p.1)
  unfolding append
  append-Appended s r v fits limit =
      let sized : (length r == s.dim) ≡ true = ground arith in
      elim (Bool-cases (s.size == capacity blank s)) [
        | inl full ↦
            rw (sized, lt→ltb _ _ limit, full, append)
              (append_to s (add_chunk blank s) r (add_chunk-Extends blank s v)
                (ground (
                  arith,
                  capacity-add_chunk blank s,
                  rows-pos blank s v,
                  (add_chunk-Extends blank s v).size,
                ))
                limit fits)
        | inr room ↦
            rw (sized, lt→ltb _ _ limit, room, append)
              (append_to s s r (Extends-refl s v) (ground (arith, v.room)) limit fits)
      ]

  -- A row of another length is refused.
  pub append-mismatch :
      (s : VectorStore F) (r : List F)
      → length r ≢ s.dim
      → append blank s r ≡ err dimension_mismatch
  unfolding append
  append-mismatch s r ne =
      let other : (length r == s.dim) ≡ false = ground arith in rw (other, append) refl

  -- At the limit, a row of the right length is refused.
  pub append-exhausted :
      (s : VectorStore F) (r : List F)
      → length r ≡ s.dim
      → s.max_rows ≤ s.size
      → append blank s r ≡ err resource_exhausted
  unfolding append
  append-exhausted s r e full =
      let same : (length r == s.dim) ≡ true = ground arith in
      let no_room : ltb s.size s.max_rows ≡ false = ground arith in rw (same, no_room, append) refl

  reserve_loop-Extends :
      (f rows : ℕ) (s : VectorStore F)
      → IsValid blank s
      → rows ≤ capacity blank s + f
      → Extends blank s (reserve_loop blank f rows s)
        × (rows ≤ capacity blank (reserve_loop blank f rows s))
  unfolding reserve_loop
  reserve_loop-Extends zero rows s v h = (Extends-refl s v, omega arith)
  reserve_loop-Extends (suc f) rows s v h = elim (Bool-cases (ltb (capacity blank s) rows)) [
    | inr enough ↦ rw (enough, reserve_loop) (Extends-refl s v, ground arith)
    | inl more ↦
        let one = add_chunk-Extends blank s v in
        let (rest, room) =
          reserve_loop-Extends f rows (add_chunk blank s) one.valid
            (omega (arith, capacity-add_chunk blank s, rows-pos blank s v)) in
        rw (more, reserve_loop) (Extends-trans s (add_chunk blank s) _ one rest, room)
  ]

  -- In a valid store, up to the limit, `reserve` returns a valid store with room for that many
  -- rows, and with the rows that there were.
  pub reserve-Extends :
      (s : VectorStore F) (rows : ℕ)
      → IsValid blank s
      → rows ≤ s.max_rows
      → Returns (reserve blank s rows) (λ t. Extends blank s t × (rows ≤ capacity blank t))
  unfolding reserve
  reserve-Extends s rows v h =
      let fits : leb rows s.max_rows ≡ true = ground arith in
      rw (fits, reserve) (_, refl, reserve_loop-Extends rows rows s v (omega arith))
