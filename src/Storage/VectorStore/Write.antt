-- ===== src/Storage/VectorStore/Write.antt =====
-- Writing one row of a heap chunk leaves the other rows.
use native.Mathlib.Nat.{mul-div_cancel, le-div_iff_mul-le, div-add-mod', mul-le-mul_right}
use vector_forge.Common.{
  ℕ, suc, ◌+◌, ◌-◌, ◌*◌, ◌/◌, ◌%◌, ◌≤◌, ◌<◌, ◌≡◌, ◌≢◌, refl, sym, ap, ◌∙◌, true, List, [], length,
  get_or, set, take, drop, arith, Bool-cases, inl, inr, ltb, ltb→lt, ◌==◌, ◌&&◌, ==_iff, ==_refl,
  length-set, get_or-set, leb, if◌then◌else◌,
}
use vector_forge.Core.Status.{Returns}
use vector_forge.Storage.VectorStore.{VectorStore, capacity, row_at, copy_to, write_heap_row}
use vector_forge.Storage.VectorStore.Memory.{
  length-copy_to, copy_to-same, copy_to-before, copy_to-after,
}
use vector_forge.Storage.VectorStore.Invariant.{
  IsValid, rows-pos, shift-div, mask-mod, row_end, chunk-lt, row_at-heap, row_at_congr,
}

module _ {F : Type 0} (blank : F) where
  -- Rows of a chunk that are not the same row do not overlap.
  row_gap : (a b d : ℕ) → a < b → a * d + d ≤ b * d
  row_gap a b d h = omega (arith, mul-le-mul_right {m = suc a} {n = b} d h)

  copy_to-other :
      (d : List F) (a b n : ℕ) (r : List F)
      → a ≢ b
      → length r ≡ n
      → take n (drop (b * n) (copy_to blank d (a * n) r)) ≡ take n (drop (b * n) d)
  copy_to-other d a b n r ne e = elim (Bool-cases (ltb a b)) [
    | inl less ↦
        rw
          (copy_to-after blank d (a * n) (b * n) n r
            (omega (arith, row_gap a b n (ltb→lt _ _ less))))
          refl
    | inr more ↦ copy_to-before blank d (a * n) (b * n) n r (row_gap b a n (ground arith))
  ]

  -- A row with the last id in use, in a heap chunk, is written.
  module _ (s : VectorStore F) (v : IsValid blank s) (id : ℕ) (r : List F) where
    pub record Written (t : VectorStore F) : Type 0 where
      pub valid : IsValid blank t
      pub dim : t.dim ≡ s.dim
      pub max_rows : t.max_rows ≡ s.max_rows
      pub mapped_rows : t.mapped_rows ≡ s.mapped_rows
      pub owner : t.owner ≡ s.owner
      pub rows_per_chunk : t.rows_per_chunk ≡ s.rows_per_chunk
      pub size : t.size ≡ s.size
      pub new : row_at blank t id ≡ r
      pub rows : (i : ℕ) → i < capacity blank s → i ≢ id → row_at blank t i ≡ row_at blank s i

    module _ (low : s.mapped_rows ≤ id) (high : id < s.size) (fits : length r ≡ s.dim) where
      abbrev place : ℕ
      place = id / s.rows_per_chunk - v.mapped_chunks

      abbrev old : List F
      old = get_or s.owned_chunks place []

      abbrev new_chunk : List F
      new_chunk = copy_to blank old (id % s.rows_per_chunk * s.dim) r

      abbrev written : VectorStore F
      written = record s { owned_chunks = set s.owned_chunks place new_chunk }

      chunk_split : id / s.rows_per_chunk ≡ v.mapped_chunks + place
      chunk_split =
          let enough =
            (le-div_iff_mul-le {k = s.rows_per_chunk} {x = v.mapped_chunks} {y = id}
                (rows-pos blank s v)).1
              (omega (arith, low, v.mapped_size)) in
          omega (arith, enough)

      place-lt : place < length s.owned_chunks
      place-lt =
          omega
            (arith, chunk_split, chunk-lt blank s v id (omega (arith, high, v.room)), v.directory)

      length-new_chunk : length new_chunk ≡ s.rows_per_chunk * s.dim
      length-new_chunk =
          length-copy_to blank old (id % s.rows_per_chunk * s.dim) r ∙ v.chunk_size place place-lt

      written_chunk :
          (c : ℕ)
          → get_or written.owned_chunks c []
            ≡ (if place == c then new_chunk else get_or s.owned_chunks c [])
      written_chunk c = get_or-set s.owned_chunks place c new_chunk [] place-lt

      written-IsValid : IsValid blank written
      unfolding capacity
      written-IsValid = record {
        shift = v.shift;
        mask = v.mask;
        bytes = v.bytes;
        mapped_chunks = v.mapped_chunks;
        mapped_size = v.mapped_size;
        directory = omega (arith, length-set s.owned_chunks place new_chunk, v.directory);
        mapped_at = v.mapped_at;
        heap_at = λ c d h. v.heap_at c d (omega (arith, length-set s.owned_chunks place new_chunk));
        chunk_size = λ c h. elim (Bool-cases (place == c)) [
          | inl here ↦ rw (written_chunk c, here) length-new_chunk
          | inr other ↦
              rw (written_chunk c, other)
                (v.chunk_size c (omega (arith, length-set s.owned_chunks place new_chunk)))
        ];
        some_rows = v.some_rows;
        room = v.room;
        limit = v.limit;
        width = v.width;
      }

      written-rows :
          (i : ℕ) → i < capacity blank s → i ≢ id → row_at blank written i ≡ row_at blank s i
      written-rows i h ne =
          row_at_congr blank s written v written-IsValid i refl refl refl refl
            (omega (arith, length-set s.owned_chunks place new_chunk)) h
            (λ c e k. elim (Bool-cases (place == c)) [
              | inr other ↦ rw (written_chunk c, other) refl
              | inl here ↦
                  let same : place ≡ c = (==_iff place c).0 here in
                  let apart : id % s.rows_per_chunk ≢ i % s.rows_per_chunk =
                    λ p. ne (id_of i c e same p) in
                  rw (written_chunk c, here, sym same)
                    (copy_to-other old (id % s.rows_per_chunk) (i % s.rows_per_chunk) s.dim r apart
                      fits)
            ])
        where
          id_of :
              (i c : ℕ)
              → i / s.rows_per_chunk ≡ v.mapped_chunks + c
              → place ≡ c
              → id % s.rows_per_chunk ≡ i % s.rows_per_chunk
              → i ≡ id
          id_of i c e same p =
              let quotient : i / s.rows_per_chunk ≡ id / s.rows_per_chunk =
                omega (arith, e, same, chunk_split) in
              sym (div-add-mod' i s.rows_per_chunk)
              ∙ ap (λ q. q * s.rows_per_chunk + i % s.rows_per_chunk) quotient
              ∙ ap (λ q. id / s.rows_per_chunk * s.rows_per_chunk + q) (sym p)
              ∙ div-add-mod' id s.rows_per_chunk

      written-new : row_at blank written id ≡ r
      unfolding written-IsValid
      written-new =
          let stored : get_or written.owned_chunks place [] ≡ new_chunk =
            rw (written_chunk place, ==_refl place) refl in
          let back =
            copy_to-same blank old (id % s.rows_per_chunk * s.dim) r
              (omega (arith, fits, row_end blank s v id, v.chunk_size place place-lt)) in
          rw
            (
              row_at-heap blank written written-IsValid id place chunk_split
                  (omega (arith, place-lt, length-set s.owned_chunks place new_chunk)),
              stored,
            )
            (rw fits at back)

      pub write_heap_row-Written : Returns (write_heap_row blank s id r) Written
      unfolding write_heap_row
      write_heap_row-Written =
          let inside : (leb s.mapped_rows id && ltb id (capacity blank s)) ≡ true =
            ground (arith, v.room) in
          let first : s.mapped_rows / s.rows_per_chunk ≡ v.mapped_chunks =
            rw v.mapped_size (mul-div_cancel v.mapped_chunks (rows-pos blank s v)) in
          rw
            (
              inside,
              shift-div blank s v id,
              shift-div blank s v s.mapped_rows,
              first,
              mask-mod blank s v id,
              write_heap_row,
            )
            (
              written,
              refl,
              record {
                valid = written-IsValid;
                dim = refl;
                max_rows = refl;
                mapped_rows = refl;
                owner = refl;
                rows_per_chunk = refl;
                size = refl;
                new = written-new;
                rows = written-rows;
              },
            )
