-- ===== src/Storage/VectorStore.antt =====
-- src/storage/vector_store.{hpp,cpp}: rows of floats in chunks behind a directory.
-- A directory entry is a pointer into the mapped memory, by its offset in floats, or a heap chunk by
-- its place; memory that is not initialised holds `blank`. An allocation succeeds; a read through a
-- directory entry or a heap chunk that does not exist finds no floats. The moves are left out.
pub mod Memory
pub mod Invariant
pub mod Grow
pub mod Write
pub mod Append
pub mod Undo
pub mod Moves
pub mod Create
pub mod Mapped
use Prim.Native.Nat.{bit_and}
use vector_forge.Common.{
  ℕ, zero, suc, ◌+◌, ◌-◌, ◌*◌, ◌/◌, ◌%◌, ◌^◌, min, max, Bool, List, [], ◌∷◌, ◌++◌, Option, none,
  some, ◌||◌, ◌&&◌, ◌==◌, not, if◌then◌else◌, ltb, leb, length, get_or, set, take, drop, replicate,
}
use vector_forge.Common.Words.{has_single_bit, countr_zero, bit_floor}
use vector_forge.Core.Status.{
  Result, Status, ok, err, ◌>>=◌, ◌>>◌, require, check, invalid_argument, dimension_mismatch,
  resource_exhausted,
}
use vector_forge.Core.Types.{max_dim, max_vectors_per_collection}
use vector_forge.Core.CheckedMath.{checked_mul3}

abbrev pub target_chunk_bytes : ℕ
target_chunk_bytes = 16 * 2 ^ 20

abbrev pub max_default_rows_per_chunk : ℕ
max_default_rows_per_chunk = 2 ^ 16

pub record Options : Type 0 where
  pub dim : ℕ
  pub rows_per_chunk : ℕ
  pub max_rows : ℕ

pub data Chunk : Type 0 where
  mapped : ℕ → Chunk
  heap : ℕ → Chunk

pub record VectorStore (F : Type 0) : Type 0 where
  pub dim : ℕ
  pub rows_per_chunk : ℕ
  pub chunk_shift : ℕ
  pub chunk_mask : ℕ
  pub max_rows : ℕ
  pub chunk_bytes : ℕ
  pub size : ℕ
  pub mapped_rows : ℕ
  pub chunk_ptrs : List Chunk
  pub owned_chunks : List (List F)
  pub owner : List F

unfoldable pub default_rows_per_chunk : ℕ → ℕ
default_rows_per_chunk dim =
    if dim == 0
    then 1
    else min (bit_floor 64 (max 1 (target_chunk_bytes / (dim * 4)))) max_default_rows_per_chunk

module _ {F : Type 0} (blank : F) where
  -- The private constructor.
  abbrev pub construct : ℕ → ℕ → ℕ → ℕ → VectorStore F
  construct dim rows_per_chunk max_rows chunk_bytes = record {
    dim = dim;
    rows_per_chunk = rows_per_chunk;
    chunk_shift = countr_zero 64 rows_per_chunk;
    chunk_mask = rows_per_chunk - 1;
    max_rows = max_rows;
    chunk_bytes = chunk_bytes;
    size = 0;
    mapped_rows = 0;
    chunk_ptrs = [];
    owned_chunks = [];
    owner = [];
  }

  unfoldable pub create : Options → Result (VectorStore F)
  create o = do
    require (not (ltb o.dim 1 || ltb max_dim o.dim)) invalid_argument
    let rows_per_chunk =
        if o.rows_per_chunk == 0 then default_rows_per_chunk o.dim else o.rows_per_chunk
    require (has_single_bit 64 rows_per_chunk) invalid_argument
    require (not (ltb o.max_rows 1 || ltb max_vectors_per_collection o.max_rows)) invalid_argument
    elim (checked_mul3 64 rows_per_chunk o.dim 4) [
      | none ↦ err invalid_argument
      | some chunk_bytes ↦ ok (construct o.dim rows_per_chunk o.max_rows chunk_bytes)
    ]

  unfoldable pub capacity : VectorStore F → ℕ
  capacity s = length s.chunk_ptrs * s.rows_per_chunk

  unfoldable pub add_chunk : VectorStore F → VectorStore F
  add_chunk s = record s {
    chunk_ptrs = s.chunk_ptrs ++ heap (length s.owned_chunks) ∷ [];
    owned_chunks = s.owned_chunks ++ replicate (s.chunk_bytes / 4) blank ∷ [];
  }

  -- `std::copy_n` of all of a list to an offset; what lies past the end is not written.
  unfoldable pub copy_to : List F → ℕ → List F → List F
  copy_to [] offset row = []
  copy_to (x ∷ d) (suc offset) row = x ∷ copy_to d offset row
  copy_to (x ∷ d) zero [] = x ∷ d
  copy_to (x ∷ d) zero (y ∷ row) = y ∷ copy_to d zero row

  -- The copy to `heap_row_ptr (id)`.
  unfoldable pub write_heap_row : VectorStore F → ℕ → List F → Result (VectorStore F)
  write_heap_row s id row = do
    check (leb s.mapped_rows id && ltb id (capacity s))
    let heap_chunk = id / 2 ^ s.chunk_shift - s.mapped_rows / 2 ^ s.chunk_shift
    let chunk = get_or s.owned_chunks heap_chunk []
    ok (record s {
      owned_chunks =
          set s.owned_chunks heap_chunk (copy_to chunk (bit_and id s.chunk_mask * s.dim) row);
    })

  unfoldable pub append : VectorStore F → List F → Result (ℕ × VectorStore F)
  append s row = do
    require (length row == s.dim) dimension_mismatch
    require (ltb s.size s.max_rows) resource_exhausted
    let t = if s.size == capacity s then add_chunk s else s
    let id = t.size % 2 ^ 32
    written ← write_heap_row (record t { size = t.size + 1 }) id row
    ok (id, written)

  unfoldable pub pop_back : VectorStore F → Result (VectorStore F)
  pop_back s = do check (ltb s.mapped_rows s.size); ok (record s { size = s.size - 1 })

  -- The loop of `reserve`; each round adds a row at least, so `rows` rounds are enough.
  unfoldable pub reserve_loop : ℕ → ℕ → VectorStore F → VectorStore F
  reserve_loop zero rows s = s
  reserve_loop (suc f) rows s =
      let more = reserve_loop f rows (add_chunk s) in if ltb (capacity s) rows then more else s

  unfoldable pub reserve : VectorStore F → ℕ → Result (VectorStore F)
  reserve s rows = do
    require (leb rows s.max_rows) resource_exhausted
    ok (reserve_loop rows rows s)

  -- The memory from a directory entry on.
  unfoldable pub memory : VectorStore F → Chunk → List F
  memory s (mapped offset) = drop offset s.owner
  memory s (heap i) = get_or s.owned_chunks i []

  -- The `dim` floats at `row_ptr (id)`.
  unfoldable pub row_at : VectorStore F → ℕ → List F
  row_at s id =
      let chunk = get_or s.chunk_ptrs (id / 2 ^ s.chunk_shift) (heap (length s.owned_chunks)) in
      take s.dim (drop (bit_and id s.chunk_mask * s.dim) (memory s chunk))

  unfoldable pub row : VectorStore F → ℕ → Result (List F)
  row s id = do check (ltb id s.size); ok (row_at s id)

  unfoldable pub rows_in_chunk : VectorStore F → ℕ → ℕ
  rows_in_chunk s chunk =
      let start = chunk * s.rows_per_chunk in
      let remaining = s.size - start in
      if leb s.size start
      then 0
      else if ltb remaining s.rows_per_chunk
      then remaining
      else s.rows_per_chunk

  unfoldable pub chunk_data : VectorStore F → ℕ → Result (List F)
  chunk_data s chunk = do
    check (ltb chunk (length s.chunk_ptrs))
    ok (memory s (get_or s.chunk_ptrs chunk (heap (length s.owned_chunks))))

  -- The directory of `count` mapped chunks from chunk `c` on.
  unfoldable pub mapped_ptrs : ℕ → ℕ → ℕ → List Chunk
  mapped_ptrs chunk_bytes c zero = []
  mapped_ptrs chunk_bytes c (suc count) =
      mapped (c * chunk_bytes / 4) ∷ mapped_ptrs chunk_bytes (c + 1) count

  -- The loop that copies the rows after the full chunks.
  unfoldable pub append_tail : List F → ℕ → ℕ → VectorStore F → Result (VectorStore F)
  append_tail rows r zero s = ok s
  append_tail rows r (suc tail) s = do
    (id, next) ← append s (take s.dim (drop ((s.mapped_rows + r) * s.dim) rows))
    append_tail rows (r + 1) tail next

  unfoldable pub create_mapped : Options → List F → ℕ → Result (VectorStore F)
  create_mapped o rows count = do
    store ← create o
    require (leb count store.max_rows) resource_exhausted
    let full_chunks = count / store.rows_per_chunk
    let mapped_rows = full_chunks * store.rows_per_chunk
    append_tail rows 0 (count - mapped_rows) (record store {
      chunk_ptrs = mapped_ptrs store.chunk_bytes 0 full_chunks;
      mapped_rows = mapped_rows;
      size = mapped_rows;
      owner = rows;
    })
