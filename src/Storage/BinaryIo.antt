-- ===== src/Storage/BinaryIo.antt =====
-- src/storage/binary_io.{hpp,cpp}: the reader over bytes and the writer into memory.
-- A byte is a number below 256. The writer's sink is MemorySink; the checksum is a parameter.
pub mod Copies
pub mod Bytes
pub mod Codec
use Prim.Native.Nat.{bit_or}
use vector_forge.Common.{
  ℕ, zero, suc, ◌+◌, ◌-◌, ◌*◌, ◌/◌, ◌%◌, ◌^◌, min, Bool, true, false, List, [], ◌∷◌, ◌++◌, Option,
  none, some, if◌then◌else◌, ltb, leb, ◌==◌, not, ◌&&◌, length, get_or, take, drop, replicate,
}
use vector_forge.Core.Status.{Result, Status, ok, err, io_error}
use vector_forge.Core.CheckedMath.{checked_add}

pub record ByteReader : Type 0 where
  pub bytes : List ℕ
  pub position : ℕ

unfoldable pub remaining : ByteReader → ℕ
remaining r = length r.bytes - r.position

-- The loop of `read_le` on an integer of `w` bits: `n` bytes from byte `i` on.
unfoldable pub read_loop : ℕ → List ℕ → ℕ → ℕ → ℕ → ℕ → ℕ
read_loop w bytes position i zero value = value
read_loop w bytes position i (suc n) value =
    read_loop w bytes position (i + 1) n
      (bit_or value (get_or bytes (position + i) 0 * 2 ^ (8 * i) % 2 ^ w))

-- `read_le` for an integer of `size` bytes.
unfoldable pub read_le : ℕ → ByteReader → Option (ℕ × ByteReader)
read_le size r =
    if ltb (remaining r) size
    then none
    else some (
      read_loop (8 * size) r.bytes r.position 0 size 0,
      record r { position = r.position + size },
    )

unfoldable pub read_view : ℕ → ByteReader → Option (List ℕ × ByteReader)
read_view count r =
    if ltb (remaining r) count
    then none
    else some (take count (drop r.position r.bytes), record r { position = r.position + count })

unfoldable pub skip : ℕ → ByteReader → Option ByteReader
skip count r =
    if ltb (remaining r) count then none else some (record r { position = r.position + count })

unfoldable pub seek : ℕ → ByteReader → Option ByteReader
seek position r =
    if ltb (length r.bytes) position then none else some (record r { position = position })

-- MemorySink
unfoldable pub sink_write : List ℕ → List ℕ → List ℕ
sink_write sink bytes = sink ++ bytes

unfoldable pub sink_write_at : List ℕ → ℕ → List ℕ → Result (List ℕ)
sink_write_at sink offset bytes = elim (checked_add 64 offset (length bytes)) [
  | none ↦ err io_error
  | some end ↦
      if ltb (length sink) end
      then err io_error
      else ok (take offset sink ++ bytes ++ drop (offset + length bytes) sink)
]

pub record BinaryWriter : Type 0 where
  pub sink : List ℕ
  pub position : ℕ
  pub crc : ℕ

-- The bytes of an integer from byte `i` on.
unfoldable pub le_bytes : ℕ → ℕ → ℕ → List ℕ
le_bytes value i zero = []
le_bytes value i (suc n) = value / 2 ^ (8 * i) % 256 ∷ le_bytes value (i + 1) n

module _ (crc32c_extend : ℕ → List ℕ → ℕ) where
  -- `bytes`; a write to memory does not fail, so the status stays OK.
  unfoldable pub write_bytes : List ℕ → BinaryWriter → BinaryWriter
  write_bytes bytes w = if length bytes == 0 then w else record {
    sink = sink_write w.sink bytes;
    position = w.position + length bytes;
    crc = crc32c_extend w.crc bytes;
  }

  -- `u8` to `u64`, by the size in bytes.
  unfoldable pub write_le : ℕ → ℕ → BinaryWriter → BinaryWriter
  write_le size value w = write_bytes (le_bytes value 0 size) w

  -- `zeros`, with the rounds left; each writes a byte at least.
  unfoldable pub write_zeros : ℕ → ℕ → BinaryWriter → BinaryWriter
  write_zeros zero count w = w
  write_zeros (suc f) count w =
      let n = min count 4096 in
      let rest = write_zeros f (count - n) (write_bytes (replicate n 0) w) in
      if ltb 0 count then rest else w

  unfoldable pub pad_to : ℕ → BinaryWriter → BinaryWriter
  pad_to alignment w =
      let rem = w.position % alignment in
      if not (rem == 0) then write_zeros (alignment - rem) (alignment - rem) w else w
