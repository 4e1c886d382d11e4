-- ===== src/Storage/BinaryIo/Copies.antt =====
-- src/storage/binary_io.cpp: the read of bytes into the caller's memory.
use vector_forge.Common.{ℕ, List, Option, none, some, ◌+◌, if◌then◌else◌, ltb, take, drop}
use vector_forge.Storage.BinaryIo.{ByteReader, remaining}

-- The `count` bytes that fill the output, and the reader after them.
unfoldable pub read_bytes : ℕ → ByteReader → Option (List ℕ × ByteReader)
read_bytes count r =
    if ltb (remaining r) count
    then none
    else some (take count (drop r.position r.bytes), record r { position = r.position + count })
