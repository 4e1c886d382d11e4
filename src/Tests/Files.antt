-- ===== src/Tests/Files.antt =====
-- The encodings of an index file at concrete inputs.
use vector_forge.Common.{ℕ, ◌+◌, ◌%◌, ◌<◌, ◌≡◌, true, List, [], ◌∷◌, some, arith, length, replicate}
use vector_forge.Core.Status.{ok}
use vector_forge.Storage.BinaryIo.{BinaryWriter, pad_to}
use vector_forge.Storage.BinaryIo.Codec.{Appends, pad_to-Appends}
use vector_forge.Storage.Format.{
  SectionEntry, FileMetadata, encode_section_entry, decode_section_entry, encode_metadata,
  decode_metadata,
}
use vector_forge.Storage.Format.Sections.{IsEntry, decode-encode_section_entry}
use vector_forge.Storage.Format.Metadata.{IsMetadata, decode-encode_metadata}

-- A checksum in place of the one of the program.
abbrev sum_lengths : ℕ → List ℕ → ℕ
sum_lengths crc bytes = crc + length bytes

abbrev three_bytes : BinaryWriter
three_bytes = record { sink = 1 ∷ 2 ∷ 3 ∷ []; position = 3; crc = 0 }

pad_to-Appends_example :
    (n : ℕ) × (n < 8)
    × Appends sum_lengths three_bytes (pad_to sum_lengths 8 three_bytes) (replicate n 0)
    × ((pad_to sum_lengths 8 three_bytes).position % 8 ≡ 0)
pad_to-Appends_example = pad_to-Appends sum_lengths 8 three_bytes (omega arith)

abbrev vectors_entry : SectionEntry
vectors_entry = record { type = 2; flags = 0; offset = 4096; size = 1024; crc32c = 99 }

vectors_entry-IsEntry : IsEntry vectors_entry
vectors_entry-IsEntry = record {
  type = omega arith;
  flags = omega arith;
  offset = omega arith;
  size = omega arith;
  crc32c = omega arith;
}

decode-encode_section_entry_example :
    decode_section_entry (record {
      bytes = (encode_section_entry sum_lengths three_bytes vectors_entry).sink;
      position = 3;
    })
    ≡ some (
      vectors_entry,
      true,
      record {
        bytes = (encode_section_entry sum_lengths three_bytes vectors_entry).sink;
        position = 3 + 32;
      },
    )
decode-encode_section_entry_example =
    decode-encode_section_entry sum_lengths three_bytes vectors_entry vectors_entry-IsEntry

abbrev sample : FileMetadata
sample = record {
  dim = 128;
  metric = 0;
  index_type = 1;
  normalize = 0;
  node_count = 1000;
  live_count = 990;
  m = 16;
  m0 = 32;
  ef_construction = 200;
  ef_search = 50;
  max_level_cap = 16;
  max_level = 3;
  entry_point = 17;
  seed = 12345;
  creator = 118 ∷ 102 ∷ [];
  created_unix_ms = 1700000000000;
}

sample-IsMetadata : IsMetadata sample
sample-IsMetadata = record {
  dim = omega arith;
  metric = omega arith;
  index_type = omega arith;
  normalize = omega arith;
  node_count = omega arith;
  live_count = omega arith;
  m = omega arith;
  m0 = omega arith;
  ef_construction = omega arith;
  ef_search = omega arith;
  max_level_cap = omega arith;
  max_level = omega arith;
  entry_point = omega arith;
  seed = omega arith;
  created_unix_ms = omega arith;
  creator = omega arith;
}

decode-encode_metadata_example :
    decode_metadata
      (encode_metadata sum_lengths (record { sink = []; position = 0; crc = 0 }) sample).sink
    ≡ ok sample
decode-encode_metadata_example = decode-encode_metadata sum_lengths sample sample-IsMetadata
