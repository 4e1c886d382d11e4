-- ===== src/Storage/Format.antt =====
-- src/storage/format.{hpp,cpp}: the header, the section table and the metadata of an index file.
-- A character of the creator's name is a byte, and an array is the list of its bytes.
pub mod Metadata
pub mod Sections
use Prim.Native.Nat.{bit_and, bit_or}
use vector_forge.Common.{
  ℕ, zero, suc, ◌+◌, ◌-◌, ◌*◌, ◌/◌, ◌%◌, ◌^◌, Bool, true, false, List, [], ◌∷◌, ◌++◌, Option, none,
  some, if◌then◌else◌, ltb, ◌==◌, not, ◌&&◌, ◌||◌, length, get_or, set, take, replicate,
}
use vector_forge.Core.Status.{Result, ok, err, corrupt_data}
use vector_forge.Storage.BinaryIo.{
  ByteReader, BinaryWriter, remaining, read_le, read_view, write_bytes, write_le,
}

abbrev pub magic : List ℕ
magic = 86 ∷ 70 ∷ 73 ∷ 68 ∷ 88 ∷ 13 ∷ 10 ∷ 26 ∷ []

abbrev pub endian_tag : ℕ
endian_tag = 16909060

abbrev pub header_size : ℕ
header_size = 64

abbrev pub header_crc_coverage : ℕ
header_crc_coverage = 56

abbrev pub max_creator_length : ℕ
max_creator_length = 256

pub record FileHeader : Type 0 where
  pub format_major : ℕ
  pub format_minor : ℕ
  pub flags : ℕ
  pub file_size : ℕ
  pub section_table_offset : ℕ
  pub section_count : ℕ
  pub section_table_crc32c : ℕ
  pub header_crc32c : ℕ

pub record SectionEntry : Type 0 where
  pub type : ℕ
  pub flags : ℕ
  pub offset : ℕ
  pub size : ℕ
  pub crc32c : ℕ

pub record FileMetadata : Type 0 where
  pub dim : ℕ
  pub metric : ℕ
  pub index_type : ℕ
  pub normalize : ℕ
  pub node_count : ℕ
  pub live_count : ℕ
  pub m : ℕ
  pub m0 : ℕ
  pub ef_construction : ℕ
  pub ef_search : ℕ
  pub max_level_cap : ℕ
  pub max_level : ℕ
  pub entry_point : ℕ
  pub seed : ℕ
  pub creator : List ℕ
  pub created_unix_ms : ℕ

-- The loop of `put_le` from byte `i` on.
unfoldable pub put_loop : List ℕ → ℕ → ℕ → ℕ → ℕ → List ℕ
put_loop out offset value i zero = out
put_loop out offset value i (suc n) =
    put_loop (set out (offset + i) (value / 2 ^ (8 * i) % 256)) offset value (i + 1) n

unfoldable pub put_le : List ℕ → ℕ → ℕ → ℕ → List ℕ
put_le out offset value width = put_loop out offset value 0 width

unfoldable pub get_loop : List ℕ → ℕ → ℕ → ℕ → ℕ → ℕ
get_loop bytes offset i zero v = v
get_loop bytes offset i (suc n) v =
    get_loop bytes offset (i + 1) n (bit_or v (get_or bytes (offset + i) 0 * 2 ^ (8 * i) % 2 ^ 64))

unfoldable pub get_le : List ℕ → ℕ → ℕ → ℕ
get_le bytes offset width = get_loop bytes offset 0 width 0

unfoldable pub encode_header : (List ℕ → ℕ) → FileHeader → List ℕ
encode_header crc32c h =
    let a = magic ++ replicate 56 0 in
    let b = put_le a 8 h.format_major 2 in
    let c = put_le b 10 h.format_minor 2 in
    let d = put_le c 12 endian_tag 4 in
    let e = put_le d 16 h.flags 8 in
    let f = put_le e 24 h.file_size 8 in
    let g = put_le f 32 h.section_table_offset 8 in
    let i = put_le g 40 h.section_count 4 in
    let j = put_le i 44 h.section_table_crc32c 4 in
    put_le j 56 (crc32c (take header_crc_coverage j)) 4

unfoldable pub decode_header : List ℕ → FileHeader
decode_header bytes = record {
  format_major = get_le bytes 8 2 % 2 ^ 16;
  format_minor = get_le bytes 10 2 % 2 ^ 16;
  flags = get_le bytes 16 8;
  file_size = get_le bytes 24 8;
  section_table_offset = get_le bytes 32 8;
  section_count = get_le bytes 40 4 % 2 ^ 32;
  section_table_crc32c = get_le bytes 44 4 % 2 ^ 32;
  header_crc32c = get_le bytes 56 4 % 2 ^ 32;
}

unfoldable pub header_reserved_zero : List ℕ → Bool
header_reserved_zero bytes = get_le bytes 48 8 == 0 && get_le bytes 60 4 == 0

unfoldable pub encode_section_entry : (ℕ → List ℕ → ℕ) → BinaryWriter → SectionEntry → BinaryWriter
encode_section_entry crc w0 e =
    let w1 = write_le crc 4 e.type w0 in
    let w2 = write_le crc 4 e.flags w1 in
    let w3 = write_le crc 8 e.offset w2 in
    let w4 = write_le crc 8 e.size w3 in let w5 = write_le crc 4 e.crc32c w4 in write_le crc 4 0 w5

infixl 5 ◌then_read◌
abbrev ◌then_read◌ {ℓ κ} : {A : Type ℓ} {B : Type κ} → Option A → (A → Option B) → Option B
none then_read f = none
some x then_read f = f x

-- The entry, whether its reserved field is 0, and the reader after it.
unfoldable pub decode_section_entry : ByteReader → Option (SectionEntry × Bool × ByteReader)
decode_section_entry r0 = read_le 4 r0 then_read λ (type, r1). read_le 4 r1 then_read λ (flags, r2).
    read_le 8 r2 then_read λ (offset, r3). read_le 8 r3 then_read λ (size, r4).
    read_le 4 r4 then_read λ (crc32c, r5). read_le 4 r5 then_read λ (reserved, r6). some (
      record { type = type; flags = flags; offset = offset; size = size; crc32c = crc32c },
      reserved == 0,
      r6,
    )

unfoldable pub metadata_size : FileMetadata → ℕ
metadata_size m = 64 + 2 + length m.creator + 8

unfoldable pub encode_metadata : (ℕ → List ℕ → ℕ) → BinaryWriter → FileMetadata → BinaryWriter
encode_metadata crc w0 m =
    let w1 = write_le crc 4 m.dim w0 in
    let w2 = write_le crc 1 m.metric w1 in
    let w3 = write_le crc 1 m.index_type w2 in
    let w4 = write_le crc 1 m.normalize w3 in
    let w5 = write_le crc 1 0 w4 in
    let w6 = write_le crc 8 m.node_count w5 in
    let w7 = write_le crc 8 m.live_count w6 in
    let w8 = write_le crc 4 m.m w7 in
    let w9 = write_le crc 4 m.m0 w8 in
    let w10 = write_le crc 4 m.ef_construction w9 in
    let w11 = write_le crc 4 m.ef_search w10 in
    let w12 = write_le crc 1 m.max_level_cap w11 in
    let w13 = write_le crc 1 m.max_level w12 in
    let w14 = write_le crc 2 0 w13 in
    let w15 = write_le crc 4 m.entry_point w14 in
    let w16 = write_le crc 8 m.seed w15 in
    let w17 = write_le crc 8 0 w16 in
    let w18 = write_le crc 2 (length m.creator % 2 ^ 16) w17 in
    let w19 = write_bytes crc m.creator w18 in write_le crc 8 m.created_unix_ms w19

-- The fields before the name, the three that have to be 0, the name's length and the reader.
pub record FixedFields : Type 0 where
  pub metadata : FileMetadata
  pub pad8 : ℕ
  pub pad16 : ℕ
  pub reserved : ℕ
  pub creator_len : ℕ
  pub reader : ByteReader

unfoldable pub read_fixed : ByteReader → Option FixedFields
read_fixed r0 = read_le 4 r0 then_read λ (dim, r1). read_le 1 r1 then_read λ (metric, r2).
    read_le 1 r2 then_read λ (index_type, r3). read_le 1 r3 then_read λ (normalize, r4).
    read_le 1 r4 then_read λ (pad8, r5). read_le 8 r5 then_read λ (node_count, r6).
    read_le 8 r6 then_read λ (live_count, r7). read_le 4 r7 then_read λ (m, r8).
    read_le 4 r8 then_read λ (m0, r9). read_le 4 r9 then_read λ (ef_construction, r10).
    read_le 4 r10 then_read λ (ef_search, r11). read_le 1 r11 then_read λ (max_level_cap, r12).
    read_le 1 r12 then_read λ (max_level, r13). read_le 2 r13 then_read λ (pad16, r14).
    read_le 4 r14 then_read λ (entry_point, r15). read_le 8 r15 then_read λ (seed, r16).
    read_le 8 r16 then_read λ (reserved, r17). read_le 2 r17 then_read λ (creator_len, r18).
    some (record {
      metadata = record {
        dim = dim;
        metric = metric;
        index_type = index_type;
        normalize = normalize;
        node_count = node_count;
        live_count = live_count;
        m = m;
        m0 = m0;
        ef_construction = ef_construction;
        ef_search = ef_search;
        max_level_cap = max_level_cap;
        max_level = max_level;
        entry_point = entry_point;
        seed = seed;
        creator = [];
        created_unix_ms = 0;
      };
      pad8 = pad8;
      pad16 = pad16;
      reserved = reserved;
      creator_len = creator_len;
      reader = r18;
    })

-- The name, the creation time, and the reader.
unfoldable pub read_tail : ℕ → ByteReader → Option (List ℕ × ℕ × ByteReader)
read_tail creator_len r0 = read_view creator_len r0 then_read λ (creator, r1).
    read_le 8 r1 then_read λ (created, r2). some (creator, created, r2)

unfoldable pub decode_metadata : List ℕ → Result FileMetadata
decode_metadata bytes = elim (read_fixed (record { bytes = bytes; position = 0 })) [
  | none ↦ err corrupt_data
  | some f ↦
      if not (f.pad8 == 0) || not (f.pad16 == 0) || not (f.reserved == 0)
      then err corrupt_data
      else if ltb max_creator_length f.creator_len
      then err corrupt_data
      else (elim (read_tail f.creator_len f.reader) [
        | none ↦ err corrupt_data
        | some (creator, created, r) ↦
            if not (remaining r == 0)
            then err corrupt_data
            else ok (record (f.metadata) { creator = creator; created_unix_ms = created })
      ])
]

-- Rounding up to a multiple of a power of two, in 64 bits.
unfoldable pub align_up : ℕ → ℕ → Option ℕ
align_up value alignment =
    let mask = alignment - 1 in
    if ltb (2 ^ 64 - 1 - mask) value
    then none
    else some (bit_and ((value + mask) % 2 ^ 64) (2 ^ 64 - 1 - mask))
