-- ===== src/Storage/Format/Metadata.antt =====
-- The metadata survive a round trip.
use native.Mathlib.Nat.{mod-eq_of_lt}
use vector_forge.Common.{
  ℕ, ◌%◌, ◌^◌, ◌<◌, ◌≤◌, ◌≡◌, refl, ap, true, false, List, [], ◌++◌, some, length, arith, ◌==◌, ltb,
  length-drop,
}
use vector_forge.Core.Status.{ok}
use vector_forge.Storage.BinaryIo.{ByteReader, BinaryWriter, remaining, le_bytes}
use vector_forge.Storage.BinaryIo.Bytes.{At, read_le-next, read_view-next}
use vector_forge.Storage.BinaryIo.Codec.{
  Appends, write_le-Appends, write_bytes-Appends, Appends-then, Appends-refl, Appends-At,
}
use vector_forge.Storage.Format.{
  FileMetadata, encode_metadata, read_fixed, read_tail, decode_metadata, max_creator_length,
}

-- The fields have their widths, and the name is not too long.
pub record IsMetadata (d : FileMetadata) : Type 0 where
  pub dim : d.dim < 2 ^ 32
  pub metric : d.metric < 2 ^ 8
  pub index_type : d.index_type < 2 ^ 8
  pub normalize : d.normalize < 2 ^ 8
  pub node_count : d.node_count < 2 ^ 64
  pub live_count : d.live_count < 2 ^ 64
  pub m : d.m < 2 ^ 32
  pub m0 : d.m0 < 2 ^ 32
  pub ef_construction : d.ef_construction < 2 ^ 32
  pub ef_search : d.ef_search < 2 ^ 32
  pub max_level_cap : d.max_level_cap < 2 ^ 8
  pub max_level : d.max_level < 2 ^ 8
  pub entry_point : d.entry_point < 2 ^ 32
  pub seed : d.seed < 2 ^ 64
  pub created_unix_ms : d.created_unix_ms < 2 ^ 64
  pub creator : length d.creator ≤ 256

abbrev tail_bytes : FileMetadata → List ℕ
tail_bytes m = m.creator ++ (le_bytes m.created_unix_ms 0 8 ++ [])

abbrev metadata_bytes : FileMetadata → List ℕ
metadata_bytes m =
    le_bytes m.dim 0 4
    ++ (le_bytes m.metric 0 1
        ++ (le_bytes m.index_type 0 1
            ++ (le_bytes m.normalize 0 1
                ++ (le_bytes 0 0 1
                    ++ (le_bytes m.node_count 0 8
                        ++ (le_bytes m.live_count 0 8
                            ++ (le_bytes m.m 0 4
                                ++ (le_bytes m.m0 0 4
                                    ++ (le_bytes m.ef_construction 0 4
                                        ++ (le_bytes m.ef_search 0 4
                                            ++ (le_bytes m.max_level_cap 0 1
                                                ++ (le_bytes m.max_level 0 1
                                                    ++ (le_bytes 0 0 2
                                                        ++ (le_bytes m.entry_point 0 4
                                                            ++ (le_bytes m.seed 0 8
                                                            ++ (le_bytes 0 0 8
                                                            ++ (le_bytes (length m.creator) 0 2
                                                            ++ tail_bytes m)))))))))))))))))

encode_metadata-Appends :
    (crc : ℕ → List ℕ → ℕ) (w : BinaryWriter) (m : FileMetadata)
    → IsMetadata m
    → Appends crc w (encode_metadata crc w m) (metadata_bytes m)
unfolding encode_metadata
encode_metadata-Appends crc w m v =
    let short : length m.creator % 2 ^ 16 ≡ length m.creator =
      mod-eq_of_lt (omega (arith, v.creator)) in
    rw (short, encode_metadata)
      (Appends-then crc (write_le-Appends crc 4 m.dim w) (
        Appends-then crc (write_le-Appends crc 1 m.metric _) (
          Appends-then crc (write_le-Appends crc 1 m.index_type _) (
            Appends-then crc (write_le-Appends crc 1 m.normalize _) (
              Appends-then crc (write_le-Appends crc 1 0 _) (
                Appends-then crc (write_le-Appends crc 8 m.node_count _) (
                  Appends-then crc (write_le-Appends crc 8 m.live_count _) (
                    Appends-then crc (write_le-Appends crc 4 m.m _) (
                      Appends-then crc (write_le-Appends crc 4 m.m0 _) (
                        Appends-then crc (write_le-Appends crc 4 m.ef_construction _) (
                          Appends-then crc (write_le-Appends crc 4 m.ef_search _) (
                            Appends-then crc (write_le-Appends crc 1 m.max_level_cap _) (
                              Appends-then crc (write_le-Appends crc 1 m.max_level _) (
                                Appends-then crc (write_le-Appends crc 2 0 _) (
                                  Appends-then crc (write_le-Appends crc 4 m.entry_point _) (
                                    Appends-then crc (write_le-Appends crc 8 m.seed _) (
                                      Appends-then crc (write_le-Appends crc 8 0 _) (
                                        Appends-then crc
                                          (write_le-Appends crc 2 (length m.creator) _)
                                          (Appends-then crc (write_bytes-Appends crc m.creator _) (
                                            Appends-then crc
                                              (write_le-Appends crc 8 m.created_unix_ms _)
                                              (Appends-refl crc _)))))))))))))))))))))

read_fixed-fields :
    (r : ByteReader) (m : FileMetadata)
    → IsMetadata m
    → At r [] (metadata_bytes m)
    → (s : ByteReader) × (read_fixed r
        ≡ some (record {
          metadata = record m { creator = []; created_unix_ms = 0 };
          pad8 = 0;
          pad16 = 0;
          reserved = 0;
          creator_len = length m.creator;
          reader = s;
        }))
      × At s [] (tail_bytes m)
unfolding read_fixed
read_fixed-fields r m v at0 =
    let (e1, at1) = read_le-next m.dim 4 at0 v.dim in
    let (e2, at2) = read_le-next m.metric 1 at1 v.metric in
    let (e3, at3) = read_le-next m.index_type 1 at2 v.index_type in
    let (e4, at4) = read_le-next m.normalize 1 at3 v.normalize in
    let (e5, at5) = read_le-next 0 1 at4 (omega arith) in
    let (e6, at6) = read_le-next m.node_count 8 at5 v.node_count in
    let (e7, at7) = read_le-next m.live_count 8 at6 v.live_count in
    let (e8, at8) = read_le-next m.m 4 at7 v.m in
    let (e9, at9) = read_le-next m.m0 4 at8 v.m0 in
    let (e10, at10) = read_le-next m.ef_construction 4 at9 v.ef_construction in
    let (e11, at11) = read_le-next m.ef_search 4 at10 v.ef_search in
    let (e12, at12) = read_le-next m.max_level_cap 1 at11 v.max_level_cap in
    let (e13, at13) = read_le-next m.max_level 1 at12 v.max_level in
    let (e14, at14) = read_le-next 0 2 at13 (omega arith) in
    let (e15, at15) = read_le-next m.entry_point 4 at14 v.entry_point in
    let (e16, at16) = read_le-next m.seed 8 at15 v.seed in
    let (e17, at17) = read_le-next 0 8 at16 (omega arith) in
    let (e18, at18) = read_le-next (length m.creator) 2 at17 (omega (arith, v.creator)) in
    (
      _,
      rw (e1, e2, e3, e4, e5, e6, e7, e8, e9, e10, e11, e12, e13, e14, e15, e16, e17, e18) refl,
      at18,
    )

read_tail-fields :
    (r : ByteReader) (m : FileMetadata)
    → IsMetadata m
    → At r [] (tail_bytes m)
    → (s : ByteReader) × (read_tail (length m.creator) r ≡ some (m.creator, m.created_unix_ms, s))
      × At s [] []
unfolding read_tail
read_tail-fields r m v at0 =
    let (e1, at1) = read_view-next m.creator at0 in
    let (e2, at2) = read_le-next m.created_unix_ms 8 at1 v.created_unix_ms in
    (_, rw (e1, e2) refl, at2)

-- Metadata whose fields have their widths and whose name is at most 256 bytes, written to an empty
-- sink, are read back.
pub decode-encode_metadata :
    (crc : ℕ → List ℕ → ℕ) (m : FileMetadata)
    → IsMetadata m
    → decode_metadata (encode_metadata crc (record { sink = []; position = 0; crc = 0 }) m).sink
      ≡ ok m
unfolding decode_metadata remaining
decode-encode_metadata crc m v =
    let start : BinaryWriter = record { sink = []; position = 0; crc = 0 } in
    let bytes = (encode_metadata crc start m).sink in
    let (s, e, at) =
      read_fixed-fields (record { bytes = bytes; position = 0 }) m v
        (Appends-At crc (encode_metadata-Appends crc start m v)) in
    let (t, e', end) = read_tail-fields s m v at in
    let size = ap length end.split in
    let done : (remaining t == 0) ≡ true = ground (arith, size, length-drop t.position t.bytes) in
    let short : ltb max_creator_length (length m.creator) ≡ false = ground (arith, v.creator) in
    rw (e, short, e', done, decode_metadata) refl
