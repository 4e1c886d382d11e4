-- ===== src/Storage/Format/Sections.antt =====
-- The entries of the section table survive a round trip.
use vector_forge.Common.{ℕ, ◌+◌, ◌^◌, ◌<◌, ◌≡◌, refl, true, List, [], ◌++◌, some, length, arith}
use vector_forge.Storage.BinaryIo.{ByteReader, BinaryWriter, le_bytes}
use vector_forge.Storage.BinaryIo.Bytes.{At, read_le-next}
use vector_forge.Storage.BinaryIo.Codec.{
  Appends, write_le-Appends, Appends-then, Appends-refl, Appends-At,
}
use vector_forge.Storage.Format.{SectionEntry, encode_section_entry, decode_section_entry}

-- The fields have their widths.
pub record IsEntry (e : SectionEntry) : Type 0 where
  pub type : e.type < 2 ^ 32
  pub flags : e.flags < 2 ^ 32
  pub offset : e.offset < 2 ^ 64
  pub size : e.size < 2 ^ 64
  pub crc32c : e.crc32c < 2 ^ 32

abbrev entry_bytes : SectionEntry → List ℕ
entry_bytes e =
    le_bytes e.type 0 4
    ++ (le_bytes e.flags 0 4
        ++ (le_bytes e.offset 0 8
            ++ (le_bytes e.size 0 8 ++ (le_bytes e.crc32c 0 4 ++ (le_bytes 0 0 4 ++ [])))))

module _ (crc : ℕ → List ℕ → ℕ) where
  encode_section_entry-Appends :
      (w : BinaryWriter) (e : SectionEntry)
      → Appends crc w (encode_section_entry crc w e) (entry_bytes e)
  unfolding encode_section_entry
  encode_section_entry-Appends w e = Appends-then crc (write_le-Appends crc 4 e.type w) (
      Appends-then crc (write_le-Appends crc 4 e.flags _) (
        Appends-then crc (write_le-Appends crc 8 e.offset _) (
          Appends-then crc (write_le-Appends crc 8 e.size _) (
            Appends-then crc (write_le-Appends crc 4 e.crc32c _)
              (Appends-then crc (write_le-Appends crc 4 0 _) (Appends-refl crc _))))))

  decode_entry :
      (r : ByteReader) (e : SectionEntry)
      → IsEntry e
      → At r [] (entry_bytes e)
      → decode_section_entry r
        ≡ some (e, true, record r { position = r.position + 4 + 4 + 8 + 8 + 4 + 4 })
  unfolding decode_section_entry
  decode_entry r e v at0 =
      let (e1, at1) = read_le-next e.type 4 at0 v.type in
      let (e2, at2) = read_le-next e.flags 4 at1 v.flags in
      let (e3, at3) = read_le-next e.offset 8 at2 v.offset in
      let (e4, at4) = read_le-next e.size 8 at3 v.size in
      let (e5, at5) = read_le-next e.crc32c 4 at4 v.crc32c in
      let (e6, at6) = read_le-next 0 4 at5 (omega arith) in rw (e1, e2, e3, e4, e5, e6) refl

  -- An entry whose fields have their widths is written as 32 bytes behind what there is, and those
  -- are read back as the entry, with its reserved field 0.
  pub decode-encode_section_entry :
      (w : BinaryWriter) (e : SectionEntry)
      → IsEntry e
      → decode_section_entry
          (record { bytes = (encode_section_entry crc w e).sink; position = length w.sink })
        ≡ some (
          e,
          true,
          record { bytes = (encode_section_entry crc w e).sink; position = length w.sink + 32 },
        )
  decode-encode_section_entry w e v =
      let sum : length w.sink + 4 + 4 + 8 + 8 + 4 + 4 ≡ length w.sink + 32 = omega arith in
      rw sum at (
        decode_entry
          (record { bytes = (encode_section_entry crc w e).sink; position = length w.sink }) e v
          (Appends-At crc (encode_section_entry-Appends w e)))
