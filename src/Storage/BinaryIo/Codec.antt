-- ===== src/Storage/BinaryIo/Codec.antt =====
-- What a writer appends, as one list of bytes.
use native.Mathlib.Nat.{mod-lt, mod-add-div, mul-add, mul-one, mul-mod_right}
use mathlib.Core.List.{append_assoc, append-nil}
use vector_forge.Common.{
  ℕ, zero, suc, ◌+◌, ◌-◌, ◌%◌, ◌<◌, ◌≤◌, ◌≡◌, refl, sym, ap, ◌∙◌, min, List, [], ◌∷◌, ◌++◌, length,
  arith, ◌==◌, Bool-cases, inl, inr, false, length-append, drop, drop-append, ltb, ==_iff, ◌*◌, ◌/◌,
  replicate, length-replicate,
}
use vector_forge.Storage.BinaryIo.{
  BinaryWriter, write_bytes, write_le, write_zeros, pad_to, le_bytes, sink_write,
}
use vector_forge.Storage.BinaryIo.Bytes.{At}

module _ (crc32c_extend : ℕ → List ℕ → ℕ) where
  -- `w` came from `v` by appending bytes; the position counts them.
  pub record Appends (v w : BinaryWriter) (bytes : List ℕ) : Type 0 where
    pub sink : w.sink ≡ v.sink ++ bytes
    pub position : w.position ≡ v.position + length bytes

  pub write_bytes-Appends :
      (bytes : List ℕ) (w : BinaryWriter) → Appends w (write_bytes crc32c_extend bytes w) bytes
  unfolding write_bytes sink_write
  write_bytes-Appends [] w = record { sink = sym (append-nil w.sink); position = omega arith }
  write_bytes-Appends (b ∷ bs) w =
      let some_ : (length (b ∷ bs) == 0) ≡ false = ground arith in
      rw (some_, write_bytes) (record { sink = refl; position = refl })

  pub write_le-Appends :
      (size value : ℕ) (w : BinaryWriter)
      → Appends w (write_le crc32c_extend size value w) (le_bytes value 0 size)
  unfolding write_le
  write_le-Appends size value w = write_bytes-Appends (le_bytes value 0 size) w

  -- One write before others.
  pub Appends-then :
      {u v w : BinaryWriter} {a b : List ℕ} → Appends u v a → Appends v w b → Appends u w (a ++ b)
  Appends-then {u} {v} {w} {a} {b} p q = record {
    sink = q.sink ∙ ap (λ l. l ++ b) p.sink ∙ append_assoc u.sink a b;
    position = omega (arith, q.position, p.position, length-append a b);
  }

  zeros-split : (n k : ℕ) → n ≤ k → replicate {A = ℕ} n 0 ++ replicate (k - n) 0 ≡ replicate k 0
  zeros-split zero k h = ap (λ m. replicate m 0) (omega arith)
  zeros-split (suc n) zero h = absurd (omega arith)
  zeros-split (suc n) (suc k) h =
      let e : suc k - suc n ≡ k - n = omega arith in
      rw e (ap (◌∷◌ 0) (zeros-split n k (omega arith)))

  pub write_zeros-Appends :
      (f count : ℕ) (w : BinaryWriter)
      → count ≤ f
      → Appends w (write_zeros crc32c_extend f count w) (replicate count 0)
  unfolding write_zeros
  write_zeros-Appends zero count w h =
      let none_ : count ≡ 0 = omega arith in
      rw none_ (record { sink = sym (append-nil w.sink); position = omega arith })
  write_zeros-Appends (suc f) count w h = elim (Bool-cases (ltb 0 count)) [
    | inr done ↦
        let none_ : count ≡ 0 = ground arith in
        rw (done, none_, write_zeros)
          (record { sink = sym (append-nil w.sink); position = omega arith })
    | inl more ↦
        let n = min count 4096 in
        let first = write_bytes-Appends (replicate n 0) w in
        let rest =
          write_zeros-Appends f (count - n) (write_bytes crc32c_extend (replicate n 0) w)
            (ground arith) in
        rw (more, write_zeros) (rw (zeros-split n count (omega arith)) at (Appends-then first rest))
  ]

  -- For a positive alignment, padding appends fewer zero bytes than the alignment, and the position
  -- after it is a multiple of the alignment.
  pub pad_to-Appends :
      (alignment : ℕ) (w : BinaryWriter)
      → 0 < alignment
      → (n : ℕ) × (n < alignment)
        × Appends w (pad_to crc32c_extend alignment w) (replicate n 0)
        × ((pad_to crc32c_extend alignment w).position % alignment ≡ 0)
  unfolding pad_to
  pad_to-Appends alignment w h = elim (Bool-cases (w.position % alignment == 0)) [
    | inl aligned ↦
        rw (aligned, pad_to)
          (
            0,
            h,
            record { sink = sym (append-nil w.sink); position = omega arith },
            (==_iff _ _).0 aligned,
          )
    | inr off ↦
        let n = alignment - w.position % alignment in
        let low = mod-lt w.position h in
        let z = write_zeros-Appends n n w (omega arith) in
        let size = length-replicate {A = ℕ} n 0 in
        let parts = mod-add-div w.position alignment in
        let end : (write_zeros crc32c_extend n n w).position
            ≡ alignment * (w.position / alignment + 1) =
          rw (mul-add alignment (w.position / alignment) 1, mul-one alignment)
            (omega (arith, z.position, size, parts, low)) in
        rw (off, pad_to)
          (
            n,
            ground arith,
            z,
            ap (λ p. p % alignment) end ∙ mul-mod_right alignment (w.position / alignment + 1),
          )
  ]

  pub Appends-refl : (w : BinaryWriter) → Appends w w []
  Appends-refl w = record { sink = sym (append-nil w.sink); position = omega arith }

  -- A reader of the sink, at the place where the bytes were appended.
  pub Appends-At :
      {v w : BinaryWriter} {bytes : List ℕ}
      → Appends v w bytes
      → At (record { bytes = w.sink; position = length v.sink }) [] bytes
  Appends-At {v} {w} {bytes} p = record {
    inside = omega (arith, ap length p.sink, length-append v.sink bytes);
    split = ap (drop (length v.sink)) p.sink ∙ drop-append v.sink bytes;
  }
