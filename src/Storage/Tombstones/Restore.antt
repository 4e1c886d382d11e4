-- ===== src/Storage/Tombstones/Restore.antt =====
-- Tombstones from persisted words: which words are taken, and what the marks are then.
use native.Mathlib.Nat.{div-le_self}
use native.Mathlib.Decide.{dec_lt}
use vector_forge.Common.{
  sym, ◌∙◌, ℕ, ◌+◌, ◌-◌, ◌*◌, ◌/◌, ◌%◌, ◌^◌, ◌≤◌, ◌<◌, ◌≡◌, ◌≢◌, true, List, ◌==◌, length, get_or,
  arith, Bool-cases, inl, inr, some, get_or-out, ◌↔◌, ◌⊎◌,
}
use vector_forge.Common.Bits.{zero-bit, bit-div, bit-eq-zero, eq_of_bits}
use vector_forge.Storage.Tombstones.{TombstoneSet, test, total, last_word, restore}
use vector_forge.Storage.Tombstones.Laws.{IsValid, mark, test-mark}

module _ (words : List ℕ) (rows : ℕ) (narrow : (i : ℕ) → get_or words i 0 < 2 ^ 64)
    (small : rows ≤ 2 ^ 32) where
  -- No row at or past `rows` is marked.
  abbrev NoneBeyond : Type 0
  NoneBeyond = (j : ℕ) → rows ≤ j → mark words j ≡ 0

  tail_clear :
      length words ≡ (rows + 63) / 64
      → (rows % 64 ≡ 0) ⊎ (last_word words / 2 ^ (rows % 64) ≡ 0)
      → NoneBeyond
  unfolding last_word
  tail_clear size (inl even) j h =
      ground (arith, get_or-out words (j / 64) 0 (omega arith), zero-bit (j % 64))
  tail_clear size (inr clear) j h = elim (dec_lt (j / 64) (length words)) [
    | no out ↦ ground (arith, get_or-out words (j / 64) 0 (omega arith), zero-bit (j % 64))
    | yes last ↦ elim (dec_lt (j % 64) (rows % 64)) [
      | yes low ↦ absurd (omega arith)
      | no high ↦
          let at : j / 64 ≡ length words - 1 = omega arith in
          let sum : rows % 64 + (j % 64 - rows % 64) ≡ j % 64 = omega arith in
          let shifted = bit-div (rows % 64) (last_word words) (j % 64 - rows % 64) in
          let gone = zero-bit (j % 64 - rows % 64) in ground (arith, clear, shifted)
    ]
  ]

  clear_tail :
      length words ≡ (rows + 63) / 64
      → NoneBeyond
      → rows % 64 ≢ 0
      → last_word words / 2 ^ (rows % 64) ≡ 0
  unfolding last_word
  clear_tail size none_beyond odd =
      let t = rows % 64 in
      let w = last_word words in
      eq_of_bits 64 (w / 2 ^ t) 0 (omega (arith, div-le_self w (2 ^ t), narrow (length words - 1)))
        (omega arith)
        λ j h. bit-div t w j ∙ elim (dec_lt (t + j) 64) [
          | yes low ↦
              let k = 64 * (length words - 1) + (t + j) in
              let at : k / 64 ≡ length words - 1 = omega arith in
              let off : k % 64 ≡ t + j = omega arith in
              ground (arith, none_beyond k (omega arith), zero-bit j)
          | no high ↦
              bit-eq-zero 64 w (t + j) (narrow (length words - 1)) (omega arith) ∙ sym (zero-bit j)
        ]

  -- What the two tests of `restore` let through.
  restore_tests :
      (s : TombstoneSet)
      → restore words rows ≡ some s
      → (length words ≡ (rows + 63) / 64)
        × ((rows % 64 ≡ 0) ⊎ (last_word words / 2 ^ (rows % 64) ≡ 0))
        × (s.words ≡ words)
        × (s.count ≡ total words)
  unfolding restore
  restore_tests s e = elim (Bool-cases (rows % 64 == 0)) [
    | inl even ↦ (ground arith, inl (ground arith), ground arith, ground arith)
    | inr odd ↦ (ground arith, inr (ground arith), ground arith, ground arith)
  ]

  -- Persisted words are taken exactly if there is one for each 64 rows and no bit past the last
  -- row; they are kept as they are, and the count is the number of their ones.
  pub restore_words_iff :
      (s : TombstoneSet)
      → (restore words rows ≡ some s) ↔ (
          (length words ≡ (rows + 63) / 64)
          × NoneBeyond
          × (s.words ≡ words)
          × (s.count ≡ total words))
  restore_words_iff s = (
    λ e.
        let (size, tail, kept, counted) = restore_tests s e in
        (size, tail_clear size tail, kept, counted),
    λ (size, none_beyond, kept, counted). restored size none_beyond kept counted,
  )
    where
      restored :
          length words ≡ (rows + 63) / 64
          → NoneBeyond
          → s.words ≡ words
          → s.count ≡ total words
          → restore words rows ≡ some s
      restored size none_beyond kept counted =
          unfold restore in
          elim (Bool-cases (rows % 64 == 0)) [
            | inl even ↦ ground arith
            | inr odd ↦ ground (arith, clear_tail size none_beyond (ground arith))
          ]

  -- Restored tombstones are valid, and every marked row is a row.
  pub restore_words-IsValid :
      (s : TombstoneSet)
      → restore words rows ≡ some s
      → IsValid s × ((j : ℕ) → test s j ≡ true → j < rows)
  restore_words-IsValid s e =
      let (size, none_beyond, kept, counted) = (restore_words_iff s).0 e in
      (
        record { narrow = λ i. rw kept (narrow i); counted = rw kept counted },
        λ j h. elim (dec_lt j rows) [
          | yes inside ↦ inside
          | no beyond ↦ ground (arith, none_beyond j (omega arith), test-mark s j)
        ],
      )
