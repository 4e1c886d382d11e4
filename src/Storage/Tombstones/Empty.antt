-- ===== src/Storage/Tombstones/Empty.antt =====
-- A set with no markers marks no row.
use vector_forge.Common.{
  ℕ, zero, suc, ◌/◌, ◌%◌, ◌<◌, ◌≡◌, refl, false, List, [], ◌∷◌, get_or, arith,
}
use vector_forge.Common.Bits.{bit, popcount, popcount-zero}
use vector_forge.Storage.Tombstones.{TombstoneSet, test, any, total}
use vector_forge.Storage.Tombstones.Laws.{IsValid, mark, test-mark}

popcount-none : (n w j : ℕ) → popcount n w ≡ 0 → j < n → bit w j ≡ 0
unfolding popcount bit
popcount-none zero w j h l = absurd (omega arith)
popcount-none (suc n) w zero h l = omega arith
popcount-none (suc n) w (suc j) h l = popcount-none n (w / 2) j (omega arith) (omega arith)

total-none : (ws : List ℕ) (j : ℕ) → total ws ≡ 0 → popcount 64 (get_or ws j 0) ≡ 0
unfolding total
total-none [] j h = popcount-zero 64
total-none (w ∷ ws) zero h = omega arith
total-none (w ∷ ws) (suc j) h = total-none ws j (omega arith)

pub test-none : (s : TombstoneSet) (i : ℕ) → IsValid s → any s ≡ false → test s i ≡ false
unfolding any
test-none s i v h =
    let none_ : total s.words ≡ 0 = ground (arith, v.counted) in
    let bit_zero : mark s.words i ≡ 0 =
      popcount-none 64 (get_or s.words (i / 64) 0) (i % 64) (total-none s.words (i / 64) none_)
        (omega arith) in
    rw (test-mark s i, bit_zero) refl
