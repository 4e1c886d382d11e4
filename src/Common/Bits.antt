-- ===== src/Common/Bits.antt =====
-- Bits of words: one bit at a time, single-bit masks, complements and population counts.
mod Step
pub use Step.{bit_or_step, bit_and_step}
use Prim.Native.Nat.{
  ℕ, zero, suc, ◌+◌, ◌-◌, ◌*◌, ◌/◌, ◌%◌, ◌^◌, ◌<◌, ◌≤◌, min, max, bit_and, bit_or, bit_and-bitwise,
}
use mathlib.Core.Path.{◌≡◌, refl, sym, ◌∙◌}
use mathlib.Core.Logic.{◌≢◌}
use native.Mathlib.Nat.{pow-suc, div-div-eq-div-mul, mul_comm, pow-le-pow_right, one-le-pow}
use native.Mathlib.Omega.{arith}
use vector_forge.Common.Tests.{◌==◌, if◌then◌else◌}

-- Bit `j` of a word, from the lowest.
unfoldable pub bit : ℕ → ℕ → ℕ
bit w zero = w % 2
bit w (suc j) = bit (w / 2) j

-- The number of ones among the lowest `n` bits: std::popcount of an n-bit word.
unfoldable pub popcount : ℕ → ℕ → ℕ
popcount zero w = 0
popcount (suc n) w = w % 2 + popcount n (w / 2)

pub bit-le : (w j : ℕ) → bit w j ≤ 1
unfolding bit
bit-le w zero = omega arith
bit-le w (suc j) = bit-le (w / 2) j

pub bit-shift : (w j : ℕ) → w / 2 ^ j % 2 ≡ bit w j
unfolding bit
bit-shift w zero = omega arith
bit-shift w (suc j) =
    rw (pow-suc 2 j, mul_comm (2 ^ j) 2, ← div-div-eq-div-mul w 2 (2 ^ j)) (bit-shift (w / 2) j)

pub zero-bit : (j : ℕ) → bit 0 j ≡ 0
unfolding bit
zero-bit zero = refl
zero-bit (suc j) = zero-bit j

-- The mask `1 << k`.
pub mask-bit : (k j : ℕ) → bit (2 ^ k) j ≡ (if k == j then 1 else 0)
unfolding bit
mask-bit zero zero = refl
mask-bit zero (suc j) = ground (arith, zero-bit j)
mask-bit (suc k) zero = ground (arith, pow-suc 2 k)
mask-bit (suc k) (suc j) =
    let half : 2 ^ suc k / 2 ≡ 2 ^ k = omega (arith, pow-suc 2 k) in
    rw half (ground (arith, mask-bit k j))

pub bit-bit_or : (a b j : ℕ) → bit (bit_or a b) j ≡ max (bit a j) (bit b j)
unfolding bit
bit-bit_or a b zero = omega (arith, bit_or_step a b)
bit-bit_or a b (suc j) =
    let half : bit_or a b / 2 ≡ bit_or (a / 2) (b / 2) = omega (arith, bit_or_step a b) in
    rw half (bit-bit_or (a / 2) (b / 2) j)

pub bit-bit_and : (a b j : ℕ) → bit (bit_and a b) j ≡ min (bit a j) (bit b j)
unfolding bit
bit-bit_and a b zero = omega (arith, bit_and_step a b)
bit-bit_and a b (suc j) =
    let half : bit_and a b / 2 ≡ bit_and (a / 2) (b / 2) = omega (arith, bit_and_step a b) in
    rw half (bit-bit_and (a / 2) (b / 2) j)

-- The complement of an n-bit word.
pub bit-complement : (n x j : ℕ) → x < 2 ^ n → j < n → bit (2 ^ n - 1 - x) j ≡ 1 - bit x j
unfolding bit
bit-complement zero x j h k = absurd (omega arith)
bit-complement (suc n) x zero h k = omega (arith, pow-suc 2 n)
bit-complement (suc n) x (suc j) h k =
    let half : (2 ^ suc n - 1 - x) / 2 ≡ 2 ^ n - 1 - x / 2 = omega (arith, pow-suc 2 n) in
    rw half (bit-complement n (x / 2) j (omega (arith, pow-suc 2 n)) (omega arith))

pub bit_and-zero_below : (n a : ℕ) → a ≤ n → bit_and a 0 ≡ 0
bit_and-zero_below zero a h = let e : a ≡ 0 = omega arith in rw e
bit_and-zero_below (suc n) zero h = refl
bit_and-zero_below (suc n) (suc a) h =
    omega (arith, bit_and_step (suc a) 0, bit_and-zero_below n (suc a / 2) (omega arith))

-- Masking by one bit leaves that bit.
pub bit_and-mask : (w k : ℕ) → bit_and w (2 ^ k) ≡ bit w k * 2 ^ k
unfolding bit
bit_and-mask w zero =
    omega (arith, bit_and_step w 1, bit_and-zero_below (w / 2) (w / 2) (omega arith))
bit_and-mask w (suc k) =
    let half : 2 ^ suc k / 2 ≡ 2 ^ k = omega (arith, pow-suc 2 k) in
    let even : 2 ^ suc k % 2 ≡ 0 = omega (arith, pow-suc 2 k) in
    let step : bit_and w (2 ^ suc k) ≡ bit_and (w / 2) (2 ^ suc k / 2) * 2 =
      omega (arith, bit_and_step w (2 ^ suc k), even) in
    rw (step, half, bit_and-mask (w / 2) k, pow-suc 2 k) (omega arith)

pub bit_or-lt : (n a b : ℕ) → a < 2 ^ n → b < 2 ^ n → bit_or a b < 2 ^ n
bit_or-lt zero a b p q =
    let e : a ≡ 0 = omega arith in let f : b ≡ 0 = omega arith in rw (e, f) (omega arith)
bit_or-lt (suc n) a b p q = omega (
  arith,
  pow-suc 2 n,
  bit_or_step a b,
  bit_or-lt n (a / 2) (b / 2) (omega (arith, pow-suc 2 n)) (omega (arith, pow-suc 2 n)),
)

pub bit_and-lt : (n a b : ℕ) → a < 2 ^ n → bit_and a b < 2 ^ n
bit_and-lt zero a b p = let e : a ≡ 0 = omega arith in rw e (omega (arith, zero_and b))
  where
    zero_and : (b : ℕ) → bit_and 0 b ≡ 0
    zero_and b = bit_and-bitwise 0 b
bit_and-lt (suc n) a b p = omega (
  arith,
  pow-suc 2 n,
  bit_and_step a b,
  bit_and-lt n (a / 2) (b / 2) (omega (arith, pow-suc 2 n)),
)

pub popcount_congr :
    (n a b : ℕ) → ((j : ℕ) → j < n → bit a j ≡ bit b j) → popcount n a ≡ popcount n b
unfolding popcount bit
popcount_congr zero a b h = refl
popcount_congr (suc n) a b h =
    omega
      (arith, h 0 (omega arith), popcount_congr n (a / 2) (b / 2) (λ j k. h (suc j) (omega arith)))

-- One more bit, one more in the count.
pub popcount-suc :
    (n k a b : ℕ)
    → k < n
    → bit a k ≡ bit b k + 1
    → ((j : ℕ) → j < n → j ≢ k → bit a j ≡ bit b j)
    → popcount n a ≡ popcount n b + 1
unfolding popcount bit
popcount-suc zero k a b p q h = absurd (omega arith)
popcount-suc (suc n) zero a b p q h =
    omega (arith, popcount_congr n (a / 2) (b / 2) (λ j k. h (suc j) (omega arith) (omega arith)))
popcount-suc (suc n) (suc k) a b p q h = omega (
  arith,
  h 0 (omega arith) (omega arith),
  popcount-suc n k (a / 2) (b / 2) (omega arith) q
      (λ j l ne. h (suc j) (omega arith) (omega arith)),
)

-- Words agree if their bits do.
pub eq_of_bits : (n a b : ℕ) → a < 2 ^ n → b < 2 ^ n → ((j : ℕ) → j < n → bit a j ≡ bit b j) → a ≡ b
unfolding bit
eq_of_bits zero a b p q h = omega arith
eq_of_bits (suc n) a b p q h =
    let low = h 0 (omega arith) in
    let rest =
      eq_of_bits n (a / 2) (b / 2) (omega (arith, pow-suc 2 n)) (omega (arith, pow-suc 2 n))
        (λ j k. h (suc j) (omega arith)) in
    omega arith

pub mask-pos : (k : ℕ) → 1 ≤ 2 ^ k
mask-pos k = pow-le-pow_right {n = 2} (omega arith) {i = 0} {j = k} (omega arith)

pub mask-lt : (k n : ℕ) → k < n → 2 ^ k < 2 ^ n
mask-lt k n h =
    omega
      (arith, pow-le-pow_right {n = 2} (omega arith) {i = suc k} {j = n} h, pow-suc 2 k, mask-pos k)

scaled_test : (b p : ℕ) → b ≤ 1 → 1 ≤ p → (b * p == 0) ≡ (b == 0)
scaled_test zero p h k = ground arith
scaled_test (suc zero) p h k = ground arith
scaled_test (suc (suc b)) p h k = absurd (omega arith)

-- `(w & mask) == 0` tests the bit.
pub mask_test : (w k : ℕ) → (bit_and w (2 ^ k) == 0) ≡ (bit w k == 0)
mask_test w k = rw (bit_and-mask w k) (scaled_test (bit w k) (2 ^ k) (bit-le w k) (mask-pos k))

pub popcount-zero : (n : ℕ) → popcount n 0 ≡ 0
unfolding popcount
popcount-zero zero = refl
popcount-zero (suc n) = omega (arith, popcount-zero n)

pub bit-div : (t x j : ℕ) → bit (x / 2 ^ t) j ≡ bit x (t + j)
unfolding bit
bit-div zero x j = let e : x / 1 ≡ x = omega arith in let f : 0 + j ≡ j = omega arith in rw (e, f)
bit-div (suc t) x j =
    let f : suc t + j ≡ suc (t + j) = omega arith in
    rw (pow-suc 2 t, mul_comm (2 ^ t) 2, ← div-div-eq-div-mul x 2 (2 ^ t), f) (bit-div t (x / 2) j)

-- Past its width a word has no bits.
pub bit-eq-zero : (n x j : ℕ) → x < 2 ^ n → n ≤ j → bit x j ≡ 0
unfolding bit
bit-eq-zero zero x j h k = let e : x ≡ 0 = omega arith in rw e (zero-bit j)
bit-eq-zero (suc n) x zero h k = absurd (omega arith)
bit-eq-zero (suc n) x (suc j) h k =
    bit-eq-zero n (x / 2) j (omega (arith, pow-suc 2 n)) (omega arith)
