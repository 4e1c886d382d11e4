-- ===== src/Common/Words.antt =====
-- The functions of <bit> on words of `w` bits, and masks of low bits.
use Prim.Native.Nat.{bit_and}
use native.Mathlib.Nat.{
  pow-suc, mod-eq_of_lt, mod-lt, mod-add-div, mul_right_comm, mul-add-mod_self_left,
}
use Prim.Native.Nat.{ℕ, zero, suc, ◌+◌, ◌-◌, ◌*◌, ◌/◌, ◌%◌, ◌^◌, ◌<◌, ◌≤◌}
use mathlib.Core.Path.{◌≡◌, refl, ap, sym, ◌∙◌}
use mathlib.Core.Bool.{Bool, true, false}
use mathlib.Core.Logic.{inl, inr}
use native.Mathlib.Omega.{arith}
use vector_forge.Common.Tests.{◌==◌, if◌then◌else◌, Bool-cases}
use vector_forge.Common.Bits.{mask-pos, bit_and_step, bit_and-zero_below}

-- std::has_single_bit
unfoldable pub has_single_bit : ℕ → ℕ → Bool
has_single_bit zero x = false
has_single_bit (suc w) x =
    let rest = has_single_bit w (x / 2) in if x % 2 == 1 then x == 1 else rest

-- std::countr_zero
unfoldable pub countr_zero : ℕ → ℕ → ℕ
countr_zero zero x = 0
countr_zero (suc w) x = let rest = countr_zero w (x / 2) in if x % 2 == 1 then 0 else suc rest

-- std::bit_floor
unfoldable pub bit_floor : ℕ → ℕ → ℕ
bit_floor zero x = 0
bit_floor (suc w) x =
    let rest = bit_floor w (x / 2) in if x == 0 then 0 else if x == 1 then 1 else 2 * rest

-- A word with a single bit is the power of two whose exponent counts the zeros below the bit.
pub has_single_bit-pow :
    (w x : ℕ) → has_single_bit w x ≡ true → (x ≡ 2 ^ countr_zero w x) × (countr_zero w x < w)
unfolding has_single_bit countr_zero
has_single_bit-pow zero x h = absurd (ground arith)
has_single_bit-pow (suc w) x h = elim (Bool-cases (x % 2 == 1)) [
  | inl odd ↦ let one : x ≡ 1 = ground arith in rw (odd, countr_zero) (one, omega arith)
  | inr even ↦
      let zero_low : x % 2 ≡ 0 = ground arith in
      let (e, l) = has_single_bit-pow w (x / 2) (rw (even, has_single_bit) at h) in
      rw (even, countr_zero)
        (omega (arith, e, pow-suc 2 (countr_zero w (x / 2)), zero_low), omega (arith, l))
]

pub has_single_bit-of_pow : (w k : ℕ) → k < w → has_single_bit w (2 ^ k) ≡ true
unfolding has_single_bit
has_single_bit-of_pow zero k h = absurd (omega arith)
has_single_bit-of_pow (suc w) zero h = refl
has_single_bit-of_pow (suc w) (suc k) h =
    let half : 2 ^ suc k / 2 ≡ 2 ^ k = omega (arith, pow-suc 2 k) in
    let even : (2 ^ suc k % 2 == 1) ≡ false = ground (arith, pow-suc 2 k) in
    rw (even, half) (has_single_bit-of_pow w k (omega arith))

-- The largest power of two that is not above a positive word.
pub bit_floor-pow :
    (w x : ℕ)
    → 0 < x
    → x < 2 ^ w
    → (k : ℕ) × (k < w) × (bit_floor w x ≡ 2 ^ k) × (2 ^ k ≤ x) × (x < 2 * 2 ^ k)
unfolding bit_floor
bit_floor-pow zero x p q = absurd (omega arith)
bit_floor-pow (suc w) x p q = elim (Bool-cases (x == 1)) [
  | inl one ↦
      let is_one : x ≡ 1 = ground arith in
      let some_ : (x == 0) ≡ false = ground arith in
      rw (one, some_) (0, omega arith, refl, omega arith, omega arith)
  | inr more ↦
      let some_ : (x == 0) ≡ false = ground arith in
      let (k, l, e, low, high) =
        bit_floor-pow w (x / 2) (ground arith) (omega (arith, pow-suc 2 w)) in
      rw (more, some_, e)
        (
          suc k,
          omega (arith, l),
          omega (arith, pow-suc 2 k),
          omega (arith, low, pow-suc 2 k),
          omega (arith, high, pow-suc 2 k),
        )
]

double_mul : (m q : ℕ) → m * 2 * q ≡ m * q * 2
double_mul m q = mul_right_comm m 2 q

-- Masking with `k` ones is the remainder by `2 ^ k`.
pub bit_and-ones : (k x : ℕ) → bit_and x (2 ^ k - 1) ≡ x % 2 ^ k
bit_and-ones zero x = omega (arith, bit_and-zero_below x x (omega arith))
bit_and-ones (suc k) x =
    let half : (2 ^ suc k - 1) / 2 ≡ 2 ^ k - 1 = omega (arith, pow-suc 2 k, mask-pos k) in
    let odd : (2 ^ suc k - 1) % 2 ≡ 1 = omega (arith, pow-suc 2 k, mask-pos k) in
    let low = mod-lt (x / 2) {m = 2 ^ k} (mask-pos k) in
    let r = x / 2 % 2 ^ k * 2 + x % 2 in
    let split : 2 ^ suc k * (x / 2 / 2 ^ k) + r ≡ x =
      rw (pow-suc 2 k, double_mul (2 ^ k) (x / 2 / 2 ^ k))
        (omega (arith, mod-add-div (x / 2) (2 ^ k))) in
    let small : r < 2 ^ suc k = omega (arith, low, pow-suc 2 k) in
    let value : r ≡ x % 2 ^ suc k =
      sym (mod-eq_of_lt small)
      ∙ sym (mul-add-mod_self_left (2 ^ suc k) (x / 2 / 2 ^ k) r)
      ∙ ap (λ y. y % 2 ^ suc k) split in
    rw (bit_and_step x (2 ^ suc k - 1), half, odd, bit_and-ones k (x / 2)) (omega (arith, value))
