-- ===== src/Common/Bits/Step.antt =====
-- The native bit operations by their lowest digit.
use Prim.Native.Nat.{
  ℕ, zero, suc, ◌+◌, ◌-◌, ◌*◌, ◌/◌, ◌%◌, ◌≤◌, min, max, bit_and, bit_or, digits, bitwise,
  bit_and-bitwise, bit_or-bitwise,
}
use mathlib.Core.Path.{◌≡◌, refl, ap, ◌∙◌}
use native.Mathlib.Omega.{arith}

-- `digits` gives its result with as much fuel as the number is large, and then for any more.
module _ (on_zero : ℕ → ℕ) (combine : ℕ → ℕ → ℕ) where
  one_more :
      (fuel a b : ℕ)
      → a ≤ fuel
      → digits on_zero combine (suc fuel) a b ≡ digits on_zero combine fuel a b
  one_more zero zero b h = refl
  one_more (suc fuel) zero b h = refl
  one_more zero (suc a) b h = absurd (omega arith)
  one_more (suc fuel) (suc a) b h = rw (one_more fuel (suc a / 2) (b / 2) (omega arith)) refl

  much_more :
      (extra fuel a b : ℕ)
      → a ≤ fuel
      → digits on_zero combine (extra + fuel) a b ≡ digits on_zero combine fuel a b
  much_more zero fuel a b h = ap (λ k. digits on_zero combine k a b) (omega arith)
  much_more (suc extra) fuel a b h =
      let count : suc extra + fuel ≡ suc (extra + fuel) = omega arith in
      ap (λ k. digits on_zero combine k a b) count
      ∙ one_more (extra + fuel) a b (omega arith)
      ∙ much_more extra fuel a b h

  -- The lowest digit of a positive number, and the others.
  lowest :
      (a b : ℕ)
      → bitwise on_zero combine (suc a) b
        ≡ bitwise on_zero combine (suc a / 2) (b / 2) * 2 + combine (suc a % 2) (b % 2)
  lowest a b =
      let half = suc a / 2 in
      let count : a - half + half ≡ a = omega arith in
      let halves = ap (λ k. digits on_zero combine k half (b / 2)) count in
      let same = much_more (a - half) half half (b / 2) (omega arith) in omega (arith, halves, same)

-- Twice the operation on the other digits, and the operation on the lowest.
pub bit_or_step : (x y : ℕ) → bit_or x y ≡ 2 * bit_or (x / 2) (y / 2) + max (x % 2) (y % 2)
bit_or_step zero y = simp bit_or-bitwise (omega arith)
bit_or_step (suc x) y = simp bit_or-bitwise (omega (arith, lowest (λ rest. rest) max x y))

pub bit_and_step : (x y : ℕ) → bit_and x y ≡ 2 * bit_and (x / 2) (y / 2) + min (x % 2) (y % 2)
bit_and_step zero y = simp bit_and-bitwise (omega arith)
bit_and_step (suc x) y = simp bit_and-bitwise (omega (arith, lowest (λ rest. 0) min x y))
