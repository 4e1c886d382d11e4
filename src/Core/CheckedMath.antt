-- ===== src/Core/CheckedMath.antt =====
-- src/core/checked_math.hpp on the unsigned integers of `w` bits: sums and products or nothing.
use native.Mathlib.Nat.{mul_comm, mul-one, mod-eq_of_lt, div-lt_iff_lt-mul, mul-le-mul_left}
use vector_forge.Common.{
  ℕ, zero, suc, ◌+◌, ◌-◌, ◌*◌, ◌/◌, ◌%◌, ◌^◌, ◌<◌, ◌≡◌, refl, true, false, ◌&&◌, Option, none, some,
  if◌then◌else◌, ltb, ltb→lt, lt→ltb, ◌==◌, not, arith, Bool-cases, inl, inr,
}
use vector_forge.Common.Bits.{mask-pos}

unfoldable pub checked_add : ℕ → ℕ → ℕ → Option ℕ
checked_add w a b = if ltb (2 ^ w - 1 - b) a then none else some ((a + b) % 2 ^ w)

unfoldable pub checked_mul : ℕ → ℕ → ℕ → Option ℕ
checked_mul w a b = if not (a == 0) && ltb ((2 ^ w - 1) / a) b then none else some (a * b % 2 ^ w)

-- The overload with three factors.
unfoldable pub checked_mul3 : ℕ → ℕ → ℕ → ℕ → Option ℕ
checked_mul3 w a b c = elim (checked_mul w a b) [ none ↦ none | some ab ↦ checked_mul w ab c ]

-- The sum of two numbers of `w` bits is returned exactly when it has `w` bits.
pub checked_add-exact :
    (w a b : ℕ)
    → a < 2 ^ w
    → b < 2 ^ w
    → checked_add w a b ≡ (if ltb (a + b) (2 ^ w) then some (a + b) else none)
unfolding checked_add
checked_add-exact w a b p q = elim (Bool-cases (ltb (a + b) (2 ^ w))) [
  | inl fits ↦
      let some_ : ltb (2 ^ w - 1 - b) a ≡ false = ground arith in
      rw (fits, some_, mod-eq_of_lt (ltb→lt _ _ fits)) refl
  | inr over ↦ let none_ : ltb (2 ^ w - 1 - b) a ≡ true = ground arith in rw (over, none_) refl
]

-- The guard of the product, with `m` the largest number.
mul_guard : (m a b : ℕ) → (not (a == 0) && ltb (m / a) b) ≡ ltb m (a * b)
mul_guard m zero b = ground (arith, mul_comm zero b)
mul_guard m (suc a) b =
    let lower = div-lt_iff_lt-mul {k = suc a} {x = m} {y = b} (omega arith) in
    let swapped = mul_comm (suc a) b in
    elim (Bool-cases (ltb (m / suc a) b)) [
      | inl h ↦
          let over : m < suc a * b = omega (arith, lower.0 (ltb→lt _ _ h), swapped) in
          rw (h, lt→ltb _ _ over) (ground arith)
      | inr h ↦ elim (Bool-cases (ltb m (suc a * b))) [
        | inr e ↦ rw (h, e) (ground arith)
        | inl e ↦
            let over : m / suc a < b = lower.1 (omega (arith, ltb→lt _ _ e, swapped)) in
            absurd (ground arith)
      ]
    ]

-- The product of two numbers is returned exactly when it has `w` bits.
pub checked_mul-exact :
    (w a b : ℕ) → checked_mul w a b ≡ (if ltb (a * b) (2 ^ w) then some (a * b) else none)
unfolding checked_mul
checked_mul-exact w a b = rw (mul_guard (2 ^ w - 1) a b) (elim (Bool-cases (ltb (a * b) (2 ^ w))) [
  | inl fits ↦
      let some_ : ltb (2 ^ w - 1) (a * b) ≡ false = ground (arith, mask-pos w) in
      rw (fits, some_, mod-eq_of_lt (ltb→lt _ _ fits)) refl
  | inr over ↦
      let none_ : ltb (2 ^ w - 1) (a * b) ≡ true = ground (arith, mask-pos w) in
      rw (over, none_) refl
])

-- With a third factor that is not 0, the product of three is returned exactly when it has `w` bits.
pub checked_mul3-exact :
    (w a b c : ℕ)
    → 0 < c
    → checked_mul3 w a b c ≡ (if ltb (a * b * c) (2 ^ w) then some (a * b * c) else none)
unfolding checked_mul3
checked_mul3-exact w a b c h =
    rw (checked_mul-exact w a b, checked_mul3)
      (elim (Bool-cases (ltb (a * b) (2 ^ w))) [
        | inl fits ↦ rw (fits, checked_mul3) (checked_mul-exact w (a * b) c)
        | inr over ↦
            let grown = mul-le-mul_left (a * b) h in
            let none_ : ltb (a * b * c) (2 ^ w) ≡ false = ground (arith, mul-one (a * b)) in
            rw (over, none_, checked_mul3) refl
      ])
