-- ===== src/Core/Rng.antt =====
-- src/core/rng.hpp: the generators of random words, on integers of 64 bits. The conversions to
-- floating-point numbers are left out.
use Prim.Native.Nat.{bit_or, bit_xor}
use vector_forge.Common.{
  ℕ, zero, suc, Option, none, some, ltb, if◌then◌else◌, ◌+◌, ◌*◌, ◌-◌, ◌/◌, ◌%◌, ◌^◌,
}

abbrev pub split_mix_64_increment : ℕ
split_mix_64_increment = 11400714819323198485

unfoldable pub splitmix64 : ℕ → ℕ
splitmix64 x =
    let z = (x + split_mix_64_increment) % 2 ^ 64 in
    let y = bit_xor z (z / 2 ^ 30) * 13787848793156543929 % 2 ^ 64 in
    let w = bit_xor y (y / 2 ^ 27) * 10723151780598845931 % 2 ^ 64 in bit_xor w (w / 2 ^ 31)

-- The word that SplitMix64 returns, and its next state.
unfoldable pub split_mix_64 : ℕ → ℕ × ℕ
unfolding splitmix64
split_mix_64 state = (splitmix64 state, (state + split_mix_64_increment) % 2 ^ 64)

-- std::rotl on 64 bits, for 0 < k < 64.
unfoldable pub rotl : ℕ → ℕ → ℕ
rotl x k = bit_or (x * 2 ^ k % 2 ^ 64) (x / 2 ^ (64 - k))

pub record Xoshiro256ss : Type 0 where
  pub word_0 : ℕ
  pub word_1 : ℕ
  pub word_2 : ℕ
  pub word_3 : ℕ

unfoldable pub seed_xoshiro : ℕ → Xoshiro256ss
unfolding split_mix_64
seed_xoshiro seed =
    let (a, seed_1) = split_mix_64 seed in
    let (b, seed_2) = split_mix_64 seed_1 in
    let (c, seed_3) = split_mix_64 seed_2 in
    let (d, _) = split_mix_64 seed_3 in record { word_0 = a; word_1 = b; word_2 = c; word_3 = d }

-- The word that the generator returns, and its next state.
unfoldable pub next_xoshiro : Xoshiro256ss → ℕ × Xoshiro256ss
unfolding rotl
next_xoshiro g =
    let result = rotl (g.word_1 * 5 % 2 ^ 64) 7 * 9 % 2 ^ 64 in
    let t = g.word_1 * 2 ^ 17 % 2 ^ 64 in
    let mixed_2 = bit_xor g.word_2 g.word_0 in
    let mixed_3 = bit_xor g.word_3 g.word_1 in
    (
      result,
      record {
        word_0 = bit_xor g.word_0 mixed_3;
        word_1 = bit_xor g.word_1 mixed_2;
        word_2 = bit_xor mixed_2 t;
        word_3 = rotl mixed_3 45;
      },
    )

unfoldable pub mul_high_u64 : ℕ → ℕ → ℕ
mul_high_u64 a b =
    let a_lo = a % 2 ^ 32 in
    let a_hi = a / 2 ^ 32 in
    let b_lo = b % 2 ^ 32 in
    let b_hi = b / 2 ^ 32 in
    let lo_lo = a_lo * b_lo % 2 ^ 64 in
    let hi_lo = a_hi * b_lo % 2 ^ 64 in
    let lo_hi = a_lo * b_hi % 2 ^ 64 in
    let hi_hi = a_hi * b_hi % 2 ^ 64 in
    let cross = (lo_lo / 2 ^ 32 + hi_lo % 2 ^ 32 + lo_hi) % 2 ^ 64 in
    (hi_hi + hi_lo / 2 ^ 32 + cross / 2 ^ 32) % 2 ^ 64

-- The draws until one is not below the threshold; the fuel bounds their number.
unfoldable pub draw_loop : ℕ → Xoshiro256ss → ℕ → ℕ → ℕ → Option (ℕ × Xoshiro256ss)
draw_loop zero g x bound threshold = none
draw_loop (suc fuel) g x bound threshold =
    let (y, h) = next_xoshiro g in
    let rest = draw_loop fuel h y bound threshold in
    if ltb (x * bound % 2 ^ 64) threshold then rest else some (mul_high_u64 x bound, g)

unfoldable pub uniform_below : ℕ → Xoshiro256ss → ℕ → Option (ℕ × Xoshiro256ss)
unfolding draw_loop
uniform_below fuel g bound =
    let (x, h) = next_xoshiro g in
    if ltb (x * bound % 2 ^ 64) bound
    then draw_loop fuel h x bound ((2 ^ 64 - bound) % bound)
    else some (mul_high_u64 x bound, h)
