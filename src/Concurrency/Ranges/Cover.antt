-- ===== src/Concurrency/Ranges/Cover.antt =====
-- The chunks of a range are the range.
use native.Mathlib.Nat.{mod-eq_of_lt, mul-le-mul_right, div-add-mod', mod-lt}
use vector_forge.Common.{
  ℕ, zero, suc, ◌+◌, ◌-◌, ◌*◌, ◌/◌, ◌%◌, ◌^◌, ◌<◌, ◌≤◌, ◌≡◌, refl, ap, ◌∙◌, Bool, List, [], ◌∷◌,
  ◌++◌, ◌==◌, ◌||◌, leb, ltb, min, max, arith, Bool-cases, inl, inr,
}
use vector_forge.Concurrency.Ranges.{chunk_count, chunk_at, run_chunks, run_ranges}

-- `n` numbers from `x` on.
unfoldable pub upto : ℕ → ℕ → List ℕ
upto x zero = []
upto x (suc n) = x ∷ upto (x + 1) n

-- The indices of the ranges, in the order of the calls.
unfoldable pub indices : List (ℕ × ℕ) → List ℕ
indices [] = []
indices (r ∷ l) = upto r.0 (r.1 - r.0) ++ indices l

upto-same : (x y n m : ℕ) → x ≡ y → n ≡ m → upto x n ≡ upto y m
upto-same x y n m e f = rw (e, f) refl

append-nil : (l : List ℕ) → l ++ [] ≡ l
append-nil [] = refl
append-nil (x ∷ l) = ap (λ k. x ∷ k) (append-nil l)

upto-empty : (x y n m : ℕ) → n ≡ 0 → m ≡ 0 → upto x n ≡ upto y m
unfolding upto
upto-empty x y n m e f = rw (e, f) refl

upto-split : (x a b y n : ℕ) → (0 < b → y ≡ x + a) → n ≡ a + b → upto x a ++ upto y b ≡ upto x n
unfolding upto
upto-split x zero zero y n e f = rw (f) refl
upto-split x zero (suc b) y n e f =
    upto-same y x (suc b) n (omega (arith, e (omega arith))) (omega arith)
upto-split x (suc a) b y zero e f = absurd (omega arith)
upto-split x (suc a) b y (suc n) e f =
    ap (λ l. x ∷ l) (upto-split (x + 1) a b y n (λ h. omega (arith, e h)) (omega arith))

module _ (begin end grain chunks : ℕ) (forward : begin < end) (wide : end + grain ≤ 2 ^ 64)
    (enough : end ≤ begin + chunks * grain)
    (inside : (chunk : ℕ) → chunk < chunks → begin + chunk * grain < end) where
  next_chunk : (chunk : ℕ) → begin + (chunk + 1) * grain ≡ begin + chunk * grain + grain
  next_chunk chunk = grind arith

  chunk-indices :
      (chunk : ℕ)
      → chunk < chunks
      → chunk_at begin end grain chunk
        ≡ (begin + chunk * grain, min end (begin + chunk * grain + grain))
  unfolding chunk_at
  chunk-indices chunk h =
      let small = inside chunk h in
      let lo : (begin + chunk * grain) % 2 ^ 64 ≡ begin + chunk * grain =
        mod-eq_of_lt (omega arith) in
      rw lo (elim (Bool-cases (ltb (begin + chunk * grain + grain) (2 ^ 64))) [
        | inl fits ↦
            let hi : (begin + chunk * grain + grain) % 2 ^ 64 ≡ begin + chunk * grain + grain =
              mod-eq_of_lt (ground arith) in
            rw hi refl
        | inr over ↦ absurd (ground arith)
      ])

  past : (chunk : ℕ) → chunks ≤ chunk → end ≤ begin + chunk * grain
  past chunk h = omega (arith, enough, mul-le-mul_right grain h)

  run_chunks-indices :
      (claims next : ℕ)
      → chunks ≤ next + claims
      → indices (run_chunks begin end grain chunks next claims)
        ≡ upto (begin + next * grain) (end - (begin + next * grain))
  unfolding run_chunks indices upto
  run_chunks-indices zero next h =
      let none_ : end - (begin + next * grain) ≡ 0 = omega (arith, past next (omega arith)) in
      rw none_ refl
  run_chunks-indices (suc claims) next h =
      let rest = run_chunks-indices claims (next + 1) (omega arith) in
      elim (Bool-cases (leb chunks next)) [
        | inl done ↦
            let none_ : end - (begin + next * grain) ≡ 0 =
              omega (arith, past next (ground arith)) in
            let none_after : end - (begin + (next + 1) * grain) ≡ 0 =
              omega (arith, past (next + 1) (ground arith)) in
            rw done (rest ∙ upto-empty _ _ _ _ none_after none_)
        | inr there ↦
            let claimed : next < chunks = ground arith in
            rw there (
              ap
                (λ c.
                  upto c.0 (c.1 - c.0)
                  ++ indices (run_chunks begin end grain chunks (next + 1) claims))
                (chunk-indices next claimed)
              ∙ ap
                  (λ l.
                    upto (begin + next * grain)
                      (min end (begin + next * grain + grain) - (begin + next * grain))
                    ++ l)
                  rest
              ∙ upto-split _ _ _ _ _ (λ h. omega (arith, next_chunk next, inside next claimed))
                  (omega (arith, next_chunk next, inside next claimed)))
      ]

add_zero_mul : (q grain : ℕ) → (q + 0) * grain ≡ q * grain
add_zero_mul q grain = ap (λ n. n * grain) (omega arith)

add_one_mul : (q grain : ℕ) → (q + 1) * grain ≡ q * grain + grain
add_one_mul q grain = grind arith

module _ (count grain : ℕ) (positive : 0 < grain) where
  chunk_count-enough : count ≤ chunk_count count grain * grain
  unfolding chunk_count
  chunk_count-enough =
      let whole = div-add-mod' count grain in
      elim (Bool-cases (count % grain == 0)) [
        | inl even ↦ rw even (ground (arith, whole, add_zero_mul (count / grain) grain))
        | inr odd ↦
            rw odd (omega (arith, whole, mod-lt count positive, add_one_mul (count / grain) grain))
      ]

  chunk_count-inside : (chunk : ℕ) → chunk < chunk_count count grain → chunk * grain < count
  unfolding chunk_count
  chunk_count-inside chunk h =
      let whole = div-add-mod' count grain in
      elim (Bool-cases (count % grain == 0)) [
        | inl even ↦
            let below : chunk + 1 ≤ count / grain = ground arith in
            omega (arith, whole, mul-le-mul_right grain below, add_one_mul chunk grain)
        | inr odd ↦
            let below : chunk ≤ count / grain = ground arith in
            let rest : 0 < count % grain = ground arith in
            omega (arith, whole, rest, mul-le-mul_right grain below)
      ]

-- For a range whose end plus the grain, at least 1, has no overflow, and at least as many calls on
-- the counter as chunks, the ranges that the body gets have together exactly the indices of the
-- range, each once, in the order of the calls.
pub run_ranges-Cover :
    (begin end grain claims : ℕ) (on_worker : Bool)
    → end + max grain 1 ≤ 2 ^ 64
    → chunk_count (end - begin) (max grain 1) ≤ claims
    → indices (run_ranges begin end grain on_worker claims) ≡ upto begin (end - begin)
unfolding run_ranges indices upto
run_ranges-Cover begin end grain claims on_worker wide enough =
    let count = end - begin in
    let positive : 0 < max grain 1 = omega arith in
    elim (Bool-cases (leb end begin)) [
      | inl nothing ↦ let none_ : end - begin ≡ 0 = ground arith in rw (nothing, none_) refl
      | inr some_ ↦
          let forward : begin < end = ground arith in
          elim (Bool-cases (chunk_count count (max grain 1) == 1 || on_worker)) [
            | inl whole ↦ rw (some_, whole) (append-nil _)
            | inr split ↦
                let all =
                  run_chunks-indices begin end (max grain 1) (chunk_count count (max grain 1))
                    forward wide (omega (arith, chunk_count-enough count (max grain 1) positive))
                    (λ chunk h.
                      omega (arith, chunk_count-inside count (max grain 1) positive chunk h))
                    claims 0 (omega (arith, enough)) in
                rw (some_, split)
                  (all ∙ upto-same _ _ _ _ (first (max grain 1)) (last (max grain 1)))
          ]
    ]
  where
    first : (g : ℕ) → begin + 0 * g ≡ begin
    first g = grind arith

    last : (g : ℕ) → end - (begin + 0 * g) ≡ end - begin
    last g = ap (λ x. end - x) (first g)
