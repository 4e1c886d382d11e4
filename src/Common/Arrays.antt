-- ===== src/Common/Arrays.antt =====
-- Arrays as lists: std::swap of two entries, and permutations of the first `n` entries.
use mathlib.Core.List.{Perm}
use mathlib.Core.List.Perm
use Prim.Native.Nat.{ℕ, zero, suc, ◌<◌, ◌≤◌}
use mathlib.Core.Path.{◌≡◌, refl, ap}
use mathlib.Core.List.{List, [], ◌∷◌, ◌++◌}
use native.Mathlib.Omega.{arith}
use vector_forge.Common.Tests.{◌==◌, if◌then◌else◌}
use vector_forge.Common.Lists.{length, get_or, set, take, length-set, get_or-set}

module _ {ℓ} {A : Type ℓ} (blank : A) where
  unfoldable pub swap : List A → ℕ → ℕ → List A
  swap a i j = set (set a i (get_or a j blank)) j (get_or a i blank)

  pub length-swap : (a : List A) (i j : ℕ) → length (swap a i j) ≡ length a
  unfolding swap
  length-swap a i j = simp length-set

  -- Writing an entry trades the old value for the new one.
  pub set-trade :
      (n : ℕ) (a : List A) (i : ℕ) (v : A)
      → i < n
      → n ≤ length a
      → Perm (get_or a i blank ∷ take n (set a i v)) (v ∷ take n a)
  set-trade zero a i v h k = absurd (omega arith)
  set-trade (suc n) [] i v h k = absurd (omega arith)
  set-trade (suc n) (x ∷ a) zero v h k = Perm.swap v x (take n a)
  set-trade (suc n) (x ∷ a) (suc i) v h k = Perm.trans (Perm.swap x (get_or a i blank) _) (
      Perm.trans (Perm.cons x (set-trade n a i v (omega arith) (omega arith)))
        (Perm.swap v x (take n a)))

  pub take-set_out : (n : ℕ) (a : List A) (i : ℕ) (v : A) → n ≤ i → take n (set a i v) ≡ take n a
  take-set_out zero a i v h = refl
  take-set_out (suc n) [] i v h = refl
  take-set_out (suc n) (x ∷ a) zero v h = absurd (omega arith)
  take-set_out (suc n) (x ∷ a) (suc i) v h = ap (◌∷◌ x) (take-set_out n a i v (omega arith))

  pub take-suc :
      (n : ℕ) (a : List A) → n < length a → take (suc n) a ≡ take n a ++ get_or a n blank ∷ []
  take-suc n [] h = absurd (omega arith)
  take-suc zero (x ∷ a) h = refl
  take-suc (suc n) (x ∷ a) h = ap (◌∷◌ x) (take-suc n a (omega arith))

  -- The first `n + 1` entries are the first `n` and entry `n`.
  pub take-suc-perm :
      (n : ℕ) (a : List A) → n < length a → Perm (take (suc n) a) (get_or a n blank ∷ take n a)
  take-suc-perm n [] h = absurd (omega arith)
  take-suc-perm zero (x ∷ a) h = Perm.refl (x ∷ [])
  take-suc-perm (suc n) (x ∷ a) h =
      Perm.trans (Perm.cons x (take-suc-perm n a (omega arith)))
        (Perm.swap (get_or a n blank) x (take n a))

  module _ (a : List A) (i j : ℕ) (hi : i < length a) (hj : j < length a) where
    pub get_or-swap :
        (c : ℕ)
        → get_or (swap a i j) c blank ≡ (
            if j == c
            then get_or a i blank
            else if i == c
            then get_or a j blank
            else get_or a c blank)
    unfolding swap
    get_or-swap c =
        rw
          (
            get_or-set (set a i (get_or a j blank)) j c (get_or a i blank) blank
                (rw (length-set a i (get_or a j blank)) hj),
            get_or-set a i c (get_or a j blank) blank hi,
          )
          refl

    pub swap-perm : (n : ℕ) → i < n → j < n → n ≤ length a → Perm (take n (swap a i j)) (take n a)
    unfolding swap
    swap-perm n ni nj k =
        let b = set a i (get_or a j blank) in
        let kept : get_or b j blank ≡ get_or a j blank =
          ground (arith, get_or-set a i j (get_or a j blank) blank hi) in
        let second =
          rw kept at
            (set-trade n b j (get_or a i blank) nj (rw (length-set a i (get_or a j blank)) k)) in
        Perm.cons_inv (Perm.trans second (set-trade n a i (get_or a j blank) ni k))
