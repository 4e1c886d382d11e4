-- ===== src/Storage/VectorStore/Memory.antt =====
-- Reading back what is copied to an offset.
use vector_forge.Common.{
  ℕ, zero, suc, ◌+◌, ◌≤◌, ◌≡◌, refl, ap, List, [], ◌∷◌, length, take, drop, arith,
}
use vector_forge.Storage.VectorStore.{copy_to}

module _ {F : Type 0} (blank : F) where
  pub length-copy_to : (d : List F) (o : ℕ) (r : List F) → length (copy_to blank d o r) ≡ length d
  unfolding copy_to
  length-copy_to [] o r = refl
  length-copy_to (x ∷ d) (suc o) r = ap suc (length-copy_to d o r)
  length-copy_to (x ∷ d) zero [] = refl
  length-copy_to (x ∷ d) zero (y ∷ r) = ap suc (length-copy_to d zero r)

  pub copy_to-same :
      (d : List F) (o : ℕ) (r : List F)
      → o + length r ≤ length d
      → take (length r) (drop o (copy_to blank d o r)) ≡ r
  unfolding copy_to
  copy_to-same [] zero [] h = refl
  copy_to-same [] zero (y ∷ r) h = absurd (omega arith)
  copy_to-same [] (suc o) r h = absurd (omega arith)
  copy_to-same (x ∷ d) (suc o) r h = copy_to-same d o r (omega arith)
  copy_to-same (x ∷ d) zero [] h = refl
  copy_to-same (x ∷ d) zero (y ∷ r) h = ap (◌∷◌ y) (copy_to-same d zero r (omega arith))

  pub copy_to-before :
      (d : List F) (o p n : ℕ) (r : List F)
      → p + n ≤ o
      → take n (drop p (copy_to blank d o r)) ≡ take n (drop p d)
  unfolding copy_to
  copy_to-before [] o p n r h = refl
  copy_to-before (x ∷ d) zero zero zero r h = refl
  copy_to-before (x ∷ d) zero p n r h = absurd (omega arith)
  copy_to-before (x ∷ d) (suc o) (suc p) n r h = copy_to-before d o p n r (omega arith)
  copy_to-before (x ∷ d) (suc o) zero zero r h = refl
  copy_to-before (x ∷ d) (suc o) zero (suc n) r h =
      ap (◌∷◌ x) (copy_to-before d o zero n r (omega arith))

  pub copy_to-after :
      (d : List F) (o p n : ℕ) (r : List F)
      → o + length r ≤ p
      → drop p (copy_to blank d o r) ≡ drop p d
  unfolding copy_to
  copy_to-after [] o p n r h = refl
  copy_to-after (x ∷ d) (suc o) zero n r h = absurd (omega arith)
  copy_to-after (x ∷ d) (suc o) (suc p) n r h = copy_to-after d o p n r (omega arith)
  copy_to-after (x ∷ d) zero p n [] h = refl
  copy_to-after (x ∷ d) zero zero n (y ∷ r) h = absurd (omega arith)
  copy_to-after (x ∷ d) zero (suc p) n (y ∷ r) h = copy_to-after d zero p n r (omega arith)
