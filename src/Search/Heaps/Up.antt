-- ===== src/Search/Heaps/Up.antt =====
-- `sift_up` restores the heap order when one entry may be too large for its place.
use mathlib.Core.List.Perm
use vector_forge.Common.{
  ℕ, zero, suc, ◌≤◌, ◌<◌, ◌≡◌, ◌≢◌, refl, Bool, true, false, List, get_or, arith, length,
  Bool-cases, inl, inr, ltb, ◌∙◌,
}
use vector_forge.Common.Arrays.{swap, length-swap, get_or-swap, swap-perm}
use vector_forge.Search.Order.{StrictWeak}
use vector_forge.Search.Heaps.{sift_up}
use vector_forge.Search.Heaps.Order.{parent, Sifted}

module _ {A : Type 0} (blank : A) (less : A → A → Bool) (w : StrictWeak less) where
  -- Only the edge above `i` may be out of order.
  pub record UpInv (n : ℕ) (d : List A) (i : ℕ) : Type 0 where
    pub inside : i < n
    pub fits : n ≤ length d
    pub edges :
        (c : ℕ)
        → 0 < c
        → c < n
        → c ≢ i
        → less (get_or d (parent c) blank) (get_or d c blank) ≡ false
    pub bridged :
        (c : ℕ)
        → 0 < c
        → c < n
        → parent c ≡ i
        → 0 < i
        → less (get_or d (parent i) blank) (get_or d c blank) ≡ false

  pub lt_weak : (a b : A) → less a b ≡ true → less b a ≡ false
  lt_weak a b h = ground (arith, w.trans a b a, w.irrefl a)

  swap-UpInv :
      (n : ℕ) (d : List A) (i : ℕ)
      → UpInv n d i
      → 0 < i
      → less (get_or d (parent i) blank) (get_or d i blank) ≡ true
      → UpInv n (swap blank d (parent i) i) (parent i)
  swap-UpInv n d i v pos above =
      let at = get_or-swap blank d (parent i) i (omega arith) (omega arith) in
      let x = λ (c : ℕ). get_or d c blank in
      record {
        inside = omega arith;
        fits = omega (arith, v.fits, length-swap blank d (parent i) i);
        edges = λ c p q ne. ground (
          arith,
          at c,
          at (parent c),
          v.edges c,
          v.bridged c,
          lt_weak (x (parent i)) (x i) above,
          w.weak (x i) (x (parent i)) (x c),
        );
        bridged = λ c p q e r. ground (
          arith,
          at c,
          at (parent (parent i)),
          v.edges c,
          v.edges (parent i),
          w.weak (x (parent (parent i))) (x (parent i)) (x c),
        );
      }

  pub Sifted-swap :
      {n i j : ℕ} {d e : List A}
      → i < n
      → j < n
      → n ≤ length d
      → Sifted blank less n (swap blank d i j) e
      → Sifted blank less n d e
  Sifted-swap {n} {i} {j} {d} hi hj fits s = record {
    heap = s.heap;
    same = Perm.trans s.same (swap-perm blank d i j (omega arith) (omega arith) n hi hj fits);
    size = s.size ∙ length-swap blank d i j;
    rest =
        λ c h. s.rest c h ∙ ground (arith, get_or-swap blank d i j (omega arith) (omega arith) c);
  }

  pub sift_up-Sifted :
      (f n : ℕ) (d : List A) (i : ℕ)
      → i < f
      → UpInv n d i
      → Sifted blank less n d (sift_up blank less f d i)
  unfolding sift_up
  sift_up-Sifted zero n d i h v = absurd (omega arith)
  sift_up-Sifted (suc f) n d i h v = elim (Bool-cases (ltb 0 i)) [
    | inr root ↦ rw (root, sift_up) (settled (λ c p q. v.edges c p q (ground arith)))
    | inl pos ↦ elim (Bool-cases (less (get_or d (parent i) blank) (get_or d i blank))) [
      | inr fine ↦ rw (pos, fine, sift_up) (settled (λ c p q. ground (arith, v.edges c)))
      | inl above ↦
          rw (pos, above, sift_up)
            (Sifted-swap (omega (arith, v.inside)) v.inside v.fits (
              sift_up-Sifted f n (swap blank d (parent i) i) (parent i) (ground arith)
                (swap-UpInv n d i v (ground arith) above)))
    ]
  ]
    where
      settled :
          ((c : ℕ) → 0 < c → c < n → less (get_or d (parent c) blank) (get_or d c blank) ≡ false)
          → Sifted blank less n d d
      settled order = record { heap = order; same = Perm.refl _; size = refl; rest = λ c k. refl }
