-- ===== src/Search/Heaps/Down.antt =====
-- `sift_down` restores the heap order when one entry may be too small for its place.
use mathlib.Core.List.Perm
use vector_forge.Common.{
  ℕ, zero, suc, ◌+◌, ◌*◌, ◌≤◌, ◌<◌, ◌≡◌, ◌≢◌, refl, Bool, true, false, List, get_or, arith, length,
  Bool-cases, inl, inr, leb, leb→le, ◌⊎◌,
}
use vector_forge.Common.Arrays.{swap, length-swap, get_or-swap}
use vector_forge.Search.Order.{StrictWeak}
use vector_forge.Search.Heaps.{sift_down, larger_child}
use vector_forge.Search.Heaps.Order.{parent, Sifted}
use vector_forge.Search.Heaps.Up.{lt_weak, Sifted-swap}

module _ {A : Type 0} (blank : A) (less : A → A → Bool) (w : StrictWeak less) where
  -- Only the edges below `i` may be out of order.
  pub record DownInv (n : ℕ) (d : List A) (i : ℕ) : Type 0 where
    pub fits : n ≤ length d
    pub edges :
        (c : ℕ)
        → 0 < c
        → c < n
        → parent c ≢ i
        → less (get_or d (parent c) blank) (get_or d c blank) ≡ false
    pub bridged :
        (c : ℕ)
        → 0 < c
        → c < n
        → parent c ≡ i
        → 0 < i
        → less (get_or d (parent i) blank) (get_or d c blank) ≡ false

  -- `m` is a child of `i`, and no child is larger.
  record IsLargerChild (n : ℕ) (d : List A) (i m : ℕ) : Type 0 where
    inside : m < n
    child : (m ≡ 2 * i + 1) ⊎ (m ≡ 2 * i + 2)
    greatest :
        (c : ℕ) → 0 < c → c < n → parent c ≡ i → less (get_or d m blank) (get_or d c blank) ≡ false

  larger_child-IsLargerChild :
      (n : ℕ) (d : List A) (i : ℕ)
      → 2 * i + 1 < n
      → IsLargerChild n d i (larger_child blank less d i n)
  unfolding larger_child
  larger_child-IsLargerChild n d i h = record {
    inside = ground arith;
    child = ground arith;
    greatest = λ c p q e.
        let side : (c ≡ 2 * i + 1) ⊎ (c ≡ 2 * i + 2) = omega arith in
        ground (
          arith,
          w.irrefl (get_or d c blank),
          lt_weak blank less w (get_or d (2 * i + 1) blank) (get_or d (2 * i + 1 + 1) blank),
        );
  }

  swap-DownInv :
      (n : ℕ) (d : List A) (i m : ℕ)
      → DownInv n d i
      → IsLargerChild n d i m
      → less (get_or d i blank) (get_or d m blank) ≡ true
      → DownInv n (swap blank d i m) m
  swap-DownInv n d i m v s below =
      let at = get_or-swap blank d i m (omega arith) (omega arith) in
      record {
        fits = omega (arith, length-swap blank d i m);
        edges = λ c p q ne. ground (
          arith,
          at c,
          at (parent c),
          v.edges c,
          v.bridged m,
          s.greatest c,
          lt_weak blank less w (get_or d i blank) (get_or d m blank),
        );
        bridged = λ c p q e r. ground (arith, at c, at (parent m), v.edges c);
      }

  unmoved :
      (n : ℕ) (d : List A)
      → ((c : ℕ) → 0 < c → c < n → less (get_or d (parent c) blank) (get_or d c blank) ≡ false)
      → Sifted blank less n d d
  unmoved n d order = record { heap = order; same = Perm.refl _; size = refl; rest = λ c k. refl }

  pub sift_down-Sifted :
      (f n : ℕ) (d : List A) (i : ℕ)
      → n < f + i
      → DownInv n d i
      → Sifted blank less n d (sift_down blank less f d i n)
  unfolding sift_down
  sift_down-Sifted zero n d i h v = unmoved n d (λ c p q. v.edges c p q (omega arith))
  sift_down-Sifted (suc f) n d i h v = elim (Bool-cases (leb n (2 * i + 1))) [
    | inl leaf ↦
        rw (leaf, sift_down)
          (unmoved n d (λ c p q. v.edges c p q (omega (arith, leb→le n (2 * i + 1) leaf))))
    | inr inner ↦
        let m = larger_child blank less d i n in
        let s = larger_child-IsLargerChild n d i (ground arith) in
        elim (Bool-cases (less (get_or d i blank) (get_or d m blank))) [
          | inr fine ↦
              rw (inner, fine, sift_down)
                (unmoved n d (λ c p q. ground (
                  arith,
                  v.edges c,
                  s.greatest c,
                  w.weak (get_or d i blank) (get_or d m blank) (get_or d c blank),
                )))
          | inl below ↦
              rw (inner, below, sift_down)
                (Sifted-swap blank less w (ground (arith, s.inside)) s.inside v.fits (
                  sift_down-Sifted f n (swap blank d i m) m (ground (arith, s.child))
                    (swap-DownInv n d i m v s below)))
        ]
  ]
