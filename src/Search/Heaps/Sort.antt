-- ===== src/Search/Heaps/Sort.antt =====
-- `pop` takes the worst candidate, and `sort_ascending` takes all of them in turn.
use mathlib.Core.List.{Perm, Mem}
use mathlib.Core.List.Perm
use vector_forge.Common.{
  ℕ, zero, suc, ◌+◌, ◌-◌, ◌≤◌, ◌<◌, ◌≡◌, refl, Bool, false, List, get_or, ◌∷◌, arith, length, take,
  Bool-cases, inl, inr, ltb, set, ◌∙◌, length-set, ltb→lt, lt→ltb, ◌==◌, if◌then◌else◌,
}
use vector_forge.Common.Arrays.{swap, length-swap, get_or-swap, swap-perm, set-trade, take-suc-perm}
use vector_forge.Core.Status.{ok, Returns}
use vector_forge.Search.Order.{StrictWeak}
use vector_forge.Search.Heaps.{
  BoundedMaxHeap, sift_down, contents, top, pop, sort_loop, sort_ascending,
}
use vector_forge.Search.Heaps.Order.{parent, IsHeap, Sifted}
use vector_forge.Search.Heaps.Down.{DownInv, sift_down-Sifted}
use vector_forge.Search.Heaps.Bounded.{
  root_greatest, not-less_of_mem, mem_take, IsValid, start_down,
}

module _ {A : Type 0} (blank : A) (less : A → A → Bool) (w : StrictWeak less) where
  -- No entry among those from `k` to `n` is less than one before it.
  abbrev pub IsSortedFrom : ℕ → ℕ → List A → Type 0
  IsSortedFrom k n d =
      (i j : ℕ) → i < j → j < n → k ≤ j → less (get_or d j blank) (get_or d i blank) ≡ false

  -- What the loop keeps, with `k` entries still in the heap.
  record SortInv (n k : ℕ) (d : List A) : Type 0 where
    heap : IsHeap blank less k d
    sorted : IsSortedFrom k n d
    fits : n ≤ length d
    part : k ≤ n

  -- The result of the loop.
  pub record Sorted (n : ℕ) (d e : List A) : Type 0 where
    pub sorted : IsSortedFrom 0 n e
    pub same : Perm (take n e) (take n d)
    pub size : length e ≡ length d

  -- Sifting the first `m` entries permutes the first `m + r`.
  Sifted-perm :
      (m r : ℕ) (d e : List A)
      → Sifted blank less m d e
      → m + r ≤ length d
      → Perm (take (m + r) e) (take (m + r) d)
  Sifted-perm m zero d e s h = rw (right_zero) s.same
    where
      right_zero : m + 0 ≡ m
      right_zero = omega arith
  Sifted-perm m (suc r) d e s h =
      let last : m + suc r ≡ suc (m + r) = omega arith in
      rw last (
        Perm.trans (take-suc-perm blank (m + r) e (omega (arith, s.size))) (
          rw (s.rest (m + r) (omega arith)) (
            Perm.trans (Perm.cons _ (Sifted-perm m r d e s (omega arith)))
              (Perm.symm (take-suc-perm blank (m + r) d (omega arith))))))

  -- One round: the root goes behind the heap, and the rest is sifted.
  module _ (n k : ℕ) (d : List A) (v : SortInv n (suc (suc k)) d) where
    abbrev moved : List A
    moved = swap blank d 0 (suc k)

    at :
        (c : ℕ)
        → get_or moved c blank ≡ (
            if suc k == c
            then get_or d 0 blank
            else if 0 == c
            then get_or d (suc k) blank
            else get_or d c blank)
    at =
        get_or-swap blank d 0 (suc k) (omega (arith, v.part, v.fits))
          (omega (arith, v.part, v.fits))

    moved-DownInv : DownInv blank less w (suc k) moved 0
    moved-DownInv = record {
      fits = omega (arith, length-swap blank d 0 (suc k), v.part, v.fits);
      edges = λ i p q ne. ground (arith, at i, at (parent i), v.heap i);
      bridged = λ i p q e r. absurd (omega arith);
    }

    abbrev sunk : List A
    sunk = sift_down blank less (suc (suc k)) moved 0 (suc k)

    sunk-Sifted : Sifted blank less (suc k) moved sunk
    sunk-Sifted =
        sift_down-Sifted blank less w (suc (suc k)) (suc k) moved 0 (omega arith) moved-DownInv

    not-less_moved :
        (i j : ℕ)
        → i < suc k
        → suc k ≤ j
        → j < n
        → less (get_or moved j blank) (get_or moved i blank) ≡ false
    not-less_moved i j p q r = ground (
      arith,
      at i,
      at j,
      root_greatest blank less w (suc (suc k)) d i v.heap,
      root_greatest blank less w (suc (suc k)) d (suc k) v.heap,
      v.sorted i j,
      v.sorted (suc k) j,
    )

    not-less_sunk :
        (i j : ℕ)
        → i < suc k
        → suc k ≤ j
        → j < n
        → less (get_or sunk j blank) (get_or sunk i blank) ≡ false
    not-less_sunk i j p q r =
        let s = sunk-Sifted in
        rw (s.rest j q) (
          not-less_of_mem blank less w (get_or moved j blank) (suc k) moved
            (λ c below. not-less_moved c j below q r)
            (omega (arith, length-swap blank d 0 (suc k), v.part, v.fits)) (get_or sunk i blank)
            ((Perm.mem_iff s.same).0 (
              mem_take blank less w (suc k) sunk i p
                (omega (arith, s.size, length-swap blank d 0 (suc k), v.part, v.fits)))))

    sunk-SortInv : SortInv n (suc k) sunk
    sunk-SortInv =
        let s = sunk-Sifted in
        record {
          heap = s.heap;
          sorted = λ i j p q r. elim (Bool-cases (ltb i (suc k))) [
            | inl low ↦ not-less_sunk i j (ltb→lt _ _ low) r q
            | inr high ↦ ground (arith, s.rest i, s.rest j, at i, at j, v.sorted i j, v.sorted 0 j)
          ];
          fits = omega (arith, s.size, length-swap blank d 0 (suc k), v.fits);
          part = omega (arith, v.part);
        }

    sunk-perm : Perm (take n sunk) (take n d)
    sunk-perm =
        let whole : suc k + (n - suc k) ≡ n = omega (arith, v.part) in
        Perm.trans
          (rw whole at (
            Sifted-perm (suc k) (n - suc k) moved sunk sunk-Sifted
              (omega (arith, v.part, v.fits, length-swap blank d 0 (suc k)))))
          (swap-perm blank d 0 (suc k) (omega (arith, v.part, v.fits))
            (omega (arith, v.part, v.fits)) n (omega (arith, v.part)) (omega (arith, v.part))
            v.fits)

  sort_loop-Sorted : (n k : ℕ) (d : List A) → SortInv n k d → Sorted n d (sort_loop blank less k d)
  unfolding sort_loop
  sort_loop-Sorted n zero d v = record {
    sorted = λ i j p q r. v.sorted i j p q r;
    same = Perm.refl _;
    size = refl;
  }
  sort_loop-Sorted n (suc zero) d v = record {
    sorted = λ i j p q r. v.sorted i j p q (omega arith);
    same = Perm.refl _;
    size = refl;
  }
  sort_loop-Sorted n (suc (suc k)) d v =
      let r = sort_loop-Sorted n (suc k) (sunk n k d v) (sunk-SortInv n k d v) in
      record {
        sorted = r.sorted;
        same = Perm.trans r.same (sunk-perm n k d v);
        size = r.size ∙ (sunk-Sifted n k d v).size ∙ length-swap blank d 0 (suc k);
      }

  -- For a valid heap, the count is the heap's size, the heap is left empty, and the storage starts
  -- with the retained elements, each once and no later one less than an earlier one.
  pub sort_ascending-Sorted :
      (h : BoundedMaxHeap A)
      → IsValid blank less w h
      → ((sort_ascending blank less h).0 ≡ h.size)
        × ((sort_ascending blank less h).1.size ≡ 0)
        × Sorted h.size h.storage (sort_ascending blank less h).1.storage
  unfolding sort_ascending
  sort_ascending-Sorted h v = (
    refl,
    refl,
    sort_loop-Sorted h.size h.size h.storage (record {
      heap = v.heap;
      sorted = λ i j p q r. absurd (omega arith);
      fits = v.fits;
      part = omega arith;
    }),
  )

  -- What `pop` leaves: the contents without the first entry, which is the greatest.
  pub record Popped (h r : BoundedMaxHeap A) : Type 0 where
    pub valid : IsValid blank less w r
    pub capacity : length r.storage ≡ length h.storage
    pub size : r.size + 1 ≡ h.size
    pub same : Perm (get_or h.storage 0 blank ∷ contents r) (contents h)
    pub greatest : (y : A) → Mem y (contents h) → less (get_or h.storage 0 blank) y ≡ false

  greatest_entry :
      (h : BoundedMaxHeap A)
      → IsValid blank less w h
      → (y : A) → Mem y (contents h)
      → less (get_or h.storage 0 blank) y ≡ false
  greatest_entry h v =
      not-less_of_mem blank less w (get_or h.storage 0 blank) h.size h.storage
        (λ i p. root_greatest blank less w h.size h.storage i v.heap p) v.fits

  pop_last :
      (h : BoundedMaxHeap A)
      → IsValid blank less w h
      → h.size ≡ 1
      → Popped h (record h { size = h.size - 1 })
  pop_last h v one = record {
    valid = record { fits = omega (arith, v.fits); heap = λ c p q. absurd (omega arith) };
    capacity = refl;
    size = omega arith;
    same =
        let none_left : h.size - 1 ≡ 0 = omega arith in
        let one' : h.size ≡ suc 0 = one in
        rw (none_left, one') (Perm.symm (take-suc-perm blank 0 h.storage (omega (arith, v.fits))));
    greatest = greatest_entry h v;
  }

  pop_more :
      (h : BoundedMaxHeap A) (n : ℕ)
      → IsValid blank less w h
      → h.size ≡ suc n
      → 0 < n
      → Popped h (record {
        storage = sift_down blank less (n + 1) (set h.storage 0 (get_or h.storage n blank)) 0 n;
        size = n;
      })
  pop_more h n v sizes some_ =
      let root = get_or h.storage 0 blank in
      let last = get_or h.storage n blank in
      let s =
        sift_down-Sifted blank less w (n + 1) n (set h.storage 0 last) 0 (omega arith)
          (start_down blank less w h last v last n (omega arith) (omega arith)) in
      record {
        valid = record {
          fits = omega (arith, s.size, length-set h.storage 0 last, v.fits);
          heap = s.heap;
        };
        capacity = s.size ∙ length-set h.storage 0 last;
        size = omega arith;
        same = Perm.trans (Perm.cons root s.same) (
            Perm.trans (set-trade blank n h.storage 0 last some_ (omega (arith, v.fits)))
              (rw sizes (Perm.symm (take-suc-perm blank n h.storage (omega (arith, v.fits))))));
        greatest = greatest_entry h v;
      }

  -- `top` and `pop` of a valid heap that is not empty: `top` is the first entry, which no retained
  -- element exceeds, and `pop` leaves a valid heap with the others.
  pub pop-Popped :
      (h : BoundedMaxHeap A)
      → IsValid blank less w h
      → 0 < h.size
      → (top blank less h ≡ ok (get_or h.storage 0 blank))
        × Returns (pop blank less h) (λ r. Popped h r)
  unfolding pop top
  pop-Popped h v some_ = elim (Bool-cases (ltb 0 (h.size - 1))) [
    | inl more_ ↦
        rw (lt→ltb 0 h.size some_, more_, pop, top)
          (refl, (_, refl, pop_more h (h.size - 1) v (omega arith) (ltb→lt _ _ more_)))
    | inr last ↦
        rw (lt→ltb 0 h.size some_, last, pop, top) (refl, (_, refl, pop_last h v (ground arith)))
  ]
