-- ===== src/Search/Heaps/Bounded.antt =====
-- BoundedMaxHeap: `push` keeps the best candidates, `pop` removes the worst.
use mathlib.Core.List.{Perm, Mem, mem-cons, not-mem-nil, mem-cons_self, mem-cons_of_mem}
use mathlib.Core.List.Perm
use mathlib.Core.Logic.Or
use mathlib.Core.Bool.{Bool-set}
use vector_forge.Common.{
  ℕ, zero, suc, ◌+◌, ◌≤◌, ◌<◌, ◌≡◌, refl, Bool, true, false, List, get_or, [], ◌∷◌, ◌++◌, arith,
  length, take, Bool-cases, inl, inr, ltb, ltb→lt, set, ◌∙◌, length-set, get_or-set, min, ◌==◌,
}
use vector_forge.Common.Arrays.{set-trade, take-suc-perm, take-set_out}
use vector_forge.Search.Order.{StrictWeak}
use vector_forge.Search.Heaps.{BoundedMaxHeap, sift_up, sift_down, contents, push}
use vector_forge.Search.Heaps.Order.{parent, IsHeap}
use vector_forge.Search.Heaps.Up.{UpInv, sift_up-Sifted, lt_weak}
use vector_forge.Search.Heaps.Down.{DownInv, sift_down-Sifted}

module _ {A : Type 0} (blank : A) (less : A → A → Bool) (w : StrictWeak less) where
  root_greatest_below :
      (k n : ℕ) (d : List A) (i : ℕ)
      → IsHeap blank less n d
      → i < k
      → i < n
      → less (get_or d 0 blank) (get_or d i blank) ≡ false
  root_greatest_below zero n d i h p q = absurd (omega arith)
  root_greatest_below (suc k) n d zero h p q = w.irrefl (get_or d 0 blank)
  root_greatest_below (suc k) n d (suc i) h p q =
      w.weak (get_or d 0 blank) (get_or d (parent (suc i)) blank) (get_or d (suc i) blank)
        (root_greatest_below k n d (parent (suc i)) h (omega arith) (omega arith))
        (h (suc i) (omega arith) q)

  -- The root of a heap is not less than any entry.
  pub root_greatest :
      (n : ℕ) (d : List A) (i : ℕ)
      → IsHeap blank less n d
      → i < n
      → less (get_or d 0 blank) (get_or d i blank) ≡ false
  root_greatest n d i h p = root_greatest_below (suc i) n d i h (omega arith) p

  pub mem_take :
      (n : ℕ) (d : List A) (i : ℕ) → i < n → n ≤ length d → Mem (get_or d i blank) (take n d)
  mem_take zero d i h k = absurd (omega arith)
  mem_take (suc n) [] i h k = absurd (omega arith)
  mem_take (suc n) (z ∷ d) zero h k = mem-cons_self
  mem_take (suc n) (z ∷ d) (suc i) h k =
      mem-cons_of_mem z (mem_take n d i (omega arith) (omega arith))

  -- What holds of each of the first entries by index holds of each by membership.
  pub not-less_of_mem :
      (x : A) (n : ℕ) (d : List A)
      → ((i : ℕ) → i < n → less x (get_or d i blank) ≡ false)
      → n ≤ length d
      → (y : A) → Mem y (take n d)
      → less x y ≡ false
  not-less_of_mem x zero d h k y m = absurd (not-mem-nil m)
  not-less_of_mem x (suc n) [] h k y m = absurd (not-mem-nil m)
  not-less_of_mem x (suc n) (z ∷ d) h k y m =
      Or.elim (Bool-set _ _) (mem-cons.0 m) (λ e. rw e (h 0 (omega arith)))
        (not-less_of_mem x n d (λ i p. h (suc i) (omega arith)) (omega arith) y)

  pub record IsValid (h : BoundedMaxHeap A) : Type 0 where
    pub fits : h.size ≤ length h.storage
    pub heap : IsHeap blank less h.size h.storage

  -- What `push` retains and drops: together the candidate and the contents from before, and nothing
  -- that is dropped is less than something that is retained.
  pub record Pushed (h : BoundedMaxHeap A) (c : A) (r : Bool × BoundedMaxHeap A) : Type 0 where
    pub valid : IsValid r.1
    pub capacity : length r.1.storage ≡ length h.storage
    pub size : r.1.size ≡ min (length h.storage) (h.size + 1)
    pub dropped : List A
    pub drops : length dropped + r.1.size ≡ h.size + 1
    pub same : Perm (dropped ++ contents r.1) (c ∷ contents h)
    pub best : (x y : A) → Mem x dropped → Mem y (contents r.1) → less x y ≡ false
    pub below :
        length h.storage ≤ h.size
        → (x : A) → ((y : A) → Mem y (contents h) → less x y ≡ false)
        → (y : A) → Mem y (contents r.1)
        → less x y ≡ false

  module _ (h : BoundedMaxHeap A) (c : A) (v : IsValid h) where
    start_up :
        h.size < length h.storage → UpInv blank less w (h.size + 1) (set h.storage h.size c) h.size
    start_up room =
        let at = λ (i : ℕ). get_or-set h.storage h.size i c blank room in
        record {
          inside = omega arith;
          fits = omega (arith, length-set h.storage h.size c);
          edges = λ i p q ne. ground (arith, at i, at (parent i), v.heap i);
          bridged = λ i p q e r. absurd (omega arith);
        }

    pub start_down :
        (x : A) → (n : ℕ) → n ≤ h.size → 0 < h.size → DownInv blank less w n (set h.storage 0 x) 0
    start_down x n below some_entry =
        let at = λ (i : ℕ). get_or-set h.storage 0 i x blank (omega (arith, v.fits)) in
        record {
          fits = omega (arith, v.fits, length-set h.storage 0 x);
          edges = λ i p q ne. ground (arith, at i, at (parent i), v.heap i);
          bridged = λ i p q e r. absurd (omega arith);
        }

    not-less_one : (a x y : A) → Mem x (a ∷ []) → less a y ≡ false → less x y ≡ false
    not-less_one a x y m e =
        Or.elim (Bool-set _ _) (mem-cons.0 m) (λ p. rw p e) (λ z. absurd (not-mem-nil z))

    push_room :
        h.size < length h.storage
        → Pushed h c (
          true,
          record {
            storage = sift_up blank less (h.size + 1) (set h.storage h.size c) h.size;
            size = h.size + 1;
          },
        )
    push_room room =
        let s =
          sift_up-Sifted blank less w (h.size + 1) (h.size + 1) (set h.storage h.size c) h.size
            (omega arith) (start_up room) in
        let size = length-set h.storage h.size c in
        let last = take-suc-perm blank h.size (set h.storage h.size c) (omega (arith, size)) in
        let suc_size : suc h.size ≡ h.size + 1 = omega arith in
        let at : get_or (set h.storage h.size c) h.size blank ≡ c =
          ground (arith, get_or-set h.storage h.size h.size c blank room) in
        record {
          valid = record { fits = omega (arith, s.size, size); heap = s.heap };
          capacity = s.size ∙ size;
          size = omega arith;
          dropped = [];
          drops = omega arith;
          same = Perm.trans s.same (
              rw (suc_size, at, take-set_out blank h.size h.storage h.size c (omega arith)) at
                last);
          best = λ x y m. absurd (not-mem-nil m);
          below = λ full_. absurd (omega arith);
        }

    push_refused :
        length h.storage ≤ h.size
        → (0 < h.size → less c (get_or h.storage 0 blank) ≡ false)
        → Pushed h c (false, h)
    push_refused full_ worse = record {
      valid = v;
      capacity = refl;
      size = omega (arith, v.fits);
      dropped = c ∷ [];
      drops = omega arith;
      same = Perm.refl _;
      best = λ x y m. λ n. not-less_one c x y m (
          not-less_of_mem c h.size h.storage
            (λ i p.
              w.weak c (get_or h.storage 0 blank) (get_or h.storage i blank) (worse (omega arith))
                (root_greatest h.size h.storage i v.heap p))
            v.fits y n);
      below = λ _ x b. b;
    }

    push_replaced :
        0 < h.size
        → length h.storage ≤ h.size
        → less c (get_or h.storage 0 blank) ≡ true
        → Pushed h c (
          true,
          record h { storage = sift_down blank less (h.size + 1) (set h.storage 0 c) 0 h.size },
        )
    push_replaced some_entry full_ better =
        let root = get_or h.storage 0 blank in
        let s =
          sift_down-Sifted blank less w (h.size + 1) h.size (set h.storage 0 c) 0 (omega arith)
            (start_down c h.size (omega arith) some_entry) in
        let size = length-set h.storage 0 c in
        let at = λ (i : ℕ). get_or-set h.storage 0 i c blank (omega (arith, v.fits)) in
        record {
          valid = record { fits = omega (arith, s.size, size, v.fits); heap = s.heap };
          capacity = s.size ∙ size;
          size = omega (arith, v.fits);
          dropped = root ∷ [];
          drops = omega arith;
          same =
              Perm.trans (Perm.cons root s.same)
                (set-trade blank h.size h.storage 0 c some_entry v.fits);
          best = λ x y m n. not-less_one root x y m (
              not-less_of_mem root h.size (set h.storage 0 c)
                (λ i p. ground (
                  arith,
                  at i,
                  lt_weak blank less w c root better,
                  root_greatest h.size h.storage i v.heap p,
                ))
                (omega (arith, size, v.fits)) y ((Perm.mem_iff s.same).0 n));
          below = λ _ x b y n.
              not-less_of_mem x h.size (set h.storage 0 c)
                (λ i p. ground (
                  arith,
                  at i,
                  b (get_or h.storage i blank) (mem_take h.size h.storage i p v.fits),
                  b root (mem_take h.size h.storage 0 some_entry v.fits),
                  lt_weak blank less w c root better,
                  w.weak x root c,
                ))
                (omega (arith, size, v.fits)) y ((Perm.mem_iff s.same).0 n);
        }

    -- A push into a valid heap leaves a valid heap of the same capacity, larger by one unless it
    -- was full; what it holds and what was dropped are together the candidate and the contents from
    -- before, and nothing dropped is less than something held.
    pub push-Pushed : Pushed h c (push blank less h c)
    unfolding push
    push-Pushed = elim (Bool-cases (ltb h.size (length h.storage))) [
      | inl room ↦ rw (room, push) (push_room (ltb→lt _ _ room))
      | inr full_ ↦ elim (Bool-cases (h.size == 0)) [
        | inl none_ ↦
            rw (full_, none_, push) (push_refused (ground arith) (λ p. absurd (ground arith)))
        | inr some_ ↦ elim (Bool-cases (less c (get_or h.storage 0 blank))) [
          | inl better ↦
              rw (full_, some_, better, push) (push_replaced (ground arith) (ground arith) better)
          | inr worse ↦ rw (full_, some_, worse, push) (push_refused (ground arith) (λ _. worse))
        ]
      ]
    ]
