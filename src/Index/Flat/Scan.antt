-- ===== src/Index/Flat/Scan.antt =====
-- The scan pushes every row that is not deleted, in the order of the ids.
use native.Mathlib.Bridge.{le_prop}
use native.Mathlib.Nat.{mod-eq_of_lt}
use mathlib.Core.List.{Mem, mem-cons, mem-append_right}
use mathlib.Core.List.Perm
use mathlib.Core.Logic.Or
use vector_forge.Common.{
  ℕ, zero, suc, ◌+◌, ◌%◌, ◌^◌, ◌<◌, ◌≤◌, ◌≡◌, refl, sym, ap, ◌∙◌, Bool, true, false, List, [], ◌∷◌,
  ◌++◌, ◌&&◌, if◌then◌else◌, ltb, ◌==◌, length, get_or, arith, Bool-cases, inl, inr, lt→ltb,
}
use vector_forge.Core.Status.{ok}
use vector_forge.Search.Order.{FloatOrder, Scored, candidate_less, candidate_less-StrictWeak}
use vector_forge.Search.Heaps.{BoundedMaxHeap, contents, full, top, push}
use vector_forge.Search.Heaps.Bounded.{IsValid, push-Pushed, mem_take}
use vector_forge.Search.Heaps.TopK.{push_all}
use vector_forge.Storage.Tombstones.{test, any}
use vector_forge.Index.Kernels.{FloatArithmetic}
use vector_forge.Index.Flat.{FlatBackend, blank_hit, scan_row, scan_rows}

module _ {F : Type 0} (blank : F) ⦃o : FloatOrder F⦄ (a : FloatArithmetic F) where
  abbrev pub hit : F → ℕ → Scored F
  hit d i = record { distance = d; id = i }

  -- The candidates with ids from `i` to `i + n`, less the deleted ones.
  unfoldable pub live_from : (ℕ → F) → (ℕ → Bool) → ℕ → ℕ → List (Scored F)
  live_from dist deleted i zero = []
  live_from dist deleted i (suc n) =
      let rest = live_from dist deleted (i + 1) n in
      if deleted i then rest else hit (dist i) i ∷ rest

  -- A valid heap with room for at least one candidate, all of whose ids are below `i`.
  pub record Ready (i : ℕ) (h : BoundedMaxHeap (Scored F)) : Type 0 where
    pub valid : IsValid (blank_hit blank a) candidate_less candidate_less-StrictWeak h
    pub some_room : 0 < length h.storage
    pub earlier : (x : Scored F) → Mem x (contents h) → x.id < i

  pub push-Ready :
      (i : ℕ) (d : F) (h : BoundedMaxHeap (Scored F))
      → Ready i h
      → Ready (i + 1) (push (blank_hit blank a) candidate_less h (hit d i)).1
  push-Ready i d h r =
      let p =
        push-Pushed (blank_hit blank a) candidate_less candidate_less-StrictWeak h (hit d i)
          r.valid in
      record {
        valid = p.valid;
        some_room = omega (arith, p.capacity, r.some_room);
        earlier = λ x m.
            Or.elim le_prop (mem-cons.0 ((Perm.mem_iff p.same).0 (mem-append_right p.dropped m)))
              (λ e. omega (arith, ap (λ (y : Scored F). y.id) e))
              (λ old. omega (arith, r.earlier x old));
      }

  not-nearer :
      (c w : Scored F)
      → o.lt c.distance w.distance ≡ false
      → w.id < c.id
      → candidate_less c w ≡ false
  unfolding candidate_less
  not-nearer c w far later = ground arith

  full-pos :
      (h : BoundedMaxHeap (Scored F))
      → 0 < length h.storage
      → full (blank_hit blank a) candidate_less h ≡ true
      → 0 < h.size
  unfolding full
  full-pos h room e = ground arith

  -- A full heap refuses a candidate that is not nearer than its worst one and has a later id.
  push-refuses :
      (i : ℕ) (d : F) (h : BoundedMaxHeap (Scored F))
      → Ready i h
      → full (blank_hit blank a) candidate_less h ≡ true
      → o.lt d (get_or h.storage 0 (blank_hit blank a)).distance ≡ false
      → (push (blank_hit blank a) candidate_less h (hit d i)).1 ≡ h
  unfolding push full
  push-refuses i d h r full_ far =
      let some_ = full-pos h r.some_room full_ in
      let worst = get_or h.storage 0 (blank_hit blank a) in
      let place =
        mem_take (blank_hit blank a) candidate_less candidate_less-StrictWeak h.size h.storage 0
          some_ r.valid.fits in
      let no_room : ltb h.size (length h.storage) ≡ false = ground arith in
      let used : (h.size == 0) ≡ false = ground arith in
      let refused = not-nearer (hit d i) worst far (r.earlier worst place) in
      rw (no_room, used, refused, push) refl

  -- The cheap test on the distance alone decides as `push` does.
  pub scan_row-push :
      (b : FlatBackend F) (i : ℕ) (d : F) (h : BoundedMaxHeap (Scored F))
      → Ready i h
      → scan_row blank a b i d h
        ≡ ok (
            if any b.deleted && test b.deleted i
            then h
            else (push (blank_hit blank a) candidate_less h (hit d i)).1)
  unfolding scan_row top
  scan_row-push b i d h r = elim (Bool-cases (any b.deleted && test b.deleted i)) [
    | inl skip ↦ rw (skip, scan_row) refl
    | inr keep ↦ elim (Bool-cases (full (blank_hit blank a) candidate_less h)) [
      | inr room ↦ rw (keep, room, scan_row) refl
      | inl full_ ↦ elim (Bool-cases (o.lt d (get_or h.storage 0 (blank_hit blank a)).distance)) [
        | inl near ↦
            rw (keep, full_, lt→ltb 0 h.size (full-pos h r.some_room full_), near, scan_row, top)
              refl
        | inr far ↦
            rw (keep, full_, lt→ltb 0 h.size (full-pos h r.some_room full_), far, scan_row, top)
              (ap ok (sym (push-refuses i d h r full_ far)))
      ]
    ]
  ]

  -- Whether the scan passes over a row.
  unfoldable pub deleted_row : FlatBackend F → ℕ → Bool
  deleted_row b i = any b.deleted && test b.deleted i

  -- The heap after the rows from `i` to `i + n`.
  unfoldable pub pushed :
      (ℕ → F) → (ℕ → Bool) → BoundedMaxHeap (Scored F) → ℕ → ℕ → BoundedMaxHeap (Scored F)
  pushed dist deleted h i n =
      push_all (blank_hit blank a) candidate_less h (live_from dist deleted i n)

  push_all-append :
      (h : BoundedMaxHeap (Scored F)) (xs ys : List (Scored F))
      → push_all (blank_hit blank a) candidate_less h (xs ++ ys)
        ≡ push_all
            (blank_hit blank a)
            candidate_less
            (push_all (blank_hit blank a) candidate_less h xs)
            ys
  unfolding push_all
  push_all-append h [] ys = refl
  push_all-append h (x ∷ xs) ys =
      push_all-append (push (blank_hit blank a) candidate_less h x).1 xs ys

  module _ (dist : ℕ → F) (deleted : ℕ → Bool) where
    live_from-append :
        (i n m : ℕ)
        → live_from dist deleted i (n + m)
          ≡ live_from dist deleted i n ++ live_from dist deleted (i + n) m
    unfolding live_from
    live_from-append i zero m =
        let none_ : 0 + m ≡ m = omega arith in
        let here : i + 0 ≡ i = omega arith in rw (none_, here) refl
    live_from-append i (suc n) m =
        let size : suc n + m ≡ suc (n + m) = omega arith in
        let place : i + 1 + n ≡ i + suc n = omega arith in
        let rest = live_from-append (i + 1) n m in
        elim (Bool-cases (deleted i)) [
          | inl gone ↦ rw (size, gone) (rw place at rest)
          | inr kept ↦ rw (size, kept) (ap (◌∷◌ (hit (dist i) i)) (rw place at rest))
        ]

    pub pushed-append :
        (h : BoundedMaxHeap (Scored F)) (i n m : ℕ)
        → pushed dist deleted (pushed dist deleted h i n) (i + n) m
          ≡ pushed dist deleted h i (n + m)
    unfolding pushed
    pushed-append h i n m =
        rw (live_from-append i n m)
          (sym (push_all-append h (live_from dist deleted i n) (live_from dist deleted (i + n) m)))

    -- The first of the rows, then the others.
    pushed-suc :
        (h : BoundedMaxHeap (Scored F)) (i n : ℕ)
        → pushed dist deleted h i (suc n)
          ≡ pushed dist deleted
              (if deleted i
                then h
                else (push (blank_hit blank a) candidate_less h (hit (dist i) i)).1)
              (i + 1)
              n
    unfolding pushed live_from push_all
    pushed-suc h i n = elim (Bool-cases (deleted i)) [
      | inl gone ↦ rw gone refl
      | inr kept ↦ rw kept refl
    ]

    Ready-next :
        (i : ℕ) (h : BoundedMaxHeap (Scored F))
        → Ready i h
        → Ready (i + 1) (
            if deleted i then h else (push (blank_hit blank a) candidate_less h (hit (dist i) i)).1)
    Ready-next i h r = elim (Bool-cases (deleted i)) [
      | inl gone ↦ rw gone (record {
        valid = r.valid;
        some_room = r.some_room;
        earlier = λ x m. omega (arith, r.earlier x m);
      })
      | inr kept ↦ rw kept (push-Ready i (dist i) h r)
    ]

    pub pushed-Ready :
        (n i : ℕ) (h : BoundedMaxHeap (Scored F))
        → Ready i h
        → Ready (i + n) (pushed dist deleted h i n)
    unfolding pushed live_from push_all
    pushed-Ready zero i h r = let e : i ≡ i + 0 = omega arith in rw e at r
    pushed-Ready (suc n) i h r =
        let e : i + 1 + n ≡ i + suc n = omega arith in
        rw (pushed-suc h i n) (rw e at (pushed-Ready n (i + 1) _ (Ready-next i h r)))

  module _ (b : FlatBackend F) (dist : ℕ → F) where
    pub scan_rows-pushed :
        (first : ℕ) (distances : List F) (n r : ℕ) (h : BoundedMaxHeap (Scored F))
        → ((j : ℕ) → j < r + n → get_or distances j a.zero_float ≡ dist (first + j))
        → first + r + n ≤ 2 ^ 32
        → Ready (first + r) h
        → scan_rows blank a b first distances r n h
          ≡ ok (pushed dist (deleted_row b) h (first + r) n)
    unfolding scan_rows pushed live_from push_all any deleted_row
    scan_rows-pushed first distances zero r h at small ready = refl
    scan_rows-pushed first distances (suc n) r h at small ready =
        let id : (first + r) % 2 ^ 32 ≡ first + r = mod-eq_of_lt (omega arith) in
        let next : first + (r + 1) ≡ first + r + 1 = omega arith in
        rw
          (
            id,
            at r (omega arith),
            scan_row-push b (first + r) (dist (first + r)) h ready,
            scan_rows,
          )
          (scan_rows-pushed first distances n (r + 1) _ (λ j p. at j (omega arith)) (omega arith)
              (rw next (Ready-next dist (deleted_row b) (first + r) h ready))
            ∙ rw next (ap ok (sym (pushed-suc dist (deleted_row b) h (first + r) n))))
