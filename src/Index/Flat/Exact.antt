-- ===== src/Index/Flat/Exact.antt =====
-- The search returns the nearest rows, in order.
use mathlib.Core.List.{Perm, Mem, append-nil, not-mem-nil}
use mathlib.Core.List.Perm
use vector_forge.Common.{
  ℕ, zero, suc, ◌+◌, ◌-◌, ◌*◌, ◌<◌, ◌≤◌, ◌≡◌, refl, ap, ◌∙◌, min, Bool, true, false, List, [], ◌∷◌,
  ◌++◌, ◌&&◌, leb, length, get_or, take, arith, Bool-cases, inl, inr, length-take,
}
use vector_forge.Core.Status.{ok, Returns, ◌>>=◌}
use vector_forge.Search.Order.{FloatOrder, Scored, candidate_less, candidate_less-StrictWeak}
use vector_forge.Search.Heaps.{BoundedMaxHeap, sort_ascending}
use vector_forge.Search.Heaps.Bounded.{IsValid}
use vector_forge.Search.Heaps.TopK.{push_all, Kept, push_all-Kept}
use vector_forge.Search.Heaps.Sort.{sort_ascending-Sorted}
use vector_forge.Storage.Tombstones.{test, any}
use vector_forge.Storage.Tombstones.Empty.{test-none}
use vector_forge.Storage.Tombstones.Laws.{IsValid as MarksAreValid}
use vector_forge.Storage.VectorStore.Invariant.{IsValid as StoreIsValid}
use vector_forge.Index.Kernels.{FloatArithmetic, QueryView}
use vector_forge.Index.Flat.{FlatBackend, blank_hit, scan_chunks, search}
use vector_forge.Index.Flat.Scan.{Ready, deleted_row, pushed, live_from}
use vector_forge.Index.Flat.Chunks.{distance_to, scan_chunks-pushed}

module _ {F : Type 0} (blank : F) ⦃o : FloatOrder F⦄ (a : FloatArithmetic F) where
  live_from_congr :
      (dist : ℕ → F) (d e : ℕ → Bool) (n i : ℕ)
      → ((j : ℕ) → d j ≡ e j)
      → live_from blank a dist d i n ≡ live_from blank a dist e i n
  unfolding live_from
  live_from_congr dist d e zero i h = refl
  live_from_congr dist d e (suc n) i h = rw (h i, live_from_congr dist d e n (i + 1) h) refl

  deleted_row-test :
      (b : FlatBackend F) (i : ℕ)
      → MarksAreValid b.deleted
      → deleted_row blank a b i ≡ test b.deleted i
  unfolding deleted_row
  deleted_row-test b i v = elim (Bool-cases (any b.deleted)) [
    | inl some_ ↦ rw some_ refl
    | inr none_ ↦ rw (none_, test-none b.deleted i v none_) refl
  ]

  -- `hits` of the rows `live`: the first `r.0` places of the output.
  pub record Nearest (live : List (Scored F)) (k : ℕ) (r : ℕ × List (Scored F)) : Type 0 where
    pub count : r.0 ≡ min k (length live)
    pub whole : length r.1 ≡ k
    pub sorted :
        (i j : ℕ)
        → i < j
        → j < r.0
        → candidate_less (get_or r.1 j (blank_hit blank a)) (get_or r.1 i (blank_hit blank a))
          ≡ false
    pub others : List (Scored F)
    pub same : Perm (others ++ take r.0 r.1) live
    pub nearest :
        (x y : Scored F) → Mem x others → Mem y (take r.0 r.1) → candidate_less x y ≡ false

  -- The list `found` is the `k` nearest of `live`, or all of them, in order.
  pub record NearestList (live : List (Scored F)) (k : ℕ) (found : List (Scored F)) : Type 0 where
    pub count : length found ≡ min k (length live)
    pub sorted :
        (i j : ℕ)
        → i < j
        → j < length found
        → candidate_less (get_or found j (blank_hit blank a)) (get_or found i (blank_hit blank a))
          ≡ false
    pub others : List (Scored F)
    pub same : Perm (others ++ found) live
    pub nearest : (x y : Scored F) → Mem x others → Mem y found → candidate_less x y ≡ false

  get_or-take :
      (n i : ℕ) (l : List (Scored F)) (z : Scored F) → i < n → get_or (take n l) i z ≡ get_or l i z
  get_or-take zero i l z h = absurd (omega arith)
  get_or-take (suc n) i [] z h = refl
  get_or-take (suc n) zero (x ∷ l) z h = refl
  get_or-take (suc n) (suc i) (x ∷ l) z h = get_or-take n i l z (omega arith)

  -- More asked for than there are rows is all of them.
  pub Nearest-NearestList :
      (live : List (Scored F)) (k m : ℕ) (r : ℕ × List (Scored F))
      → min k (length live) ≡ min m (length live)
      → Nearest live k r
      → NearestList live m (take r.0 r.1)
  Nearest-NearestList live k m r enough n =
      let size : length (take r.0 r.1) ≡ r.0 =
        omega (arith, length-take r.0 r.1, n.count, n.whole) in
      record {
        count = size ∙ n.count ∙ enough;
        sorted = λ i j h l.
            let inside : j < r.0 = omega (arith, size) in
            ap (λ x. candidate_less x (get_or (take r.0 r.1) i (blank_hit blank a)))
              (get_or-take r.0 j r.1 (blank_hit blank a) inside)
            ∙ ap (candidate_less (get_or r.1 j (blank_hit blank a)))
                (get_or-take r.0 i r.1 (blank_hit blank a) (omega arith))
            ∙ n.sorted i j h inside;
        others = n.others;
        same = n.same;
        nearest = n.nearest;
      }

  length-live_from :
      (dist : ℕ → F) (d : ℕ → Bool) (i n : ℕ) → length (live_from blank a dist d i n) ≤ n
  unfolding live_from
  length-live_from dist d i zero = omega arith
  length-live_from dist d i (suc n) = ground (arith, length-live_from dist d (i + 1) n)

  module _ (b : FlatBackend F) (q : QueryView F) (v : StoreIsValid blank b.vectors) where
    -- Every row that is not deleted, with its distance, by ascending id.
    unfoldable pub live_rows : List (Scored F)
    live_rows = live_from blank a (distance_to blank a b q v) (test b.deleted) 0 b.vectors.size

    pub length-live_rows : length live_rows ≤ b.vectors.size
    unfolding live_rows
    length-live_rows =
        length-live_from (distance_to blank a b q v) (test b.deleted) 0 b.vectors.size

    module _ (k : ℕ) (out : List (Scored F)) (some_ : 1 ≤ k) (room : k ≤ length out) where
      abbrev start : BoundedMaxHeap (Scored F)
      start = record { storage = take k out; size = 0 }

      capacity-start : length start.storage ≡ k
      capacity-start = omega (arith, length-take k out)

      start-IsValid : IsValid (blank_hit blank a) candidate_less candidate_less-StrictWeak start
      start-IsValid = record { fits = omega arith; heap = λ c p l. absurd (omega arith) }

      start-Ready : Ready blank a 0 start
      start-Ready = record {
        valid = start-IsValid;
        some_room = omega (arith, capacity-start);
        earlier = λ x m. absurd (not-mem-nil m);
      }

      scan_chunks-live :
          MarksAreValid b.deleted
          → scan_chunks blank a b q 0 0 (length b.vectors.chunk_ptrs) start
            ≡ ok (push_all (blank_hit blank a) candidate_less start live_rows)
      unfolding pushed live_rows
      scan_chunks-live marks =
          let first : min (0 * b.vectors.rows_per_chunk) b.vectors.size ≡ 0 = omega arith in
          let all : b.vectors.size - 0 ≡ b.vectors.size = omega arith in
          let whole =
            scan_chunks-pushed blank a b q v (length b.vectors.chunk_ptrs) 0 start (omega arith)
              (rw first start-Ready) in
          rw (first, all) at whole
          ∙ ap (λ l. ok (push_all (blank_hit blank a) candidate_less start l))
              (live_from_congr (distance_to blank a b q v) (deleted_row blank a b) (test b.deleted)
                b.vectors.size 0 (λ i. deleted_row-test b i marks))

      sorted-Nearest :
          (h : BoundedMaxHeap (Scored F))
          → Kept (blank_hit blank a) candidate_less candidate_less-StrictWeak start live_rows h
          → Nearest live_rows k (
            (sort_ascending (blank_hit blank a) candidate_less h).0,
            (sort_ascending (blank_hit blank a) candidate_less h).1.storage,
          )
      sorted-Nearest h kept =
          let (count, _, s) =
            sort_ascending-Sorted (blank_hit blank a) candidate_less candidate_less-StrictWeak h
              kept.valid in
          record {
            count = omega (arith, count, kept.size, capacity-start);
            whole = omega (arith, s.size, kept.capacity, capacity-start);
            sorted = λ i j p l. s.sorted i j p (omega (arith, count)) (omega arith);
            others = kept.dropped;
            same = rw count (
                Perm.trans (Perm.append_left kept.dropped s.same)
                  (rw (append-nil live_rows) at kept.same));
            nearest = λ x y m n. kept.best x y m ((Perm.mem_iff s.same).0 (rw count at n));
          }

    -- Of a valid store and a valid set of markers, for at least one and at most as many hits as the
    -- output has places: `search` returns as many hits as asked for, or as there are rows that are
    -- not deleted, each such row once at most, ordered by distance and id, and no row that is left
    -- out comes before one that is returned.
    pub search-Nearest :
        (k : ℕ) (out : List (Scored F))
        → MarksAreValid b.deleted
        → 1 ≤ k
        → k ≤ length out
        → Returns (search blank a b q k out) (λ r. Nearest live_rows k r)
    unfolding search
    search-Nearest k out marks some_ room =
        let guard : (leb 1 k && leb k (length out)) ≡ true = ground arith in
        let scanned = scan_chunks-live k out some_ room marks in
        let kept =
          push_all-Kept (blank_hit blank a) candidate_less candidate_less-StrictWeak
            (start k out some_ room) live_rows (start-IsValid k out some_ room) in
        (
          _,
          rw (guard, search)
              (ap
                (λ m. m >>= λ h.
                  let sorted = sort_ascending (blank_hit blank a) candidate_less h in
                  ok (sorted.0, sorted.1.storage))
                scanned),
          sorted-Nearest k out some_ room _ kept,
        )
