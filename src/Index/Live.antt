-- ===== src/Index/Live.antt =====
-- What a search of either backend returns: rows that are stored and not deleted.
use native.Mathlib.Bridge.{le_prop}
use mathlib.Core.Bool.{Bool-set}
use mathlib.Core.Logic.Or
use mathlib.Core.List.{Mem, mem-cons, mem-append_right, not-mem-nil, mem-cons_self, mem-cons_of_mem}
use mathlib.Core.List.Perm
use vector_forge.Common.{
  ℕ, zero, suc, ◌+◌, ◌<◌, ◌≤◌, ◌≡◌, Bool, false, List, [], ◌∷◌, length, take, arith, Bool-cases,
  inl, inr,
}
use vector_forge.Core.Status.{Returns}
use vector_forge.Search.Order.{FloatOrder, Scored}
use vector_forge.Storage.Tombstones.{test}
use vector_forge.Storage.Tombstones.Laws.{IsValid as MarksAreValid}
use vector_forge.Storage.VectorStore.Invariant.{IsValid as StoreIsValid}
use vector_forge.Index.Kernels.{FloatArithmetic, QueryView, KernelTable}
use vector_forge.Index.Flat.Scan.{live_from}
use vector_forge.Index.Flat.Chunks.{distance_to}
use vector_forge.Index.Flat.Exact.{live_rows, search-Nearest}
use vector_forge.Index.Backend.{
  Backend, Rows, SearchKnobs, HnswTable, AreLive, Covers, flat_backend, hnsw_backend, flat_over,
  search,
}

module _ {F : Type 0} (blank : F) ⦃o : FloatOrder F⦄ (a : FloatArithmetic F) where
  module _ (dist : ℕ → F) (deleted : ℕ → Bool) where
    mem-live_from :
        (x : Scored F) (n i : ℕ)
        → Mem x (live_from blank a dist deleted i n)
        → (x.id < i + n) × (deleted x.id ≡ false)
    unfolding live_from
    mem-live_from x zero i m = absurd (not-mem-nil m)
    mem-live_from x (suc n) i m = elim (Bool-cases (deleted i)) [
      | inl gone ↦ let r = mem-live_from x n (i + 1) (rw gone at m) in (omega arith, r.1)
      | inr alive ↦
          let parts = mem-cons.0 (rw alive at m) in
          (
            Or.elim le_prop parts (λ e. rw e (omega arith))
                (λ r. let q = mem-live_from x n (i + 1) r in omega arith),
            Or.elim (Bool-set _ _) parts (λ e. rw e alive) (λ r. (mem-live_from x n (i + 1) r).1),
          )
    ]

  AreLive-of_mem :
      (rows : Rows F) (n : ℕ) (out : List (Scored F))
      → n ≤ length out
      → ((x : Scored F)
          → Mem x (take n out)
          → (x.id < rows.vectors.size) × (test rows.deleted x.id ≡ false))
      → AreLive rows n out
  AreLive-of_mem rows zero out h all = tt
  AreLive-of_mem rows (suc n) [] h all = absurd (omega arith)
  AreLive-of_mem rows (suc n) (x ∷ out) h all =
      let first = all x mem-cons_self in
      (
        first.0,
        first.1,
        AreLive-of_mem rows n out (omega arith) (λ y m. all y (mem-cons_of_mem x m)),
      )

  module _ {H : Type 0} (kernels : KernelTable F) (hnsw : HnswTable F H) where
    -- A search of either backend returns as many hits as asked for at most, all of them live rows.
    pub search-AreLive :
        (rows : Rows F) (b : Backend H) (q : QueryView F) (knobs : SearchKnobs)
        (out : List (Scored F))
        → StoreIsValid blank rows.vectors
        → MarksAreValid rows.deleted
        → Covers blank a kernels hnsw b rows.vectors.size
        → 1 ≤ knobs.k
        → knobs.k ≤ length out
        → Returns
            (search blank a kernels hnsw rows b q knobs out)
            (λ r. (r.0 ≤ knobs.k) × AreLive rows r.0 r.1)
    unfolding search
    search-AreLive rows (hnsw_backend h) q knobs out v marks covers some_ room =
        hnsw.searched rows h q knobs out covers.0 covers.1 some_ room
    search-AreLive rows (flat_backend metric normalized) q knobs out v marks covers some_ room =
        let backend = flat_over blank a kernels hnsw rows metric normalized in
        let (r, done, near) = search-Nearest blank a backend q v knobs.k out marks some_ room in
        let few : r.0 ≤ knobs.k = omega (arith, near.count) in
        (
          r,
          done,
          (
            few,
            AreLive-of_mem rows r.0 r.1 (omega (arith, near.whole)) λ x m.
                let live =
                  mem-live_from (distance_to blank a backend q v) (test rows.deleted) x
                    rows.vectors.size 0
                    (unfold live_rows in
                      (Perm.mem_iff near.same).0 (mem-append_right near.others m)) in
                (omega (arith, live.0), live.1),
          ),
        )
