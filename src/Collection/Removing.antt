-- ===== src/Collection/Removing.antt =====
-- Collection::remove, get and contains against the vectors under the ids.
use vector_forge.Common.{
  ℕ, ◌≡◌, refl, ap, ◌∙◌, Bool, true, false, Option, none, some, List, ◌==◌, arith, if◌then◌else◌,
  Option-cases, inl, inr, ◌⊎◌, length,
}
use vector_forge.Core.Status.{Result, ok, err, Returns, not_found}
use vector_forge.Search.Order.{FloatOrder}
use vector_forge.Storage.IdMap.{find}
use vector_forge.Storage.IdMap.Erase.{erase-Erased, erase-err}
use vector_forge.Storage.IdMap.Idle.{not-IsPending, erase-IsIdle}
use vector_forge.Storage.Tombstones.Laws.{set-Marked}
use vector_forge.Storage.VectorStore.Append.{row-ok}
use vector_forge.Index.Backend.{remove-Covers}
use vector_forge.Collection.State.{Platform, CollectionState, row_of, lookup}
use vector_forge.Collection.Edit.{get, remove}
use vector_forge.Collection.Invariant.{remove-Suits, IsValid, Removed, find-lt}
use vector_forge.Collection.Marks.{remove-Marks}

module _ {F H : Type 0} (p : Platform F H) ⦃o : FloatOrder F⦄ (s : CollectionState F H)
    (v : IsValid p s) (k : ℕ) where
  abbrev pub found : Option (List F) → Result (List F)
  found none = err not_found
  found (some row) = ok row

  -- In a valid collection, `get` returns the vector of an id that has one, else NotFound.
  pub get-lookup : get p s k ≡ found (lookup p s k)
  unfolding get
  get-lookup = elim (Option-cases (find s.ids k)) [
    | inl none_ ↦ rw (none_, get) refl
    | inr (i, at) ↦ rw (at, get) (row-ok p.blank s.vectors i (find-lt p s k i v at))
  ]

  row_of-if :
      (b : Bool) (f : Option ℕ)
      → row_of p s.vectors (if b then none else f) ≡ (if b then none else row_of p s.vectors f)
  row_of-if true f = refl
  row_of-if false f = refl

  remove-found :
      (i : ℕ)
      → find s.ids k ≡ some i
      → Returns (remove p s k) (λ q. (q.0 ≡ ok tt) × Removed p s k q.1)
  unfolding remove
  remove-found i at =
      let (c, erased, after) = erase-Erased k v.ids i at (not-IsPending s.ids k v.idle) in
      let same : c.0 ≡ i = ground (arith, after.was) in
      let below = find-lt p s k c.0 v after.was in
      let (m, marked, mark) = set-Marked c.0 v.marks.valid (v.marks.room c.0 below) in
      rw (erased, marked, remove)
        (
          _,
          refl,
          (
            refl,
            record {
              valid = record {
                accepted = v.accepted;
                store = v.store;
                dim = v.dim;
                widths = v.widths;
                ids = after.valid;
                idle = erase-IsIdle k c.0 v.ids v.idle erased;
                labels = ap length after.labels ∙ v.labels;
                marks =
                    remove-Marks {next = c.1} k v.marks c.0 v.ids after.maps after.was below
                      after.live mark;
                backend =
                    remove-Covers p.blank p.arithmetic p.kernels p.hnsw_table s.backend c.0
                      s.vectors.size v.backend;
                suits =
                    remove-Suits p.blank p.arithmetic p.kernels p.hnsw_table s.config s.backend c.0
                      v.suits;
                normalized = v.normalized;
              };
              config = refl;
              lookups =
                  λ j. ap (row_of p s.vectors) (after.maps j) ∙ row_of-if (j == k) (find s.ids j);
              live = after.live;
              rows = refl;
            },
          ),
        )

  -- In a valid collection, `remove` returns. An id without a vector gives NotFound and changes
  -- nothing. An id with one has none afterwards, in a valid collection with one vector less where
  -- every other id has what it had and the stored rows stay.
  pub remove-Removes : Returns (remove p s k) (λ q.
      ((lookup p s k ≡ none) × (q ≡ (err not_found, s)))
      ⊎ ((row : List F) × (lookup p s k ≡ some row) × (q.0 ≡ ok tt) × Removed p s k q.1))
  unfolding remove
  remove-Removes = elim (Option-cases (find s.ids k)) [
    | inl none_ ↦
        rw ((erase-err k v.ids).0.1 none_, remove)
          ((err not_found, s), refl, inl (ap (row_of p s.vectors) none_, refl))
    | inr (i, at) ↦
        let (q, done, result) = remove-found i at in
        (q, done, inr (_, ap (row_of p s.vectors) at, result.0, result.1))
  ]
