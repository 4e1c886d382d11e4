-- ===== src/Collection/Insert.antt =====
-- src/collection/collection.cpp: insert_reserved and Collection::add.
use vector_forge.Common.{ℕ, ◌+◌, ◌==◌, Bool, List, if◌then◌else◌}
use vector_forge.Core.Status.{Result, ok, err, fatal, ◌>>=◌, ◌>>◌}
use vector_forge.Core.Types.{invalid_internal_id}
use vector_forge.Core.Config.{effective_normalize}
use vector_forge.Core.Validation.{validate_vector}
use vector_forge.Core.VectorOps.{normalize_inplace}
use vector_forge.Search.Order.{FloatOrder}
use vector_forge.Storage.IdMap
use vector_forge.Storage.IdMap.{Reservation}
use vector_forge.Storage.Tombstones
use vector_forge.Storage.VectorStore
use vector_forge.Index.Backend
use vector_forge.Index.Backend.{Backend}
use vector_forge.Collection.State.{Platform, CollectionState, rows_of}

-- What a call returns, and the collection that it leaves.
abbrev pub Outcome : Type 0 → Type 0 → Type 0 → Type 0
Outcome F H A = Result (Result A × CollectionState F H)

module _ {F H : Type 0} (p : Platform F H) ⦃o : FloatOrder F⦄ where
  abbrev pub add_to_backend : CollectionState F H → ℕ → Result (Backend H)
  add_to_backend s internal =
      Backend.add p.blank p.arithmetic p.kernels p.hnsw_table (rows_of p s) s.backend internal

  -- The last step, after which nothing can fail: the id is published and a replaced row marked.
  unfoldable pub publish : CollectionState F H → Reservation → ℕ → Outcome F H (Unit {0})
  publish s reservation internal = do
    (replaced, ids) ← IdMap.commit s.ids reservation internal
    if replaced == invalid_internal_id then ok (ok tt, record s { ids = ids }) else do
      (_, deleted) ← Tombstones.set s.deleted replaced
      ok (
        ok tt,
        record s {
          ids = ids;
          deleted = deleted;
          backend = Backend.remove p.blank p.arithmetic p.kernels p.hnsw_table s.backend replaced;
        },
      )

  unfoldable pub insert_reserved :
      (CollectionState F H → ℕ → Result (Backend H))
      → CollectionState F H
      → Reservation
      → List F
      → Outcome F H (Unit {0})
  insert_reserved index s reservation row =
      let sized = record s { deleted = Tombstones.ensure_size s.deleted (s.vectors.size + 1) } in
      elim (VectorStore.append p.blank s.vectors row) [
        | fatal ↦ fatal
        | err e ↦ do ids ← IdMap.rollback s.ids reservation; ok (err e, record sized { ids = ids })
        | ok (internal, vectors) ↦ elim (index (record sized { vectors = vectors }) internal) [
          | fatal ↦ fatal
          | err e ↦ do
            popped ← VectorStore.pop_back p.blank vectors
            ids ← IdMap.rollback s.ids reservation
            ok (err e, record sized { vectors = popped; ids = ids })
          | ok backend ↦
              publish (record sized { vectors = vectors; backend = backend }) reservation internal
        ]
      ]

  -- The row that `add` stores.
  unfoldable pub prepare_row : CollectionState F H → List F → Result (List F)
  prepare_row s vector =
      validate_vector p.supported vector s.config.dim
      >> (if effective_normalize s.config then normalize_inplace p.norms vector else ok vector)

  -- A reservation and the insertion of a prepared row under it.
  unfoldable pub insert : CollectionState F H → ℕ → List F → Bool → Outcome F H (Unit {0})
  insert s id row upsert = elim (IdMap.reserve s.ids id upsert) [
    | fatal ↦ fatal
    | err e ↦ ok (err e, s)
    | ok (reservation, ids) ↦
        insert_reserved add_to_backend (record s { ids = ids }) reservation row
  ]

  unfoldable pub add : CollectionState F H → ℕ → List F → Bool → Outcome F H (Unit {0})
  add s id vector upsert = elim (prepare_row s vector) [
    | fatal ↦ fatal
    | err e ↦ ok (err e, s)
    | ok row ↦ insert s id row upsert
  ]
