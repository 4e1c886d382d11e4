-- ===== src/Collection/Edit.antt =====
-- src/collection/collection.cpp: remove, get, contains, size, and compact.
use vector_forge.Common.{ℕ, zero, suc, ◌==◌, Bool, true, false, List, none, some, if◌then◌else◌}
use vector_forge.Core.Status.{Result, ok, err, fatal, ◌>>=◌, ◌>>◌, not_found}
use vector_forge.Core.Types.{max_vectors_per_collection}
use vector_forge.Search.Order.{FloatOrder}
use vector_forge.Storage.IdMap
use vector_forge.Storage.Tombstones
use vector_forge.Storage.VectorStore
use vector_forge.Storage.VectorStore.{VectorStore}
use vector_forge.Index.Backend
use vector_forge.Collection.State.{Platform, CollectionState, attached}
use vector_forge.Collection.Insert.{Outcome, insert}

pub record CompactStats : Type 0 where
  pub rows_before : ℕ
  pub removed_rows : ℕ
  pub rows_after : ℕ

module _ {F H : Type 0} (p : Platform F H) where
  unfoldable pub get : CollectionState F H → ℕ → Result (List F)
  get s id = elim (IdMap.find s.ids id) [
    | none ↦ err not_found
    | some internal ↦ VectorStore.row p.blank s.vectors internal
  ]

  unfoldable pub contains : CollectionState F H → ℕ → Bool
  contains s id = IdMap.contains s.ids id

  unfoldable pub size : CollectionState F H → ℕ
  size s = IdMap.size s.ids

  module _ ⦃o : FloatOrder F⦄ where
    unfoldable pub remove : CollectionState F H → ℕ → Outcome F H (Unit {0})
    remove s id = elim (IdMap.erase s.ids id) [
      | fatal ↦ fatal
      | err e ↦ ok (err e, s)
      | ok (internal, ids) ↦ do
        (_, deleted) ← Tombstones.set s.deleted internal
        ok (
          ok tt,
          record s {
            ids = ids;
            deleted = deleted;
            backend = Backend.remove p.blank p.arithmetic p.kernels p.hnsw_table s.backend internal;
          },
        )
    ]

    -- The loop of `compact` over `n` rows of the old collection from row `r` on: an error ends it.
    unfoldable pub copy_rows :
        CollectionState F H → ℕ → ℕ → CollectionState F H → Result (CollectionState F H)
    copy_rows old r zero rebuilt = ok rebuilt
    copy_rows old r (suc n) rebuilt = elim (Tombstones.test old.deleted r) [
      | true ↦ copy_rows old (suc r) n rebuilt
      | false ↦ do
        label ← IdMap.label old.ids r
        row ← VectorStore.row p.blank old.vectors r
        (status, next) ← insert p rebuilt label row false
        status
        copy_rows old (suc r) n next
    ]

    -- The rebuilt collection, empty and with room.
    unfoldable pub fresh_copy : CollectionState F H → Result (CollectionState F H)
    fresh_copy old = do
      store ← VectorStore.create p.blank (record {
        dim = old.config.dim;
        rows_per_chunk = 0;
        max_rows = max_vectors_per_collection;
      })
      rebuilt ← attached p old.config old.creator old.created_unix_ms store
      vectors ← VectorStore.reserve p.blank rebuilt.vectors (IdMap.size old.ids)
      ok (record rebuilt {
        vectors = vectors;
        deleted = Tombstones.ensure_size rebuilt.deleted (IdMap.size old.ids);
      })

    unfoldable pub compact : CollectionState F H → Outcome F H CompactStats
    compact old =
        if old.deleted.count == 0
        then ok (
          ok (record {
            rows_before = old.vectors.size;
            removed_rows = 0;
            rows_after = old.vectors.size;
          }),
          old,
        )
        else elim (fresh_copy old >>= λ empty. copy_rows old 0 old.vectors.size empty) [
          | fatal ↦ fatal
          | err e ↦ ok (err e, old)
          | ok rebuilt ↦ ok (
            ok (record {
              rows_before = old.vectors.size;
              removed_rows = old.deleted.count;
              rows_after = rebuilt.vectors.size;
            }),
            rebuilt,
          )
        ]
