-- ===== src/Collection/Batch.antt =====
-- src/collection/collection.cpp: Collection::add_batch on one thread and with the coarse locking. The
-- slices between which the lock is released split the loop and change nothing that it computes;
-- the Level B insert, add_batch_concurrent, is an argument.
use vector_forge.Common.{
  ℕ, zero, suc, ◌+◌, ◌*◌, ◌%◌, ◌^◌, Bool, false, List, [], ◌∷◌, ◌++◌, ◌&&◌, ◌||◌, not, ltb, ◌==◌,
  length, take, drop, if◌then◌else◌,
}
use vector_forge.Core.Status.{
  Result, Status, ok, err, fatal, ◌>>=◌, ◌>>◌, require, invalid_argument, already_exists,
  resource_exhausted,
}
use vector_forge.Core.Config.{effective_normalize}
use vector_forge.Core.Validation.{validate_batch}
use vector_forge.Core.VectorOps.{normalize_inplace}
use vector_forge.Search.Order.{FloatOrder}
use vector_forge.Storage.IdMap
use vector_forge.Storage.Tombstones
use vector_forge.Storage.VectorStore
use vector_forge.Collection.State.{Platform, CollectionState}
use vector_forge.Collection.Insert.{Outcome, insert}
use vector_forge.Collection.Keys.{check_keys}

module _ {F H : Type 0} (p : Platform F H) where
  -- Rows `i` to `i + n` of a batch, normalised. The first row that fails decides.
  unfoldable pub normalize_rows : ℕ → List F → ℕ → ℕ → Result (List F)
  normalize_rows dim rows i zero = ok []
  normalize_rows dim rows i (suc n) =
      elim (normalize_inplace p.norms (take dim (drop (i * dim) rows))) [
        | fatal ↦ fatal
        | err e ↦ err invalid_argument
        | ok row ↦ do rest ← normalize_rows dim rows (suc i) n; ok (row ++ rest)
      ]

  -- Whether an id of the batch is there already.
  unfoldable pub any_known : CollectionState F H → List ℕ → Bool
  any_known s [] = false
  any_known s (id ∷ ids) = IdMap.contains s.ids id || any_known s ids

  -- The tests of a batch, before the lock is taken: the rows to store.
  unfoldable pub prepare_batch : CollectionState F H → List ℕ → List F → Result (List F)
  unfolding normalize_rows
  prepare_batch s ids rows = do
    check_keys ids
    if effective_normalize s.config
        then normalize_rows s.config.dim rows 0 (length ids)
        else ok rows

  -- The tests of a batch against the collection, and the room for it.
  unfoldable pub admit_batch : CollectionState F H → List ℕ → Bool → Result (CollectionState F H)
  unfolding any_known
  admit_batch s ids upsert = do
    let rows = (s.vectors.size + length ids) % 2 ^ 64
    require (upsert || not (any_known s ids)) already_exists
    require (not (ltb s.vectors.max_rows rows)) resource_exhausted
    vectors ← VectorStore.reserve p.blank s.vectors rows
    ok (record s { vectors = vectors; deleted = Tombstones.ensure_size s.deleted rows })

  -- What is left of a loop after a step: an error ends it.
  abbrev pub unless_failed : Status → CollectionState F H → Outcome F H ℕ → Outcome F H ℕ
  unless_failed fatal s rest = fatal
  unless_failed (err e) s rest = ok (err e, s)
  unless_failed (ok _) s rest = rest

  module _ ⦃o : FloatOrder F⦄ where
    -- The rows from row `i` on. An error ends the loop; the rows before it stay.
    unfoldable pub insert_rows : CollectionState F H → List ℕ → List F → ℕ → Bool → Outcome F H ℕ
    insert_rows s [] rows i upsert = ok (ok i, s)
    insert_rows s (id ∷ ids) rows i upsert = do
      (status, next) ← insert p s id (take s.config.dim (drop (i * s.config.dim) rows)) upsert
      unless_failed status next (insert_rows next ids rows (suc i) upsert)

    unfoldable pub add_batch :
        (CollectionState F H → List ℕ → List F → Bool → Outcome F H ℕ)
        → CollectionState F H
        → List ℕ
        → List F
        → Bool
        → Outcome F H ℕ
    unfolding prepare_batch admit_batch insert_rows
    add_batch concurrent s ids rows upsert =
        elim (validate_batch p.supported rows (length ids) s.config.dim) [
          | fatal ↦ fatal
          | err e ↦ ok (err e, s)
          | ok _ ↦ if length ids == 0 then ok (ok 0, s) else elim (prepare_batch s ids rows) [
            | fatal ↦ fatal
            | err e ↦ ok (err e, s)
            | ok stored ↦ elim (admit_batch s ids upsert) [
              | fatal ↦ fatal
              | err e ↦ ok (err e, s)
              | ok roomy ↦
                  if s.config.index == 1 && s.config.concurrency == 1
                  then concurrent roomy ids stored upsert
                  else insert_rows roomy ids stored 0 upsert
            ]
          ]
        ]
