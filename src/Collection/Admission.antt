-- ===== src/Collection/Admission.antt =====
-- Collection::add_batch with the flat backend: the room for a batch, and the whole operation.
use native.Mathlib.Nat.{mod-eq_of_lt}
use vector_forge.Common.{
  ℕ, ◌+◌, ◌*◌, ◌%◌, ◌^◌, ◌<◌, ◌≤◌, ◌≡◌, refl, sym, ap, ◌∙◌, Bool, false, List, [], ◌∷◌, ◌==◌, not,
  ◌||◌, ltb, length, arith, Bool-cases, Option-cases, inl, inr, ◌⊎◌,
}
use vector_forge.Core.Status.{
  Result, Status, ErrorCode, ok, err, Returns, require, ◌>>=◌, ◌>>◌, already_exists,
  resource_exhausted,
}
use vector_forge.Core.Validation.{validate_batch}
use vector_forge.Search.Order.{FloatOrder}
use vector_forge.Storage.IdMap
use vector_forge.Storage.IdMap.{find}
use vector_forge.Storage.Tombstones
use vector_forge.Storage.Tombstones.Laws.{ensure_size-Grown}
use vector_forge.Storage.VectorStore.{VectorStore}
use vector_forge.Storage.VectorStore.Append.{reserve-Extends}
use vector_forge.Storage.VectorStore.Grow.{Extends}
use vector_forge.Index.Backend.{IsFlat}
use vector_forge.Collection.State.{Platform, CollectionState, lookup, row_of}
use vector_forge.Collection.Insert.{Outcome}
use vector_forge.Collection.Keys.Sorting.{check_keys_iff, Narrow}
use vector_forge.Collection.Batch.{any_known, prepare_batch, admit_batch, add_batch}
use vector_forge.Collection.Invariant.{IsValid, SameContent}
use vector_forge.Collection.Marks.{Grown-Marks}
use vector_forge.Collection.Rows.{lookup-same}
use vector_forge.Collection.Admitting.{validate_batch-Attempts, prepare_batch-Attempts}
use vector_forge.Collection.Batching.{AllFree, assigned, assigned-congr, insert_rows-BatchStored}

module _ {F H : Type 0} (p : Platform F H) ⦃o : FloatOrder F⦄ (s : CollectionState F H)
    (v : IsValid p s) where
  AllFree-any_known : (ids : List ℕ) → any_known p s ids ≡ false → AllFree p s ids
  unfolding any_known IdMap.contains
  AllFree-any_known [] h = tt
  AllFree-any_known (k ∷ ids) h = elim (Option-cases (find s.ids k)) [
    | inl free ↦ (ap (row_of p s.vectors) free, AllFree-any_known ids (ground arith))
    | inr (i, there) ↦ absurd (ground (arith, there))
  ]

  AllFree-same :
      (t : CollectionState F H)
      → SameContent p s t
      → (ids : List ℕ) → AllFree p s ids
      → AllFree p t ids
  AllFree-same t same [] h = tt
  AllFree-same t same (k ∷ ids) h = (same.lookups k ∙ h.0, AllFree-same t same ids h.1)

  abbrev roomier : VectorStore F → ℕ → CollectionState F H
  roomier w rows = record s { vectors = w; deleted = Tombstones.ensure_size s.deleted rows }

  roomier-SameContent :
      (w : VectorStore F) (rows : ℕ)
      → Extends p.blank s.vectors w
      → rows ≤ 2 ^ 32
      → SameContent p s (roomier w rows)
  roomier-SameContent w rows more small =
      let grown = ensure_size-Grown rows v.marks.valid small in
      record {
        valid = record {
          accepted = v.accepted;
          store = more.valid;
          dim = more.dim ∙ v.dim;
          widths = λ i h.
              ap length (more.rows i (omega (arith, more.size, h)))
              ∙ v.widths i (omega (arith, more.size, h));
          ids = v.ids;
          idle = v.idle;
          labels = v.labels ∙ sym more.size;
          marks = rw more.size (Grown-Marks v.marks grown);
          backend = rw more.size v.backend;
          suits = v.suits;
          normalized = v.normalized;
        };
        config = refl;
        lookups = λ j. lookup-same p s (roomier w rows) v more.rows j refl;
        live = refl;
        rows = more.size;
        max_rows = more.max_rows;
        tests = grown.tests;
        flat = λ f. f;
      }

  -- What a batch meets once it is admitted.
  record Admitted (ids : List ℕ) (upsert : Bool) (t : CollectionState F H) : Type 0 where
    same : SameContent p s t
    free : upsert ≡ false → AllFree p t ids
    room : t.vectors.size + length ids ≤ t.vectors.max_rows

  -- The tests of a batch against the collection.
  unfoldable pub batch_test : List ℕ → Bool → Status
  batch_test ids upsert =
      require (upsert || not (any_known p s ids)) already_exists
      >> require (not (ltb s.vectors.max_rows (s.vectors.size + length ids))) resource_exhausted

  admit_batch-cases :
      (ids : List ℕ) (upsert : Bool)
      → length ids < 2 ^ 63
      → ((e : ErrorCode) × (admit_batch p s ids upsert ≡ err e) × (batch_test ids upsert ≡ err e))
        ⊎ ((t : CollectionState F H) × (admit_batch p s ids upsert ≡ ok t)
            × (batch_test ids upsert ≡ ok tt)
            × Admitted ids upsert t)
  unfolding admit_batch batch_test
  admit_batch-cases ids upsert short =
      let exact : (s.vectors.size + length ids) % 2 ^ 64 ≡ s.vectors.size + length ids =
        mod-eq_of_lt (omega (arith, v.store.limit, v.store.width)) in
      elim (Bool-cases (upsert || not (any_known p s ids))) [
        | inr known ↦
            inl (already_exists, rw (known, admit_batch) refl, rw (known, batch_test) refl)
        | inl fresh ↦ elim (Bool-cases (ltb s.vectors.max_rows (s.vectors.size + length ids))) [
          | inl full ↦ inl (
            resource_exhausted,
            rw (fresh, exact, full, admit_batch) refl,
            rw (fresh, full, batch_test) refl,
          )
          | inr fits ↦
              let (w, reserved, more) =
                reserve-Extends p.blank s.vectors (s.vectors.size + length ids) v.store
                  (ground arith) in
              let same =
                roomier-SameContent w (s.vectors.size + length ids) more.0
                  (ground (arith, v.store.limit, v.store.width)) in
              inr (
                roomier w (s.vectors.size + length ids),
                rw (fresh, exact, fits, reserved, admit_batch) refl,
                rw (fresh, fits, batch_test) refl,
                record {
                  same = same;
                  free = λ off.
                      AllFree-same (roomier w (s.vectors.size + length ids)) same ids
                        (AllFree-any_known ids (ground arith));
                  room = ground (arith, more.0.size, more.0.max_rows);
                },
              )
        ]
      ]

  -- The answer that a batch should get.
  unfoldable pub batch_status : List ℕ → List F → Bool → Result ℕ
  batch_status ids rows upsert = validate_batch p.supported rows (length ids) s.config.dim >>= λ u.
      prepare_batch p s ids rows >>= λ stored. batch_test ids upsert >>= λ w. ok (length ids)

  -- The whole batch is there, or nothing has changed.
  abbrev pub WholeBatch : List ℕ → List F → Result ℕ × CollectionState F H → Type 0
  WholeBatch ids rows q =
      ((e : ErrorCode) × (q ≡ (err e, s)))
      ⊎ ((stored : List F) × (prepare_batch p s ids rows ≡ ok stored)
          × IsValid p q.1
          × (q.1.config ≡ s.config)
          × ((j : ℕ) → lookup p q.1 j ≡ assigned p s.config.dim stored 0 ids (lookup p s) j)
          × (q.1.vectors.size ≡ s.vectors.size + length ids))

  module _ (concurrent : CollectionState F H → List ℕ → List F → Bool → Outcome F H ℕ) where
    -- In a valid collection with the flat backend, whose configuration says so, for a batch that is
    -- not empty, of ids of 64 bits and less than 2 ^ 63 of them: `add_batch` returns the answer of
    -- `batch_status`, the first error of the tests of the rows, the ids, the collection and the
    -- room, else the number of ids. With an error nothing has changed. Else the collection is valid
    -- with the same configuration, one row larger for each id, and each id of the batch has its
    -- prepared row and every other id what it had.
    pub add_batch-WholeBatch :
        (k : ℕ) (ids : List ℕ) (rows : List F) (upsert : Bool)
        → IsFlat s.backend
        → s.config.index ≡ 0
        → Narrow (k ∷ ids)
        → length (k ∷ ids) < 2 ^ 63
        → Returns
            (add_batch p concurrent s (k ∷ ids) rows upsert)
            (λ q. (q.0 ≡ batch_status (k ∷ ids) rows upsert) × WholeBatch (k ∷ ids) rows q)
    unfolding add_batch batch_status
    add_batch-WholeBatch k ids rows upsert flat index narrow short =
        let filled : (length (k ∷ ids) == 0) ≡ false = ground arith in
        elim (validate_batch-Attempts p rows (length (k ∷ ids)) s.config.dim) [
          | inl (e, fails) ↦ (
            (err e, s),
            rw (fails, add_batch) refl,
            (rw (fails, batch_status) refl, inl (e, refl)),
          )
          | inr (u, sound, wide) ↦ elim (prepare_batch-Attempts p s (k ∷ ids) rows wide) [
            | inl (e, fails) ↦ (
              (err e, s),
              rw (sound, filled, fails, add_batch) refl,
              (rw (sound, fails, batch_status) refl, inl (e, refl)),
            )
            | inr (stored, prepared, (fine, size)) ↦
                elim (admit_batch-cases (k ∷ ids) upsert short) [
                  | inl (e, fails, status) ↦ (
                    (err e, s),
                    rw (sound, filled, prepared, fails, add_batch) refl,
                    (rw (sound, prepared, status, batch_status) refl, inl (e, refl)),
                  )
                  | inr (t, admitted, passed, a) ↦
                      let keys = (check_keys_iff k ids narrow).0 fine in
                      let dim : t.config.dim ≡ s.config.dim = ap (λ c. c.dim) a.same.config in
                      let (q, done, all) =
                        insert_rows-BatchStored p upsert stored (k ∷ ids) 0 t a.same.valid
                          (a.same.flat flat) keys.0 keys.1 a.free a.room
                          (rw dim (omega (arith, size, from_zero (length (k ∷ ids))))) in
                      (
                        q,
                        rw (sound, filled, prepared, admitted, index, add_batch) done,
                        (
                          all.0
                              ∙ ap ok (zero_on (length (k ∷ ids)))
                              ∙ sym (rw (sound, prepared, passed, batch_status) refl),
                          inr (
                            stored,
                            prepared,
                            all.1.valid,
                            all.1.config ∙ a.same.config,
                            (λ j.
                                all.1.lookups j
                                ∙ ap (λ n. assigned p n stored 0 (k ∷ ids) (lookup p t) j) dim
                                ∙ assigned-congr p s.config.dim stored 0 (k ∷ ids) _ _
                                    a.same.lookups j),
                            all.1.count ∙ ap (λ n. n + length (k ∷ ids)) a.same.rows,
                          ),
                        ),
                      )
                ]
          ]
        ]
      where
        from_zero : (n : ℕ) → (0 + n) * s.config.dim ≡ n * s.config.dim
        from_zero n = ap (λ m. m * s.config.dim) (omega arith)

        zero_on : (n : ℕ) → 0 + n ≡ n
        zero_on n = omega arith
