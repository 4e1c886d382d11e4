-- ===== src/Collection/Inserting.antt =====
-- An insertion under a reservation: it stores the row, or leaves what there was.
use vector_forge.Common.{
  ℕ, ◌+◌, ◌^◌, ◌<◌, ◌≤◌, ◌≡◌, refl, sym, ap, ◌∙◌, Bool, true, false, none, some, List, [], ◌∷◌,
  ◌++◌, length, arith, ◌==◌, if◌then◌else◌, Bool-cases, inl, inr, length-append,
}
use vector_forge.Core.Status.{ok, err, ErrorCode, Result, Returns, resource_exhausted}
use vector_forge.Core.Types.{invalid_internal_id, max_vectors_per_collection}
use vector_forge.Search.Order.{FloatOrder}
use vector_forge.Storage.IdMap.{IdMap, Reservation, find, reserve, commit}
use vector_forge.Storage.IdMap.Protocol.{
  Reserved, Restored, reserve_state, commit-Committed, rollback-reserve,
}
use vector_forge.Storage.IdMap.Invariant.{IsValid as IdsAreValid}
use vector_forge.Storage.IdMap.Idle.{IsIdle, commit-IsIdle, rollback-IsIdle}
use vector_forge.Storage.Tombstones.{TombstoneSet, ensure_size}
use vector_forge.Storage.Tombstones.Laws.{set-Marked, ensure_size-Grown}
use vector_forge.Storage.VectorStore.{VectorStore, append, row_at}
use vector_forge.Storage.VectorStore.Invariant.{IsValid as StoreIsValid}
use vector_forge.Storage.VectorStore.Append.{Appended, append-exhausted}
use vector_forge.Storage.VectorStore.Undo.{Popped, pop_back-Popped}
use vector_forge.Index.Backend.{Backend, Covers, IsFlat, remove-Covers, remove-IsFlat}
use vector_forge.Collection.State.{Platform, CollectionState, lookup}
use vector_forge.Collection.Insert.{publish, insert_reserved}
use vector_forge.Collection.Invariant.{
  Suits, remove-Suits, Marks, IsValid, SameContent, Inserted, find-lt,
}
use vector_forge.Collection.Marks.{Grown-Marks, new-Marks, replace-Marks}
use vector_forge.Collection.Rows.{
  row_at-Appended, row_at-new, row_at-Popped, lookup-same, lookup-inserted,
}

module _ {F H : Type 0} (p : Platform F H) ⦃o : FloatOrder F⦄ (s : CollectionState F H)
    (v : IsValid p s) (k : ℕ) (upsert : Bool) {r : Reservation} {n : IdMap}
    (reserved : reserve s.ids k upsert ≡ ok (r, n)) (row : List F)
    (fits : length row ≡ s.vectors.dim) where
  abbrev held : Reserved s.ids k (r, n)
  held = reserve_state k upsert v.ids reserved

  -- A backend for one row more, of the same kind.
  abbrev pub Continues : Backend H → Type 0
  Continues b =
      Covers p.blank p.arithmetic p.kernels p.hnsw_table b (s.vectors.size + 1)
      × (IsFlat s.backend → IsFlat b)
      × Suits s.config b

  next_row : length n.labels ≡ s.vectors.size
  next_row = ap length held.labels ∙ v.labels

  -- What the collection is when the row is stored and not published.
  abbrev pub stored : VectorStore F → Backend H → CollectionState F H
  stored vectors backend = record s {
    ids = n;
    deleted = ensure_size s.deleted (s.vectors.size + 1);
    vectors = vectors;
    backend = backend;
  }

  small : s.vectors.size < s.vectors.max_rows → s.vectors.size + 1 < 2 ^ 32
  small h = omega (arith, v.store.width)

  module _ {id : ℕ} {vectors : VectorStore F} (limit : s.vectors.size < s.vectors.max_rows)
      (a : Appended p.blank s.vectors row id vectors) where
    grown : Marks s.ids (ensure_size s.deleted (s.vectors.size + 1)) s.vectors.size
    grown =
        Grown-Marks v.marks
          (ensure_size-Grown (s.vectors.size + 1) v.marks.valid (omega (arith, small limit)))

    module _ (t : CollectionState F H) (vectors_t : t.vectors ≡ vectors)
        (config_t : t.config ≡ s.config)
        (maps : (j : ℕ)
          → find t.ids j ≡ (if j == k then some s.vectors.size else find s.ids j)) where
      kept_rows :
          (i : ℕ) → i < s.vectors.size → row_at p.blank t.vectors i ≡ row_at p.blank s.vectors i
      kept_rows i h = rw vectors_t (row_at-Appended p.blank a i h)

      lookups : (j : ℕ) → lookup p t j ≡ (if j == k then some row else lookup p s j)
      lookups j =
          lookup-inserted p s t v kept_rows k row j (rw vectors_t (row_at-new p.blank a)) (maps j)

    widths_after : (i : ℕ) → i < vectors.size → length (row_at p.blank vectors i) ≡ s.config.dim
    widths_after i h = elim (Bool-cases (i == s.vectors.size)) [
      | inl last ↦
          let e : i ≡ s.vectors.size = ground arith in
          rw e (ap length (row_at-new p.blank a) ∙ fits ∙ v.dim)
      | inr before ↦
          let old : i < s.vectors.size = ground (arith, a.size) in
          ap length (row_at-Appended p.blank a i old) ∙ v.widths i old
    ]

    -- The id map once the row is published.
    record Recorded (c : ℕ × IdMap) : Type 0 where
      idle : IsIdle c.1
      valid : IdsAreValid c.1
      replaces : c.0 ≡ r.previous
      maps : (j : ℕ) → find c.1 j ≡ (if j == k then some s.vectors.size else find s.ids j)
      labels : c.1.labels ≡ s.ids.labels ++ k ∷ []
      live : c.1.live ≡ (if r.previous == invalid_internal_id then s.ids.live + 1 else s.ids.live)

    commit-Recorded : Returns (commit n r id) Recorded
    commit-Recorded =
        let place : length n.labels ≡ id = next_row ∙ sym a.next in
        let room : length n.labels < max_vectors_per_collection =
          omega (arith, next_row, v.store.width) in
        let (c, done, after) = commit-Committed r held.valid held.held room in
        (
          c,
          rw place at done,
          record {
            idle = commit-IsIdle k upsert id c.0 v.ids v.idle reserved (rw place at done);
            valid = after.valid;
            replaces = after.replaces;
            maps = λ j. ground (arith, after.maps j, held.key, held.kept j, next_row);
            labels = after.labels ∙ rw (held.labels, held.key) refl;
            live = after.live ∙ rw held.live refl;
          },
        )

    module _ (backend : Backend H) (covers : Continues backend) where
      -- The collection after publishing, from its three parts that change.
      abbrev published : IdMap → TombstoneSet → Backend H → CollectionState F H
      published ids deleted b = record (stored vectors b) { ids = ids; deleted = deleted }

      published-Inserted :
          (c : ℕ × IdMap) (deleted : TombstoneSet) (b : Backend H)
          → Recorded c
          → Marks c.1 deleted (s.vectors.size + 1)
          → Continues b
          → Inserted p s k row (published c.1 deleted b)
      published-Inserted c deleted b after marks covers_b = record {
        valid = record {
          accepted = v.accepted;
          store = a.valid;
          dim = a.dim ∙ v.dim;
          widths = widths_after;
          ids = after.valid;
          idle = after.idle;
          labels = omega (
            arith,
            ap length after.labels,
            length-append s.ids.labels (k ∷ []),
            v.labels,
            a.size,
          );
          marks = rw a.size marks;
          backend = rw a.size covers_b.0;
          suits = covers_b.2;
          normalized = v.normalized;
        };
        config = refl;
        lookups = lookups (published c.1 deleted b) refl refl after.maps;
        rows = a.size;
        max_rows = a.max_rows;
        labels = after.labels;
        flat = covers_b.1;
        live_new = λ free. ground (arith, after.live, held.previous);
      }

      pub publish-Inserted :
          Returns
            (publish p (stored vectors backend) r id)
            (λ q. (q.0 ≡ ok tt) × Inserted p s k row q.1)
      unfolding publish
      publish-Inserted =
          let (c, done, after) = commit-Recorded in
          let room =
            (ensure_size-Grown (s.vectors.size + 1) v.marks.valid (omega (arith, small limit))).room
              s.vectors.size (omega arith) in
          elim (Bool-cases (r.previous == invalid_internal_id)) [
            | inl new ↦
                let free : find s.ids k ≡ none = ground (arith, held.previous) in
                let fresh : (c.0 == invalid_internal_id) ≡ true = rw after.replaces new in
                rw (done, fresh, publish)
                  (
                    _,
                    refl,
                    (
                      refl,
                      published-Inserted c _ backend after
                          (new-Marks {next = c.1} k grown after.maps room free
                            (ground (arith, after.live)))
                          covers,
                    ),
                  )
            | inr old ↦
                let was : find s.ids k ≡ some r.previous = ground (arith, held.previous) in
                let below : r.previous < s.vectors.size = find-lt p s k r.previous v was in
                let stale : (c.0 == invalid_internal_id) ≡ false = rw after.replaces old in
                let (m, marked, mark) =
                  set-Marked r.previous grown.valid (grown.room r.previous below) in
                let marked_c = rw (← after.replaces) at marked in
                rw (done, stale, marked_c, publish)
                  (
                    _,
                    refl,
                    (
                      refl,
                      published-Inserted c m.1 _ after
                          (replace-Marks {next = c.1} k grown after.maps room r.previous v.ids was
                            below (ground (arith, after.live)) mark)
                          (
                            remove-Covers p.blank p.arithmetic p.kernels p.hnsw_table backend c.0
                                (s.vectors.size + 1) covers.0,
                            λ f.
                                remove-IsFlat p.blank p.arithmetic p.kernels p.hnsw_table backend
                                  c.0 (covers.1 f),
                            remove-Suits p.blank p.arithmetic p.kernels p.hnsw_table s.config
                                backend c.0 covers.2,
                          ),
                    ),
                  )
          ]

  -- The store is what it was, up to memory.
  record SameRows (w : VectorStore F) : Type 0 where
    valid : StoreIsValid p.blank w
    size : w.size ≡ s.vectors.size
    dim : w.dim ≡ s.vectors.dim
    max_rows : w.max_rows ≡ s.vectors.max_rows
    rows : (i : ℕ) → i < s.vectors.size → row_at p.blank w i ≡ row_at p.blank s.vectors i

  abbrev undone : IdMap → VectorStore F → CollectionState F H
  undone ids vectors = record (stored vectors s.backend) { ids = ids }

  undone-SameContent :
      (ids : IdMap) (w : VectorStore F)
      → Restored s.ids s.ids ids
      → SameRows w
      → SameContent p s (undone ids w)
  undone-SameContent ids w back same =
      let limit : s.vectors.size + 1 ≤ 2 ^ 32 = omega (arith, v.store.limit, v.store.width) in
      let grown = ensure_size-Grown (s.vectors.size + 1) v.marks.valid limit in
      let marks = Grown-Marks v.marks grown in
      record {
        valid = record {
          accepted = v.accepted;
          store = same.valid;
          dim = same.dim ∙ v.dim;
          widths = λ i h.
              let old : i < s.vectors.size = omega (arith, same.size) in
              ap length (same.rows i old) ∙ v.widths i old;
          ids = back.valid;
          idle = rollback-IsIdle v.idle back;
          labels = ap length back.labels ∙ v.labels ∙ sym same.size;
          marks = rw same.size (record {
            valid = marks.valid;
            room = marks.room;
            stored = marks.stored;
            mapped = λ j i h. marks.mapped j i (sym (back.maps j) ∙ h);
            unmarked = λ i h t. let (j, at) = marks.unmarked i h t in (j, back.maps j ∙ at);
            total = omega (arith, marks.total, back.live);
          });
          backend = rw same.size v.backend;
          suits = v.suits;
          normalized = v.normalized;
        };
        config = refl;
        lookups = λ j. lookup-same p s (undone ids w) v same.rows j (back.maps j);
        live = back.live;
        rows = same.size;
        max_rows = same.max_rows;
        tests = grown.tests;
        flat = λ f. f;
      }

  same_rows : SameRows s.vectors
  same_rows = record {
    valid = v.store;
    size = refl;
    dim = refl;
    max_rows = refl;
    rows = λ i h. refl;
  }

  module _ (index : CollectionState F H → ℕ → Result (Backend H)) where
    pub insert_reserved-full :
        s.vectors.max_rows ≤ s.vectors.size
        → Returns
            (insert_reserved p index (record s { ids = n }) r row)
            (λ q. (q.0 ≡ err resource_exhausted) × SameContent p s q.1)
    unfolding insert_reserved
    insert_reserved-full full =
        let (ids, done, back) = rollback-reserve k upsert v.ids reserved in
        rw (append-exhausted p.blank s.vectors row fits full, done, insert_reserved)
          (_, refl, (refl, undone-SameContent ids s.vectors back same_rows))

    Popped-rows :
        {id : ℕ} {w u : VectorStore F}
        → Appended p.blank s.vectors row id w
        → Popped p.blank w u
        → SameRows u
    Popped-rows {w = w} {u = u} a q = record {
      valid = q.valid;
      size = omega (arith, q.size, a.size);
      dim = q.dim ∙ a.dim;
      max_rows = q.max_rows ∙ a.max_rows;
      rows = λ i h.
          row_at-Popped p.blank i q (omega (arith, q.size, a.size)) ∙ row_at-Appended p.blank a i h;
    }

    pub insert_reserved-done :
        {id : ℕ} {w : VectorStore F} (b : Backend H)
        → s.vectors.size < s.vectors.max_rows
        → append p.blank s.vectors row ≡ ok (id, w)
        → Appended p.blank s.vectors row id w
        → index (stored w s.backend) id ≡ ok b
        → Continues b
        → Returns
            (insert_reserved p index (record s { ids = n }) r row)
            (λ q. (q.0 ≡ ok tt) × Inserted p s k row q.1)
    unfolding insert_reserved
    insert_reserved-done b limit appended a indexed covers =
        rw (appended, indexed, insert_reserved) (publish-Inserted limit a b covers)

    pub insert_reserved-undone :
        {id : ℕ} {w : VectorStore F} (e : ErrorCode)
        → append p.blank s.vectors row ≡ ok (id, w)
        → Appended p.blank s.vectors row id w
        → index (stored w s.backend) id ≡ err e
        → Returns
            (insert_reserved p index (record s { ids = n }) r row)
            (λ q. (q.0 ≡ err e) × SameContent p s q.1)
    unfolding insert_reserved
    insert_reserved-undone {w = w} e appended a refused =
        let (u, popped, less) =
          pop_back-Popped p.blank w a.valid
            (omega (arith, a.size, a.mapped_rows, v.store.some_rows)) in
        let (ids, undo, back) = rollback-reserve k upsert v.ids reserved in
        rw (appended, refused, popped, undo, insert_reserved)
          (_, refl, (refl, undone-SameContent ids u back (Popped-rows a less)))
