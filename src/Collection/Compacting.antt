-- ===== src/Collection/Compacting.antt =====
-- Collection::compact: the rebuilt collection has the same vectors under the same ids, in order, and
-- no deleted rows.
use vector_forge.Common.{
  ℕ, ◌≢◌, zero, suc, ◌+◌, ◌<◌, ◌≤◌, ◌≡◌, refl, sym, ap, ◌∙◌, true, false, Option, none, some, List,
  [], ◌∷◌, ◌++◌, arith, inl, inr, ◌⊎◌, Option-cases, Bool-cases, ◌==◌, ltb, lt→ltb, if◌then◌else◌,
  get_or, get_elem?-get_or,
}
use vector_forge.Core.Status.{ErrorCode, ok, err, Returns}
use vector_forge.Core.Types.{max_vectors_per_collection}
use vector_forge.Search.Order.{FloatOrder}
use vector_forge.Storage.IdMap.{find, label}
use vector_forge.Storage.IdMap.Erase.{find_injective}
use vector_forge.Storage.Tombstones.{test}
use vector_forge.Storage.VectorStore.{row_at}
use vector_forge.Storage.VectorStore.Append.{row-ok}
use vector_forge.Collection.State.{Platform, CollectionState, lookup, row_of}
use vector_forge.Collection.Edit.{copy_rows, fresh_copy, compact}
use vector_forge.Collection.Invariant.{IsValid, Inserted, find-lt, find-label}
use vector_forge.Collection.Adding.{expected_insert, insert-Inserted, insert-Outcomes}
use vector_forge.Collection.Batching.{refusal-none}
use vector_forge.Index.Backend.{IsFlat}
use vector_forge.Core.Types.{invalid_external_id}
use vector_forge.Collection.Insert.{insert}
use vector_forge.Collection.Creating.{Tries, Tries->>=, Empty, fresh_copy-Empty, find-of_lookup}

-- A row among the first `r`.
abbrev below : ℕ → Option ℕ → Option ℕ
below r none = none
below r (some i) = if ltb i r then some i else none

module _ {F H : Type 0} (p : Platform F H) ⦃o : FloatOrder F⦄ (s : CollectionState F H)
    (v : IsValid p s) where
  -- The labels of the first `r` rows that are not deleted, in order.
  pub kept_labels : ℕ → List ℕ
  kept_labels zero = []
  kept_labels (suc r) =
      if test s.deleted r then kept_labels r else kept_labels r ++ get_or s.ids.labels r 0 ∷ []

  record Copied (r : ℕ) (t : CollectionState F H) : Type 0 where
    valid : IsValid p t
    config : t.config ≡ s.config
    lookups : (j : ℕ) → lookup p t j ≡ row_of p s.vectors (below r (find s.ids j))
    rows : t.vectors.size ≤ r
    max_rows : t.vectors.max_rows ≡ max_vectors_per_collection
    labels : t.ids.labels ≡ kept_labels r
    live : t.ids.live ≡ t.vectors.size
    flat : s.config.index ≡ 0 → IsFlat t.backend

  below-zero : (f : Option ℕ) → row_of p s.vectors (below 0 f) ≡ none
  below-zero none = refl
  below-zero (some i) = let no : ltb i 0 ≡ false = ground arith in rw no refl

  Copied-Empty : (t : CollectionState F H) → Empty p s.config t → Copied 0 t
  unfolding kept_labels
  Copied-Empty t e = record {
    valid = e.valid;
    config = e.config_t;
    lookups = λ j. e.lookups j ∙ sym (below-zero (find s.ids j));
    rows = omega (arith, e.rows);
    max_rows = e.max_rows;
    labels = e.labels;
    live = e.live ∙ sym e.rows;
    flat = e.flat;
  }

  below-suc : (r : ℕ) (f : Option ℕ) → (f ≡ some r → ⊥) → below (suc r) f ≡ below r f
  below-suc r none h = refl
  below-suc r (some i) h = elim (Bool-cases (i == r)) [
    | inl last ↦ absurd (h (ap some (ground arith)))
    | inr other ↦ ground arith
  ]

  -- A deleted row is skipped.
  Copied-skip :
      (r : ℕ) (t : CollectionState F H) → test s.deleted r ≡ true → Copied r t → Copied (suc r) t
  unfolding kept_labels
  Copied-skip r t gone c = record {
    valid = c.valid;
    config = c.config;
    lookups = λ j.
        c.lookups j
        ∙ ap (row_of p s.vectors)
            (sym (below-suc r (find s.ids j) (λ at. cc (gone, v.marks.mapped j r at))));
    rows = omega (arith, c.rows);
    max_rows = c.max_rows;
    labels = c.labels ∙ rw gone refl;
    live = c.live;
    flat = c.flat;
  }

  module _ (r k : ℕ) (at : find s.ids k ≡ some r) (stored : r < s.vectors.size) where
    below-label :
        (j : ℕ)
        → row_of p s.vectors (below (suc r) (find s.ids j)) ≡ (
            if j == k
            then some (row_at p.blank s.vectors r)
            else row_of p s.vectors (below r (find s.ids j)))
    below-label j = elim (Bool-cases (j == k)) [
      | inl hit ↦
          let e : j ≡ k = ground arith in
          let last : ltb r (suc r) ≡ true = ground arith in
          let self : (k == k) ≡ true = ground arith in rw (e, at, last, self) refl
      | inr miss ↦ rw miss (
          ap (row_of p s.vectors) (
            below-suc r (find s.ids j)
              (λ same. absurd (ground (arith, find_injective j k r v.ids same at)))))
    ]

    not_yet : (t : CollectionState F H) → Copied r t → find t.ids k ≡ none
    not_yet t c =
        let unseen : ltb r r ≡ false = ground arith in
        find-of_lookup p t k (c.lookups k ∙ rw (at, unseen) refl)

    Copied-insert :
        (t u : CollectionState F H)
        → test s.deleted r ≡ false
        → Copied r t
        → Inserted p t k (row_at p.blank s.vectors r) u
        → Copied (suc r) u
    unfolding kept_labels
    Copied-insert t u alive c i = record {
      valid = i.valid;
      config = i.config ∙ c.config;
      lookups = λ j.
          i.lookups j
          ∙ ap (λ l. if j == k then some (row_at p.blank s.vectors r) else l) (c.lookups j)
          ∙ sym (below-label j);
      rows = omega (arith, c.rows, i.rows);
      max_rows = i.max_rows ∙ c.max_rows;
      labels =
          let named : get_or s.ids.labels r 0 ≡ k =
            ground (arith, find-label k r v.ids at, get_elem?-get_or s.ids.labels r 0, v.labels) in
          i.labels ∙ rw (c.labels, alive, named) refl;
      live = omega (arith, i.live_new (not_yet t c), i.rows, c.live);
      flat = λ e. i.flat (c.flat e);
    }

  label-find : (k r : ℕ) → find s.ids k ≡ some r → label s.ids r ≡ ok k
  unfolding label
  label-find k r at = rw (find-label k r v.ids at, label) refl

  find-reserved : find s.ids invalid_external_id ≡ none
  unfolding find
  find-reserved = rw v.ids.no_reserved_key refl

  -- A row that is not deleted is copied, in a flat collection always.
  insert-Tries :
      (r k : ℕ) (t : CollectionState F H)
      → r < s.vectors.size
      → find s.ids k ≡ some r
      → Copied r t
      → Returns (insert p t k (row_at p.blank s.vectors r) false) (λ q.
        ((q.0 ≡ ok tt) × Inserted p t k (row_at p.blank s.vectors r) q.1)
        ⊎ ((e : ErrorCode) × (q.0 ≡ err e) × (s.config.index ≢ 0)))
  insert-Tries r k t stored at c =
      let fits = v.widths r stored ∙ sym (c.valid.dim ∙ ap (λ x. x.dim) c.config) in
      elim (Bool-cases (s.config.index == 0)) [
        | inl zero_ ↦
            let free : k ≢ invalid_external_id = λ e. absurd (cc (e, at, find-reserved)) in
            let room : t.vectors.size < t.vectors.max_rows =
              omega (arith, c.rows, c.max_rows, v.store.limit, v.store.width) in
            let fine : expected_insert p t k false ≡ ok tt =
              rw (refusal-none p t k false free (λ off. not_yet r k at stored t c), lt→ltb _ _ room)
                refl in
            let (q, done, inserted) =
              insert-Inserted p t c.valid k false (row_at p.blank s.vectors r) fits
                (c.flat (ground arith)) fine in
            (q, done, inl inserted)
        | inr other ↦
            let (q, done, outcome) =
              insert-Outcomes p t c.valid k false (row_at p.blank s.vectors r) fits in
            (
              q,
              done,
              elim outcome [
                | inl (success, _, inserted) ↦ inl (success, inserted)
                | inr (e, failed, _, _) ↦ inr (e, failed, λ z. absurd (ground arith))
              ],
            )
      ]

  -- The loop from row `r` on fails, or ends with all rows copied.
  copy_rows-Copied :
      (n r : ℕ) (t : CollectionState F H)
      → r + n ≡ s.vectors.size
      → Copied r t
      → Tries s.config (copy_rows p s r n t) (λ u. Copied s.vectors.size u)
  unfolding copy_rows
  copy_rows-Copied zero r t e c =
      let last : r ≡ s.vectors.size = omega arith in inr (t, refl, rw (← last) c)
  copy_rows-Copied (suc n) r t e c = elim (Bool-cases (test s.deleted r)) [
    | inl gone ↦
        rw (gone, copy_rows) (copy_rows-Copied n (suc r) t (omega arith) (Copied-skip r t gone c))
    | inr alive ↦
        let stored : r < s.vectors.size = omega arith in
        let (k, at) = v.marks.unmarked r stored alive in
        let (q, done, outcome) = insert-Tries r k t stored at c in
        rw (alive, label-find k r at, row-ok p.blank s.vectors r stored, done, copy_rows)
          (elim outcome [
            | inl (success, inserted) ↦ rw success (
                copy_rows-Copied n (suc r) q.1 (omega arith)
                  (Copied-insert r k at stored t q.1 alive c inserted))
            | inr (e, failed, why) ↦ inl (e, rw failed refl, why)
          ])
  ]

  -- The collection without its deleted rows.
  pub record Compacted (t : CollectionState F H) : Type 0 where
    pub valid : IsValid p t
    pub config : t.config ≡ s.config
    pub lookups : (j : ℕ) → lookup p t j ≡ lookup p s j
    pub labels : t.ids.labels ≡ kept_labels s.vectors.size
    pub no_deleted : t.deleted.count ≡ 0
    pub rows : t.vectors.size ≡ t.ids.live

  below-all : (j : ℕ) → row_of p s.vectors (below s.vectors.size (find s.ids j)) ≡ lookup p s j
  below-all j = elim (Option-cases (find s.ids j)) [
    | inl none_ ↦ rw none_ refl
    | inr (i, at) ↦
        let inside : ltb i s.vectors.size ≡ true = lt→ltb _ _ (find-lt p s j i v at) in
        rw (at, inside) refl
  ]

  Compacted-Copied : (t : CollectionState F H) → Copied s.vectors.size t → Compacted t
  Compacted-Copied t c = record {
    valid = c.valid;
    config = c.config;
    lookups = λ j. c.lookups j ∙ below-all j;
    labels = c.labels;
    no_deleted = omega (arith, c.valid.marks.total, c.live);
    rows = sym c.live;
  }

  -- In a valid collection, `compact` returns. Without deleted rows it changes nothing. Else it
  -- either returns an error and changes nothing, for another index than flat alone, or returns the
  -- old number of rows, the number of deleted rows and the new number of rows, and the collection
  -- is valid with the same vector under every id, no deleted row, and the rows that were not
  -- deleted in the order that they had.
  pub compact-Compacted : Returns (compact p s) (λ q.
      ((s.deleted.count ≡ 0)
        × (q.1 ≡ s)
        × (q.0
            ≡ ok (record {
              rows_before = s.vectors.size;
              removed_rows = 0;
              rows_after = s.vectors.size;
            })))
      ⊎ ((e : ErrorCode) × (q ≡ (err e, s)) × (s.config.index ≢ 0))
      ⊎ ((q.0
            ≡ ok (record {
              rows_before = s.vectors.size;
              removed_rows = s.deleted.count;
              rows_after = q.1.vectors.size;
            }))
          × Compacted q.1))
  unfolding compact
  compact-Compacted = elim (Bool-cases (s.deleted.count == 0)) [
    | inl none_ ↦ rw none_ (_, refl, inl (ground arith, refl, refl))
    | inr some_ ↦
        elim (Tries->>= s.config (fresh_copy p s) (λ t. copy_rows p s 0 s.vectors.size t)
          (fresh_copy-Empty p s v)
          (λ t e. copy_rows-Copied s.vectors.size 0 t (omega arith) (Copied-Empty t e))) [
            | inl (e, failed, why) ↦ rw (some_, failed, compact) (_, refl, inr (inl (e, refl, why)))
            | inr (t, done, c) ↦
                rw (some_, done, compact) (_, refl, inr (inr (refl, Compacted-Copied t c)))
          ]
  ]
