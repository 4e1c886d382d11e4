-- ===== src/Collection/Adding.antt =====
-- Collection::add: every outcome, and what it leaves in the collection.
use vector_forge.Common.{
  ℕ, ◌+◌, ◌≡◌, refl, sym, ◌∙◌, Bool, true, false, Option, none, some, List, length, arith, ◌==◌,
  not, ltb, ltb→lt, Bool-cases, Option-cases, ◌||◌, inl, inr, ◌⊎◌, length-map,
}
use vector_forge.Core.Status.{
  Result, ErrorCode, ok, err, Attempts, Attempts->>=, Returns, ◌>>=◌, resource_exhausted,
  dimension_mismatch, invalid_argument,
}
use vector_forge.Core.Config.{effective_normalize}
use vector_forge.Core.Validation.{validate_vector, validate_components, find_invalid_component}
use vector_forge.Core.VectorOps.{normalize_inplace, inverse_norm}
use vector_forge.Search.Order.{FloatOrder}
use vector_forge.Storage.IdMap.Idle.{refusal, reserve-refused, reserve-accepted}
use vector_forge.Storage.VectorStore.Append.{append-Appended}
use vector_forge.Index.Backend.{add-Covers, add-flat, add-IsFlat, IsFlat, IsFlat-eq}
use vector_forge.Collection.State.{Platform, CollectionState, rows_of}
use vector_forge.Collection.Insert.{insert, add, prepare_row, add_to_backend}
use vector_forge.Collection.Invariant.{add-Suits, IsValid, SameContent, Inserted, Stores}
use vector_forge.Collection.Inserting.{
  stored, insert_reserved-full, insert_reserved-done, insert_reserved-undone,
}

module _ {F H : Type 0} (p : Platform F H) ⦃o : FloatOrder F⦄ where
  pub inverse_norm-Attempts :
      (vector : List F) → Attempts (inverse_norm p.norms vector) (λ factor. Unit {0})
  unfolding inverse_norm
  inverse_norm-Attempts vector =
      let norm_sq = p.norms.norm2 vector in
      elim (Bool-cases (length vector == 0)) [
        | inl empty ↦ inl (invalid_argument, rw empty refl)
        | inr some_ ↦
            elim (Bool-cases (not (p.norms.positive norm_sq) || not (p.norms.finite norm_sq))) [
              | inl bad ↦ inl (invalid_argument, rw (some_, bad) refl)
              | inr good ↦ elim (Bool-cases (p.norms.finite (p.norms.inverse_root norm_sq))) [
                | inr large ↦ inl (invalid_argument, rw (some_, good, large) refl)
                | inl fine ↦ inr (p.norms.inverse_root norm_sq, rw (some_, good, fine) refl, tt)
              ]
            ]
      ]

  pub normalize_inplace-Attempts :
      (vector : List F)
      → Attempts (normalize_inplace p.norms vector) (λ row. length row ≡ length vector)
  unfolding normalize_inplace
  normalize_inplace-Attempts vector =
      Attempts->>= (inverse_norm p.norms vector) _ (inverse_norm-Attempts vector)
        λ factor u. inr (_, refl, length-map vector (λ x. p.norms.scale x factor))

  pub validate_vector-Attempts :
      (vector : List F) (dim : ℕ)
      → Attempts (validate_vector p.supported vector dim) (λ u. length vector ≡ dim)
  unfolding validate_vector
  validate_vector-Attempts vector dim = elim (Bool-cases (length vector == dim)) [
    | inr other ↦ inl (dimension_mismatch, rw other refl)
    | inl same ↦ elim (Bool-cases (find_invalid_component p.supported vector == length vector)) [
      | inr bad ↦ inl (invalid_argument, rw (same, bad, validate_components) refl)
      | inl good ↦ inr (tt, rw (same, good, validate_components) refl, ground arith)
    ]
  ]

  -- A row that passes the tests has the dimension of the collection.
  pub prepare_row-Attempts :
      (s : CollectionState F H) (vector : List F)
      → Attempts (prepare_row p s vector) (λ row. length row ≡ s.config.dim)
  unfolding prepare_row
  prepare_row-Attempts s vector = elim (validate_vector-Attempts vector s.config.dim) [
    | inl (e, fails) ↦ inl (e, rw fails refl)
    | inr (u, passes, fits) ↦ elim (Bool-cases (effective_normalize s.config)) [
      | inr raw ↦ inr (vector, rw (passes, raw) refl, fits)
      | inl scaled ↦ elim (normalize_inplace-Attempts vector) [
        | inl (e, fails) ↦ inl (e, rw (passes, scaled) fails)
        | inr (row, done, same) ↦ inr (row, rw (passes, scaled) done, same ∙ fits)
      ]
    ]
  ]

  abbrev pub verdict : Option ErrorCode → Bool → Result (Unit {0})
  verdict (some e) room = err e
  verdict none true = ok tt
  verdict none false = err resource_exhausted

  -- What `insert` returns if the backend takes the row.
  abbrev pub expected_insert : CollectionState F H → ℕ → Bool → Result (Unit {0})
  expected_insert s k upsert =
      verdict (refusal s.ids k upsert) (ltb s.vectors.size s.vectors.max_rows)

  SameContent-refl : (s : CollectionState F H) → IsValid p s → SameContent p s s
  SameContent-refl s v = record {
    valid = v;
    config = refl;
    lookups = λ j. refl;
    live = refl;
    rows = refl;
    max_rows = refl;
    tests = λ i. refl;
    flat = λ f. f;
  }

  module _ (s : CollectionState F H) (v : IsValid p s) (k : ℕ) (upsert : Bool) (row : List F)
      (fits : length row ≡ s.vectors.dim) where
    -- The backend refuses the last row of a collection.
    pub record BackendRefuses (e : ErrorCode) : Type 0 where
      pub state : CollectionState F H
      pub id : ℕ
      pub same : state.backend ≡ s.backend
      pub last : id + 1 ≡ state.vectors.size
      pub refused : add_to_backend p state id ≡ err e

    -- An insertion stores the row or leaves the content; the error is the expected one unless the
    -- backend refuses the row.
    abbrev pub Outcomes : Result (Unit {0}) × CollectionState F H → Type 0
    Outcomes q =
        ((q.0 ≡ ok tt) × (expected_insert s k upsert ≡ ok tt) × Inserted p s k row q.1)
        ⊎ ((e : ErrorCode) × (q.0 ≡ err e)
            × ((expected_insert s k upsert ≡ err e)
                ⊎ ((expected_insert s k upsert ≡ ok tt) × BackendRefuses e))
            × SameContent p s q.1)

    pub insert-Outcomes : Returns (insert p s k row upsert) Outcomes
    unfolding insert
    insert-Outcomes = elim (Option-cases (refusal s.ids k upsert)) [
      | inr (e, refused) ↦
          rw (reserve-refused k upsert v.ids v.idle refused, insert)
            (_, refl, inr (e, refl, inl (rw refused refl), SameContent-refl s v))
      | inl free ↦
          let ((r, n), reserved, held) = reserve-accepted k upsert v.ids v.idle free in
          elim (Bool-cases (ltb s.vectors.size s.vectors.max_rows)) [
            | inr full ↦
                let (q, done, result) =
                  insert_reserved-full p s v k upsert reserved row fits (add_to_backend p)
                    (ground arith) in
                rw (reserved, insert)
                  (
                    q,
                    done,
                    inr (resource_exhausted, result.0, inl (rw (free, full) refl), result.1),
                  )
            | inl room ↦
                let limit = ltb→lt _ _ room in
                let (a, appended, at) = append-Appended p.blank s.vectors row v.store fits limit in
                let covers =
                  add-Covers p.blank p.arithmetic p.kernels p.hnsw_table
                    (rows_of p (stored p s v k upsert reserved row fits a.1 s.backend)) s.backend
                    a.0 (rw at.next v.backend) (omega (arith, at.next, at.size)) in
                elim covers [
                  | inl (e, refused) ↦
                      let (q, done, result) =
                        insert_reserved-undone p s v k upsert reserved row fits (add_to_backend p) e
                          appended at refused in
                      rw (reserved, insert)
                        (
                          q,
                          done,
                          inr (
                            e,
                            result.0,
                            inr (
                              rw (free, room) refl,
                              record {
                                state = stored p s v k upsert reserved row fits a.1 s.backend;
                                id = a.0;
                                same = refl;
                                last = omega (arith, at.next, at.size);
                                refused = refused;
                              },
                            ),
                            result.1,
                          ),
                        )
                  | inr (b, indexed, holds) ↦
                      let (q, done, result) =
                        insert_reserved-done p s v k upsert reserved row fits (add_to_backend p) b
                          limit appended at indexed
                          (
                            rw at.next at holds,
                            add-IsFlat p.blank p.arithmetic p.kernels p.hnsw_table
                                (rows_of p (stored p s v k upsert reserved row fits a.1 s.backend))
                                s.backend b a.0 indexed,
                            add-Suits p.blank p.arithmetic p.kernels p.hnsw_table s.config
                                (rows_of p (stored p s v k upsert reserved row fits a.1 s.backend))
                                s.backend b a.0 indexed v.suits,
                          ) in
                      rw (reserved, insert)
                        (q, done, inl (result.0, rw (free, room) refl, result.1))
                ]
          ]
    ]

    -- The flat backend refuses nothing.
    flat-refuses : (e : ErrorCode) → IsFlat s.backend → ¬ BackendRefuses e
    flat-refuses e flat refuses =
        let (metric, normalized, same) = IsFlat-eq s.backend flat in
        let taken =
          add-flat p.blank p.arithmetic p.kernels p.hnsw_table (rows_of p refuses.state) metric
            normalized refuses.id refuses.last in
        cc (taken, refuses.refused, refuses.same, same)

    insert-flat :
        IsFlat s.backend → Returns (insert p s k row upsert) (λ q. q.0 ≡ expected_insert s k upsert)
    insert-flat flat =
        let (q, done, outcome) = insert-Outcomes in
        (
          q,
          done,
          elim outcome [
            | inl (stored_, expected, _) ↦ stored_ ∙ sym expected
            | inr (e, failed, inl expected, _) ↦ failed ∙ sym expected
            | inr (e, failed, inr (_, refuses), _) ↦ absurd (flat-refuses e flat refuses)
          ],
        )

    pub insert-Inserted :
        IsFlat s.backend
        → expected_insert s k upsert ≡ ok tt
        → Returns (insert p s k row upsert) (λ q. (q.0 ≡ ok tt) × Inserted p s k row q.1)
    insert-Inserted flat fine =
        let (q, done, outcome) = insert-Outcomes in
        (
          q,
          done,
          elim outcome [
            | inl (stored_, _, inserted) ↦ (stored_, inserted)
            | inr (e, _, inl expected, _) ↦ absurd (cc (expected, fine))
            | inr (e, _, inr (_, refuses), _) ↦ absurd (flat-refuses e flat refuses)
          ],
        )

  module _ (s : CollectionState F H) (v : IsValid p s) (k : ℕ) (upsert : Bool)
      (vector : List F) where
    -- In a valid collection, `add` returns. Either it returns nothing and the id has the prepared
    -- vector in a valid collection, one row larger, and every other id has what it had. Or it
    -- returns an error, and the collection is valid with the same vectors under the same ids, the
    -- same number of them, the same number of rows and the same markers.
    pub add-Stores : Returns (add p s k vector upsert) (λ q.
        ((row : List F) × (prepare_row p s vector ≡ ok row) × Stores p s k row q)
        ⊎ ((e : ErrorCode) × (prepare_row p s vector ≡ err e) × (q ≡ (err e, s))))
    unfolding add
    add-Stores = elim (prepare_row-Attempts s vector) [
      | inl (e, fails) ↦ rw (fails, add) ((err e, s), refl, inr (e, refl, refl))
      | inr (row, prepared, fits) ↦
          let (q, done, outcome) = insert-Outcomes s v k upsert row (fits ∙ sym v.dim) in
          rw (prepared, add)
            (
              q,
              done,
              inl (
                row,
                refl,
                elim outcome [
                  | inl (stored_, _, inserted) ↦ inl (stored_, inserted)
                  | inr (e, failed, _, same) ↦ inr (e, failed, same)
                ],
              ),
            )
    ]

    -- In a valid collection with the flat backend, `add` returns the error of the vector's tests,
    -- else InvalidArgument for the reserved id, else AlreadyExists for an id that is there without
    -- `upsert`, else ResourceExhausted at the limit of rows, and else nothing.
    pub add_status :
        IsFlat s.backend
        → Returns
            (add p s k vector upsert)
            (λ q. q.0 ≡ (prepare_row p s vector >>= λ row. expected_insert s k upsert))
    unfolding add
    add_status flat = elim (prepare_row-Attempts s vector) [
      | inl (e, fails) ↦ ((err e, s), rw (fails, add) refl, rw fails refl)
      | inr (row, prepared, fits) ↦
          let (q, done, status) = insert-flat s v k upsert row (fits ∙ sym v.dim) flat in
          (q, rw (prepared, add) done, rw prepared status)
    ]
