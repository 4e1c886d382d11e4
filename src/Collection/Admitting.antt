-- ===== src/Collection/Admitting.antt =====
-- The tests of Collection::add_batch, and the room that it makes: what they establish.
use vector_forge.Common.{
  ℕ, zero, suc, ◌+◌, ◌*◌, ◌^◌, ◌≤◌, ◌≡◌, refl, ap, ◌∙◌, none, some, List, [], ◌++◌, ◌==◌, ltb,
  length, drop, arith, Bool-cases, inl, inr, length-take, length-drop, length-append,
}
use vector_forge.Core.Status.{ok, Attempts, invalid_argument, dimension_mismatch}
use vector_forge.Core.Config.{effective_normalize}
use vector_forge.Core.CheckedMath.{checked_mul, checked_mul-exact}
use vector_forge.Core.Validation.{validate_batch, validate_components, find_invalid_component}
use vector_forge.Search.Order.{FloatOrder}
use vector_forge.Collection.State.{Platform, CollectionState}
use vector_forge.Collection.Keys.{check_keys, check_keys-cases}
use vector_forge.Collection.Batch.{normalize_rows, prepare_batch}
use vector_forge.Collection.Adding.{normalize_inplace-Attempts}
use vector_forge.Collection.Batching.{slice}

module _ {F H : Type 0} (p : Platform F H) ⦃o : FloatOrder F⦄ where
  pub validate_batch-Attempts :
      (rows : List F) (n dim : ℕ)
      → Attempts (validate_batch p.supported rows n dim) (λ u. length rows ≡ n * dim)
  unfolding validate_batch
  validate_batch-Attempts rows n dim =
      let exact = checked_mul-exact 64 n dim in
      elim (Bool-cases (ltb (n * dim) (2 ^ 64))) [
        | inr over ↦
            let none_ : checked_mul 64 n dim ≡ none = exact ∙ rw over refl in
            inl (dimension_mismatch, rw (none_, validate_batch) refl)
        | inl fits ↦
            let some_ : checked_mul 64 n dim ≡ some (n * dim) = exact ∙ rw fits refl in
            elim (Bool-cases (length rows == n * dim)) [
              | inr other ↦ inl (dimension_mismatch, rw (some_, other, validate_batch) refl)
              | inl same ↦
                  elim (Bool-cases (find_invalid_component p.supported rows == length rows)) [
                    | inr bad ↦ inl (
                      invalid_argument,
                      rw (some_, same, bad, validate_batch, validate_components) refl,
                    )
                    | inl good ↦ inr (
                      tt,
                      rw (some_, same, good, validate_batch, validate_components) refl,
                      ground arith,
                    )
                  ]
            ]
      ]

  normalize_rows-Attempts :
      (dim : ℕ) (rows : List F) (n i : ℕ)
      → (i + n) * dim ≤ length rows
      → Attempts (normalize_rows p dim rows i n) (λ stored. length stored ≡ n * dim)
  unfolding normalize_rows
  normalize_rows-Attempts dim rows zero i wide = inr ([], refl, omega arith)
  normalize_rows-Attempts dim rows (suc n) i wide =
      elim (normalize_inplace-Attempts p (slice p dim rows i)) [
        | inl (e, fails) ↦ inl (invalid_argument, rw (fails, normalize_rows) refl)
        | inr (row, done, same) ↦
            elim (normalize_rows-Attempts dim rows n (suc i) (rw (next_row i n dim) wide)) [
              | inl (e, fails) ↦ inl (e, rw (done, fails, normalize_rows) refl)
              | inr (rest, others, size) ↦ inr (
                row ++ rest,
                rw (done, others, normalize_rows) refl,
                omega (
                  arith,
                  length-append row rest,
                  same,
                  size,
                  length-take dim (drop (i * dim) rows),
                  length-drop (i * dim) rows,
                  row_room i n dim,
                  one_more n dim,
                ),
              )
            ]
      ]
    where
      next_row : (i n dim : ℕ) → (suc i + n) * dim ≡ (i + suc n) * dim
      next_row i n dim = ap (λ m. m * dim) (omega arith)

      row_room : (i n dim : ℕ) → i * dim + dim ≤ (i + suc n) * dim
      row_room i n dim = grind arith

      one_more : (n dim : ℕ) → suc n * dim ≡ n * dim + dim
      one_more n dim = grind arith

  -- The rows of a batch that passes the tests of its ids, one for each id.
  pub prepare_batch-Attempts :
      (s : CollectionState F H) (ids : List ℕ) (rows : List F)
      → length rows ≡ length ids * s.config.dim
      → Attempts
          (prepare_batch p s ids rows)
          (λ stored. (check_keys ids ≡ ok tt) × (length stored ≡ length ids * s.config.dim))
  unfolding prepare_batch
  prepare_batch-Attempts s ids rows wide = elim (check_keys-cases ids) [
    | inl (e, fails) ↦ inl (e, rw (fails, prepare_batch) refl)
    | inr fine ↦ elim (Bool-cases (effective_normalize s.config)) [
      | inr raw ↦ inr (rows, rw (fine, raw, prepare_batch) refl, (fine, wide))
      | inl scaled ↦
          elim (normalize_rows-Attempts s.config.dim rows (length ids) 0
            (omega (arith, first (length ids), wide))) [
              | inl (e, fails) ↦ inl (e, rw (fine, scaled, prepare_batch) fails)
              | inr (stored, done, size) ↦
                  inr (stored, rw (fine, scaled, prepare_batch) done, (fine, size))
            ]
    ]
  ]
    where
      first : (n : ℕ) → (0 + n) * s.config.dim ≡ n * s.config.dim
      first n = ap (λ m. m * s.config.dim) (omega arith)
