-- ===== src/Collection/Batching.antt =====
-- Collection::add_batch with the flat backend: a batch is stored whole, or refused with the
-- collection unchanged.
use vector_forge.Common.{
  ℕ, suc, ◌+◌, ◌*◌, ◌<◌, ◌≤◌, ◌≡◌, ◌≢◌, refl, sym, ap, ◌∙◌, Bool, true, false, Option, none, some,
  List, [], ◌∷◌, ◌==◌, lt→ltb, if◌then◌else◌, length, take, drop, arith, length-take, length-drop,
  ne→==_false,
}
use vector_forge.Core.Status.{ok, Returns}
use vector_forge.Core.Types.{invalid_external_id}
use vector_forge.Search.Order.{FloatOrder}
use vector_forge.Storage.IdMap
use vector_forge.Storage.IdMap.{find}
use vector_forge.Storage.IdMap.Idle.{refusal}
use vector_forge.Index.Backend.{IsFlat}
use vector_forge.Collection.State.{Platform, CollectionState, lookup}
use vector_forge.Collection.Insert.{insert}
use vector_forge.Collection.Keys.{Absent, Distinct}
use vector_forge.Collection.Batch.{insert_rows}
use vector_forge.Collection.Invariant.{IsValid, Inserted}
use vector_forge.Collection.Adding.{expected_insert, insert-Inserted}
use vector_forge.Collection.Creating.{find-of_lookup}

module _ {F H : Type 0} (p : Platform F H) ⦃o : FloatOrder F⦄ where
  -- Row `i` of a batch.
  abbrev pub slice : ℕ → List F → ℕ → List F
  slice dim rows i = take dim (drop (i * dim) rows)

  -- The vectors under the ids once the rows from row `i` on are stored.
  unfoldable pub assigned : ℕ → List F → ℕ → List ℕ → (ℕ → Option (List F)) → ℕ → Option (List F)
  assigned dim rows i [] vectors = vectors
  assigned dim rows i (k ∷ ids) vectors =
      assigned dim rows (suc i) ids (λ j. if j == k then some (slice dim rows i) else vectors j)

  pub assigned-congr :
      (dim : ℕ) (rows : List F) (i : ℕ) (ids : List ℕ) (m n : ℕ → Option (List F))
      → ((j : ℕ) → m j ≡ n j)
      → (j : ℕ) → assigned dim rows i ids m j ≡ assigned dim rows i ids n j
  unfolding assigned
  assigned-congr dim rows i [] m n h j = h j
  assigned-congr dim rows i (k ∷ ids) m n h j =
      assigned-congr dim rows (suc i) ids _ _
        (λ x. ap (λ v. if x == k then some (slice dim rows i) else v) (h x)) j

  -- No id of the list has a vector.
  abbrev pub AllFree : CollectionState F H → List ℕ → Type 0
  AllFree s [] = Unit {0}
  AllFree s (k ∷ ids) = (lookup p s k ≡ none) × AllFree s ids

  AllFree-Inserted :
      (s t : CollectionState F H) (k : ℕ) (row : List F) (ids : List ℕ)
      → Inserted p s k row t
      → Absent k ids
      → AllFree s ids
      → AllFree t ids
  AllFree-Inserted s t k row [] i a f = tt
  AllFree-Inserted s t k row (x ∷ ids) i a f =
      let other : (x == k) ≡ false = ne→==_false x k (λ e. a.0 (sym e)) in
      (i.lookups x ∙ rw other f.0, AllFree-Inserted s t k row ids i a.1 f.1)

  pub record BatchStored (s : CollectionState F H) (rows : List F) (i : ℕ) (ids : List ℕ)
      (t : CollectionState F H) : Type 0 where
    pub valid : IsValid p t
    pub config : t.config ≡ s.config
    pub lookups : (j : ℕ) → lookup p t j ≡ assigned s.config.dim rows i ids (lookup p s) j
    pub count : t.vectors.size ≡ s.vectors.size + length ids

  pub refusal-none :
      (s : CollectionState F H) (k : ℕ) (upsert : Bool)
      → k ≢ invalid_external_id
      → (upsert ≡ false → find s.ids k ≡ none)
      → refusal s.ids k upsert ≡ none
  unfolding IdMap.contains
  refusal-none s k true ne free = ground arith
  refusal-none s k false ne free = ground (arith, free refl)

  row_end : (i n dim : ℕ) → i * dim + dim ≤ (i + suc n) * dim
  row_end i n dim = grind arith

  count_on : (i n : ℕ) → suc i + n ≡ i + suc n
  count_on i n = omega arith

  -- A row of the batch is taken.
  insert-slice :
      (upsert : Bool) (rows : List F) (k n i : ℕ) (s : CollectionState F H)
      → IsValid p s
      → IsFlat s.backend
      → k ≢ invalid_external_id
      → (upsert ≡ false → lookup p s k ≡ none)
      → s.vectors.size < s.vectors.max_rows
      → (i + suc n) * s.config.dim ≤ length rows
      → Returns
          (insert p s k (slice s.config.dim rows i) upsert)
          (λ q. (q.0 ≡ ok tt) × Inserted p s k (slice s.config.dim rows i) q.1)
  insert-slice upsert rows k n i s v flat ne free room wide =
      let fits : length (slice s.config.dim rows i) ≡ s.vectors.dim = omega (
        arith,
        length-take s.config.dim (drop (i * s.config.dim) rows),
        length-drop (i * s.config.dim) rows,
        v.dim,
        row_end i n s.config.dim,
      ) in
      let may = refusal-none s k upsert ne (λ off. find-of_lookup p s k (free off)) in
      let fine : expected_insert p s k upsert ≡ ok tt = rw (may, lt→ltb _ _ room) refl in
      insert-Inserted p s v k upsert (slice s.config.dim rows i) fits flat fine

  pub insert_rows-BatchStored :
      (upsert : Bool) (rows : List F) (ids : List ℕ) (i : ℕ) (s : CollectionState F H)
      → IsValid p s
      → IsFlat s.backend
      → Distinct ids
      → Absent invalid_external_id ids
      → (upsert ≡ false → AllFree s ids)
      → s.vectors.size + length ids ≤ s.vectors.max_rows
      → (i + length ids) * s.config.dim ≤ length rows
      → Returns
          (insert_rows p s ids rows i upsert)
          (λ q. (q.0 ≡ ok (i + length ids)) × BatchStored s rows i ids q.1)
  unfolding insert_rows assigned
  insert_rows-BatchStored upsert rows [] i s v flat d a free room wide = (
    _,
    refl,
    (
      ap ok (omega arith),
      record { valid = v; config = refl; lookups = λ j. refl; count = omega arith },
    ),
  )
  insert_rows-BatchStored upsert rows (k ∷ ids) i s v flat d a free room wide =
      let (q, done, result) =
        insert-slice upsert rows k (length ids) i s v flat (λ e. a.0 (sym e)) (λ off. (free off).0)
          (omega arith) wide in
      let dim : q.1.config.dim ≡ s.config.dim = ap (λ c. c.dim) result.1.config in
      let (r, rest, all) =
        insert_rows-BatchStored upsert rows ids (suc i) q.1 result.1.valid (result.1.flat flat) d.1
          a.1
          (λ off.
            AllFree-Inserted s q.1 k (slice s.config.dim rows i) ids result.1 d.0 (free off).1)
          (omega (arith, result.1.rows, result.1.max_rows))
          (rw dim (omega (arith, ap (λ m. m * s.config.dim) (count_on i (length ids)), wide))) in
      rw (done, insert_rows)
        (rw (result.0, rest)
          (
            r,
            refl,
            (
              all.0 ∙ ap ok (omega arith),
              record {
                valid = all.1.valid;
                config = all.1.config ∙ result.1.config;
                lookups = λ j.
                    all.1.lookups j
                    ∙ ap (λ n. assigned n rows (suc i) ids (lookup p q.1) j) dim
                    ∙ assigned-congr s.config.dim rows (suc i) ids _ _ result.1.lookups j;
                count = omega (arith, all.1.count, result.1.rows);
              },
            ),
          ))
