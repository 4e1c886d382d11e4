-- ===== src/Collection/Rows.antt =====
-- The rows of a store, and the lookups of a collection, through appending, removing the last row and
-- growing.
use vector_forge.Common.{
  ℕ, ◌<◌, ◌≡◌, refl, sym, ap, ◌∙◌, List, none, some, ◌==◌, if◌then◌else◌, arith, Option-cases,
  Bool-cases, inl, inr, ◌⊎◌,
}
use vector_forge.Core.Status.{ok}
use vector_forge.Search.Order.{FloatOrder}
use vector_forge.Storage.IdMap.{find}
use vector_forge.Storage.VectorStore.{VectorStore, row, row_at}
use vector_forge.Storage.VectorStore.Append.{Appended, row-ok}
use vector_forge.Storage.VectorStore.Undo.{Popped}
use vector_forge.Collection.State.{Platform, CollectionState, row_of, lookup}
use vector_forge.Collection.Invariant.{IsValid, find-lt}

pub ok_injective {ℓ} : {A : Type ℓ} (a b : A) → ok a ≡ ok b → a ≡ b
ok_injective a b h = cc

module _ {F : Type 0} (blank : F) where
  row_at-row :
      (s t : VectorStore F) (i : ℕ)
      → i < s.size
      → i < t.size
      → row blank t i ≡ row blank s i
      → row_at blank t i ≡ row_at blank s i
  row_at-row s t i h k e = ok_injective _ _ (sym (row-ok blank t i k) ∙ e ∙ row-ok blank s i h)

  module _ {s t : VectorStore F} {r : List F} {id : ℕ} (a : Appended blank s r id t) where
    pub row_at-Appended : (i : ℕ) → i < s.size → row_at blank t i ≡ row_at blank s i
    row_at-Appended i h = row_at-row s t i h (omega (arith, a.size)) (a.rows i h)

    pub row_at-new : row_at blank t s.size ≡ r
    row_at-new =
        ok_injective _ _ (sym (row-ok blank t s.size (omega (arith, a.size))) ∙ rw a.next at a.new)

  pub row_at-Popped :
      {s t : VectorStore F} (i : ℕ)
      → Popped blank s t
      → i < t.size
      → row_at blank t i ≡ row_at blank s i
  row_at-Popped {s} {t} i q h = row_at-row s t i (omega (arith, q.size)) h (q.rows i h)

module _ {F H : Type 0} (p : Platform F H) ⦃o : FloatOrder F⦄ (s t : CollectionState F H)
    (v : IsValid p s)
    (same : (i : ℕ)
      → i < s.vectors.size
      → row_at p.blank t.vectors i ≡ row_at p.blank s.vectors i) where
  -- The same mapping and the same rows.
  pub lookup-same : (j : ℕ) → find t.ids j ≡ find s.ids j → lookup p t j ≡ lookup p s j
  lookup-same j e = ap (row_of p t.vectors) e ∙ at (Option-cases (find s.ids j))
    where
      at :
          ((find s.ids j ≡ none) ⊎ ((i : ℕ) × (find s.ids j ≡ some i)))
          → row_of p t.vectors (find s.ids j) ≡ row_of p s.vectors (find s.ids j)
      at (inl none_) = rw none_ refl
      at (inr (i, there)) = rw there (ap some (same i (find-lt p s j i v there)))

  pub lookup-inserted :
      (k : ℕ) (r : List F) (j : ℕ)
      → row_at p.blank t.vectors s.vectors.size ≡ r
      → find t.ids j ≡ (if j == k then some s.vectors.size else find s.ids j)
      → lookup p t j ≡ (if j == k then some r else lookup p s j)
  lookup-inserted k r j new e = elim (Bool-cases (j == k)) [
    | inl hit ↦ rw (e, hit) (ap some new)
    | inr miss ↦ rw miss (lookup-same j (e ∙ rw miss refl))
  ]
