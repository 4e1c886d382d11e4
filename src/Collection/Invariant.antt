-- ===== src/Collection/Invariant.antt =====
-- The invariant of a collection: the id map, the rows and the markers describe the same vectors.
use vector_forge.Common.{
  subst, ◌≢◌, arith, ℕ, ◌+◌, ◌/◌, ◌<◌, ◌≡◌, true, false, none, some, length, ◌⊎◌, get_elem?, List,
  [], ◌∷◌, ◌++◌, ◌==◌, if◌then◌else◌, lt_of_get_elem?, Option-cases, inl, inr,
}
use vector_forge.Common.Dict
use vector_forge.Core.Config.{CollectionConfig, validate_collection, metric_of, effective_normalize}
use vector_forge.Storage.IdMap.{IdMap, find}
use vector_forge.Storage.IdMap.Idle.{IsIdle}
use vector_forge.Storage.IdMap.Invariant.{IsValid as IdsAreValid}
use vector_forge.Storage.Tombstones.{TombstoneSet, test}
use vector_forge.Storage.Tombstones.Laws.{IsValid as MarksAreValid}
use vector_forge.Storage.VectorStore.{row_at}
use vector_forge.Storage.VectorStore.Invariant.{IsValid as StoreIsValid}
use vector_forge.Core.Status.{Result, ErrorCode, fatal, ok, err, ◌>>=◌}
use vector_forge.Search.Order.{FloatOrder}
use vector_forge.Index.Kernels.{FloatArithmetic, KernelTable}
use vector_forge.Index.Flat
use vector_forge.Index.Backend
use vector_forge.Index.Backend.{
  Covers, IsFlat, Backend, Rows, HnswTable, flat_backend, hnsw_backend,
}
use vector_forge.Collection.State.{Platform, CollectionState, lookup}

-- In a valid map, the label of a key's row is the key.
pub find-label :
    {m : IdMap} (k i : ℕ) → IdsAreValid m → find m k ≡ some i → get_elem? m.labels i ≡ some k
unfolding find
find-label {m} k i valid h = elim (Option-cases (Dict.lookup k m.entries)) [
  | inl e ↦ absurd (ground arith)
  | inr (x, e) ↦ ground (arith, valid.labelled k x e)
]

-- A row's marker says whether an id maps to the row.
pub record Marks (ids : IdMap) (deleted : TombstoneSet) (rows : ℕ) : Type 0 where
  pub valid : MarksAreValid deleted
  pub room : (i : ℕ) → i < rows → i / 64 < length deleted.words
  pub stored : (i : ℕ) → test deleted i ≡ true → i < rows
  pub mapped : (k i : ℕ) → find ids k ≡ some i → test deleted i ≡ false
  pub unmarked : (i : ℕ) → i < rows → test deleted i ≡ false → (k : ℕ) × (find ids k ≡ some i)
  pub total : ids.live + deleted.count ≡ rows

-- The backend is of the kind, the metric and the normalisation that the configuration names.
abbrev pub Suits : {H : Type 0} → CollectionConfig → Backend H → Type 0
Suits config (flat_backend metric normalized) =
    (config.index ≡ 0)
    × (metric_of config.metric ≡ some metric)
    × (normalized ≡ effective_normalize config)
Suits config (hnsw_backend h) = config.index ≢ 0

hnsw_of :
    {H : Type 0} (r : Result H) (c : Backend H)
    → (r >>= λ g. ok (hnsw_backend g)) ≡ ok c
    → (g : H) × (hnsw_backend g ≡ c)
hnsw_of fatal c h = absurd (cc h)
hnsw_of (err e) c h = absurd (cc h)
hnsw_of (ok g) c h = (g, cc h)

module _ {F H : Type 0} (blank : F) ⦃o : FloatOrder F⦄ (a : FloatArithmetic F)
    (kernels : KernelTable F) (hnsw : HnswTable F H) (config : CollectionConfig) where
  pub add-Suits :
      (rows : Rows F) (b c : Backend H) (id : ℕ)
      → Backend.add blank a kernels hnsw rows b id ≡ ok c
      → Suits config b
      → Suits config c
  unfolding Backend.add Flat.add
  add-Suits rows (flat_backend metric normalized) c id done f =
      let same : c ≡ flat_backend metric normalized = ground arith in rw same f
  add-Suits rows (hnsw_backend h) c id done f =
      let (g, same) = hnsw_of (hnsw.add rows h id) c done in subst (Suits config) same f

  pub remove-Suits :
      (b : Backend H) (id : ℕ)
      → Suits config b
      → Suits config (Backend.remove blank a kernels hnsw b id)
  unfolding Backend.remove
  remove-Suits (flat_backend metric normalized) id f = f
  remove-Suits (hnsw_backend h) id f = f

module _ {F H : Type 0} (p : Platform F H) ⦃o : FloatOrder F⦄ where
  pub record IsValid (s : CollectionState F H) : Type 0 where
    pub accepted : validate_collection s.config ≡ ok tt
    pub store : StoreIsValid p.blank s.vectors
    pub dim : s.vectors.dim ≡ s.config.dim
    pub widths : (i : ℕ) → i < s.vectors.size → length (row_at p.blank s.vectors i) ≡ s.config.dim
    pub ids : IdsAreValid s.ids
    pub idle : IsIdle s.ids
    pub labels : length s.ids.labels ≡ s.vectors.size
    pub marks : Marks s.ids s.deleted s.vectors.size
    pub backend : Covers p.blank p.arithmetic p.kernels p.hnsw_table s.backend s.vectors.size
    pub suits : Suits s.config s.backend
    pub normalized : s.normalized ≡ effective_normalize s.config

  -- An id that is mapped has a row.
  pub find-lt :
      (s : CollectionState F H) (k i : ℕ) → IsValid s → find s.ids k ≡ some i → i < s.vectors.size
  find-lt s k i v h =
      omega (arith, v.labels, lt_of_get_elem? s.ids.labels i (find-label k i v.ids h))

  -- Two collections that no query tells apart by an id.
  pub record SameContent (s t : CollectionState F H) : Type 0 where
    pub valid : IsValid t
    pub config : t.config ≡ s.config
    pub lookups : (j : ℕ) → lookup p t j ≡ lookup p s j
    pub live : t.ids.live ≡ s.ids.live
    pub rows : t.vectors.size ≡ s.vectors.size
    pub max_rows : t.vectors.max_rows ≡ s.vectors.max_rows
    pub tests : (i : ℕ) → test t.deleted i ≡ test s.deleted i
    pub flat : IsFlat s.backend → IsFlat t.backend

  -- The id has the row, every other id what it had.
  pub record Inserted (s : CollectionState F H) (k : ℕ) (row : List F) (t : CollectionState F H)
      : Type 0 where
    pub valid : IsValid t
    pub config : t.config ≡ s.config
    pub lookups : (j : ℕ) → lookup p t j ≡ (if j == k then some row else lookup p s j)
    pub rows : t.vectors.size ≡ s.vectors.size + 1
    pub max_rows : t.vectors.max_rows ≡ s.vectors.max_rows
    pub labels : t.ids.labels ≡ s.ids.labels ++ k ∷ []
    pub flat : IsFlat s.backend → IsFlat t.backend
    pub live_new : find s.ids k ≡ none → t.ids.live ≡ s.ids.live + 1

  -- Nothing is returned and the row is stored, or an error is and all is as before.
  abbrev pub Stores :
      CollectionState F H → ℕ → List F → Result (Unit {0}) × CollectionState F H → Type 0
  Stores s k row q =
      ((q.0 ≡ ok tt) × Inserted s k row q.1) ⊎ ((e : ErrorCode) × (q.0 ≡ err e) × SameContent s q.1)

  -- The id has no vector, every other id what it had, and no row goes.
  pub record Removed (s : CollectionState F H) (k : ℕ) (t : CollectionState F H) : Type 0 where
    pub valid : IsValid t
    pub config : t.config ≡ s.config
    pub lookups : (j : ℕ) → lookup p t j ≡ (if j == k then none else lookup p s j)
    pub live : t.ids.live + 1 ≡ s.ids.live
    pub rows : t.vectors ≡ s.vectors
