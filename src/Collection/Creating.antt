-- ===== src/Collection/Creating.antt =====
-- Collection::create, and the empty collection that `compact` fills.
use vector_forge.Common.{
  ℕ, ◌≢◌, ◌⊎◌, ◌<◌, ◌≤◌, ◌^◌, ◌≡◌, refl, sym, ap, ◌∙◌, Bool, false, Option, none, some, List, [],
  arith, inl, inr, Option-cases,
}
use vector_forge.Common.Dict
use vector_forge.Core.Status.{ErrorCode, Result, ok, err, ◌>>=◌}
use vector_forge.Core.Types.{Metric, IndexType, flat, hnsw, max_vectors_per_collection}
use vector_forge.Core.Config.{
  CollectionConfig, IsConfig, validate_collection, validate_collection_iff, metric_of,
  index_type_of, effective_normalize,
}
use vector_forge.Search.Order.{FloatOrder}
use vector_forge.Storage.IdMap
use vector_forge.Storage.IdMap.{find}
use vector_forge.Storage.IdMap.Invariant.{empty-IsValid}
use vector_forge.Storage.IdMap.Idle.{empty-IsIdle}
use vector_forge.Storage.Tombstones
use vector_forge.Storage.Tombstones.{TombstoneSet, test, any, total}
use vector_forge.Storage.Tombstones.Empty.{test-none}
use vector_forge.Storage.Tombstones.Laws.{ensure_size-Grown}
use vector_forge.Storage.Tombstones.Laws.{IsValid as MarksAreValid}
use vector_forge.Storage.VectorStore.{VectorStore, Options}
use vector_forge.Storage.VectorStore.Append.{reserve-Extends}
use vector_forge.Storage.VectorStore.Grow.{Extends}
use vector_forge.Storage.VectorStore.Create.{IsAcceptable, Created, create-Created}
use vector_forge.Index.Backend.{IsFlat, Backend, Rows, Covers, flat_backend, hnsw_backend}
use vector_forge.Collection.State.{
  Platform, CollectionState, attach_backend, attached, create, lookup, row_of,
}
use vector_forge.Collection.Edit.{fresh_copy}
use vector_forge.Collection.Invariant.{Suits, IsValid, Marks}
use vector_forge.Collection.Marks.{Grown-Marks}

abbrev store_options : ℕ → Options
store_options dim = record { dim = dim; rows_per_chunk = 0; max_rows = max_vectors_per_collection }

store_options-IsAcceptable : (dim : ℕ) → 1 ≤ dim → dim ≤ 65536 → IsAcceptable (store_options dim)
store_options-IsAcceptable dim low high = record {
  dim_low = low;
  dim_high = high;
  rows_low = omega arith;
  rows_high = omega arith;
  exponent = 0;
  power = λ ne. absurd (ne refl);
  small = omega arith;
  chunk = λ ne. absurd (ne refl);
}

no_marks : MarksAreValid Tombstones.empty
unfolding total
no_marks = record { narrow = λ i. omega arith; counted = refl }

test-empty : (i : ℕ) → test Tombstones.empty i ≡ false
unfolding any
test-empty i = test-none Tombstones.empty i no_marks refl

find-empty : (k : ℕ) → find IdMap.empty k ≡ none
unfolding find Dict.lookup
find-empty k = refl

no_rows : Marks IdMap.empty Tombstones.empty 0
no_rows = record {
  valid = no_marks;
  room = λ i h. absurd (omega arith);
  stored = λ i h. absurd (cc (test-empty i));
  mapped = λ k i h. absurd (cc (find-empty k));
  unmarked = λ i h. absurd (omega arith);
  total = omega arith;
}

-- The call returns a result that satisfies `P`, or an error, which a flat collection does not give.
abbrev pub Tries : {A : Type 0} → CollectionConfig → Result A → (A → Type 0) → Type 0
Tries {A} config call P =
    ((e : ErrorCode) × (call ≡ err e) × (config.index ≢ 0)) ⊎ ((x : A) × (call ≡ ok x) × P x)

pub Tries->>= :
    {A B : Type 0} {P : A → Type 0} {Q : B → Type 0} (config : CollectionConfig) (m : Result A)
    (f : A → Result B)
    → Tries config m P
    → ((x : A) → P x → Tries config (f x) Q)
    → Tries config (m >>= f) Q
Tries->>= config m f (inl (e, fails, why)) k = rw fails (inl (e, refl, why))
Tries->>= config m f (inr (x, done, holds)) k = rw done (k x holds)

hnsw_not_flat : (n : ℕ) → index_type_of n ≡ some hnsw → n ≢ 0
unfolding index_type_of
hnsw_not_flat n h e = absurd (ground arith)

flat_index : (n : ℕ) → index_type_of n ≡ some flat → n ≡ 0
unfolding index_type_of
flat_index n h = ground arith

-- An accepted configuration names a metric and an index.
metric_of-IsConfig :
    (c : CollectionConfig) → IsConfig c → (m : Metric) × (metric_of c.metric ≡ some m)
unfolding metric_of
metric_of-IsConfig c v = elim (Option-cases (metric_of c.metric)) [
  | inl e ↦ absurd (ground (arith, v.metric))
  | inr found ↦ found
]

index_type_of-IsConfig :
    (c : CollectionConfig) → IsConfig c → (t : IndexType) × (index_type_of c.index ≡ some t)
unfolding index_type_of
index_type_of-IsConfig c v = elim (Option-cases (index_type_of c.index)) [
  | inl e ↦ absurd (ground (arith, v.index))
  | inr found ↦ found
]

module _ {F H : Type 0} (p : Platform F H) ⦃o : FloatOrder F⦄ where
  -- A collection without vectors.
  pub record Empty (config : CollectionConfig) (t : CollectionState F H) : Type 0 where
    pub valid : IsValid p t
    pub config_t : t.config ≡ config
    pub lookups : (j : ℕ) → lookup p t j ≡ none
    pub rows : t.vectors.size ≡ 0
    pub max_rows : t.vectors.max_rows ≡ max_vectors_per_collection
    pub labels : t.ids.labels ≡ []
    pub live : t.ids.live ≡ 0
    pub flat : config.index ≡ 0 → IsFlat t.backend

  abbrev Fits : Backend H → ℕ → Type 0
  Fits = Covers p.blank p.arithmetic p.kernels p.hnsw_table

  attach_backend-Tries :
      (config : CollectionConfig) (normalized : Bool) (rows : Rows F)
      → IsConfig config
      → normalized ≡ effective_normalize config
      → Tries config
          (attach_backend p config normalized rows)
          (λ b. Fits b 0 × (config.index ≡ 0 → IsFlat b) × Suits config b)
  unfolding attach_backend
  attach_backend-Tries config normalized rows v unit =
      let (metric, m) = metric_of-IsConfig config v in
      let (type, t) = index_type_of-IsConfig config v in
      rw (t, m, attach_backend) (by_type type metric t m)
    where
      by_type :
          (type : IndexType) (metric : Metric)
          → index_type_of config.index ≡ some type
          → metric_of config.metric ≡ some metric
          → Tries config
              (elim type [
                | flat ↦ ok (flat_backend metric normalized)
                | hnsw ↦ p.hnsw_table.create rows metric normalized config.hnsw_params >>= λ h.
                    ok (hnsw_backend h)
              ])
              (λ b. Fits b 0 × (config.index ≡ 0 → IsFlat b) × Suits config b)
      by_type flat metric t m = inr (
        flat_backend metric normalized,
        refl,
        (tt, (λ e. tt), (flat_index config.index t, m, unit)),
      )
      by_type hnsw metric t m =
          let other = hnsw_not_flat config.index t in
          elim (p.hnsw_table.created rows metric normalized config.hnsw_params) [
            | inl (e, fails) ↦ inl (e, ap (λ r. r >>= λ h. ok (hnsw_backend h)) fails, other)
            | inr (h, done, holds) ↦ inr (
              hnsw_backend h,
              ap (λ r. r >>= λ h. ok (hnsw_backend h)) done,
              (holds, (λ e. absurd (other e)), other),
            )
          ]

  attached-Empty :
      (config : CollectionConfig) (creator : List ℕ) (time : ℕ) (store : VectorStore F)
      → validate_collection config ≡ ok tt
      → Created p.blank (store_options config.dim) store
      → Tries config (attached p config creator time store) (λ t. Empty config t)
  unfolding attached
  attached-Empty config creator time store accepted c =
      Tries->>= config (attach_backend p config _ _) _
        (attach_backend-Tries config (effective_normalize config) _
          ((validate_collection_iff config).0 accepted) refl)
        λ backend (covers, is_flat, suits). inr (
          _,
          refl,
          record {
            valid = record {
              accepted = accepted;
              store = c.valid;
              dim = c.dim;
              widths = λ i h. absurd (omega (arith, c.size));
              ids = empty-IsValid;
              idle = empty-IsIdle;
              labels = sym c.size;
              marks = rw c.size no_rows;
              backend = rw c.size covers;
              suits = suits;
              normalized = refl;
            };
            config_t = refl;
            lookups = λ j. rw (find-empty j) refl;
            rows = c.size;
            max_rows = c.max_rows;
            labels = refl;
            live = refl;
            flat = is_flat;
          },
        )

  -- For an accepted configuration on a machine with kernels, `create` returns a valid collection of
  -- that configuration without vectors, or an error, for another index than flat alone.
  pub create-Empty :
      (config : CollectionConfig) (creator : List ℕ) (now : ℕ)
      → validate_collection config ≡ ok tt
      → p.selection ≡ ok tt
      → Tries config (create p config creator now) (λ t. Empty config t)
  unfolding create
  create-Empty config creator now accepted selected =
      let v = (validate_collection_iff config).0 accepted in
      let (store, done, c) =
        create-Created p.blank (store_options config.dim)
          (store_options-IsAcceptable config.dim v.dim_low v.dim_high) in
      simp (accepted, selected, done) (attached-Empty config creator now store accepted c)

  row_of-none : (w : VectorStore F) (f : Option ℕ) → row_of p w f ≡ none → f ≡ none
  row_of-none w none h = refl
  row_of-none w (some i) h = cc

  -- An id without a vector is not mapped.
  pub find-of_lookup : (s : CollectionState F H) (k : ℕ) → lookup p s k ≡ none → find s.ids k ≡ none
  find-of_lookup s k h = row_of-none s.vectors (find s.ids k) h

  -- The room that `compact` makes before it copies.
  abbrev roomy : CollectionState F H → VectorStore F → ℕ → CollectionState F H
  roomy t vectors rows = record t {
    vectors = vectors;
    deleted = Tombstones.ensure_size t.deleted rows;
  }

  roomy-Empty :
      {config : CollectionConfig} (t : CollectionState F H) (w : VectorStore F) (rows : ℕ)
      → Empty config t
      → Extends p.blank t.vectors w
      → rows ≤ 2 ^ 32
      → Empty config (roomy t w rows)
  roomy-Empty t w rows e more small = record {
    valid = record {
      accepted = e.valid.accepted;
      store = more.valid;
      dim = more.dim ∙ e.valid.dim;
      widths = λ i h. absurd (omega (arith, more.size, e.rows));
      ids = e.valid.ids;
      idle = e.valid.idle;
      labels = e.valid.labels ∙ sym more.size;
      marks =
          rw more.size
            (Grown-Marks e.valid.marks (ensure_size-Grown rows e.valid.marks.valid small));
      backend = rw more.size e.valid.backend;
      suits = e.valid.suits;
      normalized = e.valid.normalized;
    };
    config_t = e.config_t;
    lookups = λ j. ap (row_of p w) (find-of_lookup t j (e.lookups j));
    rows = more.size ∙ e.rows;
    max_rows = more.max_rows ∙ e.max_rows;
    labels = e.labels;
    live = e.live;
    flat = e.flat;
  }

  pub fresh_copy-Empty :
      (s : CollectionState F H)
      → IsValid p s
      → Tries s.config (fresh_copy p s) (λ t. Empty s.config t)
  unfolding fresh_copy IdMap.size
  fresh_copy-Empty s v =
      let c = (validate_collection_iff s.config).0 v.accepted in
      let (store, done, created) =
        create-Created p.blank (store_options s.config.dim)
          (store_options-IsAcceptable s.config.dim c.dim_low c.dim_high) in
      let few : s.ids.live < 2 ^ 32 = omega (arith, v.marks.total, v.store.limit, v.store.width) in
      rw (done, fresh_copy)
        (Tries->>= s.config (attached p s.config s.creator s.created_unix_ms store) _
          (attached-Empty s.config s.creator s.created_unix_ms store v.accepted created)
          λ t e.
            let (w, reserved, more) =
              reserve-Extends p.blank t.vectors s.ids.live e.valid.store
                (omega (arith, e.max_rows, few)) in
            rw (reserved, fresh_copy)
              (inr (_, refl, roomy-Empty t w s.ids.live e more.0 (omega (arith, few)))))
