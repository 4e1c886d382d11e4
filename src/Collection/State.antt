-- ===== src/Collection/State.antt =====
-- src/collection/collection_state.hpp, and what a collection takes from the machine: the float
-- operations, the distance kernels, the test of a component, and the HNSW backend.
use vector_forge.Common.{ℕ, Bool, List, Option, none, some}
use vector_forge.Core.Status.{Result, Status, ok, err, fatal, ◌>>=◌, ◌>>◌, invalid_argument}
use vector_forge.Core.Types.{flat, hnsw, max_vectors_per_collection}
use vector_forge.Core.Config.{
  CollectionConfig, index_type_of, metric_of, effective_normalize, validate_collection,
}
use vector_forge.Core.VectorOps.{NormTable}
use vector_forge.Storage.IdMap
use vector_forge.Storage.IdMap.{IdMap}
use vector_forge.Storage.Tombstones
use vector_forge.Storage.Tombstones.{TombstoneSet}
use vector_forge.Storage.VectorStore
use vector_forge.Storage.VectorStore.{VectorStore, row_at}
use vector_forge.Index.Kernels.{FloatArithmetic, KernelTable}
use vector_forge.Index.Backend.{Backend, Rows, HnswTable, flat_backend, hnsw_backend}

pub record Platform (F H : Type 0) : Type 1 where
  pub blank : F
  pub arithmetic : FloatArithmetic F
  pub kernels : KernelTable F
  pub norms : NormTable F
  pub supported : F → Bool
  pub selection : Status
  pub infinity : F
  pub hnsw_table : HnswTable F H

-- The backend's references are in `Rows`, which is made when it is called.
pub record CollectionState (F H : Type 0) : Type 0 where
  pub config : CollectionConfig
  pub normalized : Bool
  pub creator : List ℕ
  pub created_unix_ms : ℕ
  pub vectors : VectorStore F
  pub ids : IdMap
  pub deleted : TombstoneSet
  pub backend : Backend H

module _ {F H : Type 0} (p : Platform F H) where
  abbrev pub rows_of : CollectionState F H → Rows F
  rows_of s = record { vectors = s.vectors; deleted = s.deleted }

  -- The backend for an empty collection. A metric that is no enumerator is refused before.
  unfoldable pub attach_backend : CollectionConfig → Bool → Rows F → Result (Backend H)
  attach_backend config normalized rows = elim (index_type_of config.index) [
    | none ↦ err invalid_argument
    | some type ↦ elim (metric_of config.metric) [
      | none ↦ fatal
      | some metric ↦ elim type [
        | flat ↦ ok (flat_backend metric normalized)
        | hnsw ↦ p.hnsw_table.create rows metric normalized config.hnsw_params >>= λ h.
            ok (hnsw_backend h)
      ]
    ]
  ]

  -- The constructor of the state, and the backend attached to it.
  unfoldable pub attached :
      CollectionConfig → List ℕ → ℕ → VectorStore F → Result (CollectionState F H)
  unfolding attach_backend
  attached config creator created vectors =
      let normalized = effective_normalize config in
      attach_backend config normalized (record { vectors = vectors; deleted = Tombstones.empty })
      >>= λ backend. ok (record {
        config = config;
        normalized = normalized;
        creator = creator;
        created_unix_ms = created;
        vectors = vectors;
        ids = IdMap.empty;
        deleted = Tombstones.empty;
        backend = backend;
      })

  -- Collection::create, for the program's name and the time.
  unfoldable pub create : CollectionConfig → List ℕ → ℕ → Result (CollectionState F H)
  unfolding attached
  create config creator now = do
    validate_collection config
    p.selection
    store ←
        VectorStore.create p.blank
          (record { dim = config.dim; rows_per_chunk = 0; max_rows = max_vectors_per_collection })
    attached config creator now store

  -- Specification: the stored vector of an external id.
  abbrev pub row_of : VectorStore F → Option ℕ → Option (List F)
  row_of vectors none = none
  row_of vectors (some internal) = some (row_at p.blank vectors internal)

  abbrev pub lookup : CollectionState F H → ℕ → Option (List F)
  lookup s id = row_of s.vectors (IdMap.find s.ids id)
