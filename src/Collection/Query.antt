-- ===== src/Collection/Query.antt =====
-- src/collection/collection.cpp: the queries. The parts of a batch that a pool runs write to different
-- places; they are one loop here.
use vector_forge.Common.{
  ℕ, zero, suc, ◌+◌, ◌*◌, ◌%◌, ◌^◌, min, max, Bool, List, [], ◌∷◌, ◌||◌, not, ltb, length, get_or,
  set, take, drop, replicate, none, some, if◌then◌else◌,
}
use vector_forge.Core.Status.{Result, ok, err, fatal, ◌>>=◌, ◌>>◌, require, invalid_argument}
use vector_forge.Core.Types.{invalid_external_id}
use vector_forge.Core.Config.{SearchParams, validate_search}
use vector_forge.Core.CheckedMath.{checked_mul}
use vector_forge.Core.Validation.{validate_vector, validate_batch}
use vector_forge.Core.VectorOps.{inverse_norm}
use vector_forge.Search.Order.{FloatOrder, Scored}
use vector_forge.Storage.IdMap
use vector_forge.Storage.IdMap.{IdMap}
use vector_forge.Index.Kernels.{QueryView}
use vector_forge.Index.Flat.{blank_hit}
use vector_forge.Index.Backend
use vector_forge.Index.Backend.{SearchKnobs}
use vector_forge.Collection.State.{Platform, CollectionState, rows_of}

-- What a batch writes: ids, distances and the numbers of hits.
pub record BatchOutput (F : Type 0) : Type 0 where
  pub out_ids : List ℕ
  pub out_distances : List F
  pub counts : List ℕ

-- `run_query`, after the search: the ids of the first `n` hits become external ids.
unfoldable pub relabel : {F : Type 0} → IdMap → ℕ → List (Scored F) → Result (List (Scored F))
relabel ids zero out = ok out
relabel ids (suc n) [] = fatal
relabel ids (suc n) (x ∷ out) = do
  label ← IdMap.label ids (x.id % 2 ^ 32)
  rest ← relabel ids n out
  ok (record x { id = label } ∷ rest)

module _ {F H : Type 0} (p : Platform F H) where
  unfoldable pub prepare_query : CollectionState F H → List F → Result (QueryView F)
  prepare_query s query =
      validate_vector p.supported query s.config.dim
      >> (if s.normalized
          then (elim (inverse_norm p.norms query) [
            | fatal ↦ fatal
            | err e ↦ err invalid_argument
            | ok inv ↦ ok (record { vector = query; inv_norm = inv })
          ])
          else ok (record { vector = query; inv_norm = p.arithmetic.one_float }))

  -- The beam width 0 is the default of the backend.
  unfoldable pub knobs_for : SearchParams → ℕ → SearchKnobs
  knobs_for params rows = record {
    k = min params.k (max rows 1) % 2 ^ 32;
    ef = elim params.ef_search [ none ↦ 0 | some ef ↦ ef ];
  }

  module _ ⦃o : FloatOrder F⦄ where
    -- The number of hits, and the output that starts with them.
    unfoldable pub run_query :
        CollectionState F H
        → QueryView F
        → SearchKnobs
        → List (Scored F)
        → Result (ℕ × List (Scored F))
    unfolding relabel
    run_query s view knobs out = do
      (count, found) ←
          Backend.search p.blank p.arithmetic p.kernels p.hnsw_table (rows_of p s) s.backend view
            knobs out
      hits ← relabel s.ids count found
      ok (count, hits)

    unfoldable pub search : CollectionState F H → List F → SearchParams → Result (List (Scored F))
    unfolding prepare_query run_query knobs_for
    search s query params = do
      validate_search params
      view ← prepare_query s query
      let knobs = knobs_for params s.vectors.size
      (count, out) ← run_query s view knobs (replicate knobs.k (blank_hit p.blank p.arithmetic))
      ok (take count out)

    unfoldable pub search_into :
        CollectionState F H → List F → SearchParams → List (Scored F) → Result (ℕ × List (Scored F))
    unfolding prepare_query run_query knobs_for
    search_into s query params out = do
      validate_search params
      require (not (ltb (length out) params.k)) invalid_argument
      view ← prepare_query s query
      run_query s view (knobs_for params s.vectors.size) out

    -- The views of queries `i` to `i + n`.
    unfoldable pub prepare_queries :
        CollectionState F H → List F → ℕ → ℕ → Result (List (QueryView F))
    unfolding prepare_query
    prepare_queries s queries i zero = ok []
    prepare_queries s queries i (suc n) = do
      view ← prepare_query s (take s.config.dim (drop (i * s.config.dim) queries))
      rest ← prepare_queries s queries (suc i) n
      ok (view ∷ rest)

    -- The places `j` to `j + n` of a query whose places start at `base`.
    unfoldable pub write_hits : ℕ → ℕ → List (Scored F) → ℕ → ℕ → BatchOutput F → BatchOutput F
    write_hits base count scratch j zero out = out
    write_hits base count scratch j (suc n) out =
        let x = get_or scratch j (blank_hit p.blank p.arithmetic) in
        let real = ltb j count in
        write_hits base count scratch (suc j) n (record out {
          out_ids = set out.out_ids (base + j) (if real then x.id else invalid_external_id);
          out_distances =
              set out.out_distances (base + j) (if real then x.distance else p.infinity);
        })

    -- The queries from query `i` on. The scratch of a query is that of the one before.
    unfoldable pub run_range :
        CollectionState F H
        → SearchKnobs
        → ℕ
        → ℕ
        → List (QueryView F)
        → List (Scored F)
        → BatchOutput F
        → Result (BatchOutput F)
    unfolding run_query write_hits
    run_range s knobs k i [] scratch out = ok out
    run_range s knobs k i (view ∷ views) scratch out = do
      (count, found) ← run_query s view knobs scratch
      let written = write_hits (i * k) count found 0 k out
      run_range s knobs k (suc i) views found
          (record written { counts = set written.counts i (count % 2 ^ 32) })

    -- Whether the outputs have places for the results.
    unfoldable pub has_room : ℕ → ℕ → BatchOutput F → Bool
    has_room nq k out = elim (checked_mul 64 nq k) [
      | none ↦ Bool.false
      | some slots ↦ not (
          ltb (length out.out_ids) slots
          || ltb (length out.out_distances) slots
          || ltb (length out.counts) nq)
    ]

    unfoldable pub search_batch :
        CollectionState F H → List F → ℕ → SearchParams → BatchOutput F → Result (BatchOutput F)
    unfolding prepare_queries run_range has_room knobs_for
    search_batch s queries nq params out = do
      validate_search params
      validate_batch p.supported queries nq s.config.dim
      require (has_room nq params.k out) invalid_argument
      views ← prepare_queries s queries 0 nq
      let knobs = knobs_for params s.vectors.size
      run_range s knobs params.k 0 views (replicate knobs.k (blank_hit p.blank p.arithmetic)) out
