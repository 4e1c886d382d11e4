-- ===== src/Collection/Answering.antt =====
-- Collection::search: what the hits are, by external id.
use native.Mathlib.Nat.{mod-eq_of_lt}
use vector_forge.Common.{
  ℕ, zero, suc, ◌%◌, ◌^◌, ◌<◌, ◌≤◌, ◌≡◌, refl, ap, min, max, some, List, [], ◌∷◌, length, take,
  replicate, arith, length-replicate, length-take,
}
use vector_forge.Core.Status.{Result, ok, Returns}
use vector_forge.Core.Types.{Metric}
use vector_forge.Core.Config.{effective_normalize, SearchParams, validate_search}
use vector_forge.Search.Order.{FloatOrder, Scored}
use vector_forge.Storage.IdMap.{find, label}
use vector_forge.Index.Kernels.{QueryView}
use vector_forge.Index.Flat.{blank_hit}
use vector_forge.Index.Flat.Exact.{live_rows}
use vector_forge.Index.Backend
use vector_forge.Index.Backend.{Backend, SearchKnobs, AreLive, flat_over}
use vector_forge.Index.Live.{search-AreLive}
use vector_forge.Collection.State.{Platform, CollectionState, lookup, row_of, rows_of}
use vector_forge.Collection.Query.{relabel, run_query, prepare_query, knobs_for, search}
use vector_forge.Collection.Invariant.{IsValid, find-label}

module _ {F H : Type 0} (p : Platform F H) ⦃o : FloatOrder F⦄ (s : CollectionState F H)
    (v : IsValid p s) where
  -- The hits with external ids, for those with rows.
  abbrev pub Named : List (Scored F) → List (Scored F) → Type 0
  Named [] [] = Unit {0}
  Named [] (x ∷ found) = ⊥
  Named (y ∷ hits) [] = ⊥
  Named (y ∷ hits) (x ∷ found) =
      (y.distance ≡ x.distance) × (find s.ids y.id ≡ some x.id) × Named hits found

  -- Every hit is the id of a vector.
  abbrev pub AllStored : List (Scored F) → Type 0
  AllStored [] = Unit {0}
  AllStored (y ∷ hits) = ((row : List F) × (lookup p s y.id ≡ some row)) × AllStored hits

  AllStored-Named : (hits found : List (Scored F)) → Named hits found → AllStored hits
  AllStored-Named [] found n = tt
  AllStored-Named (y ∷ hits) [] n = elim n [ ]
  AllStored-Named (y ∷ hits) (x ∷ found) n =
      ((_, ap (row_of p s.vectors) n.1), AllStored-Named hits found n.2)

  relabel-Named :
      (n : ℕ) (out : List (Scored F))
      → AreLive (rows_of p s) n out
      → Returns
          (relabel s.ids n out)
          (λ hits. Named (take n hits) (take n out) × (length hits ≡ length out))
  unfolding relabel label
  relabel-Named zero out live = (out, refl, (tt, refl))
  relabel-Named (suc n) [] live = elim live [ ]
  relabel-Named (suc n) (x ∷ out) live =
      let (k, at) = v.marks.unmarked x.id live.0 live.1 in
      let narrow : x.id < 2 ^ 32 = omega (arith, live.0, v.store.limit, v.store.width) in
      let (hits, done, named) = relabel-Named n out live.2 in
      rw (mod-eq_of_lt narrow, find-label k x.id v.ids at, label, done, relabel)
        (_, refl, ((refl, at, named.0), ap suc named.1))

  -- What the backend finds for a query.
  abbrev pub finds : QueryView F → SearchKnobs → List (Scored F) → Result (ℕ × List (Scored F))
  finds view knobs out =
      Backend.search p.blank p.arithmetic p.kernels p.hnsw_table (rows_of p s) s.backend view knobs
        out

  run_query-Named :
      (view : QueryView F) (knobs : SearchKnobs) (out : List (Scored F)) (r : ℕ × List (Scored F))
      → finds view knobs out ≡ ok r
      → AreLive (rows_of p s) r.0 r.1
      → Returns
          (run_query p s view knobs out)
          (λ q. (q.0 ≡ r.0) × Named (take q.0 q.1) (take r.0 r.1))
  unfolding run_query
  run_query-Named view knobs out r found live =
      let (hits, done, named) = relabel-Named r.0 r.1 live in
      rw (found, done, run_query) (_, refl, (refl, named.0))

  module _ (query : List F) (params : SearchParams)
      (accepted : validate_search params ≡ ok tt) where
    abbrev pub knobs : SearchKnobs
    knobs = knobs_for p params s.vectors.size

    abbrev pub blank_output : List (Scored F)
    blank_output = replicate knobs.k (blank_hit p.blank p.arithmetic)

    knobs-k : (1 ≤ knobs.k) × (knobs.k ≡ min params.k (max s.vectors.size 1))
    unfolding knobs_for validate_search
    knobs-k =
        let low : 1 ≤ params.k = ground arith in
        let high : params.k ≤ 1048576 = ground arith in
        let same : min params.k (max s.vectors.size 1) % 2 ^ 32
            ≡ min params.k (max s.vectors.size 1) =
          mod-eq_of_lt (omega arith) in
        rw same (omega arith, refl)

    module _ (view : QueryView F) (prepared : prepare_query p s query ≡ ok view) where
      search-found :
          (r : ℕ × List (Scored F))
          → finds view knobs blank_output ≡ ok r
          → AreLive (rows_of p s) r.0 r.1
          → Returns (search p s query params) (λ hits. Named hits (take r.0 r.1))
      unfolding search
      search-found r found live =
          let (q, done, named) = run_query-Named view knobs blank_output r found live in
          rw (accepted, prepared, done, search) (_, refl, named.1)

      length-Named : (hits found : List (Scored F)) → Named hits found → length hits ≡ length found
      length-Named [] [] n = refl
      length-Named [] (x ∷ found) n = elim n [ ]
      length-Named (y ∷ hits) [] n = elim n [ ]
      length-Named (y ∷ hits) (x ∷ found) n = ap suc (length-Named hits found n.2)

      -- In a valid collection with either backend, for accepted parameters and an accepted query,
      -- `search` returns as many hits as asked for at most, and each is the id of a vector.
      pub search-AllStored :
          Returns (search p s query params) (λ hits. (length hits ≤ params.k) × AllStored hits)
      search-AllStored =
          let (r, found, live) =
            search-AreLive p.blank p.arithmetic p.kernels p.hnsw_table (rows_of p s) s.backend view
              knobs blank_output v.store v.marks.valid v.backend knobs-k.0
              (omega (arith, length-replicate knobs.k (blank_hit p.blank p.arithmetic))) in
          let (hits, done, named) = search-found r found live.1 in
          (
            hits,
            done,
            (
              omega (
                arith,
                length-Named hits (take r.0 r.1) named,
                length-take r.0 r.1,
                live.0,
                knobs-k.1,
              ),
              AllStored-Named hits (take r.0 r.1) named,
            ),
          )

      -- The rows that are not deleted, with their distances.
      abbrev pub live : Metric → List (Scored F)
      live metric =
          live_rows p.blank p.arithmetic
            (flat_over p.blank p.arithmetic p.kernels p.hnsw_table (rows_of p s) metric
              (effective_normalize s.config))
            view v.store
