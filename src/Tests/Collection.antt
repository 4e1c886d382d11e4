-- ===== src/Tests/Collection.antt =====
-- A collection with numbers in place of floats.
use vector_forge.Common.{
  ℕ, ◌≢◌, get_or, ◌^◌, zero, suc, ◌+◌, ◌*◌, ◌<◌, ◌≤◌, ◌≡◌, ◌↔◌, refl, sym, ap, ◌∙◌, true, false,
  none, some, List, ◌⊎◌, [], ◌∷◌, arith, if◌then◌else◌, ◌==◌, inr, length,
}
use vector_forge.Common.Bits.{popcount}
use vector_forge.Common.Dict
use vector_forge.Core.Status.{ErrorCode, not_found, ◌>>=◌, Result, ok, err, Returns}
use vector_forge.Core.Types.{l2, invalid_external_id}
use vector_forge.Core.Config.{
  metric_of, effective_normalize, CollectionConfig, SearchParams, default_hnsw, validate_collection,
  validate_search,
}
use vector_forge.Core.Validation.{validate_vector}
use vector_forge.Storage.IdMap.{IdMap, find}
use vector_forge.Storage.IdMap.Invariant.{IsValid as IdsAreValid}
use vector_forge.Storage.IdMap.Idle.{IsIdle}
use vector_forge.Storage.Tombstones.{any, TombstoneSet, test, set, total}
use vector_forge.Storage.Tombstones.Laws.{set-Marked, IsValid as MarksAreValid}
use vector_forge.Storage.Tombstones.Empty.{test-none}
use vector_forge.Storage.VectorStore.{row_at, memory}
use vector_forge.Index.Kernels.{QueryView}
use vector_forge.Index.Backend.{HnswTable, flat_backend}
use vector_forge.Collection.State.{Platform, CollectionState, create, lookup}
use vector_forge.Collection.Invariant.{IsValid, Marks, Stores, Removed}
use vector_forge.Collection.Insert.{add, prepare_row}
use vector_forge.Collection.Edit.{remove, compact}
use vector_forge.Collection.Query.{prepare_query, search}
use vector_forge.Collection.Keys.{check_keys, Distinct, Absent}
use vector_forge.Collection.Keys.Sorting.{check_keys_iff}
use vector_forge.Collection.Batch.{add_batch}
use vector_forge.Collection.Adding.{expected_insert, add-Stores, add_status}
use vector_forge.Collection.Removing.{remove-Removes}
use vector_forge.Collection.Creating.{Tries, Empty, create-Empty}
use vector_forge.Collection.Compacting.{Compacted, compact-Compacted}
use vector_forge.Collection.Commands.{
  Command, put, drop_id, fetch, shrink, Vectors, perform_all, AllowsAll, Refines,
  perform_all-Refines,
}
use vector_forge.Collection.Answering.{live, AllStored, search-AllStored}
use vector_forge.Collection.Admission.{WholeBatch, batch_status, add_batch-WholeBatch}
use vector_forge.Collection.Rows.{ok_injective}
use vector_forge.Tests.Search.{
  nat_order, nat_arithmetic, nat_kernels, three_rows, three_rows-IsValid, second_row,
  second_row-IsValid,
}

-- A graph that counts its nodes and finds nothing.
abbrev blind_graph : HnswTable ℕ ℕ
blind_graph = record {
  create = λ rows metric normalized params. ok 0;
  add = λ rows h id. ok (h + 1);
  remove = λ h id. h;
  search = λ rows h q knobs out. ok (0, out);
  IsValid = λ h. Unit {0};
  nodes = λ h. h;
  created = λ rows metric normalized params. inr (0, refl, (tt, refl));
  added = λ rows h id v e last. inr (h + 1, refl, (tt, ap (λ n. n + 1) e));
  removed = λ h id v. (tt, refl);
  searched = λ rows h q knobs out v e low high. ((0, out), refl, (omega arith, tt));
}

abbrev pub nat_platform : Platform ℕ ℕ
nat_platform = record {
  blank = 0;
  arithmetic = nat_arithmetic;
  kernels = nat_kernels;
  norms = record {
    norm2 = λ x. length x;
    positive = λ x. true;
    finite = λ x. true;
    inverse_root = λ x. 1;
    scale = λ x f. x * f;
    metric_distance = λ m a b. 0;
    cosine_distance = λ x y a b. 0;
  };
  supported = λ x. true;
  selection = ok tt;
  infinity = 0;
  hnsw_table = blind_graph;
}

abbrev pub flat_config : CollectionConfig
flat_config = record {
  dim = 1;
  metric = 0;
  normalize = false;
  index = 0;
  hnsw_params = default_hnsw;
  concurrency = 0;
}

pub flat_config-ok : validate_collection flat_config ≡ ok tt
unfolding validate_collection
flat_config-ok = refl

-- Rows 0 and 2 are the vectors 10 and 12; row 1 is deleted.
abbrev pub two_ids : IdMap
two_ids = record {
  entries =
      (10, record { current = 0; pending = false })
      ∷ (12, record { current = 2; pending = false })
      ∷ [];
  labels = 10 ∷ 11 ∷ 12 ∷ [];
  live = 2;
}

two_ids-IsValid : IdsAreValid two_ids
unfolding Dict.occurrences Dict.count Dict.lookup
two_ids-IsValid = record {
  single = λ k. ground arith;
  bounded = omega arith;
  counted = refl;
  labelled = λ k e h ne. ground arith;
  new_is_pending = λ k e h p. ground arith;
  no_reserved_key = refl;
}

two_ids-IsIdle : IsIdle two_ids
unfolding Dict.lookup
two_ids-IsIdle k e h = ground arith

abbrev clear_word : TombstoneSet
clear_word = record { words = 0 ∷ []; count = 0 }

clear_word-narrow : (i : ℕ) → get_or (0 ∷ []) i 0 < 2 ^ 64
clear_word-narrow zero = omega arith
clear_word-narrow (suc i) = omega arith

clear_word-IsValid : MarksAreValid clear_word
unfolding total popcount
clear_word-IsValid = record { narrow = clear_word-narrow; counted = refl }

set-second_row : set clear_word 1 ≡ ok (true, second_row)
unfolding set
set-second_row = refl

test-second_row : (i : ℕ) → test second_row i ≡ (if i == 1 then true else false)
unfolding any
test-second_row i =
    let (r, done, m) = set-Marked {s = clear_word} 1 clear_word-IsValid (omega arith) in
    ap (λ q. test q.1 i) (ok_injective _ _ (sym set-second_row ∙ done))
    ∙ m.tests i
    ∙ ap (λ b. if i == 1 then true else b) (test-none clear_word i clear_word-IsValid refl)

-- The rows that are not deleted have ids.
two_ids-unmarked : (i : ℕ) → i < 3 → test second_row i ≡ false → (k : ℕ) × (find two_ids k ≡ some i)
unfolding find Dict.lookup
two_ids-unmarked zero h t = (10, refl)
two_ids-unmarked (suc zero) h t = absurd (ground (arith, test-second_row 1))
two_ids-unmarked (suc (suc zero)) h t = (12, refl)
two_ids-unmarked (suc (suc (suc i))) h t = absurd (omega arith)

two_ids-Marks : Marks two_ids second_row 3
unfolding find Dict.lookup
two_ids-Marks = record {
  valid = second_row-IsValid;
  room = λ i h. omega arith;
  stored = λ i h. ground (arith, test-second_row i);
  mapped = λ k i h. ground (arith, test-second_row i);
  unmarked = two_ids-unmarked;
  total = refl;
}

abbrev pub two_vectors : CollectionState ℕ ℕ
two_vectors = record {
  config = flat_config;
  normalized = false;
  creator = [];
  created_unix_ms = 0;
  vectors = three_rows;
  ids = two_ids;
  deleted = second_row;
  backend = flat_backend l2 false;
}

three_rows-widths : (i : ℕ) → i < 3 → length (row_at 0 three_rows i) ≡ 1
unfolding row_at memory
three_rows-widths zero h = refl
three_rows-widths (suc zero) h = refl
three_rows-widths (suc (suc zero)) h = refl
three_rows-widths (suc (suc (suc i))) h = absurd (omega arith)

pub two_vectors-IsValid : IsValid nat_platform ⦃o = nat_order⦄ two_vectors
unfolding metric_of effective_normalize
two_vectors-IsValid = record {
  accepted = flat_config-ok;
  store = three_rows-IsValid;
  dim = refl;
  widths = three_rows-widths;
  ids = two_ids-IsValid;
  idle = two_ids-IsIdle;
  labels = refl;
  marks = two_ids-Marks;
  backend = tt;
  suits = (refl, refl, refl);
  normalized = refl;
}

create-Empty_example :
    Tries flat_config
      (create nat_platform flat_config [] 5)
      (λ t. Empty nat_platform ⦃o = nat_order⦄ flat_config t)
create-Empty_example =
    create-Empty nat_platform ⦃o = nat_order⦄ flat_config [] 5 flat_config-ok refl

-- The outcome of `add` for the vector 9.
abbrev NineStores : ℕ → Result (Unit {0}) × CollectionState ℕ ℕ → Type 0
NineStores k q =
    ((row : List ℕ) × (prepare_row nat_platform ⦃o = nat_order⦄ two_vectors (9 ∷ []) ≡ ok row)
      × Stores nat_platform ⦃o = nat_order⦄ two_vectors k row q)
    ⊎ ((e : ErrorCode) × (prepare_row nat_platform ⦃o = nat_order⦄ two_vectors (9 ∷ []) ≡ err e)
        × (q ≡ (err e, two_vectors)))

add-Stores_example :
    Returns (add nat_platform ⦃o = nat_order⦄ two_vectors 10 (9 ∷ []) true) (NineStores 10)
add-Stores_example =
    add-Stores nat_platform ⦃o = nat_order⦄ two_vectors two_vectors-IsValid 10 true (9 ∷ [])

add_status_example : Returns (add nat_platform ⦃o = nat_order⦄ two_vectors 11 (9 ∷ []) false) (λ q.
    q.0 ≡ (
      prepare_row nat_platform ⦃o = nat_order⦄ two_vectors (9 ∷ []) >>= λ row.
      expected_insert nat_platform ⦃o = nat_order⦄ two_vectors 11 false))
add_status_example =
    add_status nat_platform ⦃o = nat_order⦄ two_vectors two_vectors-IsValid 11 false (9 ∷ []) tt

remove-Removes_example : Returns (remove nat_platform ⦃o = nat_order⦄ two_vectors 12) (λ q.
    ((lookup nat_platform two_vectors 12 ≡ none) × (q ≡ (err not_found, two_vectors)))
    ⊎ ((row : List ℕ) × (lookup nat_platform two_vectors 12 ≡ some row)
        × (q.0 ≡ ok tt)
        × Removed nat_platform ⦃o = nat_order⦄ two_vectors 12 q.1))
remove-Removes_example =
    remove-Removes nat_platform ⦃o = nat_order⦄ two_vectors two_vectors-IsValid 12

compact-Compacted_example : Returns (compact nat_platform ⦃o = nat_order⦄ two_vectors) (λ q.
    ((second_row.count ≡ 0)
      × (q.1 ≡ two_vectors)
      × (q.0 ≡ ok (record { rows_before = 3; removed_rows = 0; rows_after = 3 })))
    ⊎ ((e : ErrorCode) × (q ≡ (err e, two_vectors)) × (flat_config.index ≢ 0))
    ⊎ ((q.0 ≡ ok (record { rows_before = 3; removed_rows = 1; rows_after = q.1.vectors.size }))
        × Compacted nat_platform ⦃o = nat_order⦄ two_vectors two_vectors-IsValid q.1))
compact-Compacted_example =
    compact-Compacted nat_platform ⦃o = nat_order⦄ two_vectors two_vectors-IsValid

abbrev two_nearest : SearchParams
two_nearest = record { k = 2; ef_search = none }

two_nearest-ok : validate_search two_nearest ≡ ok tt
unfolding validate_search
two_nearest-ok = refl

abbrev query : QueryView ℕ
query = record { vector = 3 ∷ []; inv_norm = 1 }

prepare-query : prepare_query nat_platform two_vectors (3 ∷ []) ≡ ok query
unfolding prepare_query validate_vector
prepare-query = refl

search-AllStored_example :
    Returns (search nat_platform ⦃o = nat_order⦄ two_vectors (3 ∷ []) two_nearest) (λ hits.
      (length hits ≤ 2)
      × AllStored nat_platform ⦃o = nat_order⦄ two_vectors two_vectors-IsValid hits)
search-AllStored_example =
    search-AllStored nat_platform ⦃o = nat_order⦄ two_vectors two_vectors-IsValid (3 ∷ [])
      two_nearest two_nearest-ok query prepare-query

check_keys_iff_example :
    (check_keys (4 ∷ 9 ∷ []) ≡ ok tt)
    ↔ (Distinct (4 ∷ 9 ∷ []) × Absent invalid_external_id (4 ∷ 9 ∷ []))
check_keys_iff_example = check_keys_iff 4 (9 ∷ []) (omega arith, (omega arith, tt))

add_batch-WholeBatch_example :
    Returns
      (add_batch nat_platform ⦃o = nat_order⦄
        (λ t ids rows u. ok (ok 0, t))
        two_vectors
        (20 ∷ 10 ∷ [])
        (8 ∷ 9 ∷ [])
        true)
      (λ q.
        (q.0
          ≡ batch_status nat_platform ⦃o = nat_order⦄ two_vectors two_vectors-IsValid
              (20 ∷ 10 ∷ [])
              (8 ∷ 9 ∷ [])
              true)
        × WholeBatch nat_platform ⦃o = nat_order⦄ two_vectors two_vectors-IsValid
            (20 ∷ 10 ∷ [])
            (8 ∷ 9 ∷ [])
            q)
add_batch-WholeBatch_example =
    add_batch-WholeBatch nat_platform ⦃o = nat_order⦄ two_vectors two_vectors-IsValid
      (λ t ids rows u. ok (ok 0, t)) 20 (10 ∷ []) (8 ∷ 9 ∷ []) true tt refl
      (omega arith, (omega arith, tt)) (omega arith)

-- An upsert, a removal, a compaction and a lookup.
abbrev four_calls : List (Command ℕ)
four_calls = put 10 (9 ∷ []) true ∷ drop_id 12 ∷ shrink ∷ fetch 10 ∷ []

perform_all-Refines_example :
    Returns (perform_all nat_platform ⦃o = nat_order⦄ four_calls two_vectors) (λ q.
      (n : Vectors ℕ) × AllowsAll nat_platform ⦃o = nat_order⦄ two_vectors
        (lookup nat_platform two_vectors)
        four_calls
        q.0
        n
      × Refines nat_platform ⦃o = nat_order⦄ two_vectors n q.1)
perform_all-Refines_example =
    perform_all-Refines nat_platform ⦃o = nat_order⦄ two_vectors four_calls two_vectors-IsValid
