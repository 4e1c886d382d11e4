-- ===== src/Tests/Others.antt =====
-- Configurations, overflow checks and the lock at concrete inputs.
use vector_forge.Common.{
  ◌*◌, max, ◌-◌, ◌≤◌, ◌≡◌, ◌↔◌, ◌⊎◌, refl, true, false, List, [], ◌∷◌, some, arith,
}
use vector_forge.Core.Status.{ok}
use vector_forge.Core.Config.{
  max_links-bounds, max_links_level0, max_links_upper, CollectionConfig, default_hnsw,
  validate_collection, IsConfig, validate_collection_iff,
}
use vector_forge.Concurrency.Ranges.{chunk_count, run_ranges}
use vector_forge.Concurrency.Ranges.Cover.{indices, upto, run_ranges-Cover}
use vector_forge.Concurrency.FairMutex.{
  Mutex, Event, unlocked, reader_arrives, reader_enters, reader_leaves, writer_arrives,
  writer_enters, writer_leaves, step, run,
}
use vector_forge.Concurrency.FairMutex.Counts.{tally, arriving_reader}
use vector_forge.Concurrency.FairMutex.Exclusion.{Exclusive, run-Exclusive}
use vector_forge.Concurrency.FairMutex.Safety.{
  run_progress, readers_entered, writer_entered, readers_entered-le, waiting_readers-le,
}

abbrev hnsw_config : CollectionConfig
hnsw_config = record {
  dim = 128;
  metric = 0;
  normalize = false;
  index = 1;
  hnsw_params = default_hnsw;
  concurrency = 1;
}

validate_collection_iff_example : (validate_collection hnsw_config ≡ ok tt) ↔ IsConfig hnsw_config
validate_collection_iff_example = validate_collection_iff hnsw_config

hnsw_config-ok : validate_collection hnsw_config ≡ ok tt
unfolding validate_collection
hnsw_config-ok = refl

max_links-bounds_example :
    (max_links_level0 default_hnsw ≡ 2 * max_links_upper default_hnsw)
    × (max_links_level0 default_hnsw ≤ 1024)
    × (2 ≤ max_links_upper default_hnsw)
max_links-bounds_example = max_links-bounds hnsw_config refl hnsw_config-ok

-- A writer holds the lock, while two readers and another writer wait.
abbrev held : Mutex
held = record {
  active_readers = 0;
  waiting_readers = 2;
  waiting_writers = 1;
  reader_quota = 0;
  writer_active = true;
}

run-held :
    run
      (writer_arrives ∷ writer_enters ∷ reader_arrives ∷ reader_arrives ∷ writer_arrives ∷ [])
      unlocked
    ≡ some held
unfolding run
run-held = refl

run-Exclusive_example :
    Exclusive
      (writer_arrives ∷ writer_enters ∷ reader_arrives ∷ reader_arrives ∷ writer_arrives ∷ [])
      held
run-Exclusive_example =
    run-Exclusive
      (writer_arrives ∷ writer_enters ∷ reader_arrives ∷ reader_arrives ∷ writer_arrives ∷ []) held
      run-held

-- After the writer has left, the readers may enter.
abbrev released : Mutex
released = record {
  active_readers = 0;
  waiting_readers = 2;
  waiting_writers = 1;
  reader_quota = 2;
  writer_active = false;
}

run-released :
    run
      (writer_arrives ∷ writer_enters ∷ reader_arrives ∷ reader_arrives ∷ writer_arrives
        ∷ writer_leaves ∷ [])
      unlocked
    ≡ some released
unfolding run
run-released = refl

run_progress_example :
    ((n : Mutex) × (step reader_enters released ≡ some n))
    ⊎ ((n : Mutex) × (step writer_enters released ≡ some n))
run_progress_example =
    run_progress
      (writer_arrives ∷ writer_enters ∷ reader_arrives ∷ reader_arrives ∷ writer_arrives
        ∷ writer_leaves ∷ [])
      released run-released refl refl (omega arith)

-- The readers are through, and the writer that waits is next.
abbrev spent : Mutex
spent = record {
  active_readers = 0;
  waiting_readers = 0;
  waiting_writers = 1;
  reader_quota = 0;
  writer_active = false;
}

abbrev readers_pass : List Event
readers_pass = reader_enters ∷ reader_enters ∷ reader_leaves ∷ reader_leaves ∷ []

run-readers_pass : run readers_pass released ≡ some spent
unfolding run
run-readers_pass = refl

no_writer : writer_entered readers_pass ≡ false
unfolding writer_entered
no_writer = refl

readers_entered-le_example : readers_entered readers_pass ≤ 2
readers_entered-le_example =
    readers_entered-le readers_pass released spent refl (omega arith) no_writer run-readers_pass

held-released : step writer_leaves held ≡ some released
unfolding step
held-released = refl

abbrev held_again : Mutex
held_again = record {
  active_readers = 0;
  waiting_readers = 0;
  waiting_writers = 0;
  reader_quota = 0;
  writer_active = true;
}

-- A reader that arrives after the writer has left may take the place of one that was waiting: two
-- enter, and one still waits when the next writer has the lock.
abbrev late_reader : List Event
late_reader = reader_arrives ∷ reader_enters ∷ reader_enters ∷ reader_leaves ∷ reader_leaves ∷ []

abbrev one_waits : Mutex
one_waits = record spent { waiting_readers = 1 }

run-late_reader : run late_reader released ≡ some one_waits
unfolding run
run-late_reader = refl

no_writer_late : writer_entered late_reader ≡ false
unfolding writer_entered
no_writer_late = refl

abbrev held_late : Mutex
held_late = record held_again { waiting_readers = 1 }

one_waits-held_late : step writer_enters one_waits ≡ some held_late
unfolding step
one_waits-held_late = refl

waiting_readers-le_example :
    (2 ≤ readers_entered late_reader) × (1 ≤ tally arriving_reader late_reader)
waiting_readers-le_example =
    waiting_readers-le late_reader held released one_waits held_late held-released no_writer_late
      run-late_reader one_waits-held_late

few_chunks : chunk_count (10 - 3) (max 3 1) ≤ 5
unfolding chunk_count
few_chunks = omega arith

-- Seven indices in chunks of three.
run_ranges-Cover_example : indices (run_ranges 3 10 3 false 5) ≡ upto 3 (10 - 3)
run_ranges-Cover_example = run_ranges-Cover 3 10 3 5 false (omega arith) few_chunks
