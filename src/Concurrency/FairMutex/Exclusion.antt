-- ===== src/Concurrency/FairMutex/Exclusion.antt =====
-- Mutual exclusion, of the threads that a schedule has let in and not yet out.
use vector_forge.Common.{ℕ, ◌+◌, ◌≤◌, ◌≡◌, List, some, arith}
use vector_forge.Concurrency.FairMutex.{Mutex, unlocked, Event, run}
use vector_forge.Concurrency.FairMutex.Counts.{
  tally, entering_reader, leaving_reader, entering_writer, leaving_writer, writers_of, run-Counted,
}
use vector_forge.Concurrency.FairMutex.Safety.{run-IsValid}

-- The readers and writers that are in after a schedule, and who may be in together.
pub record Exclusive (es : List Event) (m : Mutex) : Type 0 where
  pub readers : ℕ
  pub writers : ℕ
  pub readers_in : readers + tally leaving_reader es ≡ tally entering_reader es
  pub writers_in : writers + tally leaving_writer es ≡ tally entering_writer es
  pub one_writer : writers ≤ 1
  pub alone : writers ≡ 1 → readers ≡ 0
  pub quota : m.reader_quota ≤ m.waiting_readers
  pub spent : writers ≡ 1 → m.reader_quota ≡ 0

-- After any schedule from the unlocked state, the writers that have entered and not left are one at
-- most, and if there is one, no reader has entered without having left, and the quota is 0. The
-- quota is never above the number of waiting readers.
pub run-Exclusive : (es : List Event) (m : Mutex) → run es unlocked ≡ some m → Exclusive es m
run-Exclusive es m h =
    let v = run-IsValid es m h in
    let c = run-Counted es unlocked m h in
    record {
      readers = m.active_readers;
      writers = writers_of m;
      readers_in = omega (arith, c.readers);
      writers_in = omega (arith, c.writers);
      one_writer = ground arith;
      alone = λ e. ground (arith, v.excluded);
      quota = v.quota;
      spent = λ e. ground (arith, v.spent);
    }
