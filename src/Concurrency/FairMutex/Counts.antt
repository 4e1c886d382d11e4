-- ===== src/Concurrency/FairMutex/Counts.antt =====
-- How many threads of each kind a schedule lets in, out and into the queue.
use mathlib.Core.Option.{none-ne-some, some-injective}
use vector_forge.Common.{
  ℕ, ◌+◌, ◌≡◌, ap, List, [], ◌∷◌, some, arith, Option-cases, inl, inr, if◌then◌else◌,
}
use vector_forge.Concurrency.FairMutex.{
  Mutex, Event, reader_arrives, reader_enters, reader_leaves, writer_arrives, writer_enters,
  writer_leaves, reader_may_enter, writer_may_enter, step, run,
}

pub run-cons :
    (e : Event) (es : List Event) (m n : Mutex)
    → run (e ∷ es) m ≡ some n
    → (k : Mutex) × (step e m ≡ some k) × (run es k ≡ some n)
unfolding run
run-cons e es m n h = elim (Option-cases (step e m)) [
  | inl none_ ↦ absurd (none-ne-some n (rw (none_, run) at h))
  | inr (k, some_) ↦ (k, some_, rw (some_, run) at h)
]

unfoldable pub tally : (Event → ℕ) → List Event → ℕ
tally f [] = 0
tally f (e ∷ es) = f e + tally f es

abbrev pub arriving_reader : Event → ℕ
arriving_reader reader_arrives = 1
arriving_reader _ = 0

abbrev pub entering_reader : Event → ℕ
entering_reader reader_enters = 1
entering_reader _ = 0

abbrev pub leaving_reader : Event → ℕ
leaving_reader reader_leaves = 1
leaving_reader _ = 0

abbrev pub entering_writer : Event → ℕ
entering_writer writer_enters = 1
entering_writer _ = 0

abbrev pub leaving_writer : Event → ℕ
leaving_writer writer_leaves = 1
leaving_writer _ = 0

-- The writers that the flag stands for.
abbrev pub writers_of : Mutex → ℕ
writers_of m = if m.writer_active then 1 else 0

-- The fields count the threads that come and go.
pub record Counted (es : List Event) (m n : Mutex) : Type 0 where
  pub readers :
      n.active_readers + tally leaving_reader es ≡ m.active_readers + tally entering_reader es
  pub writers : writers_of n + tally leaving_writer es ≡ writers_of m + tally entering_writer es
  pub waiting :
      n.waiting_readers + tally entering_reader es ≡ m.waiting_readers + tally arriving_reader es

step-Counted : (e : Event) (m n : Mutex) → step e m ≡ some n → Counted (e ∷ []) m n
unfolding step reader_may_enter writer_may_enter tally
step-Counted reader_arrives m n h = record {
  readers = ground arith;
  writers = ground arith;
  waiting = ground arith;
}
step-Counted reader_enters m n h = record {
  readers = ground arith;
  writers = ground arith;
  waiting = ground arith;
}
step-Counted reader_leaves m n h = record {
  readers = ground arith;
  writers = ground arith;
  waiting = ground arith;
}
step-Counted writer_arrives m n h = record {
  readers = ground arith;
  writers = ground arith;
  waiting = ground arith;
}
step-Counted writer_enters m n h = record {
  readers = ground arith;
  writers = ground arith;
  waiting = ground arith;
}
step-Counted writer_leaves m n h = record {
  readers = ground arith;
  writers = ground arith;
  waiting = ground arith;
}

tally-cons :
    (f : Event → ℕ) (e : Event) (es : List Event) → tally f (e ∷ es) ≡ tally f (e ∷ []) + tally f es
unfolding tally
tally-cons f e es = omega arith

pub run-Counted : (es : List Event) (m n : Mutex) → run es m ≡ some n → Counted es m n
unfolding run tally
run-Counted [] m n h =
    let same = some-injective m n h in
    let readers = ap (λ (k : Mutex). k.active_readers) same in
    let writers = ap writers_of same in
    let waiting = ap (λ (k : Mutex). k.waiting_readers) same in
    record {
      readers = omega (arith, readers);
      writers = omega (arith, writers);
      waiting = omega (arith, waiting);
    }
run-Counted (e ∷ es) m n h =
    let (k, one, rest) = run-cons e es m n h in
    let s = step-Counted e m k one in
    let r = run-Counted es k n rest in
    record {
      readers = omega (
        arith,
        s.readers,
        r.readers,
        tally-cons leaving_reader e es,
        tally-cons entering_reader e es,
      );
      writers = omega (
        arith,
        s.writers,
        r.writers,
        tally-cons leaving_writer e es,
        tally-cons entering_writer e es,
      );
      waiting = omega (
        arith,
        s.waiting,
        r.waiting,
        tally-cons entering_reader e es,
        tally-cons arriving_reader e es,
      );
    }
