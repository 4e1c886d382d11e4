-- ===== src/Concurrency/FairMutex/Safety.antt =====
-- The invariant of the fields of the lock, progress, and the bounds on who overtakes a waiting thread.
use mathlib.Core.Option.{some-injective}
use vector_forge.Common.{
  ℕ, ◌+◌, ◌≤◌, ◌<◌, ◌≡◌, refl, ap, sym, ◌∙◌, Bool, true, false, List, [], ◌∷◌, some, arith,
  Option-cases, inl, inr, ◌⊎◌,
}
use vector_forge.Concurrency.FairMutex.Counts.{
  run-cons, tally, arriving_reader, entering_reader, run-Counted,
}
use vector_forge.Concurrency.FairMutex.{
  Mutex, unlocked, Event, reader_arrives, reader_enters, reader_leaves, writer_arrives,
  writer_enters, writer_leaves, reader_may_enter, writer_may_enter, step, run,
}

pub record IsValid (m : Mutex) : Type 0 where
  pub excluded : m.writer_active ≡ true → m.active_readers ≡ 0
  pub quota : m.reader_quota ≤ m.waiting_readers
  pub spent : m.writer_active ≡ true → m.reader_quota ≡ 0

step-IsValid : (e : Event) (m n : Mutex) → IsValid m → step e m ≡ some n → IsValid n
unfolding step reader_may_enter writer_may_enter
step-IsValid reader_arrives m n v h = record {
  excluded = λ a. ground (arith, v.excluded);
  quota = ground (arith, v.quota);
  spent = λ a. ground (arith, v.spent);
}
step-IsValid reader_enters m n v h = record {
  excluded = λ a. ground (arith, v.excluded);
  quota = ground (arith, v.quota);
  spent = λ a. ground (arith, v.spent);
}
step-IsValid reader_leaves m n v h = record {
  excluded = λ a. ground (arith, v.excluded);
  quota = ground (arith, v.quota);
  spent = λ a. ground (arith, v.spent);
}
step-IsValid writer_arrives m n v h = record {
  excluded = λ a. ground (arith, v.excluded);
  quota = ground (arith, v.quota);
  spent = λ a. ground (arith, v.spent);
}
step-IsValid writer_enters m n v h = record {
  excluded = λ a. ground (arith, v.excluded);
  quota = ground (arith, v.quota);
  spent = λ a. ground (arith, v.spent);
}
step-IsValid writer_leaves m n v h = record {
  excluded = λ a. ground (arith, v.excluded);
  quota = ground (arith, v.quota);
  spent = λ a. ground (arith, v.spent);
}

run-IsValid_from : (es : List Event) (m n : Mutex) → IsValid m → run es m ≡ some n → IsValid n
unfolding run
run-IsValid_from [] m n v h = rw (some-injective m n h) at v
run-IsValid_from (e ∷ es) m n v h =
    let (k, one, rest) = run-cons e es m n h in
    run-IsValid_from es k n (step-IsValid e m k v one) rest

pub run-IsValid : (es : List Event) (m : Mutex) → run es unlocked ≡ some m → IsValid m
run-IsValid es m h =
    run-IsValid_from es unlocked m
      (record { excluded = λ _. refl; quota = omega arith; spent = λ _. refl }) h

-- After any schedule from the unlocked state, where nobody holds the lock and somebody waits, a
-- waiting thread can enter.
pub run_progress :
    (es : List Event) (m : Mutex)
    → run es unlocked ≡ some m
    → m.writer_active ≡ false
    → m.active_readers ≡ 0
    → 0 < m.waiting_readers + m.waiting_writers
    → ((n : Mutex) × (step reader_enters m ≡ some n))
      ⊎ ((n : Mutex) × (step writer_enters m ≡ some n))
unfolding step reader_may_enter writer_may_enter
run_progress es m h free none_ waits =
    let v = run-IsValid es m h in
    elim (Option-cases (step reader_enters m)) [
      | inr p ↦ inl p
      | inl blocked ↦ elim (Option-cases (step writer_enters m)) [
        | inr p ↦ inr p
        | inl also ↦ absurd (ground (arith, v.quota))
      ]
    ]

-- How many readers enter, and whether a writer does.
unfoldable pub readers_entered : List Event → ℕ
readers_entered [] = 0
readers_entered (reader_enters ∷ es) = 1 + readers_entered es
readers_entered (_ ∷ es) = readers_entered es

unfoldable pub writer_entered : List Event → Bool
writer_entered [] = false
writer_entered (writer_enters ∷ es) = true
writer_entered (_ ∷ es) = writer_entered es

-- While no writer holds the lock or enters, at least as many readers enter as the quota falls by,
-- and exactly as many where a writer waits from the start.
record Spent (es : List Event) (m n : Mutex) : Type 0 where
  free : n.writer_active ≡ false
  least : m.reader_quota ≤ n.reader_quota + readers_entered es
  most : 0 < m.waiting_writers → n.reader_quota + readers_entered es ≡ m.reader_quota
  waits : m.waiting_writers ≤ n.waiting_writers

step-Spent :
    (e : Event) (m n : Mutex)
    → m.writer_active ≡ false
    → writer_entered (e ∷ []) ≡ false
    → step e m ≡ some n
    → Spent (e ∷ []) m n
unfolding step reader_may_enter writer_may_enter readers_entered writer_entered
step-Spent reader_arrives m n f w h = record {
  free = ground arith;
  least = ground arith;
  most = λ p. ground arith;
  waits = ground arith;
}
step-Spent reader_enters m n f w h = record {
  free = ground arith;
  least = ground arith;
  most = λ p. ground arith;
  waits = ground arith;
}
step-Spent reader_leaves m n f w h = record {
  free = ground arith;
  least = ground arith;
  most = λ p. ground arith;
  waits = ground arith;
}
step-Spent writer_arrives m n f w h = record {
  free = ground arith;
  least = ground arith;
  most = λ p. ground arith;
  waits = ground arith;
}
step-Spent writer_leaves m n f w h = record {
  free = ground arith;
  least = ground arith;
  most = λ p. ground arith;
  waits = ground arith;
}
step-Spent writer_enters m n f w h = absurd (ground arith)

readers_entered-cons :
    (e : Event) (es : List Event)
    → readers_entered (e ∷ es) ≡ readers_entered (e ∷ []) + readers_entered es
unfolding readers_entered
readers_entered-cons reader_arrives es = omega arith
readers_entered-cons reader_enters es = omega arith
readers_entered-cons reader_leaves es = omega arith
readers_entered-cons writer_arrives es = omega arith
readers_entered-cons writer_enters es = omega arith
readers_entered-cons writer_leaves es = omega arith

writer_entered-cons :
    (e : Event) (es : List Event)
    → writer_entered (e ∷ es) ≡ false
    → (writer_entered (e ∷ []) ≡ false) × (writer_entered es ≡ false)
unfolding writer_entered
writer_entered-cons writer_enters es h = absurd (ground arith)
writer_entered-cons reader_arrives es h = (refl, h)
writer_entered-cons reader_enters es h = (refl, h)
writer_entered-cons reader_leaves es h = (refl, h)
writer_entered-cons writer_arrives es h = (refl, h)
writer_entered-cons writer_leaves es h = (refl, h)

Spent-refl : (m n : Mutex) → m.writer_active ≡ false → m ≡ n → Spent [] m n
unfolding readers_entered
Spent-refl m n f e =
    let quota = ap (λ (k : Mutex). k.reader_quota) e in
    let writers = ap (λ (k : Mutex). k.waiting_writers) e in
    record {
      free = sym (ap (λ (k : Mutex). k.writer_active) e) ∙ f;
      least = omega (arith, quota);
      most = λ p. omega (arith, quota);
      waits = omega (arith, writers);
    }

run-Spent :
    (es : List Event) (m n : Mutex)
    → m.writer_active ≡ false
    → writer_entered es ≡ false
    → run es m ≡ some n
    → Spent es m n
unfolding run
run-Spent [] m n f w h = Spent-refl m n f (some-injective m n h)
run-Spent (e ∷ es) m n f w h =
    let (k, one, rest) = run-cons e es m n h in
    let s = step-Spent e m k f (writer_entered-cons e es w).0 one in
    let r = run-Spent es k n s.free (writer_entered-cons e es w).1 rest in
    record {
      free = r.free;
      least = omega (arith, s.least, r.least, readers_entered-cons e es);
      most =
          λ p. omega (arith, s.most p, r.most (omega (arith, s.waits)), readers_entered-cons e es);
      waits = omega (arith, s.waits, r.waits);
    }

-- While a writer waits, and no writer holds the lock or enters, the readers that enter are at most
-- the quota at the start.
pub readers_entered-le :
    (es : List Event) (m n : Mutex)
    → m.writer_active ≡ false
    → 0 < m.waiting_writers
    → writer_entered es ≡ false
    → run es m ≡ some n
    → readers_entered es ≤ m.reader_quota
readers_entered-le es m n f p w h = omega (arith, (run-Spent es m n f w h).most p)

readers_entered-tally : (es : List Event) → readers_entered es ≡ tally entering_reader es
unfolding readers_entered tally
readers_entered-tally [] = refl
readers_entered-tally (reader_arrives ∷ es) = omega (arith, readers_entered-tally es)
readers_entered-tally (reader_enters ∷ es) = omega (arith, readers_entered-tally es)
readers_entered-tally (reader_leaves ∷ es) = omega (arith, readers_entered-tally es)
readers_entered-tally (writer_arrives ∷ es) = omega (arith, readers_entered-tally es)
readers_entered-tally (writer_enters ∷ es) = omega (arith, readers_entered-tally es)
readers_entered-tally (writer_leaves ∷ es) = omega (arith, readers_entered-tally es)

-- From the moment a writer leaves until the next one enters, at least as many readers enter as were
-- waiting at that moment, and the readers that still wait at the end are no more than those that
-- arrived in between. Which of the waiting readers enter is left open.
pub waiting_readers-le :
    (es : List Event) (m k n o : Mutex)
    → step writer_leaves m ≡ some k
    → writer_entered es ≡ false
    → run es k ≡ some n
    → step writer_enters n ≡ some o
    → (m.waiting_readers ≤ readers_entered es) × (o.waiting_readers ≤ tally arriving_reader es)
unfolding step writer_may_enter
waiting_readers-le es m k n o leaves w h enters =
    let free : k.writer_active ≡ false = ground arith in
    let granted : k.reader_quota ≡ m.waiting_readers = ground arith in
    let waiting : k.waiting_readers ≡ m.waiting_readers = ground arith in
    let used : n.reader_quota ≡ 0 = ground arith in
    let after : o.waiting_readers ≡ n.waiting_readers = ground arith in
    let let_in : m.waiting_readers ≤ readers_entered es =
      omega (arith, granted, used, (run-Spent es k n free w h).least) in
    (
      let_in,
      omega
          (arith, let_in, waiting, after, (run-Counted es k n h).waiting, readers_entered-tally es),
    )
