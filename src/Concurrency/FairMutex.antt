-- ===== src/Concurrency/FairMutex.antt =====
-- src/concurrency/fair_shared_mutex.hpp: the sections under its mutex as steps.
-- `lock_shared` and `lock` are two steps each, the arrival and the end of the wait, which is taken
-- when the wait's condition holds; a thread that need not wait takes them one after the other. The
-- wake-ups of the condition variables are left out: a step is possible when its condition holds.
-- The source says that every reader that waits when a writer leaves is admitted before the next
-- writer. Its wait tests the quota alone, so a reader that arrives later may take a place of the
-- quota, and one that was waiting then waits on.
pub mod Counts
pub mod Safety
pub mod Exclusion
use vector_forge.Common.{
  ℕ, ◌+◌, ◌-◌, Bool, true, false, List, [], ◌∷◌, ◌&&◌, ◌||◌, ◌==◌, not, if◌then◌else◌, ltb, Option,
  none, some,
}

pub record Mutex : Type 0 where
  pub active_readers : ℕ
  pub waiting_readers : ℕ
  pub waiting_writers : ℕ
  pub reader_quota : ℕ
  pub writer_active : Bool

abbrev pub unlocked : Mutex
unlocked = record {
  active_readers = 0;
  waiting_readers = 0;
  waiting_writers = 0;
  reader_quota = 0;
  writer_active = false;
}

pub data Event : Type 0 where
  reader_arrives reader_enters reader_leaves : Event
  writer_arrives writer_enters writer_leaves : Event

-- The conditions of the two waits.
unfoldable pub reader_may_enter : Mutex → Bool
reader_may_enter m = not m.writer_active && (m.waiting_writers == 0 || ltb 0 m.reader_quota)

unfoldable pub writer_may_enter : Mutex → Bool
writer_may_enter m = not m.writer_active && m.active_readers == 0 && m.reader_quota == 0

-- An event, where a thread is there to cause it: one that waits, or one that holds the lock.
unfoldable pub step : Event → Mutex → Option Mutex
unfolding reader_may_enter writer_may_enter
step reader_arrives m = some (record m { waiting_readers = m.waiting_readers + 1 })
step reader_enters m =
    if ltb 0 m.waiting_readers && reader_may_enter m
    then some (record m {
      waiting_readers = m.waiting_readers - 1;
      reader_quota = if ltb 0 m.reader_quota then m.reader_quota - 1 else m.reader_quota;
      active_readers = m.active_readers + 1;
    })
    else none
step reader_leaves m =
    if ltb 0 m.active_readers
    then some (record m { active_readers = m.active_readers - 1 })
    else none
step writer_arrives m = some (record m { waiting_writers = m.waiting_writers + 1 })
step writer_enters m =
    if ltb 0 m.waiting_writers && writer_may_enter m
    then some (record m { waiting_writers = m.waiting_writers - 1; writer_active = true })
    else none
step writer_leaves m =
    if m.writer_active
    then some (record m { writer_active = false; reader_quota = m.waiting_readers })
    else none

-- A schedule, where each of its events is possible when its turn comes.
unfoldable pub run : List Event → Mutex → Option Mutex
unfolding step
run [] m = some m
run (e ∷ es) m = elim (step e m) [ none ↦ none | some next ↦ run es next ]
