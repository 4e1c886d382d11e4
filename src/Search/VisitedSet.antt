-- ===== src/Search/VisitedSet.antt =====
-- src/search/visited_set.hpp: a set of ids that is emptied by a change of its 16-bit epoch.
pub mod Refinement
use vector_forge.Common.{
  ℕ, ◌+◌, ◌-◌, ◌%◌, ◌^◌, Bool, true, false, List, [], ◌++◌, ◌&&◌, ◌==◌, not, if◌then◌else◌, ltb,
  length, get_or, set, replicate,
}
use vector_forge.Core.Status.{Result, ok, ◌>>=◌, ◌>>◌, check}

pub record VisitedSet : Type 0 where
  pub marks : List ℕ
  pub epoch : ℕ

abbrev pub fresh : VisitedSet
fresh = record { marks = []; epoch = 1 }

unfoldable pub ensure_capacity : VisitedSet → ℕ → VisitedSet
ensure_capacity v capacity =
    if ltb (length v.marks) capacity
    then record v { marks = v.marks ++ replicate (capacity - length v.marks) 0 }
    else v

unfoldable pub reset : VisitedSet → VisitedSet
reset v =
    if v.epoch == 65535
    then record { marks = replicate (length v.marks) 0; epoch = 1 }
    else record v { epoch = (v.epoch + 1) % 2 ^ 16 }

unfoldable pub visit : VisitedSet → ℕ → Result (Bool × VisitedSet)
visit v id = do
  check (ltb id (length v.marks))
  ok (not (get_or v.marks id 0 == v.epoch), record v { marks = set v.marks id v.epoch })

unfoldable pub visited : VisitedSet → ℕ → Bool
visited v id = ltb id (length v.marks) && get_or v.marks id 0 == v.epoch
