-- ===== src/Tests/Storage.antt =====
-- The id map, the tombstones and the vector store at concrete inputs.
use vector_forge.Common.{
  ℕ, ◌<◌, ◌≤◌, ◌≡◌, ◌↔◌, refl, true, false, [], ◌∷◌, some, arith, sym, ap, ◌∙◌,
}
use vector_forge.Common.Dict
use vector_forge.Core.Status.{ok, Returns, ◌>>=◌}
use vector_forge.Core.Types.{invalid_external_id, invalid_internal_id}
use vector_forge.Storage.IdMap.{
  IdMap, Entry, Reservation, empty, reserve, commit, rollback, revert, erase, find,
}
use vector_forge.Storage.IdMap.Invariant.{IsValid, empty-IsValid}
use vector_forge.Storage.IdMap.Protocol.{
  MayReserve, IsHeld, reserve_state, Reserved, reserve-Reserved, Committed, commit-Committed,
  Restored, rollback-reserve,
}
use vector_forge.Storage.IdMap.Revert.{Reverted, revert-commit}
use vector_forge.Storage.IdMap.Erase.{IsPending, Erased, erase-Erased}
use vector_forge.Storage.IdMap.Restore.{restore_labels_iff, IsLiveRow}
use vector_forge.Storage.IdMap
use vector_forge.Storage.VectorStore
use mathlib.Core.Option.{none-ne-some, some-injective}
use vector_forge.Tests.Search.{three_rows, three_rows-IsValid, second_row, second_row-IsValid}
use vector_forge.Storage.VectorStore.{
  Options, capacity, row, append, pop_back, create, create_mapped,
}
use vector_forge.Storage.VectorStore.Invariant.{IsValid as StoreIsValid}
use vector_forge.Storage.VectorStore.Grow.{Extends}
use vector_forge.Storage.VectorStore.Append.{Appended, append-Appended, reserve-Extends}
use vector_forge.Storage.VectorStore.Undo.{pop_back-append}
use vector_forge.Storage.VectorStore.Create.{IsAcceptable, Created, create-Created}
use vector_forge.Storage.VectorStore.Mapped.{Holds, create_mapped-Holds}
use vector_forge.Storage.Tombstones.{set, clear}
use vector_forge.Storage.Tombstones.Laws.{Unmarked, clear-Unmarked, Marked, set-Marked}

-- The empty map while a new key is being inserted.
abbrev pending_seven : IdMap
pending_seven = record {
  entries = (7, record { current = invalid_internal_id; pending = true }) ∷ [];
  labels = [];
  live = 0;
}

abbrev seven : Reservation
seven = record { external = 7; previous = invalid_internal_id }

reserve-seven : reserve empty 7 false ≡ ok (seven, pending_seven)
unfolding reserve Dict.insert Dict.lookup Dict.erase
reserve-seven = refl

seven-MayReserve : MayReserve empty 7 false
unfolding Dict.lookup
seven-MayReserve = (λ e. absurd (omega arith), λ e h. absurd (none-ne-some e h))

reserve-Reserved_example : Returns (reserve empty 7 false) (Reserved empty 7)
reserve-Reserved_example = reserve-Reserved 7 false empty-IsValid seven-MayReserve

rollback-reserve_example : Returns (rollback pending_seven seven) (Restored empty empty)
rollback-reserve_example = rollback-reserve 7 false empty-IsValid reserve-seven

revert-commit_example :
    Returns (commit pending_seven seven 0 >>= λ c. revert c.1 seven 0) (Reverted empty 7)
revert-commit_example = revert-commit 7 false empty-IsValid reserve-seven (omega arith)

-- One key, for row 0.
abbrev one_label : IdMap
one_label = record {
  entries = (7, record { current = 0; pending = false }) ∷ [];
  labels = 7 ∷ [];
  live = 1;
}

one_label-IsValid : IsValid one_label
unfolding Dict.occurrences Dict.count Dict.lookup
one_label-IsValid = record {
  single = λ k. ground arith;
  bounded = omega arith;
  counted = refl;
  labelled = λ k e h ne. ground arith;
  new_is_pending = λ k e h p. ground arith;
  no_reserved_key = refl;
}

find-one_label : find one_label 7 ≡ some 0
unfolding find Dict.lookup
find-one_label = refl

true_not_false : ¬ (true ≡ false)
true_not_false h = cc

seven-idle : ¬ IsPending one_label 7
unfolding Dict.lookup
seven-idle (e, h, p) =
    let calm : e.pending ≡ false = sym (ap (λ (x : Entry). x.pending) (some-injective _ e h)) in
    true_not_false (sym p ∙ calm)

erase-Erased_example : Returns (erase one_label 7) (Erased one_label 7)
erase-Erased_example = erase-Erased 7 one_label-IsValid 0 find-one_label seven-idle

-- The pending key again, as a valid map.
pending_seven-IsValid : IsValid pending_seven
pending_seven-IsValid = (reserve_state 7 false empty-IsValid reserve-seven).valid

pending_seven-IsHeld : IsHeld pending_seven seven
pending_seven-IsHeld = (reserve_state 7 false empty-IsValid reserve-seven).held

commit-Committed_example : Returns (commit pending_seven seven 0) (Committed pending_seven seven)
commit-Committed_example =
    commit-Committed seven pending_seven-IsValid pending_seven-IsHeld (omega arith)

restore_labels_iff_example : ((m : IdMap) × (IdMap.restore (7 ∷ 8 ∷ []) second_row ≡ ok m)) ↔ (
    ((i : ℕ) → ¬ IsLiveRow (7 ∷ 8 ∷ []) second_row (omega arith) i invalid_external_id)
    × ((i j k : ℕ)
        → IsLiveRow (7 ∷ 8 ∷ []) second_row (omega arith) i k
        → IsLiveRow (7 ∷ 8 ∷ []) second_row (omega arith) j k
        → i ≡ j))
restore_labels_iff_example = restore_labels_iff (7 ∷ 8 ∷ []) second_row (omega arith)

set-Marked_example : Returns (set second_row 2) (Marked second_row 2)
set-Marked_example = set-Marked 2 second_row-IsValid (omega arith)

clear-Unmarked_example : Returns (clear second_row 1) (Unmarked second_row 1)
clear-Unmarked_example = clear-Unmarked 1 second_row-IsValid (omega arith)

append-Appended_example :
    Returns (append 0 three_rows (9 ∷ [])) (λ p. Appended 0 three_rows (9 ∷ []) p.0 p.1)
append-Appended_example =
    append-Appended 0 three_rows (9 ∷ []) three_rows-IsValid refl (omega arith)

reserve-Extends_example :
    Returns (VectorStore.reserve 0 three_rows 9) (λ t. Extends 0 three_rows t × (9 ≤ capacity 0 t))
reserve-Extends_example = reserve-Extends 0 three_rows 9 three_rows-IsValid (omega arith)

pop_back-append_example :
    Returns
      (append 0 three_rows (9 ∷ []) >>= λ p. pop_back 0 p.1)
      (λ u. StoreIsValid 0 u × (u.size ≡ 3) × ((i : ℕ) → i < 3 → row 0 u i ≡ row 0 three_rows i))
pop_back-append_example =
    pop_back-append 0 three_rows (9 ∷ []) three_rows-IsValid refl (omega arith)

-- Rows of two numbers in chunks of two rows, in a memory of three rows.
abbrev options : Options
options = record { dim = 2; rows_per_chunk = 2; max_rows = 10 }

options-IsAcceptable : IsAcceptable options
options-IsAcceptable = record {
  dim_low = omega arith;
  dim_high = omega arith;
  rows_low = omega arith;
  rows_high = omega arith;
  exponent = 1;
  power = λ ne. refl;
  small = omega arith;
  chunk = λ ne. omega arith;
}

create-Created_example : Returns (create {F = ℕ} 0 options) (λ s. Created 0 options s)
create-Created_example = create-Created 0 options options-IsAcceptable

create_mapped-Holds_example :
    Returns
      (create_mapped {F = ℕ} 0 options (1 ∷ 2 ∷ 3 ∷ 4 ∷ 5 ∷ 6 ∷ []) 3)
      (λ s. Holds 0 (1 ∷ 2 ∷ 3 ∷ 4 ∷ 5 ∷ 6 ∷ []) 3 s × (s.dim ≡ 2) × (s.max_rows ≡ 10))
create_mapped-Holds_example =
    create_mapped-Holds 0 options (1 ∷ 2 ∷ 3 ∷ 4 ∷ 5 ∷ 6 ∷ []) 3 options-IsAcceptable (omega arith)
      (omega arith)
