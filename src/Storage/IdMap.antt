-- ===== src/Storage/IdMap.antt =====
-- src/storage/id_map.hpp and id_map.cpp: the two-way mapping of external and internal ids, with the
-- reserve, commit, rollback and revert protocol. Capacity reservations allocate and change nothing
-- that the model keeps; they are left out.
pub mod Invariant
pub mod Erase
pub mod Protocol
pub mod Restore
pub mod Revert
pub mod Idle
use vector_forge.Common.{
  ℕ, ◌+◌, ◌-◌, Bool, true, false, Option, none, some, List, [], ◌∷◌, ◌++◌, ◌&&◌, ◌||◌, ◌==◌, not,
  if◌then◌else◌, length, get_elem?, suc,
}
use vector_forge.Common.Dict
use vector_forge.Common.Dict.{Dict}
use vector_forge.Storage.Tombstones
use vector_forge.Storage.Tombstones.{TombstoneSet}
use vector_forge.Core.Status.{
  Status, Result, ok, err, fatal, ◌>>=◌, ◌>>◌, check, invalid_argument, already_exists, not_found,
  corrupt_data,
}
use vector_forge.Core.Types.{invalid_external_id, invalid_internal_id}

pub record Reservation : Type 0 where
  pub external : ℕ
  pub previous : ℕ

-- `current` is the invalid id while a new key is pending.
pub record Entry : Type 0 where
  pub current : ℕ
  pub pending : Bool

pub record IdMap : Type 0 where
  pub entries : Dict Entry
  pub labels : List ℕ
  pub live : ℕ

abbrev pub empty : IdMap
empty = record { entries = []; labels = []; live = 0 }

unfoldable pub reserve : IdMap → ℕ → Bool → Result (Reservation × IdMap)
reserve m external upsert =
    if external == invalid_external_id
    then err invalid_argument
    else elim (Dict.lookup external m.entries) [
      | none ↦ ok (
        record { external = external; previous = invalid_internal_id },
        record m {
          entries =
              Dict.insert external (record { current = invalid_internal_id; pending = true })
                m.entries;
        },
      )
      | some e ↦
          if e.pending
          then err already_exists
          else if not upsert
          then err already_exists
          else ok (
            record { external = external; previous = e.current },
            record m { entries = Dict.insert external (record e { pending = true }) m.entries },
          )
    ]

-- Returns the replaced internal id too.
unfoldable pub commit : IdMap → Reservation → ℕ → Result (ℕ × IdMap)
commit m r internal =
    if internal == length m.labels
    then elim (Dict.lookup r.external m.entries) [
      | none ↦ fatal
      | some e ↦
          if e.pending
          then ok (
            e.current,
            record {
              entries =
                  Dict.insert r.external (record { current = internal; pending = false }) m.entries;
              labels = m.labels ++ r.external ∷ [];
              live = if e.current == invalid_internal_id then m.live + 1 else m.live;
            },
          )
          else fatal
    ]
    else fatal

unfoldable pub rollback : IdMap → Reservation → Result IdMap
rollback m r = elim (Dict.lookup r.external m.entries) [
  | none ↦ fatal
  | some e ↦
      if e.pending
      then (if r.previous == invalid_internal_id
          then ok (record m { entries = Dict.erase r.external m.entries })
          else ok (record m {
            entries = Dict.insert r.external (record e { pending = false }) m.entries;
          }))
      else fatal
]

unfoldable pub erase : IdMap → ℕ → Result (ℕ × IdMap)
erase m external = elim (Dict.lookup external m.entries) [
  | none ↦ err not_found
  | some e ↦
      if e.current == invalid_internal_id
      then err not_found
      else if e.pending
      then err already_exists
      else ok (e.current, record m { entries = Dict.erase external m.entries; live = m.live - 1 })
]

unfoldable pub revert : IdMap → Reservation → ℕ → Result IdMap
revert m r internal = elim (Dict.lookup r.external m.entries) [
  | none ↦ fatal
  | some e ↦
      if not e.pending && e.current == internal
      then (if r.previous == invalid_internal_id
          then ok (record m { entries = Dict.erase r.external m.entries; live = m.live - 1 })
          else ok (record m {
            entries = Dict.insert r.external (record e { current = r.previous }) m.entries;
          }))
      else fatal
]

-- The visible mapping of an entry.
abbrev pub visible : Option Entry → Option ℕ
visible none = none
visible (some e) = if e.current == invalid_internal_id then none else some e.current

unfoldable pub find : IdMap → ℕ → Option ℕ
find m external = visible (Dict.lookup external m.entries)

unfoldable pub contains : IdMap → ℕ → Bool
unfolding find
contains m external = elim (find m external) [ none ↦ false | some _ ↦ true ]

unfoldable pub label : IdMap → ℕ → Result ℕ
label m internal = elim (get_elem? m.labels internal) [ none ↦ fatal | some l ↦ ok l ]

unfoldable pub size : IdMap → ℕ
size m = m.live

unfoldable pub label_count : IdMap → ℕ
label_count m = length m.labels

-- The rows from row `i` on, over the mappings of the rows before. `try_emplace` adds a new key only.
restore_rows : (ℕ → Bool) → ℕ → List ℕ → Dict Entry → Result (Dict Entry)
restore_rows deleted i [] m = ok m
restore_rows deleted i (external ∷ rest) m = elim (deleted i) [
  | true ↦ restore_rows deleted (suc i) rest m
  | false ↦ elim (external == invalid_external_id) [
    | true ↦ err corrupt_data
    | false ↦ elim (Dict.lookup external m) [
      | some e ↦ err corrupt_data
      | none ↦
          restore_rows deleted (suc i) rest
            (Dict.insert external (record { current = i; pending = false }) m)
    ]
  ]
]

unfoldable pub restore : List ℕ → TombstoneSet → Result IdMap
unfolding restore_rows
restore labels deleted = do
  m ← restore_rows (Tombstones.test deleted) 0 labels []
  ok (record { entries = m; labels = labels; live = length m })
