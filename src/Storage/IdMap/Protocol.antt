-- ===== src/Storage/IdMap/Protocol.antt =====
-- The reserve, commit, rollback, revert protocol, and erase: what each call does to the mappings
-- that are visible, and that the invariant is kept.
use vector_forge.Common.{
  ℕ, ◌+◌, ◌<◌, ◌≡◌, ◌≢◌, refl, Bool, true, false, Option, none, some, [], ◌∷◌, ◌++◌, ◌==◌, length,
  arith, Option-cases, inl, inr, get_elem?-append_left, get_elem?-append_length, length-append,
  lt_of_get_elem?, if◌then◌else◌, ==_refl, Bool-cases, ap,
}
use vector_forge.Common.Dict
use vector_forge.Common.Dict.{
  lookup-insert, lookup-erase, occurrences-insert, occurrences-erase-le, count-insert, count-erase,
}
use vector_forge.Core.Status.{ok, Returns}
use vector_forge.Core.Types.{invalid_external_id, invalid_internal_id, max_vectors_per_collection}
use vector_forge.Storage.IdMap.{Reservation, Entry, IdMap, visible, find, reserve, commit, rollback}
use vector_forge.Storage.IdMap.Invariant.{IsValid, insert-IsValid, erase-IsValid}

-- The reservation is outstanding: the key is pending, and its entry is as it was reserved.
abbrev pub IsHeld : IdMap → Reservation → Type 0
IsHeld m r =
    (r.external ≢ invalid_external_id)
    × (Dict.lookup r.external m.entries ≡ some (record { current = r.previous; pending = true }))

-- The visible mapping that a reservation replaces.
abbrev pub replaced : Reservation → Option ℕ
replaced r = if r.previous == invalid_internal_id then none else some r.previous

pub record Reserved (m : IdMap) (k : ℕ) (r : Reservation × IdMap) : Type 0 where
  pub valid : IsValid r.1
  pub held : IsHeld r.1 r.0
  pub key : r.0.external ≡ k
  pub previous : replaced r.0 ≡ find m k
  pub kept : (j : ℕ) → find r.1 j ≡ find m j
  pub labels : r.1.labels ≡ m.labels
  pub live : r.1.live ≡ m.live

-- When a key may be reserved.
abbrev pub MayReserve : IdMap → ℕ → Bool → Type 0
MayReserve m k upsert =
    (k ≢ invalid_external_id)
    × ((e : Entry) → Dict.lookup k m.entries ≡ some e → (e.pending ≡ false) × (upsert ≡ true))

-- In a valid map, reserving a key that may be reserved succeeds: the map is valid, the reservation
-- is held, it names the key and the row that the key had, and mappings, labels and size stay.
pub reserve-Reserved :
    {m : IdMap} (k : ℕ) (upsert : Bool)
    → IsValid m
    → MayReserve m k upsert
    → Returns (reserve m k upsert) (Reserved m k)
unfolding reserve find
reserve-Reserved {m} k upsert valid may = elim (Option-cases (Dict.lookup k m.entries)) [
  | inl e ↦
      let v : Entry = record { current = invalid_internal_id; pending = true } in
      (
        (
          record { external = k; previous = invalid_internal_id },
          record m { entries = Dict.insert k v m.entries },
        ),
        ground arith,
        record {
          valid =
              insert-IsValid k v valid may.0 (ground arith) (ground arith) m.live (ground arith);
          held = ground (arith, lookup-insert k k v m.entries);
          key = refl;
          previous = ground arith;
          kept = λ j. ground (arith, lookup-insert k j v m.entries);
          labels = refl;
          live = refl;
        },
      )
  | inr (old, e) ↦
      let v : Entry = record old { pending = true } in
      (
        (
          record { external = k; previous = old.current },
          record m { entries = Dict.insert k v m.entries },
        ),
        ground (arith, may.1 old),
        record {
          valid =
              insert-IsValid k v valid may.0 (λ h. valid.labelled k old e h) (ground arith) m.live
                (ground arith);
          held = ground (arith, lookup-insert k k v m.entries);
          key = refl;
          previous = ground arith;
          kept = λ j. ground (arith, lookup-insert k j v m.entries);
          labels = refl;
          live = refl;
        },
      )
]

pub record Committed (m : IdMap) (r : Reservation) (s : ℕ × IdMap) : Type 0 where
  pub valid : IsValid s.1
  pub replaces : s.0 ≡ r.previous
  pub maps : (j : ℕ) → find s.1 j ≡ (if j == r.external then some (length m.labels) else find m j)
  pub labels : s.1.labels ≡ m.labels ++ r.external ∷ []
  pub live : s.1.live ≡ (if r.previous == invalid_internal_id then m.live + 1 else m.live)

-- In a valid map with room for a row, committing a held reservation to the next row succeeds: the
-- map is valid, the key maps to the row, every other mapping stays, the label is appended, the
-- replaced row is returned, and the size grows by one for a new key alone.
pub commit-Committed :
    {m : IdMap} (r : Reservation)
    → IsValid m
    → IsHeld m r
    → length m.labels < max_vectors_per_collection
    → Returns (commit m r (length m.labels)) (Committed m r)
unfolding commit find
commit-Committed {m} r valid held room =
    let n = length m.labels in
    let v : Entry = record { current = n; pending = false } in
    let grown : IdMap = record m { labels = m.labels ++ r.external ∷ [] } in
    let wider : IsValid grown = record {
      single = valid.single;
      bounded = omega (arith, length-append m.labels (r.external ∷ []));
      counted = valid.counted;
      labelled = λ j e h c. ground (
        arith,
        valid.labelled j e h c,
        get_elem?-append_left m.labels (r.external ∷ []) e.current
            (lt_of_get_elem? m.labels e.current (valid.labelled j e h c)),
      );
      new_is_pending = valid.new_is_pending;
      no_reserved_key = valid.no_reserved_key;
    } in
    let live = if r.previous == invalid_internal_id then m.live + 1 else m.live in
    (
      (
        r.previous,
        record {
          entries = Dict.insert r.external v m.entries;
          labels = m.labels ++ r.external ∷ [];
          live = live;
        },
      ),
      rw (held.1, ==_refl n, commit) refl,
      record {
        valid =
            insert-IsValid {m = grown} r.external v wider held.0
              (λ _. get_elem?-append_length m.labels r.external []) (ground arith) live
              (rw held.1 (ground arith));
        replaces = refl;
        maps = λ j. ground (arith, lookup-insert r.external j v m.entries);
        labels = refl;
        live = refl;
      },
    )

-- A call undid a reservation or a commit: the mappings of `m` are back, the labels are those of `n`.
pub record Restored (m n : IdMap) (s : IdMap) : Type 0 where
  pub valid : IsValid s
  pub maps : (j : ℕ) → find s j ≡ find m j
  pub entries : (j : ℕ) → Dict.lookup j s.entries ≡ Dict.lookup j m.entries
  pub labels : s.labels ≡ n.labels
  pub live : s.live ≡ m.live

module _ {m n : IdMap} {r : Reservation} (k : ℕ) (upsert : Bool) (valid : IsValid m)
    (reserved : reserve m k upsert ≡ ok (r, n)) where
  -- A reservation that was given had every right to be.
  reserve_may : MayReserve m k upsert
  unfolding reserve
  reserve_may = (ground arith, λ e h. ground arith)

  pub reserve_state : Reserved m k (r, n)
  reserve_state =
      let (s, e, p) = reserve-Reserved k upsert valid reserve_may in
      let same : s ≡ (r, n) = cc in rw same at p

  -- What the reservation found under the key.
  pub reserve_entry :
      (Dict.lookup k m.entries ≡ (
        if r.previous == invalid_internal_id
        then none
        else some (record { current = r.previous; pending = false })))
      × (n.entries ≡ Dict.insert k (record { current = r.previous; pending = true }) m.entries)
  unfolding reserve
  reserve_entry = elim (Option-cases (Dict.lookup k m.entries)) [
    | inl e ↦ (ground arith, ground arith)
    | inr (x, e) ↦ (ground (arith, valid.new_is_pending k x e), ground arith)
  ]

  -- The entry that a rolled back reservation leaves.
  abbrev pub unreserved : Entry
  unreserved = record { current = r.previous; pending = false }

  pub undo_new :
      (r.previous == invalid_internal_id) ≡ true
      → (j : ℕ) → Dict.lookup j (Dict.erase r.external n.entries) ≡ Dict.lookup j m.entries
  undo_new new j = ground (
    arith,
    reserve_state.key,
    lookup-erase r.external j n.entries (reserve_state.valid.single j),
    lookup-insert k j (record { current = r.previous; pending = true }) m.entries,
    reserve_entry,
  )

  pub undo_old :
      (r.previous == invalid_internal_id) ≡ false
      → (j : ℕ)
      → Dict.lookup j (Dict.insert r.external unreserved n.entries) ≡ Dict.lookup j m.entries
  undo_old old j = ground (
    arith,
    reserve_state.key,
    lookup-insert r.external j unreserved n.entries,
    lookup-insert k j (record { current = r.previous; pending = true }) m.entries,
    reserve_entry,
  )

  -- After a reservation in a valid map, rolling it back succeeds and leaves a valid map with the
  -- entries, the labels and the size of before.
  pub rollback-reserve : Returns (rollback n r) (Restored m m)
  unfolding rollback find
  rollback-reserve = elim (Bool-cases (r.previous == invalid_internal_id)) [
    | inl new ↦ (
      record n { entries = Dict.erase r.external n.entries },
      rw (reserve_state.held.1, rollback) (ground arith),
      record {
        valid =
            erase-IsValid r.external reserve_state.valid n.live
              (rw reserve_state.held.1 (ground arith));
        maps = λ j. ap visible (undo_new new j);
        entries = undo_new new;
        labels = reserve_state.labels;
        live = reserve_state.live;
      },
    )
    | inr old ↦ (
      record n { entries = Dict.insert r.external unreserved n.entries },
      rw (reserve_state.held.1, rollback) (ground arith),
      record {
        valid =
            insert-IsValid r.external unreserved reserve_state.valid reserve_state.held.0
              (λ h. reserve_state.valid.labelled r.external _ reserve_state.held.1 h) (ground arith)
              n.live (rw reserve_state.held.1 (ground arith));
        maps = λ j. ap visible (undo_old old j);
        entries = undo_old old;
        labels = reserve_state.labels;
        live = reserve_state.live;
      },
    )
  ]
