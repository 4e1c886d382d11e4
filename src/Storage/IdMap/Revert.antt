-- ===== src/Storage/IdMap/Revert.antt =====
-- Undoing a commit, erasing a key, and what the invariant says of the mappings.
use vector_forge.Common.{
  ℕ, ◌-◌, ◌<◌, ◌≡◌, ◌≢◌, Bool, true, false, none, some, [], ◌∷◌, ◌++◌, ◌==◌, length, get_elem?,
  arith, inl, inr, get_elem?-append_left, lt_of_get_elem?, if◌then◌else◌, Bool-cases, ap,
}
use vector_forge.Common.Dict
use vector_forge.Common.Dict.{lookup-insert, lookup-erase, count-insert, count-erase}
use vector_forge.Core.Status.{ok, Returns, ◌>>=◌}
use vector_forge.Core.Types.{invalid_internal_id, max_vectors_per_collection}
use vector_forge.Storage.IdMap.{Reservation, Entry, IdMap, visible, find, reserve, commit, revert}
use vector_forge.Storage.IdMap.Invariant.{IsValid, insert-IsValid, erase-IsValid}
use vector_forge.Storage.IdMap.Protocol.{
  Reserved, Committed, commit-Committed, reserve_state, reserve_entry,
}

-- What reverting a commit of `r` leaves: the mappings and the count of `m`, and the new label.
pub record Reverted (m : IdMap) (external : ℕ) (s : IdMap) : Type 0 where
  pub valid : IsValid s
  pub maps : (j : ℕ) → find s j ≡ find m j
  pub labels : s.labels ≡ m.labels ++ external ∷ []
  pub live : s.live ≡ m.live

abbrev committed_entry : ℕ → Entry
committed_entry i = record { current = i; pending = false }

module _ {m n : IdMap} {r : Reservation} (k : ℕ) (upsert : Bool) (valid : IsValid m)
    (reserved : reserve m k upsert ≡ ok (r, n))
    (room : length m.labels < max_vectors_per_collection) where
  held : Reserved m k (r, n)
  held = reserve_state k upsert valid reserved

  -- The map after the commit.
  after : Returns (commit n r (length n.labels)) (Committed n r)
  after = commit-Committed r held.valid held.held (rw held.labels room)

  entry_after :
      after.0.1.entries ≡ Dict.insert r.external (committed_entry (length n.labels)) n.entries
  unfolding commit
  entry_after = ground (arith, after.1, held.held.1)

  found :
      (Dict.lookup k m.entries ≡ (
        if r.previous == invalid_internal_id
        then none
        else some (record { current = r.previous; pending = false })))
      × (n.entries ≡ Dict.insert k (record { current = r.previous; pending = true }) m.entries)
  found = reserve_entry k upsert valid reserved

  lookup_after : Dict.lookup r.external after.0.1.entries ≡ some (committed_entry (length n.labels))
  lookup_after = rw entry_after (
      ground
        (arith, lookup-insert r.external r.external (committed_entry (length n.labels)) n.entries))

  undo_new :
      (r.previous == invalid_internal_id) ≡ true
      → (j : ℕ) → Dict.lookup j (Dict.erase r.external after.0.1.entries) ≡ Dict.lookup j m.entries
  undo_new new j = ground (
    arith,
    held.key,
    entry_after,
    lookup-erase r.external j after.0.1.entries (after.2.valid.single j),
    lookup-insert r.external j (committed_entry (length n.labels)) n.entries,
    lookup-insert k j (record { current = r.previous; pending = true }) m.entries,
    found,
  )

  undo_old :
      (r.previous == invalid_internal_id) ≡ false
      → (j : ℕ)
      → Dict.lookup j (Dict.insert r.external (committed_entry r.previous) after.0.1.entries)
        ≡ Dict.lookup j m.entries
  undo_old old j = ground (
    arith,
    held.key,
    entry_after,
    lookup-insert r.external j (committed_entry r.previous) after.0.1.entries,
    lookup-insert r.external j (committed_entry (length n.labels)) n.entries,
    lookup-insert k j (record { current = r.previous; pending = true }) m.entries,
    found,
  )

  -- The row that the key mapped to still has its label.
  label_after :
      r.previous ≢ invalid_internal_id → get_elem? after.0.1.labels r.previous ≡ some r.external
  label_after ne =
      let at = valid.labelled k (committed_entry r.previous) (ground (arith, found)) ne in
      rw
        (
          after.2.labels,
          held.labels,
          get_elem?-append_left m.labels (r.external ∷ []) r.previous
              (lt_of_get_elem? m.labels r.previous at),
          held.key,
        )
        at

  -- After a reservation in a valid map with room for a row, committing it and reverting the commit
  -- succeed, and leave a valid map with the mappings and the size of before; only the label stays.
  pub revert-commit :
      Returns
        (commit n r (length n.labels) >>= λ c. revert c.1 r (length n.labels))
        (Reverted m r.external)
  unfolding revert find
  revert-commit = elim (Bool-cases (r.previous == invalid_internal_id)) [
    | inl new ↦ (
      record after.0.1 {
        entries = Dict.erase r.external after.0.1.entries;
        live = after.0.1.live - 1;
      },
      rw (after.1, lookup_after, revert) (ground arith),
      record {
        valid =
            erase-IsValid r.external after.2.valid (after.0.1.live - 1)
              (rw lookup_after (ground (arith, after.2.live, ap length held.labels)));
        maps = λ j. ap visible (undo_new new j);
        labels = rw after.2.labels (ap (λ l. l ++ r.external ∷ []) held.labels);
        live = ground (arith, after.2.live, held.live);
      },
    )
    | inr old ↦ (
      record after.0.1 {
        entries = Dict.insert r.external (committed_entry r.previous) after.0.1.entries;
      },
      rw (after.1, lookup_after, revert) (ground arith),
      record {
        valid =
            insert-IsValid r.external (committed_entry r.previous) after.2.valid held.held.0
              label_after (λ e. absurd (ground arith)) after.0.1.live
              (rw lookup_after (ground (arith, ap length held.labels)));
        maps = λ j. ap visible (undo_old old j);
        labels = rw after.2.labels (ap (λ l. l ++ r.external ∷ []) held.labels);
        live = ground (arith, after.2.live, held.live);
      },
    )
  ]
