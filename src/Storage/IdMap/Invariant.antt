-- ===== src/Storage/IdMap/Invariant.antt =====
-- The invariant of the id map, and that every operation keeps it.
use vector_forge.Common.{
  ℕ, ◌+◌, ◌≤◌, ◌≡◌, ◌≢◌, refl, Bool, true, none, some, ◌==◌, not, length, get_elem?, arith,
}
use vector_forge.Common.Dict
use vector_forge.Common.Dict.{
  lookup-insert, lookup-erase, occurrences-insert, occurrences-erase-le, count-insert, count-erase,
}
use vector_forge.Core.Types.{invalid_external_id, invalid_internal_id, max_vectors_per_collection}
use vector_forge.Storage.IdMap.{Entry, IdMap, empty}

-- An entry with a mapping that is visible.
abbrev pub committed : Entry → Bool
committed e = not (e.current == invalid_internal_id)

-- A key's visible mapping is a row, and the row has the key for its label.
pub record IsValid (m : IdMap) : Type 0 where
  pub single : (k : ℕ) → Dict.occurrences k m.entries ≤ 1
  pub bounded : length m.labels ≤ max_vectors_per_collection
  pub counted : m.live ≡ Dict.count committed m.entries
  pub labelled :
      (k : ℕ) (e : Entry)
      → Dict.lookup k m.entries ≡ some e
      → e.current ≢ invalid_internal_id
      → get_elem? m.labels e.current ≡ some k
  pub new_is_pending :
      (k : ℕ) (e : Entry)
      → Dict.lookup k m.entries ≡ some e
      → e.current ≡ invalid_internal_id
      → e.pending ≡ true
  pub no_reserved_key : Dict.lookup invalid_external_id m.entries ≡ none

pub empty-IsValid : IsValid empty
unfolding Dict.occurrences Dict.count Dict.lookup
empty-IsValid = record {
  single = λ k. omega arith;
  bounded = omega arith;
  counted = refl;
  labelled = λ k e h. cc;
  new_is_pending = λ k e h. cc;
  no_reserved_key = refl;
}

-- Marking a key pending keeps what is visible.
pub insert-IsValid :
    {m : IdMap} (k : ℕ) (v : Entry)
    → IsValid m
    → k ≢ invalid_external_id
    → (v.current ≢ invalid_internal_id → get_elem? m.labels v.current ≡ some k)
    → (v.current ≡ invalid_internal_id → v.pending ≡ true)
    → (live : ℕ)
    → live + Dict.weight committed (Dict.lookup k m.entries)
      ≡ m.live + Dict.weight committed (some v)
    → IsValid (record m { entries = Dict.insert k v m.entries; live = live })
insert-IsValid {m} k v valid ne at pend live bal = record {
  single = λ j. occurrences-insert k j v m.entries (valid.single j);
  bounded = valid.bounded;
  counted = omega (arith, valid.counted, count-insert committed k v m.entries);
  labelled = λ j e h. ground (arith, lookup-insert k j v m.entries, valid.labelled j e);
  new_is_pending = λ j e h. ground (arith, lookup-insert k j v m.entries, valid.new_is_pending j e);
  no_reserved_key =
      ground (arith, lookup-insert k invalid_external_id v m.entries, valid.no_reserved_key);
}

pub erase-IsValid :
    {m : IdMap} (k : ℕ)
    → IsValid m
    → (live : ℕ) → live + Dict.weight committed (Dict.lookup k m.entries) ≡ m.live
    → IsValid (record m { entries = Dict.erase k m.entries; live = live })
erase-IsValid {m} k valid live bal = record {
  single = λ j. omega (arith, occurrences-erase-le k j m.entries, valid.single j);
  bounded = valid.bounded;
  counted = omega (arith, valid.counted, count-erase committed k m.entries);
  labelled =
      λ j e h. ground (arith, lookup-erase k j m.entries, valid.single j, valid.labelled j e);
  new_is_pending =
      λ j e h. ground (arith, lookup-erase k j m.entries, valid.single j, valid.new_is_pending j e);
  no_reserved_key = ground (
    arith,
    lookup-erase k invalid_external_id m.entries,
    valid.single invalid_external_id,
    valid.no_reserved_key,
  );
}
