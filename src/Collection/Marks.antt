-- ===== src/Collection/Marks.antt =====
-- The markers of a collection through an insertion, a replacement and a removal.
use vector_forge.Common.{
  ℕ, ◌+◌, ◌/◌, ◌<◌, ◌≤◌, ◌≡◌, Bool, false, none, some, length, arith, ◌==◌, if◌then◌else◌,
  Bool-cases, inl, inr,
}
use vector_forge.Storage.IdMap.{IdMap, find}
use vector_forge.Storage.IdMap.Invariant.{IsValid as IdsAreValid}
use vector_forge.Storage.IdMap.Erase.{find_injective}
use vector_forge.Storage.Tombstones.{TombstoneSet, test}
use vector_forge.Storage.Tombstones.Laws.{Marked, Grown}
use vector_forge.Collection.Invariant.{Marks}

-- A row that is not stored is not marked.
pub test-stored :
    {ids : IdMap} {d : TombstoneSet} {n : ℕ} (i : ℕ) → Marks ids d n → n ≤ i → test d i ≡ false
test-stored {d = d} i m h = elim (Bool-cases (test d i)) [
  | inl marked ↦ absurd (omega (arith, m.stored i marked))
  | inr clear ↦ clear
]

-- More room changes no mark.
pub Grown-Marks :
    {ids : IdMap} {d e : TombstoneSet} {n rows : ℕ} → Marks ids d n → Grown d rows e → Marks ids e n
Grown-Marks m g = record {
  valid = g.valid;
  room = λ i h. omega (arith, m.room i h, g.larger);
  stored = λ i h. m.stored i (ground (arith, g.tests i));
  mapped = λ j i h. ground (arith, g.tests i, m.mapped j i);
  unmarked = λ i h t. m.unmarked i h (ground (arith, g.tests i));
  total = omega (arith, m.total, g.count);
}

module _ {ids next : IdMap} {d : TombstoneSet} {n : ℕ} (k : ℕ) (m : Marks ids d n) where
  module _ (maps : (j : ℕ) → find next j ≡ (if j == k then some n else find ids j))
      (room : n / 64 < length d.words) where
    -- A new id takes the next row.
    pub new-Marks : find ids k ≡ none → next.live ≡ ids.live + 1 → Marks next d (n + 1)
    new-Marks free live = record {
      valid = m.valid;
      room = λ i h. elim (Bool-cases (i == n)) [
        | inl last ↦ let same : i ≡ n = ground arith in rw same room
        | inr before ↦ m.room i (ground arith)
      ];
      stored = λ i h. omega (arith, m.stored i h);
      mapped = λ j i h. ground (arith, maps j, m.mapped j i, test-stored {d = d} n m);
      unmarked = λ i h t. elim (Bool-cases (i == n)) [
        | inl last ↦ (k, ground (arith, maps k))
        | inr before ↦ let (j, at) = m.unmarked i (ground arith) t in (j, ground (arith, maps j))
      ];
      total = omega (arith, m.total, live);
    }

    -- An id moves to the next row, and its old row is marked.
    pub replace-Marks :
        {r : Bool × TombstoneSet} (old : ℕ)
        → IdsAreValid ids
        → find ids k ≡ some old
        → old < n
        → next.live ≡ ids.live
        → Marked d old r
        → Marks next r.1 (n + 1)
    replace-Marks old valid was below live marked = record {
      valid = marked.valid;
      room = λ i h. elim (Bool-cases (i == n)) [
        | inl last ↦ let same : i ≡ n = ground arith in rw same (omega (arith, room, marked.size))
        | inr before ↦ omega (arith, m.room i (ground arith), marked.size)
      ];
      stored = λ i h. ground (arith, marked.tests i, m.stored i);
      mapped = λ j i h. ground (
        arith,
        maps j,
        marked.tests i,
        m.mapped j i,
        test-stored {d = d} n m,
        find_injective j k i valid,
      );
      unmarked = λ i h t. elim (Bool-cases (i == n)) [
        | inl last ↦ (k, ground (arith, maps k))
        | inr before ↦
            let (j, at) = m.unmarked i (ground arith) (ground (arith, marked.tests i)) in
            (j, ground (arith, maps j, marked.tests i))
      ];
      total =
          let fresh = marked.fresh in
          ground (arith, m.total, live, marked.count, m.mapped k old was);
    }

  -- The row of an id that goes is marked.
  pub remove-Marks :
      {r : Bool × TombstoneSet} (old : ℕ)
      → IdsAreValid ids
      → ((j : ℕ) → find next j ≡ (if j == k then none else find ids j))
      → find ids k ≡ some old
      → old < n
      → next.live + 1 ≡ ids.live
      → Marked d old r
      → Marks next r.1 n
  remove-Marks old valid maps was below live marked = record {
    valid = marked.valid;
    room = λ i h. omega (arith, m.room i h, marked.size);
    stored = λ i h. ground (arith, marked.tests i, m.stored i);
    mapped =
        λ j i h. ground (arith, maps j, marked.tests i, m.mapped j i, find_injective j k i valid);
    unmarked = λ i h t.
        let (j, at) = m.unmarked i h (ground (arith, marked.tests i)) in
        (j, ground (arith, maps j, marked.tests i));
    total =
        let fresh = marked.fresh in ground (arith, m.total, live, marked.count, m.mapped k old was);
  }
