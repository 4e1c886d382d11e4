-- ===== src/Storage/IdMap/Restore.antt =====
-- The id map of persisted labels and tombstones.
use vector_forge.Common.{
  ℕ, suc, ◌+◌, ◌≤◌, ◌<◌, ◌≡◌, refl, Bool, true, false, List, [], ◌∷◌, ◌==◌, length, get_elem?,
  arith, Option-cases, Bool-cases, inl, inr, some, none, ◌↔◌, lt_of_get_elem?, sym,
}
use vector_forge.Common.Dict
use vector_forge.Common.Dict.{Dict, lookup-insert, occurrences-insert, count-insert}
use vector_forge.Core.Status.{ok, Returns->>=}
use vector_forge.Core.Types.{invalid_external_id, max_vectors_per_collection}
use vector_forge.Storage.IdMap.{Entry, IdMap, find, restore_rows, restore}
use vector_forge.Storage.IdMap.Invariant.{IsValid, committed}
use vector_forge.Storage.Tombstones
use vector_forge.Storage.Tombstones.{TombstoneSet}

count_all : (m : Dict Entry) → Dict.count (λ _. true) m ≡ length m
unfolding Dict.count
count_all [] = refl
count_all (e ∷ m) = omega (arith, count_all m)

module _ (labels : List ℕ) (deleted : ℕ → Bool)
    (small : length labels ≤ max_vectors_per_collection) where
  -- Row `i` is live under the key `k`.
  abbrev IsLive : ℕ → ℕ → Type 0
  IsLive i k = (get_elem? labels i ≡ some k) × (deleted i ≡ false)

  -- The mappings are those of the live rows before row `n`.
  record Covers (n : ℕ) (m : Dict Entry) : Type 0 where
    single : (k : ℕ) → Dict.occurrences k m ≤ 1
    mapped :
        (k : ℕ) (e : Entry)
        → Dict.lookup k m ≡ some e
        → (e.pending ≡ false) × (e.current < n) × IsLive e.current k
    complete :
        (i k : ℕ)
        → i < n
        → IsLive i k
        → Dict.lookup k m ≡ some (record { current = i; pending = false })
    usable : Dict.lookup invalid_external_id m ≡ none
    sized : length m ≡ Dict.count committed m

  Covers-zero : Covers 0 []
  unfolding Dict.occurrences Dict.lookup Dict.count
  Covers-zero = record {
    single = λ k. omega arith;
    mapped = λ k e h. absurd (cc);
    complete = λ i k h l. absurd (omega arith);
    usable = refl;
    sized = refl;
  }

  Covers-skip : {n : ℕ} {m : Dict Entry} → Covers n m → deleted n ≡ true → Covers (suc n) m
  Covers-skip {n} {m} c gone = record {
    single = c.single;
    mapped = λ k e h. ground (arith, c.mapped k e h);
    complete = λ i k h l. ground (arith, c.complete i k);
    usable = c.usable;
    sized = c.sized;
  }

  Covers-add :
      {n : ℕ} {m : Dict Entry} (k : ℕ)
      → Covers n m
      → IsLive n k
      → (k == invalid_external_id) ≡ false
      → Dict.lookup k m ≡ none
      → Covers (suc n) (Dict.insert k (record { current = n; pending = false }) m)
  Covers-add {n} {m} k c live good new =
      let v : Entry = record { current = n; pending = false } in
      let row : n < length labels = lt_of_get_elem? labels n live.0 in
      record {
        single = λ j. occurrences-insert k j v m (c.single j);
        mapped = λ j e h. ground (arith, lookup-insert k j v m, c.mapped j e);
        complete = λ i j h l. ground (arith, lookup-insert k j v m, c.complete i j);
        usable = ground (arith, lookup-insert k invalid_external_id v m, c.usable);
        sized = ground (
          arith,
          c.sized,
          new,
          count-insert committed k v m,
          count-insert (λ _. true) k v m,
          count_all m,
          count_all (Dict.insert k v m),
        );
      }

  -- The rest of the labels, from row `n` on.
  abbrev IsRest : ℕ → List ℕ → Type 0
  IsRest n rest = (j : ℕ) → get_elem? rest j ≡ get_elem? labels (n + j)

  IsRest-head : (n l : ℕ) (rest : List ℕ) → IsRest n (l ∷ rest) → get_elem? labels n ≡ some l
  IsRest-head n l rest h = let e : n + 0 ≡ n = omega arith in rw e at (sym (h 0))

  IsRest-tail : (n l : ℕ) (rest : List ℕ) → IsRest n (l ∷ rest) → IsRest (suc n) rest
  IsRest-tail n l rest h j = let e : n + suc j ≡ suc n + j = omega arith in rw e at (h (suc j))

  restore_rows-Covers :
      (rest : List ℕ) (n : ℕ) (m : Dict Entry) (r : Dict Entry)
      → IsRest n rest
      → n + length rest ≡ length labels
      → Covers n m
      → restore_rows deleted n rest m ≡ ok r
      → Covers (length labels) r
  unfolding restore_rows
  restore_rows-Covers [] n m r h t c e =
      let same : m ≡ r = ground arith in
      let all : n ≡ length labels = omega arith in rw (← same, ← all) c
  restore_rows-Covers (l ∷ rest) n m r h t c e = elim (Bool-cases (deleted n)) [
    | inl gone ↦
        restore_rows-Covers rest (suc n) m r (IsRest-tail n l rest h) (omega arith)
          (Covers-skip c gone) (rw (gone, restore_rows) at e)
    | inr live ↦ elim (Bool-cases (l == invalid_external_id)) [
      | inl bad ↦ absurd (ground arith)
      | inr good ↦ elim (Option-cases (Dict.lookup l m)) [
        | inr (old, seen) ↦ absurd (ground arith)
        | inl new ↦
            restore_rows-Covers rest (suc n) _ r (IsRest-tail n l rest h) (omega arith)
              (Covers-add l c (IsRest-head n l rest h, live) good new)
              (rw (live, good, new, restore_rows) at e)
      ]
    ]
  ]

  -- The labels of live rows can be keys: none is reserved, and no two are the same.
  record Mappable : Type 0 where
    usable : (i : ℕ) → ¬ IsLive i invalid_external_id
    distinct : (i j k : ℕ) → IsLive i k → IsLive j k → i ≡ j

  restore_rows-Returns :
      (rest : List ℕ) (n : ℕ) (m : Dict Entry)
      → IsRest n rest
      → Covers n m
      → Mappable
      → (r : Dict Entry) × (restore_rows deleted n rest m ≡ ok r)
  unfolding restore_rows
  restore_rows-Returns [] n m h c p = (m, refl)
  restore_rows-Returns (l ∷ rest) n m h c p = elim (Bool-cases (deleted n)) [
    | inl gone ↦
        rw (gone, restore_rows)
          (restore_rows-Returns rest (suc n) m (IsRest-tail n l rest h) (Covers-skip c gone) p)
    | inr live ↦
        let here : IsLive n l = (IsRest-head n l rest h, live) in
        elim (Bool-cases (l == invalid_external_id)) [
          | inl bad ↦ absurd (p.usable n (ground arith))
          | inr good ↦ elim (Option-cases (Dict.lookup l m)) [
            | inr (old, seen) ↦
                let before = c.mapped l old seen in
                absurd (omega (arith, p.distinct n old.current l here before.2))
            | inl new ↦
                rw (live, good, new, restore_rows)
                  (restore_rows-Returns rest (suc n) _ (IsRest-tail n l rest h)
                    (Covers-add l c here good new) p)
          ]
        ]
  ]

reserved_not_found : {m : IdMap} → IsValid m → find m invalid_external_id ≡ none
unfolding find
reserved_not_found v = rw v.no_reserved_key

module _ (labels : List ℕ) (deleted : TombstoneSet)
    (small : length labels ≤ max_vectors_per_collection) where
  abbrev pub IsLiveRow : ℕ → ℕ → Type 0
  IsLiveRow i k = (get_elem? labels i ≡ some k) × (Tombstones.test deleted i ≡ false)

  covered :
      (m : IdMap)
      → restore labels deleted ≡ ok m
      → (r : Dict Entry) × Covers labels (Tombstones.test deleted) small (length labels) r
        × (m ≡ record { entries = r; labels = labels; live = length r })
  unfolding restore
  covered m e =
      let (r, run, built) = Returns->>= (restore_rows (Tombstones.test deleted) 0 labels []) _ e in
      (
        r,
        restore_rows-Covers labels (Tombstones.test deleted) small labels 0 [] r
            (λ j. let z : 0 + j ≡ j = omega arith in rw z) (omega arith)
            (Covers-zero labels (Tombstones.test deleted) small) run,
        cc,
      )

  -- A restored map is valid, keeps the labels, and maps a key to a row exactly if the row is live and
  -- has the key for its label.
  pub restore_labels-IsValid :
      (m : IdMap)
      → restore labels deleted ≡ ok m
      → IsValid m × (m.labels ≡ labels) × ((k i : ℕ) → (find m k ≡ some i) ↔ IsLiveRow i k)
  unfolding find
  restore_labels-IsValid m e =
      let (r, c, built) = covered m e in
      rw built (
        record {
          single = c.single;
          bounded = small;
          counted = c.sized;
          labelled = λ k f at ne. (c.mapped k f at).2.0;
          new_is_pending = λ k f at bad. let row = (c.mapped k f at).1 in absurd (omega arith);
          no_reserved_key = c.usable;
        },
        refl,
        λ k i. (
          λ found. elim (Option-cases (Dict.lookup k r)) [
            | inl missing ↦ absurd (ground arith)
            | inr (f, at) ↦
                let row = c.mapped k f at in
                let here : f.current ≡ i = ground arith in rw (← here) row.2
          ],
          λ live.
              let row = lt_of_get_elem? labels i live.0 in ground (arith, c.complete i k row live),
        ),
      )

  -- For no more labels than the limit, `restore` succeeds exactly if no row that is not deleted has
  -- the reserved label and no two such rows have the same one.
  pub restore_labels_iff : ((m : IdMap) × (restore labels deleted ≡ ok m)) ↔ (
      ((i : ℕ) → ¬ IsLiveRow i invalid_external_id)
      × ((i j k : ℕ) → IsLiveRow i k → IsLiveRow j k → i ≡ j))
  unfolding restore
  restore_labels_iff = (
    λ (m, e).
        let (valid, kept, rows) = restore_labels-IsValid m e in
        (
          λ i live.
              absurd
                (ground (arith, (rows invalid_external_id i).1 live, reserved_not_found valid)),
          λ i j k p q. ground (arith, (rows k i).1 p, (rows k j).1 q),
        ),
    λ (usable, distinct).
        let (r, run) =
          restore_rows-Returns labels (Tombstones.test deleted) small labels 0 []
            (λ j. let z : 0 + j ≡ j = omega arith in rw z)
            (Covers-zero labels (Tombstones.test deleted) small)
            (record { usable = usable; distinct = distinct }) in
        (record { entries = r; labels = labels; live = length r }, rw run refl),
  )
