-- ===== src/Collection/Commands.antt =====
-- Sequences of calls to a collection, and the map from ids to vectors that it stands for.
use vector_forge.Common.{
  ℕ, subst, ◌≡◌, refl, sym, ap, ◌∙◌, Bool, Option, none, some, List, [], ◌∷◌, ◌==◌, if◌then◌else◌,
  inl, inr, ◌⊎◌,
}
use vector_forge.Core.Status.{Result, ErrorCode, ok, err, Returns, ◌>>=◌, not_found}
use vector_forge.Search.Order.{FloatOrder}
use vector_forge.Collection.State.{Platform, CollectionState, lookup}
use vector_forge.Collection.Insert.{add, prepare_row}
use vector_forge.Collection.Edit.{CompactStats, get, remove, compact}
use vector_forge.Collection.Invariant.{IsValid}
use vector_forge.Collection.Adding.{add-Stores}
use vector_forge.Collection.Removing.{found, get-lookup, remove-Removes}
use vector_forge.Collection.Compacting.{compact-Compacted}

pub data Command (F : Type 0) : Type 0 where
  put : ℕ → List F → Bool → Command F
  drop_id : ℕ → Command F
  fetch : ℕ → Command F
  shrink : Command F

pub data Answer (F : Type 0) : Type 0 where
  finished : Result (Unit {0}) → Answer F
  fetched : Result (List F) → Answer F
  shrunk : Result CompactStats → Answer F

-- What a collection stands for.
abbrev pub Vectors : Type 0 → Type 0
Vectors F = ℕ → Option (List F)

abbrev pub answer_of : {F : Type 0} → Option (List F) → Result (List F)
answer_of none = err not_found
answer_of (some row) = ok row

module _ {F H : Type 0} (p : Platform F H) ⦃o : FloatOrder F⦄ where
  unfoldable pub perform : Command F → CollectionState F H → Result (Answer F × CollectionState F H)
  perform (put k vector upsert) s = do
    (status, t) ← add p s k vector upsert
    ok (finished status, t)
  perform (drop_id k) s = do (status, t) ← remove p s k; ok (finished status, t)
  perform (fetch k) s = ok (fetched (get p s k), s)
  perform shrink s = do (stats, t) ← compact p s; ok (shrunk stats, t)

  unfoldable pub perform_all :
      List (Command F) → CollectionState F H → Result (List (Answer F) × CollectionState F H)
  unfolding perform
  perform_all [] s = ok ([], s)
  perform_all (c ∷ cs) s = do
    (a, t) ← perform c s
    (answers, u) ← perform_all cs t
    ok (a ∷ answers, u)

  module _ (s : CollectionState F H) where
    abbrev pub Unchanged : Vectors F → Vectors F → Type 0
    Unchanged m n = (j : ℕ) → n j ≡ m j

    abbrev pub Assigned : ℕ → Option (List F) → Vectors F → Vectors F → Type 0
    Assigned k v m n = (j : ℕ) → n j ≡ (if j == k then v else m j)

    -- What a map from ids to vectors may answer to a call, and the map afterwards. An insert may be
    -- refused, a removal only for an id that has no vector.
    abbrev pub Allows : Vectors F → Command F → Answer F → Vectors F → Type 0
    Allows m (put k vector upsert) a n =
        ((row : List F) × (prepare_row p s vector ≡ ok row)
          × (a ≡ finished (ok tt))
          × Assigned k (some row) m n)
        ⊎ ((e : ErrorCode) × (a ≡ finished (err e)) × Unchanged m n)
    Allows m (drop_id k) a n =
        ((m k ≡ none) × (a ≡ finished (err not_found)) × Unchanged m n)
        ⊎ ((row : List F) × (m k ≡ some row) × (a ≡ finished (ok tt)) × Assigned k none m n)
    Allows m (fetch k) a n = (a ≡ fetched (answer_of (m k))) × Unchanged m n
    Allows m shrink a n = ((r : Result CompactStats) × (a ≡ shrunk r)) × Unchanged m n

    -- The answers to a sequence of calls, each allowed by the map that the ones before leave.
    abbrev pub AllowsAll : Vectors F → List (Command F) → List (Answer F) → Vectors F → Type 0
    AllowsAll m [] [] n = Unchanged m n
    AllowsAll m [] (a ∷ answers) n = ⊥
    AllowsAll m (c ∷ cs) [] n = ⊥
    AllowsAll m (c ∷ cs) (a ∷ answers) n =
        (l : Vectors F) × Allows m c a l × AllowsAll l cs answers n

    -- A valid collection of the configuration, with the vectors of the map.
    pub record Refines (m : Vectors F) (t : CollectionState F H) : Type 0 where
      pub valid : IsValid p t
      pub config : t.config ≡ s.config
      pub vectors : (j : ℕ) → lookup p t j ≡ m j

    prepare_row-config :
        (t : CollectionState F H) (vector : List F)
        → t.config ≡ s.config
        → prepare_row p t vector ≡ prepare_row p s vector
    unfolding prepare_row
    prepare_row-config t vector e = rw e refl

    put-Allows :
        (m : Vectors F) (t : CollectionState F H) (k : ℕ) (vector : List F) (upsert : Bool)
        → Refines m t
        → Returns
            (perform (put k vector upsert) t)
            (λ q. (n : Vectors F) × Allows m (put k vector upsert) q.0 n × Refines n q.1)
    unfolding perform
    put-Allows m t k vector upsert r =
        let (q, done, outcome) = add-Stores p t r.valid k upsert vector in
        rw (done, perform)
          (elim outcome [
            | inl (row, prepared, inl (stored, i)) ↦ (
              _,
              refl,
              (
                (λ j. if j == k then some row else m j),
                inl (
                  row,
                  sym (prepare_row-config t vector r.config) ∙ prepared,
                  ap finished stored,
                  λ j. refl,
                ),
                record {
                  valid = i.valid;
                  config = i.config ∙ r.config;
                  vectors =
                      λ j. i.lookups j ∙ ap (λ v. if j == k then some row else v) (r.vectors j);
                },
              ),
            )
            | inl (row, prepared, inr (e, failed, same)) ↦ (
              _,
              refl,
              (
                m,
                inr (e, ap finished failed, λ j. refl),
                record {
                  valid = same.valid;
                  config = same.config ∙ r.config;
                  vectors = λ j. same.lookups j ∙ r.vectors j;
                },
              ),
            )
            | inr (e, failed, same) ↦ (
              _,
              refl,
              (
                m,
                inr (e, ap (λ x. finished x.0) same, λ j. refl),
                subst (λ x. Refines m x.1) (sym same) r,
              ),
            )
          ])

    drop_id-Allows :
        (m : Vectors F) (t : CollectionState F H) (k : ℕ)
        → Refines m t
        → Returns
            (perform (drop_id k) t)
            (λ q. (n : Vectors F) × Allows m (drop_id k) q.0 n × Refines n q.1)
    unfolding perform
    drop_id-Allows m t k r =
        let (q, done, outcome) = remove-Removes p t r.valid k in
        rw (done, perform)
          (elim outcome [
            | inl (none_, same) ↦ (
              _,
              refl,
              (
                m,
                inl (sym (r.vectors k) ∙ none_, ap (λ x. finished x.0) same, λ j. refl),
                subst (λ x. Refines m x.1) (sym same) r,
              ),
            )
            | inr (row, there, removed_, i) ↦ (
              _,
              refl,
              (
                (λ j. if j == k then none else m j),
                inr (row, sym (r.vectors k) ∙ there, ap finished removed_, λ j. refl),
                record {
                  valid = i.valid;
                  config = i.config ∙ r.config;
                  vectors = λ j. i.lookups j ∙ ap (λ v. if j == k then none else v) (r.vectors j);
                },
              ),
            )
          ])

    shrink-Allows :
        (m : Vectors F) (t : CollectionState F H)
        → Refines m t
        → Returns (perform shrink t) (λ q. (n : Vectors F) × Allows m shrink q.0 n × Refines n q.1)
    unfolding perform
    shrink-Allows m t r =
        let (q, done, outcome) = compact-Compacted p t r.valid in
        let kept : Refines m q.1 = elim outcome [
          | inl (none_, same, stats) ↦ subst (Refines m) (sym same) r
          | inr (inl (e, same, why)) ↦ subst (λ x. Refines m x.1) (sym same) r
          | inr (inr (stats, i)) ↦ record {
            valid = i.valid;
            config = i.config ∙ r.config;
            vectors = λ j. i.lookups j ∙ r.vectors j;
          }
        ] in
        rw (done, perform) (_, refl, (m, ((q.0, refl), λ j. refl), kept))

    perform-Allows :
        (m : Vectors F) (c : Command F) (t : CollectionState F H)
        → Refines m t
        → Returns (perform c t) (λ q. (n : Vectors F) × Allows m c q.0 n × Refines n q.1)
    unfolding perform
    perform-Allows m (put k vector upsert) t r = put-Allows m t k vector upsert r
    perform-Allows m (drop_id k) t r = drop_id-Allows m t k r
    perform-Allows m (fetch k) t r = (
      (fetched (get p t k), t),
      refl,
      (
        m,
        (
          ap fetched (get-lookup p t r.valid k ∙ found-answer_of _ ∙ ap answer_of (r.vectors k)),
          λ j. refl,
        ),
        r,
      ),
    )
      where
        found-answer_of : (v : Option (List F)) → found p t r.valid k v ≡ answer_of v
        found-answer_of none = refl
        found-answer_of (some row) = refl
    perform-Allows m shrink t r = shrink-Allows m t r

    run-AllowsAll :
        (cs : List (Command F)) (m : Vectors F) (t : CollectionState F H)
        → Refines m t
        → Returns (perform_all cs t) (λ q. (n : Vectors F) × AllowsAll m cs q.0 n × Refines n q.1)
    unfolding perform_all
    run-AllowsAll [] m t r = (([], t), refl, (m, (λ j. refl), r))
    run-AllowsAll (c ∷ cs) m t r =
        let (q, done, (l, allowed, refines)) = perform-Allows m c t r in
        let (u, rest, (n, others, final)) = run-AllowsAll cs l q.1 refines in
        rw (done, perform_all) (rw rest ((q.0 ∷ u.0, u.1), refl, (n, (l, allowed, others), final)))

    -- Any sequence of `add`, `remove`, `get` and `compact` on a valid collection returns answers
    -- that a map from ids to vectors allows, starting at the collection's, and leaves a valid
    -- collection of the same configuration with the vectors of the map afterwards. The map lets an
    -- insert be refused, with no effect, and fails a removal or a lookup exactly for an id without
    -- a vector; it does not change at a compaction or a lookup.
    pub perform_all-Refines :
        (cs : List (Command F))
        → IsValid p s
        → Returns
            (perform_all cs s)
            (λ q. (n : Vectors F) × AllowsAll (lookup p s) cs q.0 n × Refines n q.1)
    perform_all-Refines cs v =
        run-AllowsAll cs (lookup p s) s (record { valid = v; config = refl; vectors = λ j. refl })
