-- ===== src/Index/NeighborSelect/Choice.antt =====
-- What the heuristic selects: candidates that are apart from each other, as many as fit.
use vector_forge.Common.{
  ℕ, ◌+◌, ◌<◌, ◌≤◌, ◌≡◌, refl, sym, ap, ◌∙◌, Bool, true, false, List, [], ◌∷◌, ◌++◌, ◌==◌, length,
  min, arith, Bool-cases, inl, inr, ◌⊎◌, if◌then◌else◌, length-append,
}
use vector_forge.Search.Order.{FloatOrder, Scored}
use vector_forge.Index.NeighborSelect.{heuristic, is_good, select_loop, refill, select_neighbors}

-- How many entries pass a test.
unfoldable pub occurrences : {A : Type 0} → (A → Bool) → List A → ℕ
occurrences test [] = 0
occurrences test (x ∷ l) = (if test x then 1 else 0) + occurrences test l

occurrences-append :
    {A : Type 0} (test : A → Bool) (l r : List A)
    → occurrences test (l ++ r) ≡ occurrences test l + occurrences test r
unfolding occurrences
occurrences-append test [] r = omega arith
occurrences-append test (x ∷ l) r = omega (arith, occurrences-append test l r)

occurrences-last :
    {A : Type 0} (test : A → Bool) (l : List A) (x : A)
    → occurrences test (l ++ x ∷ []) ≡ occurrences test l + (if test x then 1 else 0)
unfolding occurrences
occurrences-last test l x = omega (arith, occurrences-append test l (x ∷ []))

append-last : {A : Type 0} (l : List A) (x : A) (r : List A) → (l ++ x ∷ []) ++ r ≡ l ++ x ∷ r
append-last [] x r = refl
append-last (y ∷ l) x r = ap (λ k. y ∷ k) (append-last l x r)

append-nil : {A : Type 0} (l : List A) → l ++ [] ≡ l
append-nil [] = refl
append-nil (x ∷ l) = ap (λ k. x ∷ k) (append-nil l)

abbrev pub In : {A : Type 0} → A → List A → Type 0
In x [] = ⊥
In x (y ∷ l) = (x ≡ y) ⊎ In x l

In-last : {A : Type 0} (l : List A) (x : A) (r : List A) → In x (l ++ x ∷ r)
In-last [] x r = inl refl
In-last (y ∷ l) x r = inr (In-last l x r)

module _ {F : Type 0} ⦃o : FloatOrder F⦄ (distance : ℕ → ℕ → F) where
  -- The base is no farther from `c` than any entry of the list is.
  abbrev pub Apart : Scored F → List (Scored F) → Type 0
  Apart c [] = Unit {0}
  Apart c (x ∷ l) = (o.lt (distance c.id x.id) c.distance ≡ false) × Apart c l

  -- Some entry of the list is closer to `c` than the base is.
  abbrev pub Crowded : Scored F → List (Scored F) → Type 0
  Crowded c [] = ⊥
  Crowded c (x ∷ l) = (o.lt (distance c.id x.id) c.distance ≡ true) ⊎ Crowded c l

  is_good-Apart : (c : Scored F) (l : List (Scored F)) → is_good distance c l ≡ true → Apart c l
  unfolding is_good
  is_good-Apart c [] h = tt
  is_good-Apart c (x ∷ l) h = elim (Bool-cases (o.lt (distance c.id x.id) c.distance)) [
    | inl near ↦ absurd (ground (arith, near))
    | inr far ↦ (far, is_good-Apart c l (ground (arith, far)))
  ]

  is_good-Crowded :
      (c : Scored F) (l : List (Scored F)) → is_good distance c l ≡ false → Crowded c l
  unfolding is_good
  is_good-Crowded c [] h = absurd (cc h)
  is_good-Crowded c (x ∷ l) h = elim (Bool-cases (o.lt (distance c.id x.id) c.distance)) [
    | inl near ↦ inl near
    | inr far ↦ inr (is_good-Crowded c l (ground (arith, far)))
  ]

  Crowded-append : (c : Scored F) (l r : List (Scored F)) → Crowded c l → Crowded c (l ++ r)
  Crowded-append c [] r h = elim h [ ]
  Crowded-append c (x ∷ l) r (inl near) = inl near
  Crowded-append c (x ∷ l) r (inr h) = inr (Crowded-append c l r h)

  -- Each entry is apart from `before` and from the entries ahead of it.
  abbrev pub Diverse : List (Scored F) → List (Scored F) → Type 0
  Diverse before [] = Unit {0}
  Diverse before (c ∷ l) = Apart c before × Diverse (before ++ c ∷ []) l

  -- Each candidate is selected, or some selected one is closer to it than the base.
  abbrev pub Decided : List (Scored F) → List (Scored F) → Type 0
  Decided out [] = Unit {0}
  Decided out (c ∷ l) = (In c out ⊎ Crowded c out) × Decided out l

  pub record Looped (m : ℕ) (keep : Bool) (sorted out discarded : List (Scored F))
      (r : List (Scored F) × List (Scored F)) : Type 0 where
    picked : List (Scored F)
    accepted : r.0 ≡ out ++ picked
    diverse : Diverse out picked
    bounded : length out ≤ m → length r.0 ≤ m
    counts :
        (test : Scored F → Bool)
        → occurrences test r.0 + occurrences test r.1
          ≤ occurrences test out + occurrences test discarded + occurrences test sorted
    sizes : length r.0 + length r.1 ≤ length out + length discarded + length sorted
    total :
        keep ≡ true
        → (length r.0 ≡ m)
          ⊎ (length r.0 + length r.1 ≡ length out + length discarded + length sorted)
    maximal : length r.0 < m → Decided r.0 sorted

  module _ (m : ℕ) (keep : Bool) (c : Scored F) (sorted out discarded : List (Scored F))
      (r : List (Scored F) × List (Scored F)) where
    Looped-picked :
        is_good distance c out ≡ true
        → length out < m
        → Looped m keep sorted (out ++ c ∷ []) discarded r
        → Looped m keep (c ∷ sorted) out discarded r
    unfolding occurrences
    Looped-picked good room l =
        let longer = length-append out (c ∷ []) in
        let shape = l.accepted ∙ append-last out c l.picked in
        record {
          picked = c ∷ l.picked;
          accepted = shape;
          diverse = (is_good-Apart c out good, l.diverse);
          bounded = λ h. l.bounded (omega (arith, longer));
          counts = λ test. omega (arith, l.counts test, occurrences-last test out c);
          sizes = omega (arith, l.sizes, longer);
          total = λ k. ground (arith, l.total k, longer);
          maximal = λ h. (inl (rw shape (In-last out c l.picked)), l.maximal h);
        }

    Looped-pruned :
        is_good distance c out ≡ false
        → Looped m keep sorted out (if keep then discarded ++ c ∷ [] else discarded) r
        → Looped m keep (c ∷ sorted) out discarded r
    unfolding occurrences
    Looped-pruned bad l =
        let longer = length-append discarded (c ∷ []) in
        record {
          picked = l.picked;
          accepted = l.accepted;
          diverse = l.diverse;
          bounded = l.bounded;
          counts = λ test. ground (arith, l.counts test, occurrences-last test discarded c);
          sizes = ground (arith, l.sizes, longer);
          total = λ k. ground (arith, l.total k, longer);
          maximal = λ h. (
            inr (rw l.accepted (Crowded-append c out l.picked (is_good-Crowded c out bad))),
            l.maximal h,
          );
        }

  select_loop-Looped :
      (m : ℕ) (keep : Bool) (sorted out discarded : List (Scored F))
      → length out ≤ m
      → Looped m keep sorted out discarded (select_loop distance m keep sorted out discarded)
  unfolding select_loop occurrences
  select_loop-Looped m keep [] out discarded h = record {
    picked = [];
    accepted = sym (append-nil out);
    diverse = tt;
    bounded = λ k. k;
    counts = λ test. omega arith;
    sizes = omega arith;
    total = λ k. inr (omega arith);
    maximal = λ k. tt;
  }
  select_loop-Looped m keep (c ∷ sorted) out discarded h = elim (Bool-cases (length out == m)) [
    | inl full ↦ rw full (record {
      picked = [];
      accepted = sym (append-nil out);
      diverse = tt;
      bounded = λ k. k;
      counts = λ test. omega arith;
      sizes = omega arith;
      total = λ k. inl (ground arith);
      maximal = λ k. absurd (ground arith);
    })
    | inr more ↦ elim (Bool-cases (is_good distance c out)) [
      | inl good ↦
          let room : length out < m = ground arith in
          let longer : length (out ++ c ∷ []) ≤ m = omega (arith, length-append out (c ∷ [])) in
          rw (more, good)
            (Looped-picked m keep c sorted out discarded _ good room
              (select_loop-Looped m keep sorted (out ++ c ∷ []) discarded longer))
      | inr bad ↦
          rw (more, bad)
            (Looped-pruned m keep c sorted out discarded _ bad (
              select_loop-Looped m keep sorted out (if keep then discarded ++ c ∷ [] else discarded)
                h))
    ]
  ]

  record Refilled (m : ℕ) (discarded out r : List (Scored F)) : Type 0 where
    added : List (Scored F)
    shape : r ≡ out ++ added
    counts :
        (test : Scored F → Bool)
        → occurrences test r ≤ occurrences test out + occurrences test discarded
    size : length r ≡ min m (length out + length discarded)

  refill-Refilled :
      (m : ℕ) (discarded out : List (Scored F))
      → length out ≤ m
      → Refilled m discarded out (refill distance m discarded out)
  unfolding refill occurrences
  refill-Refilled m [] out h = record {
    added = [];
    shape = sym (append-nil out);
    counts = λ test. omega arith;
    size = omega arith;
  }
  refill-Refilled m (c ∷ discarded) out h = elim (Bool-cases (length out == m)) [
    | inl full ↦ rw full (record {
      added = [];
      shape = sym (append-nil out);
      counts = λ test. omega arith;
      size = ground arith;
    })
    | inr more ↦
        let longer = length-append out (c ∷ []) in
        let r = refill-Refilled m discarded (out ++ c ∷ []) (ground (arith, longer)) in
        rw more (record {
          added = c ∷ r.added;
          shape = r.shape ∙ append-last out c r.added;
          counts = λ test. omega (arith, r.counts test, occurrences-last test out c);
          size = r.size ∙ ap (min m) (omega (arith, longer));
        })
  ]

  -- A selection: the accepted candidates, and behind them the pruned ones that are taken again.
  pub record Selected (sorted : List (Scored F)) (m : ℕ) (keep : Bool) (out : List (Scored F))
      : Type 0 where
    pub accepted : List (Scored F)
    pub refilled : List (Scored F)
    pub shape : out ≡ accepted ++ refilled
    pub diverse : Diverse [] accepted
    pub maximal : length accepted < m → Decided accepted sorted
    pub bounded : length out ≤ m
    pub counts : (test : Scored F → Bool) → occurrences test out ≤ occurrences test sorted
    pub none_refilled : keep ≡ false → refilled ≡ []
    pub filled : keep ≡ true → length out ≡ min m (length sorted)

  -- The heuristic selection is a list of accepted candidates, then of pruned ones taken again. It
  -- has at most `m` entries, and no more entries that pass a test than the candidates have,
  -- whatever the test. Each accepted candidate is no farther from the base than from any accepted
  -- before it. While fewer than `m` are accepted, each candidate is accepted or farther from the
  -- base than from some accepted one. Without `keep` no pruned one is taken again, and with it
  -- there are `m` entries, or as many as candidates if these are fewer.
  pub select_neighbors-Selected :
      (sorted : List (Scored F)) (m : ℕ) (keep : Bool)
      → Selected sorted m keep (select_neighbors distance sorted m heuristic keep)
  unfolding select_neighbors occurrences
  select_neighbors-Selected sorted m false =
      let l = select_loop-Looped m false sorted [] [] (omega arith) in
      record {
        accepted = l.picked;
        refilled = [];
        shape = l.accepted ∙ sym (append-nil l.picked);
        diverse = l.diverse;
        maximal = rw (← l.accepted) l.maximal;
        bounded = l.bounded (omega arith);
        counts = λ test. omega (arith, l.counts test);
        none_refilled = λ k. refl;
        filled = λ k. absurd (cc k);
      }
  select_neighbors-Selected sorted m true =
      let l = select_loop-Looped m true sorted [] [] (omega arith) in
      let looped = select_loop distance m true sorted [] [] in
      let r = refill-Refilled m looped.1 looped.0 (l.bounded (omega arith)) in
      record {
        accepted = l.picked;
        refilled = r.added;
        shape = r.shape ∙ ap (λ k. k ++ r.added) l.accepted;
        diverse = l.diverse;
        maximal = rw (← l.accepted) l.maximal;
        bounded = omega (arith, r.size);
        counts = λ test. omega (arith, l.counts test, r.counts test);
        none_refilled = λ k. absurd (cc k);
        filled = λ k. elim (l.total refl) [
          | inl full ↦ omega (arith, full, r.size, l.sizes)
          | inr all ↦ omega (arith, all, r.size)
        ];
      }
