-- ===== src/Search/VisitedSet/Refinement.antt =====
-- The marked vector implements a set: the ids visited since the last reset.
use vector_forge.Common.{
  ℕ, ◌+◌, ◌-◌, ◌%◌, ◌^◌, ◌<◌, ◌≤◌, ◌≡◌, refl, Bool, false, List, [], ◌∷◌, ◌++◌, ◌||◌, ◌==◌, not,
  if◌then◌else◌, ltb, lt→ltb, length, get_or, replicate, arith, length-append, length-set,
  length-replicate, get_or-set, get_or-append_left, get_or-append_right, get_or-replicate,
  get_or-out, Bool-cases, inl, inr, max, ltb→lt, Option, none, some,
}
use vector_forge.Core.Status.{Result, ok, fatal, Returns, ◌>>=◌}
use vector_forge.Search.VisitedSet.{VisitedSet, fresh, ensure_capacity, reset, visit, visited}

-- `v` stands for the set `s` of ids below `n`.
pub record Represents (v : VisitedSet) (n : ℕ) (s : ℕ → Bool) : Type 0 where
  pub capacity : length v.marks ≡ n
  pub positive : 1 ≤ v.epoch
  pub width : v.epoch < 65536
  pub past : (i : ℕ) → get_or v.marks i 0 ≤ v.epoch
  pub members : (i : ℕ) → visited v i ≡ s i

unseen : (v : VisitedSet) (i : ℕ) → get_or v.marks i 0 < v.epoch → visited v i ≡ false
unfolding visited
unseen v i h = ground arith

pub fresh-Represents : Represents fresh 0 (λ i. false)
fresh-Represents = record {
  capacity = refl;
  positive = omega arith;
  width = omega arith;
  past = λ i. omega arith;
  members = λ i. unseen fresh i (omega arith);
}

module _ (v : VisitedSet) (n : ℕ) (s : ℕ → Bool) (r : Represents v n s) where
  grown_mark : (k i : ℕ) → get_or (v.marks ++ replicate k 0) i 0 ≡ get_or v.marks i 0
  grown_mark k i = elim (Bool-cases (ltb i (length v.marks))) [
    | inl h ↦ get_or-append_left v.marks (replicate k 0) i 0 (ltb→lt _ _ h)
    | inr h ↦
        let past_end : length v.marks ≤ i = ground arith in
        rw
          (
            get_or-append_right v.marks (replicate k 0) i 0 past_end,
            get_or-out v.marks i 0 past_end,
          )
          (get_or-replicate k (i - length v.marks) 0)
  ]

  ensure_capacity-Represents : (c : ℕ) → Represents (ensure_capacity v c) (max n c) s
  unfolding ensure_capacity visited
  ensure_capacity-Represents c = elim (Bool-cases (ltb (length v.marks) c)) [
    | inr h ↦
        rw (h, ensure_capacity)
          (record {
            capacity = ground (arith, r.capacity);
            positive = r.positive;
            width = r.width;
            past = r.past;
            members = r.members;
          })
    | inl h ↦
        let k = c - length v.marks in
        let size : length (v.marks ++ replicate k 0) ≡ c =
          ground (arith, length-append v.marks (replicate k 0), length-replicate {A = ℕ} k 0) in
        rw (h, ensure_capacity)
          (record {
            capacity = ground (arith, size, r.capacity);
            positive = r.positive;
            width = r.width;
            past = λ i. omega (arith, grown_mark k i, r.past i);
            members = λ i.
                ground
                  (arith, size, grown_mark k i, r.members i, r.positive, get_or-out v.marks i 0);
          })
  ]

  reset-Represents : Represents (reset v) n (λ i. false)
  unfolding reset
  reset-Represents = elim (Bool-cases (v.epoch == 65535)) [
    | inl h ↦
        rw (h, reset)
          (record {
            capacity = omega (arith, length-replicate {A = ℕ} (length v.marks) 0, r.capacity);
            positive = omega arith;
            width = omega arith;
            past = λ i. omega (arith, get_or-replicate {A = ℕ} (length v.marks) i 0);
            members =
                λ i. unseen _ i (omega (arith, get_or-replicate {A = ℕ} (length v.marks) i 0));
          })
    | inr h ↦
        let next : (v.epoch + 1) % 2 ^ 16 ≡ v.epoch + 1 = ground (arith, r.width) in
        rw (h, next, reset)
          (record {
            capacity = r.capacity;
            positive = omega arith;
            width = ground (arith, r.width);
            past = λ i. omega (arith, r.past i);
            members = λ i. unseen _ i (omega (arith, r.past i));
          })
  ]

  -- An id below the capacity: the answer is whether it was absent, and it is a member afterwards.
  visit-Represents :
      (id : ℕ)
      → id < n
      → Returns (visit v id) (λ p. (p.0 ≡ not (s id)) × Represents p.1 n (λ i. id == i || s i))
  unfolding visit visited
  visit-Represents id h =
      let inside : id < length v.marks = omega (arith, r.capacity) in
      let at = λ (i : ℕ). get_or-set v.marks id i v.epoch 0 inside in
      let size = length-set v.marks id v.epoch in
      rw (lt→ltb _ _ inside, visit)
        (
          _,
          refl,
          (
            ground (arith, r.members id),
            record {
              capacity = omega (arith, size, r.capacity);
              positive = r.positive;
              width = r.width;
              past = λ i. ground (arith, at i, r.past i);
              members = λ i. ground (arith, at i, size, r.members i);
            },
          ),
        )

-- The operations, and what they do to a set of ids and its capacity.
pub data Operation : Type 0 where
  grow : ℕ → Operation
  restart : Operation
  mark : ℕ → Operation

pub record Model : Type 0 where
  pub capacity : ℕ
  pub member : ℕ → Bool

unfoldable pub perform : Operation → VisitedSet → Result (Bool × VisitedSet)
perform (grow c) v = ok (false, ensure_capacity v c)
perform restart v = ok (false, reset v)
perform (mark i) v = visit v i

-- The model's answer and the model afterwards; nothing where an id is out of range.
unfoldable pub intend : Operation → Model → Option (Bool × Model)
intend (grow c) m = some (false, record m { capacity = max m.capacity c })
intend restart m = some (false, record m { member = λ i. false })
intend (mark i) m =
    if ltb i m.capacity
    then some (not (m.member i), record m { member = λ j. i == j || m.member j })
    else none

unfoldable pub perform_all : List Operation → VisitedSet → Result (List Bool × VisitedSet)
unfolding perform
perform_all [] v = ok ([], v)
perform_all (o ∷ os) v = do
  (answer, after) ← perform o v
  (answers, last) ← perform_all os after
  ok (answer ∷ answers, last)

unfoldable pub intend_all : List Operation → Model → Option (List Bool × Model)
intend_all [] m = some ([], m)
intend_all (o ∷ os) m = elim (intend o m) [
  | none ↦ none
  | some (answer, after) ↦ elim (intend_all os after) [
    | none ↦ none
    | some (answers, last) ↦ some (answer ∷ answers, last)
  ]
]

-- A run against what is intended: the same answers and a set that stands for the model, or the end
-- of the process.
unfoldable pub Agrees : Option (List Bool × Model) → Result (List Bool × VisitedSet) → Type 0
Agrees none r = r ≡ fatal
Agrees (some (answers, m)) r = Returns r (λ p. (p.0 ≡ answers) × Represents p.1 m.capacity m.member)

Answers : Option (Bool × Model) → Result (Bool × VisitedSet) → Type 0
Answers none r = r ≡ fatal
Answers (some (answer, m)) r = Returns r (λ p. (p.0 ≡ answer) × Represents p.1 m.capacity m.member)

perform-Answers :
    (o : Operation) (v : VisitedSet) (m : Model)
    → Represents v m.capacity m.member
    → Answers (intend o m) (perform o v)
unfolding Answers intend perform visit
perform-Answers (grow c) v m r =
    (_, refl, (refl, ensure_capacity-Represents v m.capacity m.member r c))
perform-Answers restart v m r = (_, refl, (refl, reset-Represents v m.capacity m.member r))
perform-Answers (mark i) v m r = elim (Bool-cases (ltb i m.capacity)) [
  | inl h ↦ rw (h, intend, Answers) (visit-Represents v m.capacity m.member r i (ltb→lt _ _ h))
  | inr h ↦
      let out : ltb i (length v.marks) ≡ false = ground (arith, r.capacity) in
      rw (h, out, intend, Answers, visit) refl
]

-- A set that stands for a model, after any operations: where each id is in range, the answers are
-- the model's and the set stands for the model afterwards; otherwise the process ends.
pub perform_all-Agrees :
    (os : List Operation) (v : VisitedSet) (m : Model)
    → Represents v m.capacity m.member
    → Agrees (intend_all os m) (perform_all os v)
unfolding Agrees intend_all perform_all Answers
perform_all-Agrees [] v m r = (_, refl, (refl, r))
perform_all-Agrees (o ∷ os) v m r =
    go (perform_all-Agrees os) (intend o m) (perform o v) (perform-Answers o v m r)
  where
    go :
        ((w : VisitedSet) (k : Model)
          → Represents w k.capacity k.member
          → Agrees (intend_all os k) (perform_all os w))
        → (i : Option (Bool × Model)) (p : Result (Bool × VisitedSet)) → Answers i p
        → Agrees
            (elim i [
              | none ↦ none
              | some (answer, after) ↦ elim (intend_all os after) [
                | none ↦ none
                | some (answers, last) ↦ some (answer ∷ answers, last)
              ]
            ])
            (p >>= λ q. perform_all os q.1 >>= λ s. ok (q.0 ∷ s.0, s.1))
    go next none p a = rw a refl
    go next (some (answer, after)) p ((b, w), e, (same, rep)) =
        rw (e, same) (rest (intend_all os after) (perform_all os w) (next w after rep))
      where
        rest :
            (i : Option (List Bool × Model)) (q : Result (List Bool × VisitedSet))
            → Agrees i q
            → Agrees
                (elim i [ none ↦ none | some (answers, last) ↦ some (answer ∷ answers, last) ])
                (q >>= λ s. ok (answer ∷ s.0, s.1))
        rest none q a = rw a refl
        rest (some (answers, last)) q ((bs, w'), e', (same', rep')) =
            rw (e', same') (_, refl, (refl, rep'))
