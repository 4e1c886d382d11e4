-- ===== src/Collection/Keys/Sorting.antt =====
-- The test of a batch's ids accepts exactly the distinct ids without the reserved one.
use vector_forge.Common.{
  ℕ, ◌<◌, ◌≤◌, ◌≡◌, ◌≢◌, ◌↔◌, refl, sym, false, List, [], ◌∷◌, ◌==◌, leb, arith, Bool-cases, inl,
  inr,
}
use vector_forge.Core.Status.{ok}
use vector_forge.Core.Types.{invalid_external_id}
use vector_forge.Collection.Keys.{
  insert_sorted, sort, has_adjacent, back, check_keys, Absent, Distinct,
}

-- No id of the list is above `m`, or below it.
abbrev pub AtMost : ℕ → List ℕ → Type 0
AtMost m [] = Unit {0}
AtMost m (y ∷ l) = (y ≤ m) × AtMost m l

abbrev AtLeast : ℕ → List ℕ → Type 0
AtLeast m [] = Unit {0}
AtLeast m (y ∷ l) = (m ≤ y) × AtLeast m l

abbrev IsSorted : List ℕ → Type 0
IsSorted [] = Unit {0}
IsSorted (x ∷ l) = AtLeast x l × IsSorted l

AtLeast-mono : (m n : ℕ) (l : List ℕ) → m ≤ n → AtLeast n l → AtLeast m l
AtLeast-mono m n [] h a = tt
AtLeast-mono m n (y ∷ l) h a = (omega arith, AtLeast-mono m n l h a.1)

AtLeast-insert_sorted : (m x : ℕ) (l : List ℕ) → m ≤ x → AtLeast m l → AtLeast m (insert_sorted x l)
unfolding insert_sorted
AtLeast-insert_sorted m x [] h a = (h, tt)
AtLeast-insert_sorted m x (y ∷ l) h a = ground (arith, AtLeast-insert_sorted m x l h a.1)

insert_sorted-IsSorted : (x : ℕ) (l : List ℕ) → IsSorted l → IsSorted (insert_sorted x l)
unfolding insert_sorted
insert_sorted-IsSorted x [] s = (tt, tt)
insert_sorted-IsSorted x (y ∷ l) s = elim (Bool-cases (leb x y)) [
  | inl le ↦ rw le ((ground arith, AtLeast-mono x y l (ground arith) s.0), (s.0, s.1))
  | inr gt ↦ rw gt (AtLeast-insert_sorted y x l (ground arith) s.0, insert_sorted-IsSorted x l s.1)
]

sort-IsSorted : (l : List ℕ) → IsSorted (sort l)
unfolding sort
sort-IsSorted [] = tt
sort-IsSorted (x ∷ l) = insert_sorted-IsSorted x (sort l) (sort-IsSorted l)

Absent-of_below : (x y : ℕ) (l : List ℕ) → x < y → AtLeast y l → Absent x l
Absent-of_below x y [] h a = tt
Absent-of_below x y (z ∷ l) h a = ((λ e. absurd (omega arith)), Absent-of_below x y l h a.1)

-- A sorted list without equal neighbours has no equal entries.
Distinct-of_sorted : (l : List ℕ) → IsSorted l → has_adjacent l ≡ false → Distinct l
unfolding has_adjacent
Distinct-of_sorted [] s h = tt
Distinct-of_sorted (x ∷ []) s h = (tt, tt)
Distinct-of_sorted (x ∷ y ∷ l) s h =
    let less : x < y = ground arith in
    (
      ((λ e. absurd (omega arith)), Absent-of_below x y l less s.1.0),
      Distinct-of_sorted (y ∷ l) s.1 (ground arith),
    )

has_adjacent-Distinct : (l : List ℕ) → Distinct l → has_adjacent l ≡ false
unfolding has_adjacent
has_adjacent-Distinct [] d = refl
has_adjacent-Distinct (x ∷ []) d = refl
has_adjacent-Distinct (x ∷ y ∷ l) d =
    let ne : (x == y) ≡ false = ground (arith, d.0.0) in rw ne (has_adjacent-Distinct (y ∷ l) d.1)

-- Insertion changes neither what is absent nor whether entries are distinct.
Absent-insert_sorted :
    (a x : ℕ) (l : List ℕ) → Absent a (insert_sorted x l) ↔ ((a ≢ x) × Absent a l)
unfolding insert_sorted
Absent-insert_sorted a x [] = (λ h. (h.0, tt), λ h. (h.0, tt))
Absent-insert_sorted a x (y ∷ l) = elim (Bool-cases (leb x y)) [
  | inl le ↦ rw le (λ h. h, λ h. h)
  | inr gt ↦
      let rest = Absent-insert_sorted a x l in
      rw gt (λ h. ((rest.0 h.1).0, (h.0, (rest.0 h.1).1)), λ h. (h.1.0, rest.1 (h.0, h.1.1)))
]

Distinct-insert_sorted :
    (x : ℕ) (l : List ℕ) → Distinct (insert_sorted x l) ↔ (Absent x l × Distinct l)
unfolding insert_sorted
Distinct-insert_sorted x [] = (λ h. (tt, tt), λ h. (tt, tt))
Distinct-insert_sorted x (y ∷ l) = elim (Bool-cases (leb x y)) [
  | inl le ↦ rw le (λ h. h, λ h. h)
  | inr gt ↦
      let rest = Distinct-insert_sorted x l in
      let at = Absent-insert_sorted y x l in
      rw gt (
        λ h. (((λ e. (at.0 h.0).0 (sym e)), (rest.0 h.1).0), ((at.0 h.0).1, (rest.0 h.1).1)),
        λ h. (at.1 ((λ e. h.0.0 (sym e)), h.1.0), rest.1 (h.0.1, h.1.1)),
      )
]

Absent-sort : (a : ℕ) (l : List ℕ) → Absent a (sort l) ↔ Absent a l
unfolding sort
Absent-sort a [] = (λ h. h, λ h. h)
Absent-sort a (x ∷ l) =
    let here = Absent-insert_sorted a x (sort l) in
    let rest = Absent-sort a l in
    (λ h. ((here.0 h).0, rest.0 (here.0 h).1), λ h. here.1 (h.0, rest.1 h.1))

Distinct-sort : (l : List ℕ) → Distinct (sort l) ↔ Distinct l
unfolding sort
Distinct-sort [] = (λ h. h, λ h. h)
Distinct-sort (x ∷ l) =
    let here = Distinct-insert_sorted x (sort l) in
    let rest = Distinct-sort l in
    let at = Absent-sort x l in
    (λ h. (at.0 (here.0 h).0, rest.0 (here.0 h).1), λ h. here.1 (at.1 h.0, rest.1 h.1))

-- The last entry of a sorted list is the greatest.
back-greatest : (m : ℕ) (l : List ℕ) → IsSorted l → AtMost m l → back l ≢ m → Absent m l
unfolding back
back-greatest m [] s a h = tt
back-greatest m (x ∷ []) s a h = ((λ e. h (sym e)), tt)
back-greatest m (x ∷ y ∷ l) s a h =
    let rest = back-greatest m (y ∷ l) s.1 a.1 h in
    ((λ e. absurd (rest.0 (omega (arith, e, s.0.0, a.1.0)))), rest)

Absent-back : (m x : ℕ) (l : List ℕ) → Absent m (x ∷ l) → back (x ∷ l) ≢ m
unfolding back
Absent-back m x [] a h = a.0 (sym h)
Absent-back m x (y ∷ l) a h = Absent-back m y l a.1 h

AtMost-insert_sorted : (m x : ℕ) (l : List ℕ) → x ≤ m → AtMost m l → AtMost m (insert_sorted x l)
unfolding insert_sorted
AtMost-insert_sorted m x [] h a = (h, tt)
AtMost-insert_sorted m x (y ∷ l) h a = ground (arith, AtMost-insert_sorted m x l h a.1)

AtMost-sort : (m : ℕ) (l : List ℕ) → AtMost m l → AtMost m (sort l)
unfolding sort
AtMost-sort m [] a = tt
AtMost-sort m (x ∷ l) a = AtMost-insert_sorted m x (sort l) a.0 (AtMost-sort m l a.1)

insert_sorted-pos : (x : ℕ) (l : List ℕ) → insert_sorted x l ≢ []
unfolding insert_sorted
insert_sorted-pos x [] e = cc
insert_sorted-pos x (y ∷ l) e = ground arith

sort-pos : (x : ℕ) (l : List ℕ) → sort (x ∷ l) ≢ []
unfolding sort
sort-pos x l = insert_sorted-pos x (sort l)

-- Every id is a number of 64 bits.
abbrev pub Narrow : List ℕ → Type 0
Narrow ids = AtMost invalid_external_id ids

back_of_some : (k : List ℕ) → (k ≢ []) → Absent invalid_external_id k → back k ≢ invalid_external_id
back_of_some [] ne a = absurd (ne refl)
back_of_some (y ∷ k) ne a = Absent-back invalid_external_id y k a

back-sort_iff :
    (x : ℕ) (l : List ℕ)
    → Narrow (x ∷ l)
    → (back (sort (x ∷ l)) ≢ invalid_external_id) ↔ Absent invalid_external_id (x ∷ l)
back-sort_iff x l narrow = (
  λ h. (Absent-sort invalid_external_id (x ∷ l)).0 (
      back-greatest invalid_external_id (sort (x ∷ l)) (sort-IsSorted (x ∷ l))
        (AtMost-sort invalid_external_id (x ∷ l) narrow) h),
  λ h. back_of_some (sort (x ∷ l)) (sort-pos x l) ((Absent-sort invalid_external_id (x ∷ l)).1 h),
)

-- For a batch of ids that is not empty, of 64 bits each: the test of the sorted copy passes exactly
-- when the ids are distinct and none is the reserved one.
pub check_keys_iff :
    (x : ℕ) (l : List ℕ)
    → Narrow (x ∷ l)
    → (check_keys (x ∷ l) ≡ ok tt) ↔ (Distinct (x ∷ l) × Absent invalid_external_id (x ∷ l))
unfolding check_keys
check_keys_iff x l narrow =
    let s = sort (x ∷ l) in
    (
      λ h.
          let fine : has_adjacent s ≡ false = ground arith in
          let free : back s ≢ invalid_external_id = λ e. absurd (ground arith) in
          (
            (Distinct-sort (x ∷ l)).0 (Distinct-of_sorted s (sort-IsSorted (x ∷ l)) fine),
            (back-sort_iff x l narrow).0 free,
          ),
      λ h.
          let fine = has_adjacent-Distinct s ((Distinct-sort (x ∷ l)).1 h.0) in
          let free = (back-sort_iff x l narrow).1 h.1 in ground arith,
    )
