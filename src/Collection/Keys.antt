-- ===== src/Collection/Keys.antt =====
-- src/collection/collection.cpp, add_batch: the test of a batch's ids on a sorted copy. `sort` stands
-- for std::sort; `has_adjacent` for std::adjacent_find.
pub mod Sorting
use vector_forge.Common.{
  ℕ, zero, suc, ◌+◌, ◌-◌, ◌<◌, ◌≤◌, ◌^◌, ◌≡◌, ◌≢◌, ◌↔◌, refl, sym, Bool, true, false, List, [], ◌∷◌,
  ◌==◌, ◌||◌, not, leb, if◌then◌else◌, ◌⊎◌, refl, inl, inr, Bool-cases, get_or, length, arith,
  Bool-cases, inl, inr,
}
use vector_forge.Core.Status.{Status, ErrorCode, ok, err, ◌>>◌, require, invalid_argument}
use vector_forge.Core.Types.{invalid_external_id}

unfoldable pub insert_sorted : ℕ → List ℕ → List ℕ
insert_sorted x [] = x ∷ []
insert_sorted x (y ∷ l) = if leb x y then x ∷ y ∷ l else y ∷ insert_sorted x l

unfoldable pub sort : List ℕ → List ℕ
unfolding insert_sorted
sort [] = []
sort (x ∷ l) = insert_sorted x (sort l)

unfoldable pub has_adjacent : List ℕ → Bool
has_adjacent [] = false
has_adjacent (x ∷ []) = false
has_adjacent (x ∷ y ∷ l) = x == y || has_adjacent (y ∷ l)

-- `sorted.back()` of a list that is not empty.
unfoldable pub back : List ℕ → ℕ
back [] = 0
back (x ∷ []) = x
back (x ∷ y ∷ l) = back (y ∷ l)

unfoldable pub check_keys : List ℕ → Status
unfolding sort has_adjacent back
check_keys ids =
    require (not (has_adjacent (sort ids))) invalid_argument
    >> require (not (back (sort ids) == invalid_external_id)) invalid_argument

-- No id of the list is `x`.
abbrev pub Absent : ℕ → List ℕ → Type 0
Absent x [] = Unit {0}
Absent x (y ∷ l) = (x ≢ y) × Absent x l

abbrev pub Distinct : List ℕ → Type 0
Distinct [] = Unit {0}
Distinct (x ∷ l) = Absent x l × Distinct l

-- The test of the keys passes or fails.
pub check_keys-cases :
    (ids : List ℕ) → ((e : ErrorCode) × (check_keys ids ≡ err e)) ⊎ (check_keys ids ≡ ok tt)
unfolding check_keys
check_keys-cases ids = elim (Bool-cases (has_adjacent (sort ids))) [
  | inl twice ↦ inl (invalid_argument, rw (twice, check_keys) refl)
  | inr distinct ↦ elim (Bool-cases (back (sort ids) == invalid_external_id)) [
    | inl reserved ↦ inl (invalid_argument, rw (distinct, reserved, check_keys) refl)
    | inr free ↦ inr (rw (distinct, free, check_keys) refl)
  ]
]
