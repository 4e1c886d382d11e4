-- ===== src/Core/Validation.antt =====
-- src/core/validation.cpp: the tests of vectors at the interface. The test of one component,
-- `std::fabs(x) <= kMaxAbsComponent` on a float, is a parameter; the messages are left out.
use vector_forge.Common.{ℕ, suc, Bool, List, [], ◌∷◌, length, none, some, if◌then◌else◌, ◌==◌, not}
use vector_forge.Core.Status.{Status, ok, err, invalid_argument, dimension_mismatch}
use vector_forge.Core.CheckedMath.{checked_mul}

module _ {ℓ} {Float : Type ℓ} (supported : Float → Bool) where
  unfoldable pub find_invalid_component : List Float → ℕ
  find_invalid_component [] = 0
  find_invalid_component (x ∷ values) =
      let rest = find_invalid_component values in if not (supported x) then 0 else suc rest

  -- The test that ends both functions.
  unfoldable pub validate_components : List Float → Status
  unfolding find_invalid_component
  validate_components values =
      if not (find_invalid_component values == length values) then err invalid_argument else ok tt

  unfoldable pub validate_vector : List Float → ℕ → Status
  unfolding validate_components
  validate_vector vector expected_dim =
      if not (length vector == expected_dim)
      then err dimension_mismatch
      else validate_components vector

  unfoldable pub validate_batch : List Float → ℕ → ℕ → Status
  unfolding validate_components checked_mul
  validate_batch values rows dim = elim (checked_mul 64 rows dim) [
    | none ↦ err dimension_mismatch
    | some expected ↦
        if not (length values == expected)
        then err dimension_mismatch
        else validate_components values
  ]
