-- ===== src/Core/Status.antt =====
-- include/vectorforge/status.hpp: ErrorCode, and Status and Result<T> as one type of outcomes.
-- A Status is a Result of nothing. The message of an error is not kept. `fatal` is the end of the
-- process by VF_CHECK, or by VF_ASSERT in a build that has it on (src/core/assert.hpp).
use vector_forge.Common.{◌≡◌, refl, Bool, true, false, ◌⊎◌, inl, inr, ap}

pub data ErrorCode : Type 0 where
  invalid_argument dimension_mismatch not_found already_exists corrupt_data : ErrorCode
  unsupported_version io_error resource_exhausted failed_precondition unavailable : ErrorCode
  internal : ErrorCode

-- A value, an error's code, or the end of the process.
pub data Result {ℓ} (Value : Type ℓ) : Type ℓ where
  fatal : Result Value
  ok : Value → Result Value
  err : ErrorCode → Result Value

abbrev pub Status : Type 0
Status = Result (Unit {0})

module _ {ℓ κ} {Value : Type ℓ} {Next : Type κ} where
  -- The next step on a value, and an early return otherwise.
  infixl 5 ◌>>=◌
  abbrev pub ◌>>=◌ : Result Value → (Value → Result Next) → Result Next
  fatal >>= next = fatal
  err code >>= next = err code
  ok value >>= next = next value

module _ {κ} {Next : Type κ} where
  -- VF_RETURN_IF_ERROR
  infixl 5 ◌>>◌
  abbrev pub ◌>>◌ : Status → Result Next → Result Next
  fatal >> next = fatal
  err code >> next = err code
  ok _ >> next = next

-- `if (!test) return error;`
abbrev pub require : Bool → ErrorCode → Status
require true e = ok tt
require false e = err e

-- VF_CHECK and VF_ASSERT
abbrev pub check : Bool → Status
check true = ok tt
check false = fatal

-- The call returns a value that satisfies `P`.
abbrev pub Returns {ℓ κ} : {A : Type ℓ} → Result A → (A → Type κ) → Type (ℓ ⊔ κ)
Returns {A} r P = (a : A) × (r ≡ ok a) × P a

-- What a step after another returns, both of them returned.
pub Returns->>= {ℓ κ} :
    {Value : Type ℓ} {Next : Type κ} (first : Result Value) (next : Value → Result Next)
    {last : Next}
    → (first >>= next) ≡ ok last
    → Returns first (λ value. next value ≡ ok last)
Returns->>= fatal next h = cc
Returns->>= (err code) next h = cc
Returns->>= (ok value) next h = (value, refl, h)

-- The call fails with an error, or returns a value that satisfies `P`.
abbrev pub Attempts {ℓ κ} : {A : Type ℓ} → Result A → (A → Type κ) → Type (ℓ ⊔ κ)
Attempts r P = ((e : ErrorCode) × (r ≡ err e)) ⊎ Returns r P

module _ {ℓ κ} {Next : Type ℓ} {Q : Next → Type κ} where
  pub Attempts->>= {μ ν} :
      {Value : Type μ} {P : Value → Type ν} (first : Result Value) (next : Value → Result Next)
      → Attempts first P
      → ((value : Value) → P value → Attempts (next value) Q)
      → Attempts (first >>= next) Q
  Attempts->>= first next (inl (e, fails)) rest = inl (e, ap (λ m. m >>= next) fails)
  Attempts->>= first next (inr (value, done, holds)) rest = rw done (rest value holds)
