-- ===== src/Storage/VectorStore/Create.antt =====
-- `create` and `create_mapped`: which stores there are to start with.
use native.Mathlib.Nat.{
  div-le_self, div-mul-le_self, pow-le-pow_right, mul-le-mul, mul-le-mul_right,
}
use vector_forge.Common.{
  ℕ, ◌*◌, ◌/◌, ◌^◌, ◌≤◌, ◌<◌, ◌≡◌, ◌≢◌, refl, sym, true, false, [], arith, Bool-cases, inl, inr,
  ltb, lt→ltb, ◌==◌, leb, if◌then◌else◌,
}
use vector_forge.Core.Status.{Returns}
use vector_forge.Storage.VectorStore.{VectorStore, capacity}
use vector_forge.Storage.VectorStore.Invariant.{IsValid}
use vector_forge.Common.{min, max, some, ◌||◌, not}
use vector_forge.Common.Words.{
  has_single_bit, has_single_bit-pow, has_single_bit-of_pow, bit_floor-pow,
}
use vector_forge.Core.CheckedMath.{checked_mul3, checked_mul3-exact}
use vector_forge.Core.Types.{max_dim, max_vectors_per_collection}
use vector_forge.Storage.VectorStore.{
  Options, create, construct, default_rows_per_chunk, target_chunk_bytes,
  max_default_rows_per_chunk,
}

-- The default is a power of two of at most 65536 rows, and its chunks have at most 16 MiB unless
-- they have a single row.
pub default_rows_per_chunk-bounds :
    (dim : ℕ)
    → 0 < dim
    → (k : ℕ) × (default_rows_per_chunk dim ≡ 2 ^ k)
      × (k ≤ 16)
      × (1 < default_rows_per_chunk dim → default_rows_per_chunk dim * (dim * 4) ≤ 16777216)
unfolding default_rows_per_chunk
default_rows_per_chunk-bounds dim h =
    let some_ : (dim == 0) ≡ false = ground arith in
    let rows = max 1 (target_chunk_bytes / (dim * 4)) in
    let most = div-le_self target_chunk_bytes (dim * 4) in
    let (k, l, e, low, high) = bit_floor-pow 64 rows (omega arith) (omega (arith, most)) in
    let used = div-mul-le_self target_chunk_bytes (dim * 4) in
    rw (some_, e, default_rows_per_chunk)
      (elim (Bool-cases (leb k 16)) [
        | inl small ↦
            let bound = pow-le-pow_right {n = 2} (omega arith) {i = k} {j = 16} (ground arith) in
            let value : min (2 ^ k) max_default_rows_per_chunk ≡ 2 ^ k = omega (arith, bound) in
            rw value (
              k,
              refl,
              ground arith,
              λ p.
                  let fits : 2 ^ k ≤ target_chunk_bytes / (dim * 4) = omega (arith, low) in
                  omega (arith, mul-le-mul_right (dim * 4) fits, used),
            )
        | inr large ↦
            let bound = pow-le-pow_right {n = 2} (omega arith) {i = 16} {j = k} (ground arith) in
            let value : min (2 ^ k) max_default_rows_per_chunk ≡ 2 ^ 16 = omega (arith, bound) in
            rw value (
              16,
              refl,
              omega arith,
              λ p.
                  let fits : 2 ^ 16 ≤ target_chunk_bytes / (dim * 4) = omega (arith, low, bound) in
                  omega (arith, mul-le-mul_right (dim * 4) fits, used),
            )
      ])

-- What the options have to satisfy.
pub record IsAcceptable (o : Options) : Type 0 where
  pub dim_low : 1 ≤ o.dim
  pub dim_high : o.dim ≤ 65536
  pub rows_low : 1 ≤ o.max_rows
  pub rows_high : o.max_rows < 2 ^ 32
  pub exponent : ℕ
  pub power : (o.rows_per_chunk ≢ 0) → o.rows_per_chunk ≡ 2 ^ exponent
  pub small : exponent < 64
  pub chunk : (o.rows_per_chunk ≢ 0) → 2 ^ exponent * o.dim * 4 < 2 ^ 64

-- The rows per chunk that the options select.
abbrev pub selected : Options → ℕ
selected o = if o.rows_per_chunk == 0 then default_rows_per_chunk o.dim else o.rows_per_chunk

selected-pow :
    (o : Options)
    → IsAcceptable o
    → (k : ℕ) × (k < 64) × (selected o ≡ 2 ^ k) × (2 ^ k * o.dim * 4 < 2 ^ 64)
selected-pow o a = elim (Bool-cases (o.rows_per_chunk == 0)) [
  | inl default_ ↦
      let (k, e, l, _) = default_rows_per_chunk-bounds o.dim (omega (arith, a.dim_low)) in
      let bound = pow-le-pow_right {n = 2} (omega arith) {i = k} {j = 16} l in
      let bytes = mul-le-mul bound a.dim_high in
      rw default_ (k, omega arith, e, omega (arith, bytes))
  | inr given ↦
      let set_ : o.rows_per_chunk ≢ 0 = λ p. absurd (ground arith) in
      rw given (a.exponent, a.small, a.power set_, a.chunk set_)
]

module _ {F : Type 0} (blank : F) where
  -- A store without rows, with the parameters of the options.
  pub record Created (o : Options) (s : VectorStore F) : Type 0 where
    pub valid : IsValid blank s
    pub size : s.size ≡ 0
    pub mapped_rows : s.mapped_rows ≡ 0
    pub dim : s.dim ≡ o.dim
    pub max_rows : s.max_rows ≡ o.max_rows
    pub rows_per_chunk : s.rows_per_chunk ≡ selected o
    pub empty : s.chunk_ptrs ≡ []
    pub no_chunks : s.owned_chunks ≡ []

  construct-Created :
      (o : Options) (k bytes : ℕ)
      → IsAcceptable o
      → k < 64
      → selected o ≡ 2 ^ k
      → bytes ≡ selected o * o.dim * 4
      → Created o (construct blank o.dim (selected o) o.max_rows bytes)
  unfolding capacity
  construct-Created o k bytes a l e b =
      let single = rw (sym e) at (has_single_bit-of_pow 64 k l) in
      record {
        valid = record {
          shift = (has_single_bit-pow 64 (selected o) single).0;
          mask = refl;
          bytes = b;
          mapped_chunks = 0;
          mapped_size = omega arith;
          directory = omega arith;
          mapped_at = λ c d h. absurd (omega arith);
          heap_at = λ c d h. absurd (omega arith);
          chunk_size = λ c h. absurd (omega arith);
          some_rows = omega arith;
          room = omega arith;
          limit = omega arith;
          width = a.rows_high;
        };
        size = refl;
        mapped_rows = refl;
        dim = refl;
        max_rows = refl;
        rows_per_chunk = refl;
        empty = refl;
        no_chunks = refl;
      }

  -- Acceptable options give a valid store without rows, with the parameters of the options.
  pub create-Created : (o : Options) → IsAcceptable o → Returns (create blank o) (λ s. Created o s)
  unfolding create
  create-Created o a =
      let (k, l, e, small) = selected-pow o a in
      let dims : not (ltb o.dim 1 || ltb max_dim o.dim) ≡ true =
        ground (arith, a.dim_low, a.dim_high) in
      let rows : not (ltb o.max_rows 1 || ltb max_vectors_per_collection o.max_rows) ≡ true =
        ground (arith, a.rows_low, a.rows_high) in
      let bytes : checked_mul3 64 (selected o) o.dim 4 ≡ some (selected o * o.dim * 4) =
        rw (checked_mul3-exact 64 (selected o) o.dim 4 (omega arith), e, lt→ltb _ _ small) refl in
      let single : has_single_bit 64 (selected o) ≡ true = rw e (has_single_bit-of_pow 64 k l) in
      rw (dims, single, rows, bytes, create) (_, refl, construct-Created o k _ a l e refl)
