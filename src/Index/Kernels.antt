-- ===== src/Index/Kernels.antt =====
-- What a backend needs of floats and of the distance kernels (src/simd/kernels.hpp, src/index/index_backend.hpp).
-- The kernels are an interface: a block kernel gives each row's value, whatever the block.
use vector_forge.Common.{ℕ, ◌*◌, ◌<◌, ◌≡◌, List, length, get_or, take, drop, if◌then◌else◌}
use vector_forge.Search.Order.{FloatOrder}

-- The arithmetic of the distances, on the floats that are not NaN.
pub record FloatArithmetic (F : Type 0) : Type 0 where
  pub zero_float : F
  pub one_float : F
  pub two_float : F
  pub neg : F → F
  pub sub : F → F → F
  pub mul : F → F → F

-- QueryView: the query's floats and the inverse of its norm.
pub record QueryView (F : Type 0) : Type 0 where
  pub vector : List F
  pub inv_norm : F

-- Two entries of KernelTable, from a query to the values of `n` rows, and the values.
pub record KernelTable (F : Type 0) : Type 0 where
  pub l2sq_1_to_n : List F → List F → ℕ → ℕ → List F
  pub dot_1_to_n : List F → List F → ℕ → ℕ → List F
  pub l2sq : List F → List F → F
  pub dot : List F → List F → F
  pub length-l2sq : (q rows : List F) (n dim : ℕ) → length (l2sq_1_to_n q rows n dim) ≡ n
  pub length-dot : (q rows : List F) (n dim : ℕ) → length (dot_1_to_n q rows n dim) ≡ n
  pub l2sq_row :
      (q rows : List F) (n dim i : ℕ) (z : F)
      → i < n
      → get_or (l2sq_1_to_n q rows n dim) i z ≡ l2sq q (take dim (drop (i * dim) rows))
  pub dot_row :
      (q rows : List F) (n dim i : ℕ) (z : F)
      → i < n
      → get_or (dot_1_to_n q rows n dim) i z ≡ dot q (take dim (drop (i * dim) rows))

-- std::max
module _ {F : Type 0} ⦃o : FloatOrder F⦄ where
  abbrev pub max_float : F → F → F
  max_float a b = if o.lt a b then b else a
