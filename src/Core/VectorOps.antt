-- ===== src/Core/VectorOps.antt =====
-- src/core/vector_ops.cpp: norms, normalisation and the public distance. The kernels, the tests of
-- floats and the arithmetic in double precision are an interface; the messages are left out.
use vector_forge.Common.{Bool, List, ℕ, length, map, ◌==◌, not, ◌||◌, ◌&&◌, Option}
use vector_forge.Core.Status.{
  Status, Result, ok, err, ◌>>=◌, ◌>>◌, require, invalid_argument, dimension_mismatch,
}
use vector_forge.Core.Types.{Metric, cosine}
use vector_forge.Core.Config.{metric_of}
use vector_forge.Core.Validation.{find_invalid_component}

-- `inverse_root` and `cosine_distance` are computed in double precision and rounded to a float.
pub record NormTable (F : Type 0) : Type 0 where
  pub norm2 : List F → F
  pub positive : F → Bool
  pub finite : F → Bool
  pub inverse_root : F → F
  pub scale : F → F → F
  pub metric_distance : Metric → List F → List F → F
  pub cosine_distance : F → F → List F → List F → F

module _ {F : Type 0} (table : NormTable F) where
  unfoldable pub inverse_norm : List F → Result F
  inverse_norm vector = do
    require (not (length vector == 0)) invalid_argument
    let norm_sq = table.norm2 vector
    require (not (not (table.positive norm_sq) || not (table.finite norm_sq))) invalid_argument
    require (table.finite (table.inverse_root norm_sq)) invalid_argument
    ok (table.inverse_root norm_sq)

  -- The vector after the call.
  unfoldable pub normalize_inplace : List F → Result (List F)
  normalize_inplace vector = do
    factor ← inverse_norm vector
    ok (map (λ x. table.scale x factor) vector)

  module _ (supported : F → Bool) (selection : Status) where
    unfoldable pub normalize : List F → Result (List F)
    normalize vector = do
      require (not (length vector == 0)) invalid_argument
      require (find_invalid_component supported vector == length vector) invalid_argument
      selection
      normalize_inplace vector

    -- The distance by a metric that is an enumerator.
    unfoldable pub distance_by : Metric → List F → List F → Result F
    distance_by cosine a b = do
      let norm_a = table.norm2 a
      let norm_b = table.norm2 b
      require (table.positive norm_a) invalid_argument
      require (table.positive norm_b) invalid_argument
      ok (table.cosine_distance norm_a norm_b a b)
    distance_by metric a b = ok (table.metric_distance metric a b)

    unfoldable pub distance : ℕ → List F → List F → Result F
    distance metric a b = elim (metric_of metric) [
      | Option.none ↦ err invalid_argument
      | Option.some m ↦ do
        require (length a == length b) dimension_mismatch
        require (not (length a == 0)) invalid_argument
        require
            (find_invalid_component supported a == length a
              && find_invalid_component supported b == length b)
            invalid_argument
        selection
        distance_by m a b
    ]
