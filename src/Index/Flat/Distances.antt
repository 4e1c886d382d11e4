-- ===== src/Index/Flat/Distances.antt =====
-- The distance of a row, and the blocks that hold it.
use vector_forge.Common.{
  ℕ, zero, suc, ◌*◌, ◌<◌, ◌≡◌, refl, ap, ◌∙◌, Bool, true, false, List, [], ◌∷◌, map, not,
  if◌then◌else◌, length, get_or, take, drop, arith,
}
use vector_forge.Core.Types.{Metric, l2, inner_product, cosine}
use vector_forge.Search.Order.{FloatOrder}
use vector_forge.Index.Kernels.{FloatArithmetic, QueryView}
use vector_forge.Index.Flat.{FlatBackend, block_distances, scale}

get_or-map :
    {A B : Type 0} (f : A → B) (l : List A) (i : ℕ) (x : A) (y : B)
    → i < length l
    → get_or (map f l) i y ≡ f (get_or l i x)
get_or-map f [] i x y h = absurd (omega arith)
get_or-map f (z ∷ l) zero x y h = refl
get_or-map f (z ∷ l) (suc i) x y h = get_or-map f l i x y (omega arith)

module _ {F : Type 0} (blank : F) ⦃o : FloatOrder F⦄ (a : FloatArithmetic F) where
  abbrev nonnegative : F → F
  nonnegative x = if o.lt a.zero_float x then x else a.zero_float

  -- The distance of a query to a row of unit norm, for the inverse `s` of the query's norm and the
  -- dot product `d` with it.
  abbrev unit_distance : Metric → F → F → F
  unit_distance l2 s d = nonnegative (a.sub a.two_float (a.mul (a.mul a.two_float d) s))
  unit_distance inner_product s d = a.neg (a.mul d s)
  unit_distance cosine s d = nonnegative (a.sub a.one_float (a.mul d s))

  scale-unit_distance :
      (metric : Metric) (s d : F) → scale blank a metric s d ≡ unit_distance metric s d
  unfolding scale
  scale-unit_distance l2 s d = refl
  scale-unit_distance inner_product s d = refl
  scale-unit_distance cosine s d = refl

  -- The distance of a query to one row, by the metric and the normalisation of the backend.
  unfoldable pub row_distance : FlatBackend F → QueryView F → List F → F
  row_distance b q x =
      if not b.normalized
      then (elim b.metric [ l2 ↦ b.kernels.l2sq q.vector x | _ ↦ a.neg (b.kernels.dot q.vector x) ])
      else unit_distance b.metric q.inv_norm (b.kernels.dot q.vector x)

  pub block_distances-row :
      (b : FlatBackend F) (q : QueryView F) (rows : List F) (n i : ℕ) (z : F)
      → i < n
      → get_or (block_distances blank a b q rows n) i z
        ≡ row_distance b q (take b.vectors.dim (drop (i * b.vectors.dim) rows))
  unfolding block_distances row_distance
  block_distances-row b q rows n i z h = go b.normalized b.metric
    where
      mapped :
          (f : F → F)
          → get_or (map f (b.kernels.dot_1_to_n q.vector rows n b.vectors.dim)) i z
            ≡ f (b.kernels.dot q.vector (take b.vectors.dim (drop (i * b.vectors.dim) rows)))
      mapped f =
          get_or-map f (b.kernels.dot_1_to_n q.vector rows n b.vectors.dim) i z z
            (omega (arith, b.kernels.length-dot q.vector rows n b.vectors.dim))
          ∙ ap f (b.kernels.dot_row q.vector rows n b.vectors.dim i z h)

      go :
          (normalized : Bool) (metric : Metric)
          → get_or
              (if not normalized
                then (elim metric [
                  | l2 ↦ b.kernels.l2sq_1_to_n q.vector rows n b.vectors.dim
                  | _ ↦ map a.neg (b.kernels.dot_1_to_n q.vector rows n b.vectors.dim)
                ])
                else map
                    (scale blank a metric q.inv_norm)
                    (b.kernels.dot_1_to_n q.vector rows n b.vectors.dim))
              i
              z
            ≡ (if not normalized
                then (elim metric [
                  | l2 ↦
                      b.kernels.l2sq q.vector (take b.vectors.dim (drop (i * b.vectors.dim) rows))
                  | _ ↦
                      a.neg (
                        b.kernels.dot q.vector (take b.vectors.dim (drop (i * b.vectors.dim) rows)))
                ])
                else unit_distance metric q.inv_norm
                    (b.kernels.dot q.vector (take b.vectors.dim (drop (i * b.vectors.dim) rows))))
      go true metric =
          mapped (scale blank a metric q.inv_norm) ∙ scale-unit_distance metric q.inv_norm _
      go false l2 = b.kernels.l2sq_row q.vector rows n b.vectors.dim i z h
      go false inner_product = mapped a.neg
      go false cosine = mapped a.neg
