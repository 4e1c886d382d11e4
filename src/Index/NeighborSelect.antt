-- ===== src/Index/NeighborSelect.antt =====
-- src/index/hnsw/neighbor_select.hpp: the choice of a node's neighbours. `distance` between two
-- candidates is an argument, as in the source; the lists that the source clears are new ones.
pub mod Choice
use vector_forge.Common.{
  ℕ, Bool, true, false, List, [], ◌∷◌, ◌++◌, ◌==◌, ◌&&◌, not, ltb, length, take, if◌then◌else◌,
}
use vector_forge.Search.Order.{FloatOrder, Scored}

pub data NeighborSelection : Type 0 where
  heuristic simple : NeighborSelection

module _ {F : Type 0} ⦃o : FloatOrder F⦄ (distance : ℕ → ℕ → F) where
  -- No selected candidate is closer to `c` than the base is.
  unfoldable pub is_good : Scored F → List (Scored F) → Bool
  is_good c [] = true
  is_good c (x ∷ out) = if o.lt (distance c.id x.id) c.distance then false else is_good c out

  -- The loop over the candidates: the selection, and what was pruned.
  unfoldable pub select_loop :
      ℕ
      → Bool
      → List (Scored F)
      → List (Scored F)
      → List (Scored F)
      → List (Scored F) × List (Scored F)
  unfolding is_good
  select_loop m keep [] out discarded = (out, discarded)
  select_loop m keep (c ∷ sorted) out discarded =
      if length out == m
      then (out, discarded)
      else (let good = is_good c out in
          select_loop m keep sorted (if good then out ++ c ∷ [] else out)
            (if not good && keep then discarded ++ c ∷ [] else discarded))

  unfoldable pub refill : ℕ → List (Scored F) → List (Scored F) → List (Scored F)
  refill m [] out = out
  refill m (c ∷ discarded) out = if length out == m then out else refill m discarded (out ++ c ∷ [])

  unfoldable pub select_neighbors : List (Scored F) → ℕ → NeighborSelection → Bool → List (Scored F)
  unfolding select_loop refill
  select_neighbors sorted m simple keep =
      take (if ltb (length sorted) m then length sorted else m) sorted
  select_neighbors sorted m heuristic keep =
      let r = select_loop m keep sorted [] [] in if keep then refill m r.1 r.0 else r.0
