-- ===== src/Search/Order.antt =====
-- The order of candidates: src/search/heaps.hpp, `candidate_less`, and the floats that it compares.
use vector_forge.Common.{ℕ, ◌≡◌, Bool, true, false, ◌&&◌, ◌||◌, not, ltb, arith}

-- `<` and `==` of IEEE 754 on the values of `float` that are not NaN: a strict weak order, and
-- equality where neither is less. (Zeros of both signs are equal and different.)
pub record FloatOrder (F : Type 0) : Type 0 where
  pub lt : F → F → Bool
  pub eq : F → F → Bool
  pub lt_irrefl : (a : F) → lt a a ≡ false
  pub lt_trans : (a b c : F) → lt a b ≡ true → lt b c ≡ true → lt a c ≡ true
  pub lt_weak : (a b c : F) → lt a b ≡ false → lt b c ≡ false → lt a c ≡ false
  pub eq_lem : (a b : F) → eq a b ≡ not (lt a b) && not (lt b a)

-- A search candidate: ScoredId, and Neighbor. Results are lists of these.
pub record Scored (F : Type 0) : Type 0 where
  pub distance : F
  pub id : ℕ

-- What the heaps need of a comparison.
pub record StrictWeak {A : Type 0} (less : A → A → Bool) : Type 0 where
  pub irrefl : (a : A) → less a a ≡ false
  pub trans : (a b c : A) → less a b ≡ true → less b c ≡ true → less a c ≡ true
  pub weak : (a b c : A) → less a b ≡ false → less b c ≡ false → less a c ≡ false

module _ {F : Type 0} ⦃o : FloatOrder F⦄ where
  unfoldable pub candidate_less : Scored F → Scored F → Bool
  candidate_less a b = o.lt a.distance b.distance || (o.eq a.distance b.distance && ltb a.id b.id)

  pub candidate_less-StrictWeak : StrictWeak candidate_less
  unfolding candidate_less
  candidate_less-StrictWeak = record {
    irrefl = λ a. ground (arith, o.lt_irrefl a.distance);
    trans = λ a b c h k. ground (
      arith,
      o.eq_lem a.distance b.distance,
      o.eq_lem b.distance c.distance,
      o.eq_lem a.distance c.distance,
      o.lt_trans a.distance b.distance c.distance,
      o.lt_weak a.distance b.distance c.distance,
      o.lt_weak b.distance c.distance a.distance,
      o.lt_weak c.distance a.distance b.distance,
      o.lt_weak c.distance b.distance a.distance,
      o.lt_weak b.distance a.distance c.distance,
      o.lt_weak a.distance c.distance b.distance,
    );
    weak = λ a b c h k. ground (
      arith,
      o.eq_lem a.distance b.distance,
      o.eq_lem b.distance c.distance,
      o.eq_lem a.distance c.distance,
      o.lt_trans a.distance c.distance b.distance,
      o.lt_trans b.distance a.distance c.distance,
      o.lt_weak a.distance b.distance c.distance,
      o.lt_weak b.distance c.distance a.distance,
      o.lt_weak c.distance a.distance b.distance,
      o.lt_weak c.distance b.distance a.distance,
      o.lt_weak b.distance a.distance c.distance,
      o.lt_weak a.distance c.distance b.distance,
    );
  }

  -- Candidates with different ids are ordered.
  pub candidate_less_total :
      (a b : Scored F) → candidate_less a b ≡ false → candidate_less b a ≡ false → a.id ≡ b.id
  unfolding candidate_less
  candidate_less_total a b h k =
      ground (arith, o.eq_lem a.distance b.distance, o.eq_lem b.distance a.distance)
