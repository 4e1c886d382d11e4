-- ===== src/Common/Dict.antt =====
-- A map with numbers for keys, as std::unordered_map<std::uint64_t, V> is used: `lookup` is find,
-- `insert` assigns to a key or adds it, `erase` removes one entry. A list of pairs, first match.
use Prim.Native.Nat.{ℕ, ◌+◌, ◌≤◌}
use mathlib.Core.Path.{◌≡◌, refl}
use mathlib.Core.Bool.{Bool, false}
use mathlib.Core.List.{List, [], ◌∷◌}
use mathlib.Core.Option.{Option, none, some}
use native.Mathlib.Omega.{arith}
use vector_forge.Common.Tests.{◌==◌, if◌then◌else◌, to_nat}

abbrev pub Dict {ℓ} : Type ℓ → Type ℓ
Dict V = List (ℕ × V)

module _ {ℓ} {V : Type ℓ} where
  unfoldable pub lookup : ℕ → Dict V → Option V
  lookup k [] = none
  lookup k (e ∷ m) = if k == e.0 then some e.1 else lookup k m

  unfoldable pub insert : ℕ → V → Dict V → Dict V
  insert k v [] = (k, v) ∷ []
  insert k v (e ∷ m) = if k == e.0 then (k, v) ∷ m else e ∷ insert k v m

  unfoldable pub erase : ℕ → Dict V → Dict V
  erase k [] = []
  erase k (e ∷ m) = if k == e.0 then m else e ∷ erase k m

  -- How many entries have the key, and how many have a value that passes a test.
  unfoldable pub occurrences : ℕ → Dict V → ℕ
  occurrences k [] = 0
  occurrences k (e ∷ m) = to_nat (k == e.0) + occurrences k m

  unfoldable pub count : (V → Bool) → Dict V → ℕ
  count p [] = 0
  count p (e ∷ m) = to_nat (p e.1) + count p m

  abbrev pub weight : (V → Bool) → Option V → ℕ
  weight p none = 0
  weight p (some v) = to_nat (p v)

  pub lookup-insert :
      (k j : ℕ) (v : V) (m : Dict V)
      → lookup j (insert k v m) ≡ (if j == k then some v else lookup j m)
  unfolding lookup insert
  lookup-insert k j v [] = refl
  lookup-insert k j v (e ∷ m) = ground (arith, lookup-insert k j v m)

  pub lookup-eq-none : (k : ℕ) (m : Dict V) → occurrences k m ≡ 0 → lookup k m ≡ none
  unfolding lookup occurrences
  lookup-eq-none k [] h = refl
  lookup-eq-none k (e ∷ m) h = ground (arith, lookup-eq-none k m)

  pub occurrences-eq-zero : (k : ℕ) (m : Dict V) → lookup k m ≡ none → occurrences k m ≡ 0
  unfolding lookup occurrences
  occurrences-eq-zero k [] h = refl
  occurrences-eq-zero k (e ∷ m) h = ground (arith, occurrences-eq-zero k m)

  pub lookup-erase :
      (k j : ℕ) (m : Dict V)
      → occurrences j m ≤ 1
      → lookup j (erase k m) ≡ (if j == k then none else lookup j m)
  unfolding lookup erase occurrences
  lookup-erase k j [] h = ground arith
  lookup-erase k j (e ∷ m) h = ground (arith, lookup-erase k j m, lookup-eq-none j m)

  pub occurrences-insert :
      (k j : ℕ) (v : V) (m : Dict V) → occurrences j m ≤ 1 → occurrences j (insert k v m) ≤ 1
  unfolding insert occurrences
  occurrences-insert k j v [] h = ground arith
  occurrences-insert k j v (e ∷ m) h =
      ground (arith, occurrences-insert k j v m, insert_keeps_zero k j v m)
    where
      insert_keeps_zero :
          (k j : ℕ) (v : V) (m : Dict V)
          → occurrences j m ≡ 0
          → (j == k) ≡ false
          → occurrences j (insert k v m) ≡ 0
      insert_keeps_zero k j v [] h ne = ground arith
      insert_keeps_zero k j v (e ∷ m) h ne = ground (arith, insert_keeps_zero k j v m)

  pub occurrences-erase-le : (k j : ℕ) (m : Dict V) → occurrences j (erase k m) ≤ occurrences j m
  unfolding erase occurrences
  occurrences-erase-le k j [] = omega arith
  occurrences-erase-le k j (e ∷ m) = ground (arith, occurrences-erase-le k j m)

  pub count-insert :
      (p : V → Bool) (k : ℕ) (v : V) (m : Dict V)
      → count p (insert k v m) + weight p (lookup k m) ≡ count p m + to_nat (p v)
  unfolding insert count lookup
  count-insert p k v [] = omega arith
  count-insert p k v (e ∷ m) = ground (arith, count-insert p k v m)

  pub count-erase :
      (p : V → Bool) (k : ℕ) (m : Dict V) → count p (erase k m) + weight p (lookup k m) ≡ count p m
  unfolding erase count lookup
  count-erase p k [] = omega arith
  count-erase p k (e ∷ m) = ground (arith, count-erase p k m)
