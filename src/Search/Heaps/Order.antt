-- ===== src/Search/Heaps/Order.antt =====
-- The heap order on the first `n` entries of an array.
use vector_forge.Common.{ℕ, ◌-◌, ◌/◌, ◌≤◌, ◌<◌, ◌≡◌, Bool, false, List, get_or, length, take}
use mathlib.Core.List.{Perm}

abbrev pub parent : ℕ → ℕ
parent c = (c - 1) / 2

module _ {A : Type 0} (blank : A) (less : A → A → Bool) where
  -- No parent is less than a child.
  abbrev pub IsHeap : ℕ → List A → Type 0
  IsHeap n d = (c : ℕ) → 0 < c → c < n → less (get_or d (parent c) blank) (get_or d c blank) ≡ false

  -- The result of sifting: a heap of the same entries, nothing changed past the heap.
  pub record Sifted (n : ℕ) (d e : List A) : Type 0 where
    pub heap : IsHeap n e
    pub same : Perm (take n e) (take n d)
    pub size : length e ≡ length d
    pub rest : (c : ℕ) → n ≤ c → get_or e c blank ≡ get_or d c blank
