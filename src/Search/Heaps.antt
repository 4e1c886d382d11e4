-- ===== src/Search/Heaps.antt =====
-- src/search/heaps.hpp: BoundedMaxHeap over the storage of a caller, and MinHeap over a vector.
-- The heaps take the comparison as a parameter. An index that the loops read or write lies below the
-- heap's size, which the storage holds; out of range a read is `blank` and a write does nothing.
pub mod Order
pub mod Up
pub mod Down
pub mod Bounded
pub mod TopK
pub mod Sort
use vector_forge.Common.{
  ℕ, zero, suc, ◌+◌, ◌-◌, ◌*◌, ◌/◌, Bool, true, false, List, [], ◌∷◌, ◌++◌, ◌&&◌, ◌||◌, ◌==◌, not,
  if◌then◌else◌, ltb, leb, length, get_or, set, take,
}
use vector_forge.Common.Arrays.{swap}
use vector_forge.Core.Status.{Result, ok, ◌>>=◌, ◌>>◌, check}

module _ {A : Type 0} (blank : A) (less : A → A → Bool) where
  -- `sift_up` with the rounds left; the index halves, so `index + 1` rounds are enough.
  unfoldable pub sift_up : ℕ → List A → ℕ → List A
  sift_up zero d index = d
  sift_up (suc f) d index =
      let parent = (index - 1) / 2 in
      let risen = sift_up f (swap blank d parent index) parent in
      if ltb 0 index
      then (if not (less (get_or d parent blank) (get_or d index blank)) then d else risen)
      else d

  -- The child that `sift_down` compares with: the larger one, of those that exist.
  unfoldable pub larger_child : List A → ℕ → ℕ → ℕ
  larger_child d index count =
      let left = 2 * index + 1 in
      let right = left + 1 in
      if ltb right count && less (get_or d left blank) (get_or d right blank) then right else left

  -- `sift_down` with the rounds left; the index grows, so `count + 1` rounds are enough.
  unfoldable pub sift_down : ℕ → List A → ℕ → ℕ → List A
  unfolding larger_child
  sift_down zero d index count = d
  sift_down (suc f) d index count =
      let largest = larger_child d index count in
      let sunk = sift_down f (swap blank d index largest) largest count in
      if leb count (2 * index + 1)
      then d
      else if not (less (get_or d index blank) (get_or d largest blank))
      then d
      else sunk

  -- The loop of `sort_ascending`, from `end` down to 2.
  unfoldable pub sort_loop : ℕ → List A → List A
  unfolding sift_down
  sort_loop zero d = d
  sort_loop (suc zero) d = d
  sort_loop (suc (suc end)) d =
      sort_loop (suc end) (sift_down (suc (suc end)) (swap blank d 0 (suc end)) 0 (suc end))

-- `data` is the caller's storage, whose length is the capacity.
pub record BoundedMaxHeap (A : Type 0) : Type 0 where
  pub storage : List A
  pub size : ℕ

-- The retained elements.
abbrev pub contents : {A : Type 0} → BoundedMaxHeap A → List A
contents h = take h.size h.storage

module _ {A : Type 0} (blank : A) (less : A → A → Bool) where
  unfoldable pub full : BoundedMaxHeap A → Bool
  full h = h.size == length h.storage

  unfoldable pub top : BoundedMaxHeap A → Result A
  top h = do check (ltb 0 h.size); ok (get_or h.storage 0 blank)

  -- The answer is whether the candidate was retained.
  unfoldable pub push : BoundedMaxHeap A → A → Bool × BoundedMaxHeap A
  push h candidate =
      if ltb h.size (length h.storage)
      then (
        true,
        record {
          storage = sift_up blank less (h.size + 1) (set h.storage h.size candidate) h.size;
          size = h.size + 1;
        },
      )
      else if h.size == 0 || not (less candidate (get_or h.storage 0 blank))
      then (false, h)
      else (
        true,
        record h {
          storage = sift_down blank less (h.size + 1) (set h.storage 0 candidate) 0 h.size;
        },
      )

  unfoldable pub pop : BoundedMaxHeap A → Result (BoundedMaxHeap A)
  pop h = do
    check (ltb 0 h.size)
    let size = h.size - 1
    if ltb 0 size
        then ok (record {
          storage =
              sift_down blank less (size + 1) (set h.storage 0 (get_or h.storage size blank)) 0
                size;
          size = size;
        })
        else ok (record h { size = size })

  -- The count, and the storage whose first entries are sorted; the heap is left empty.
  unfoldable pub sort_ascending : BoundedMaxHeap A → ℕ × BoundedMaxHeap A
  sort_ascending h = (h.size, record { storage = sort_loop blank less h.size h.storage; size = 0 })

  -- MinHeap: the loops of `push` and `pop` are those above with the comparison turned round.
  abbrev pub more : A → A → Bool
  more a b = less b a

  unfoldable pub min_top : List A → Result A
  min_top d = do check (ltb 0 (length d)); ok (get_or d 0 blank)

  unfoldable pub min_push : List A → A → List A
  min_push d candidate = sift_up blank more (length d + 1) (d ++ candidate ∷ []) (length d)

  unfoldable pub min_pop : List A → Result (List A)
  min_pop d = do
    check (ltb 0 (length d))
    let count = length d - 1
    let moved = take count (set d 0 (get_or d count blank))
    ok (sift_down blank more (count + 1) moved 0 count)
