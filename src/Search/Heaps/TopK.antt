-- ===== src/Search/Heaps/TopK.antt =====
-- A stream of candidates pushed into a heap: the best are kept, as many as there is room for.
use mathlib.Core.List.{Perm, Mem, mem-append, not-mem-nil, append_assoc, perm_middle}
use mathlib.Core.List.Perm
use mathlib.Core.Logic.Or
use mathlib.Core.Bool.{Bool-set}
use vector_forge.Common.{
  ◌+◌, ◌≤◌, ◌<◌, ◌≡◌, refl, Bool, false, List, [], ◌∷◌, ◌++◌, arith, length, min, length-append,
  ◌∙◌,
}
use vector_forge.Search.Order.{StrictWeak}
use vector_forge.Search.Heaps.{BoundedMaxHeap, contents, push}
use vector_forge.Search.Heaps.Bounded.{IsValid, push-Pushed}

module _ {A : Type 0} (blank : A) (less : A → A → Bool) where
  -- The heap after pushing all of a list, in order.
  unfoldable pub push_all : BoundedMaxHeap A → List A → BoundedMaxHeap A
  push_all h [] = h
  push_all h (c ∷ cs) = push_all (push blank less h c).1 cs

  pos_of_mem : {x : A} (l : List A) → Mem x l → 0 < length l
  pos_of_mem [] m = absurd (not-mem-nil m)
  pos_of_mem (y ∷ l) m = omega arith

  rearrange : (a b c : List A) → Perm (a ++ (b ++ c)) (b ++ (a ++ c))
  rearrange [] b c = Perm.refl _
  rearrange (x ∷ a) b c =
      Perm.trans (Perm.cons x (rearrange a b c)) (Perm.symm (perm_middle b (a ++ c)))

  module _ (w : StrictWeak less) where
    pub record Kept (h : BoundedMaxHeap A) (cs : List A) (r : BoundedMaxHeap A) : Type 0 where
      pub valid : IsValid blank less w r
      pub capacity : length r.storage ≡ length h.storage
      pub size : r.size ≡ min (length h.storage) (h.size + length cs)
      pub dropped : List A
      pub drops : length dropped + r.size ≡ h.size + length cs
      pub same : Perm (dropped ++ contents r) (cs ++ contents h)
      pub best : (x y : A) → Mem x dropped → Mem y (contents r) → less x y ≡ false
      pub below :
          length h.storage ≤ h.size
          → (x : A) → ((y : A) → Mem y (contents h) → less x y ≡ false)
          → (y : A) → Mem y (contents r)
          → less x y ≡ false

    -- Pushing a list into a valid heap leaves a valid heap of the same capacity, as full as the
    -- capacity and the number of candidates allow; what it holds and what was dropped are together
    -- the list and the contents from before, and nothing dropped is less than something held.
    pub push_all-Kept :
        (h : BoundedMaxHeap A) (cs : List A) → IsValid blank less w h → Kept h cs (push_all h cs)
    unfolding push_all
    push_all-Kept h [] v = record {
      valid = v;
      capacity = refl;
      size = omega (arith, v.fits);
      dropped = [];
      drops = omega arith;
      same = Perm.refl _;
      best = λ x y m. absurd (not-mem-nil m);
      below = λ _ x b. b;
    }
    push_all-Kept h (c ∷ cs) v =
        let p = push-Pushed blank less w h c v in
        let h' = (push blank less h c).1 in
        let k = push_all-Kept h' cs p.valid in
        record {
          valid = k.valid;
          capacity = k.capacity ∙ p.capacity;
          size = omega (arith, k.size, p.size, p.capacity);
          dropped = p.dropped ++ k.dropped;
          drops = omega (arith, k.drops, p.drops, length-append p.dropped k.dropped);
          same = rw (append_assoc p.dropped k.dropped (contents (push_all h' cs))) (
              Perm.trans (Perm.append_left p.dropped k.same) (
                Perm.trans (rearrange p.dropped cs (contents h'))
                  (Perm.trans (Perm.append_left cs p.same) (perm_middle cs (contents h)))));
          best = λ x y m n.
              Or.elim (Bool-set _ _) (mem-append.0 m)
                (λ first.
                  k.below (omega (arith, pos_of_mem p.dropped first, p.drops, p.size, p.capacity)) x
                    (λ z. p.best x z first) y n)
                (λ later. k.best x y later n);
          below = λ full_ x b. k.below (omega (arith, p.size, p.capacity)) x (p.below full_ x b);
        }
