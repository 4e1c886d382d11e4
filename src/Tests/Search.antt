-- ===== src/Tests/Search.antt =====
-- Heaps, visited sets and the exact search on numbers in place of floats.
use vector_forge.Common.{
  ℕ, zero, suc, ◌+◌, ◌-◌, ◌*◌, ◌^◌, ◌<◌, ◌≡◌, refl, false, List, [], ◌∷◌, ltb, ◌==◌, arith, length,
  true, get_or, take, drop, ap, ◌∙◌,
}
use vector_forge.Core.Status.{Returns, ok}
use vector_forge.Core.Types.{l2}
use vector_forge.Search.Order.{FloatOrder, StrictWeak, Scored}
use vector_forge.Search.Heaps.{BoundedMaxHeap, push, pop, top, sort_ascending}
use vector_forge.Search.Heaps.Bounded.{IsValid, Pushed, push-Pushed}
use vector_forge.Search.Heaps.TopK.{push_all, Kept, push_all-Kept}
use vector_forge.Search.Heaps.Sort.{Sorted, sort_ascending-Sorted, Popped, pop-Popped}
use vector_forge.Search.VisitedSet.{VisitedSet}
use vector_forge.Search.VisitedSet.Refinement.{
  fresh-Represents, Model, grow, restart, mark, perform_all, intend_all, Agrees, perform_all-Agrees,
}
use vector_forge.Common.Bits.{popcount}
use vector_forge.Storage.Tombstones.{TombstoneSet, total}
use vector_forge.Storage.Tombstones.Laws.{IsValid as MarksAreValid}
use vector_forge.Storage.VectorStore.{VectorStore, Chunk, heap, capacity}
use vector_forge.Storage.VectorStore.Invariant.{IsValid as StoreIsValid}
use vector_forge.Index.Kernels.{FloatArithmetic, QueryView, KernelTable}
use vector_forge.Index.Flat.{FlatBackend, search}
use vector_forge.Index.NeighborSelect.{heuristic, select_neighbors}
use vector_forge.Index.NeighborSelect.Choice.{Selected, select_neighbors-Selected}
use vector_forge.Index.Flat.Exact.{Nearest, live_rows, search-Nearest}

ltb-StrictWeak : StrictWeak ltb
ltb-StrictWeak = record {
  irrefl = λ a. ground arith;
  trans = λ a b c h k. ground arith;
  weak = λ a b c h k. ground arith;
}

-- A heap of one entry, with room for another.
abbrev one_entry : BoundedMaxHeap ℕ
one_entry = record { storage = 5 ∷ 0 ∷ []; size = 1 }

one_entry-IsValid : IsValid 0 ltb ltb-StrictWeak one_entry
one_entry-IsValid = record { fits = omega arith; heap = λ c p q. absurd (omega arith) }

-- A full heap of one entry.
abbrev full_heap : BoundedMaxHeap ℕ
full_heap = record { storage = 5 ∷ []; size = 1 }

full_heap-IsValid : IsValid 0 ltb ltb-StrictWeak full_heap
full_heap-IsValid = record { fits = omega arith; heap = λ c p q. absurd (omega arith) }

push-Pushed_example : Pushed 0 ltb ltb-StrictWeak full_heap 3 (push 0 ltb full_heap 3)
push-Pushed_example = push-Pushed 0 ltb ltb-StrictWeak full_heap 3 full_heap-IsValid

push_all-Kept_example :
    Kept 0 ltb ltb-StrictWeak one_entry (7 ∷ 2 ∷ 4 ∷ []) (push_all 0 ltb one_entry (7 ∷ 2 ∷ 4 ∷ []))
push_all-Kept_example =
    push_all-Kept 0 ltb ltb-StrictWeak one_entry (7 ∷ 2 ∷ 4 ∷ []) one_entry-IsValid

sort_ascending-Sorted_example :
    ((sort_ascending 0 ltb one_entry).0 ≡ 1)
    × ((sort_ascending 0 ltb one_entry).1.size ≡ 0)
    × Sorted 0 ltb ltb-StrictWeak 1 (5 ∷ 0 ∷ []) (sort_ascending 0 ltb one_entry).1.storage
sort_ascending-Sorted_example =
    sort_ascending-Sorted 0 ltb ltb-StrictWeak one_entry one_entry-IsValid

pop-Popped_example :
    (top 0 ltb one_entry ≡ ok 5)
    × Returns (pop 0 ltb one_entry) (λ r. Popped 0 ltb ltb-StrictWeak one_entry r)
pop-Popped_example = pop-Popped 0 ltb ltb-StrictWeak one_entry one_entry-IsValid (omega arith)

-- A new visited set, and what it stands for.
abbrev new_set : VisitedSet
new_set = record { marks = []; epoch = 1 }

abbrev new_model : Model
new_model = record { capacity = 0; member = λ i. false }

perform_all-Agrees_example :
    Agrees
      (intend_all (grow 3 ∷ mark 1 ∷ mark 1 ∷ restart ∷ mark 1 ∷ []) new_model)
      (perform_all (grow 3 ∷ mark 1 ∷ mark 1 ∷ restart ∷ mark 1 ∷ []) new_set)
perform_all-Agrees_example =
    perform_all-Agrees (grow 3 ∷ mark 1 ∷ mark 1 ∷ restart ∷ mark 1 ∷ []) new_set new_model
      fresh-Represents

-- Numbers as floats, with one kernel.
abbrev pub nat_order : FloatOrder ℕ
nat_order = record {
  lt = ltb;
  eq = ◌==◌;
  lt_irrefl = λ a. ground arith;
  lt_trans = λ a b c h k. ground arith;
  lt_weak = λ a b c h k. ground arith;
  eq_lem = λ a b. ground arith;
}

abbrev pub nat_arithmetic : FloatArithmetic ℕ
nat_arithmetic = record {
  zero_float = 0;
  one_float = 1;
  two_float = 2;
  neg = λ a. a;
  sub = λ a b. a - b;
  mul = λ a b. a * b;
}

abbrev first_difference : List ℕ → List ℕ → ℕ
first_difference q x = get_or q 0 0 - get_or x 0 0 + (get_or x 0 0 - get_or q 0 0)

abbrev block_from : List ℕ → List ℕ → ℕ → ℕ → ℕ → List ℕ
block_from q rows dim i zero = []
block_from q rows dim i (suc n) =
    first_difference q (take dim (drop (i * dim) rows)) ∷ block_from q rows dim (i + 1) n

pub length-block_from : (q rows : List ℕ) (dim i n : ℕ) → length (block_from q rows dim i n) ≡ n
length-block_from q rows dim i zero = refl
length-block_from q rows dim i (suc n) = ap suc (length-block_from q rows dim (i + 1) n)

get_or-block_from :
    (q rows : List ℕ) (dim i n j : ℕ) (z : ℕ)
    → j < n
    → get_or (block_from q rows dim i n) j z
      ≡ first_difference q (take dim (drop ((i + j) * dim) rows))
get_or-block_from q rows dim i zero j z h = absurd (omega arith)
get_or-block_from q rows dim i (suc n) zero z h =
    ap (λ k. first_difference q (take dim (drop (k * dim) rows))) (omega arith)
get_or-block_from q rows dim i (suc n) (suc j) z h =
    get_or-block_from q rows dim (i + 1) n j z (omega arith)
    ∙ ap (λ k. first_difference q (take dim (drop (k * dim) rows))) (omega arith)

pub row_of_block :
    (q rows : List ℕ) (n dim i : ℕ) (z : ℕ)
    → i < n
    → get_or (block_from q rows dim 0 n) i z ≡ first_difference q (take dim (drop (i * dim) rows))
row_of_block q rows n dim i z h =
    get_or-block_from q rows dim 0 n i z h
    ∙ ap (λ k. first_difference q (take dim (drop (k * dim) rows))) (omega arith)

abbrev pub nat_kernels : KernelTable ℕ
nat_kernels = record {
  l2sq_1_to_n = λ q rows n dim. block_from q rows dim 0 n;
  dot_1_to_n = λ q rows n dim. block_from q rows dim 0 n;
  l2sq = first_difference;
  dot = first_difference;
  length-l2sq = λ q rows n dim. length-block_from q rows dim 0 n;
  length-dot = λ q rows n dim. length-block_from q rows dim 0 n;
  l2sq_row = row_of_block;
  dot_row = row_of_block;
}

-- Three rows of one number in a chunk of four.
abbrev pub three_rows : VectorStore ℕ
three_rows = record {
  dim = 1;
  rows_per_chunk = 4;
  chunk_shift = 2;
  chunk_mask = 3;
  max_rows = 10;
  chunk_bytes = 16;
  size = 3;
  mapped_rows = 0;
  chunk_ptrs = heap 0 ∷ [];
  owned_chunks = (5 ∷ 3 ∷ 4 ∷ 0 ∷ []) ∷ [];
  owner = [];
}

three_rows-heap_at : (c : ℕ) (d : Chunk) → c < 1 → get_or (heap 0 ∷ []) (0 + c) d ≡ heap c
three_rows-heap_at zero d h = refl
three_rows-heap_at (suc c) d h = absurd (omega arith)

three_rows-chunk_size : (c : ℕ) → c < 1 → length (get_or three_rows.owned_chunks c []) ≡ 4
three_rows-chunk_size zero h = refl
three_rows-chunk_size (suc c) h = absurd (omega arith)

pub three_rows-IsValid : StoreIsValid 0 three_rows
unfolding capacity
three_rows-IsValid = record {
  shift = refl;
  mask = refl;
  bytes = refl;
  mapped_chunks = 0;
  mapped_size = refl;
  directory = refl;
  mapped_at = λ c d h. absurd (omega arith);
  heap_at = three_rows-heap_at;
  chunk_size = three_rows-chunk_size;
  some_rows = omega arith;
  room = omega arith;
  limit = omega arith;
  width = omega arith;
}

-- The second row is deleted.
abbrev pub second_row : TombstoneSet
second_row = record { words = 2 ∷ []; count = 1 }

second_row-narrow : (i : ℕ) → get_or (2 ∷ []) i 0 < 2 ^ 64
second_row-narrow zero = omega arith
second_row-narrow (suc i) = omega arith

pub second_row-IsValid : MarksAreValid second_row
unfolding total popcount
second_row-IsValid = record { narrow = second_row-narrow; counted = refl }

abbrev flat_backend : FlatBackend ℕ
flat_backend = record {
  vectors = three_rows;
  deleted = second_row;
  metric = l2;
  normalized = false;
  kernels = nat_kernels;
}

abbrev query : QueryView ℕ
query = record { vector = 3 ∷ []; inv_norm = 1 }

abbrev output : List (Scored ℕ)
output = record { distance = 0; id = 0 } ∷ record { distance = 0; id = 0 } ∷ []

search-Nearest_example :
    Returns (search 0 ⦃o = nat_order⦄ nat_arithmetic flat_backend query 1 output) (λ r.
      Nearest 0 ⦃o = nat_order⦄ nat_arithmetic
        (live_rows 0 ⦃o = nat_order⦄ nat_arithmetic flat_backend query three_rows-IsValid)
        1
        r)
search-Nearest_example =
    search-Nearest 0 ⦃o = nat_order⦄ nat_arithmetic flat_backend query three_rows-IsValid 1 output
      second_row-IsValid (omega arith) (omega arith)

-- Candidates at distances 1, 2 and 9 from the base.
abbrev three_candidates : List (Scored ℕ)
three_candidates =
    record { distance = 1; id = 1 }
    ∷ record { distance = 2; id = 2 }
    ∷ record { distance = 9; id = 3 }
    ∷ []

select_neighbors-Selected_example :
    Selected ⦃o = nat_order⦄
      (λ a b. a - b + (b - a))
      three_candidates
      2
      true
      (select_neighbors ⦃o = nat_order⦄ (λ a b. a - b + (b - a)) three_candidates 2 heuristic true)
select_neighbors-Selected_example =
    select_neighbors-Selected ⦃o = nat_order⦄ (λ a b. a - b + (b - a)) three_candidates 2 true
