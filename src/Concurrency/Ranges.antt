-- ===== src/Concurrency/Ranges.antt =====
-- src/concurrency/thread_pool.cpp, ThreadPool::run_ranges: the chunks of a range, for a body that
-- does not throw. The threads take chunk numbers from one atomic counter, so the order of the calls
-- on the counter is a sequence; `claims` is how many calls there are in all.
pub mod Cover
use vector_forge.Common.{
  ℕ, zero, suc, ◌+◌, ◌-◌, ◌*◌, ◌/◌, ◌%◌, ◌^◌, Bool, List, [], ◌∷◌, ◌++◌, ◌==◌, ◌||◌, leb, min, max,
  if◌then◌else◌,
}

unfoldable pub chunk_count : ℕ → ℕ → ℕ
chunk_count count grain = count / grain + (if count % grain == 0 then 0 else 1)

-- The half-open range of a chunk.
unfoldable pub chunk_at : ℕ → ℕ → ℕ → ℕ → ℕ × ℕ
chunk_at begin end grain chunk =
    let lo = (begin + chunk * grain) % 2 ^ 64 in (lo, min end ((lo + grain) % 2 ^ 64))

-- The ranges that the body gets, from `claims` calls on the counter at `next`.
unfoldable pub run_chunks : ℕ → ℕ → ℕ → ℕ → ℕ → ℕ → List (ℕ × ℕ)
unfolding chunk_at
run_chunks begin end grain chunks next zero = []
run_chunks begin end grain chunks next (suc claims) =
    let rest = run_chunks begin end grain chunks (next + 1) claims in
    if leb chunks next then rest else chunk_at begin end grain next ∷ rest

unfoldable pub run_ranges : ℕ → ℕ → ℕ → Bool → ℕ → List (ℕ × ℕ)
unfolding chunk_count run_chunks
run_ranges begin end grain on_worker claims =
    if leb end begin
    then []
    else (let width = max grain 1 in
        let chunks = chunk_count (end - begin) width in
        if chunks == 1 || on_worker
        then (begin, end) ∷ []
        else run_chunks begin end width chunks 0 claims)
