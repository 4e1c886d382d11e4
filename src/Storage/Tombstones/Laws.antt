-- ===== src/Storage/Tombstones/Laws.antt =====
-- Marking, unmarking and growing: what `test` sees afterwards, and the count.
use Prim.Native.Nat.{bit_and, bit_or}
use vector_forge.Common.{
  ℕ, zero, suc, ◌+◌, ◌-◌, ◌/◌, ◌%◌, ◌^◌, ◌≤◌, ◌<◌, ◌≡◌, ◌≢◌, refl, Bool, true, false, List, [], ◌∷◌,
  ◌++◌, ◌==◌, not, if◌then◌else◌, length, get_or, set as set_elem, replicate, arith, ltb, to_nat,
  lt→ltb, get_or-set, length-set, Bool-cases, inl, inr, length-append, length-replicate, max, min,
  get_or-replicate, get_or-out,
}
use vector_forge.Common.Bits.{
  bit, popcount, bit-shift, bit-le, bit_and-mask, mask-bit, bit-bit_or, bit-bit_and, bit-complement,
  bit_or-lt, bit_and-lt, popcount-suc, popcount-zero, zero-bit, mask-lt, mask_test,
}
use vector_forge.Core.Status.{Returns}
use vector_forge.Storage.Tombstones.{TombstoneSet, ensure_size, word_count, set, clear, test, total}

pub record IsValid (s : TombstoneSet) : Type 0 where
  pub narrow : (i : ℕ) → get_or s.words i 0 < 2 ^ 64
  pub counted : s.count ≡ total s.words

-- The bit that marks a row.
abbrev pub mark : List ℕ → ℕ → ℕ
mark words id = bit (get_or words (id / 64) 0) (id % 64)

pub test-mark : (s : TombstoneSet) (id : ℕ) → test s id ≡ (mark s.words id == 1)
unfolding test bit
test-mark s id = ground (
  arith,
  bit-shift (get_or s.words (id / 64) 0) (id % 64),
  bit_and-mask (get_or s.words (id / 64) 0 / 2 ^ (id % 64)) 0,
  bit-le (get_or s.words (id / 64) 0) (id % 64),
  get_or-out s.words (id / 64) 0,
  zero-bit (id % 64),
)

pub total-set :
    (words : List ℕ) (i v : ℕ)
    → i < length words
    → total (set_elem words i v) + popcount 64 (get_or words i 0) ≡ total words + popcount 64 v
unfolding total
total-set [] i v h = absurd (omega arith)
total-set (w ∷ ws) zero v h = omega arith
total-set (w ∷ ws) (suc i) v h = omega (arith, total-set ws i v (omega arith))

pub record Marked (s : TombstoneSet) (id : ℕ) (r : Bool × TombstoneSet) : Type 0 where
  pub valid : IsValid r.1
  pub fresh : r.0 ≡ not (test s id)
  pub tests : (j : ℕ) → test r.1 j ≡ (if j == id then true else test s j)
  pub count : r.1.count ≡ s.count + to_nat r.0
  pub size : length r.1.words ≡ length s.words

pub record Unmarked (s : TombstoneSet) (id : ℕ) (r : Bool × TombstoneSet) : Type 0 where
  pub valid : IsValid r.1
  pub was : r.0 ≡ test s id
  pub tests : (j : ℕ) → test r.1 j ≡ (if j == id then false else test s j)
  pub count : r.1.count + to_nat r.0 ≡ s.count
  pub size : length r.1.words ≡ length s.words

module _ {s : TombstoneSet} (id : ℕ) (valid : IsValid s) (inside : id / 64 < length s.words) where
  -- The word of the row and its mask.
  abbrev word : ℕ
  word = get_or s.words (id / 64) 0

  abbrev mask : ℕ
  mask = 2 ^ (id % 64)

  -- Writing a word with another bit at the row, and all other bits kept.
  write_mark :
      (v : ℕ)
      → ((j : ℕ) → j < 64 → j ≢ id % 64 → bit v j ≡ bit (get_or s.words (id / 64) 0) j)
      → (j : ℕ)
      → mark (set_elem s.words (id / 64) v) j
        ≡ (if j == id then bit v (id % 64) else mark s.words j)
  write_mark v same j =
      ground (arith, get_or-set s.words (id / 64) (j / 64) v 0 inside, same (j % 64))

  write-IsValid :
      (v c : ℕ)
      → v < 2 ^ 64
      → c + popcount 64 word ≡ s.count + popcount 64 v
      → IsValid (record { words = set_elem s.words (id / 64) v; count = c })
  write-IsValid v c h e = record {
    narrow = λ i. ground (arith, get_or-set s.words (id / 64) i v 0 inside, valid.narrow i);
    counted = omega (arith, valid.counted, total-set s.words (id / 64) v inside);
  }

  marked : TombstoneSet
  marked = record { words = set_elem s.words (id / 64) (bit_or word mask); count = s.count + 1 }

  marked_bit : (j : ℕ) → bit (bit_or word mask) j ≡ max (bit word j) (if id % 64 == j then 1 else 0)
  marked_bit j = rw (bit-bit_or word mask j, mask-bit (id % 64) j)

  marked-IsValid : bit word (id % 64) ≡ 0 → IsValid marked
  unfolding marked
  marked-IsValid clear_bit =
      write-IsValid (bit_or word mask) (s.count + 1)
        (bit_or-lt 64 word mask (valid.narrow (id / 64)) (mask-lt (id % 64) 64 (omega arith)))
        (omega (
          arith,
          popcount-suc 64 (id % 64) (bit_or word mask) word (omega arith)
              (ground (arith, marked_bit (id % 64))) (λ j h ne. ground (arith, marked_bit j)),
        ))

  -- In a valid set with a word for the row, `set` succeeds: the set is valid, the row is marked,
  -- every other mark stays, the answer is whether the row was not marked before, and the count
  -- grows by one then.
  pub set-Marked : Returns (set s id) (Marked s id)
  unfolding set
  set-Marked = elim (Bool-cases (bit word (id % 64) == 0)) [
    | inl clear_bit ↦ (
      (true, marked),
      unfold marked in rw (lt→ltb _ _ inside, mask_test word (id % 64)) (ground arith),
      record {
        valid = marked-IsValid (ground arith);
        fresh = ground (arith, test-mark s id);
        tests = λ j.
            unfold marked in
            ground (
              arith,
              test-mark s j,
              test-mark marked j,
              write_mark (bit_or word mask) (λ i h ne. ground (arith, marked_bit i)) j,
              marked_bit (id % 64),
            );
        count = unfold marked in refl;
        size = unfold marked in length-set s.words (id / 64) (bit_or word mask);
      },
    )
    | inr set_bit ↦ (
      (false, s),
      rw (lt→ltb _ _ inside, mask_test word (id % 64)) (ground arith),
      record {
        valid = valid;
        fresh = ground (arith, test-mark s id, bit-le word (id % 64));
        tests = λ j. ground (arith, test-mark s id, bit-le word (id % 64));
        count = omega arith;
        size = refl;
      },
    )
  ]

  cleared : TombstoneSet
  cleared = record {
    words = set_elem s.words (id / 64) (bit_and word (2 ^ 64 - 1 - mask));
    count = s.count - 1;
  }

  cleared_bit :
      (j : ℕ)
      → j < 64
      → bit (bit_and word (2 ^ 64 - 1 - mask)) j
        ≡ min (bit word j) (1 - (if id % 64 == j then 1 else 0))
  cleared_bit j h =
      rw
        (
          bit-bit_and word (2 ^ 64 - 1 - mask) j,
          bit-complement 64 mask j (mask-lt (id % 64) 64 (omega arith)) h,
          mask-bit (id % 64) j,
        )
        refl

  cleared_count :
      bit word (id % 64) ≡ 1 → popcount 64 word ≡ popcount 64 (bit_and word (2 ^ 64 - 1 - mask)) + 1
  cleared_count one =
      popcount-suc 64 (id % 64) word (bit_and word (2 ^ 64 - 1 - mask)) (omega arith)
        (ground (arith, cleared_bit (id % 64) (omega arith)))
        (λ j h ne. ground (arith, cleared_bit j h, bit-le word j))

  cleared-IsValid : bit word (id % 64) ≡ 1 → IsValid cleared
  unfolding cleared
  cleared-IsValid one =
      write-IsValid (bit_and word (2 ^ 64 - 1 - mask)) (s.count - 1)
        (bit_and-lt 64 word (2 ^ 64 - 1 - mask) (valid.narrow (id / 64)))
        (omega (
          arith,
          cleared_count one,
          valid.counted,
          total-set s.words (id / 64) (bit_and word (2 ^ 64 - 1 - mask)) inside,
        ))

  counted_pos : bit word (id % 64) ≡ 1 → 1 ≤ s.count
  counted_pos one = omega (
    arith,
    cleared_count one,
    valid.counted,
    total-set s.words (id / 64) (bit_and word (2 ^ 64 - 1 - mask)) inside,
  )

  -- In a valid set with a word for the row, `clear` succeeds: the set is valid, the row is not
  -- marked, every other mark stays, the answer is whether the row was marked, and the count falls
  -- by one then.
  pub clear-Unmarked : Returns (clear s id) (Unmarked s id)
  unfolding clear
  clear-Unmarked = elim (Bool-cases (bit word (id % 64) == 0)) [
    | inl clear_bit ↦ (
      (false, s),
      rw (lt→ltb _ _ inside, mask_test word (id % 64)) (ground arith),
      record {
        valid = valid;
        was = ground (arith, test-mark s id);
        tests = λ j. ground (arith, test-mark s id);
        count = omega arith;
        size = refl;
      },
    )
    | inr set_bit ↦
        let one : bit word (id % 64) ≡ 1 = ground (arith, bit-le word (id % 64)) in
        (
          (true, cleared),
          unfold cleared in rw (lt→ltb _ _ inside, mask_test word (id % 64)) (ground arith),
          record {
            valid = cleared-IsValid one;
            was = ground (arith, test-mark s id);
            tests = λ j.
                unfold cleared in
                ground (
                  arith,
                  test-mark s j,
                  test-mark cleared j,
                  write_mark (bit_and word (2 ^ 64 - 1 - mask))
                      (λ i h ne. ground (arith, cleared_bit i h, bit-le word i)) j,
                  cleared_bit (id % 64) (omega arith),
                );
            count = unfold cleared in omega (arith, counted_pos one);
            size =
                unfold cleared in length-set s.words (id / 64) (bit_and word (2 ^ 64 - 1 - mask));
          },
        )
  ]

total-append-replicate : (words : List ℕ) (n : ℕ) → total (words ++ replicate n 0) ≡ total words
unfolding total
total-append-replicate [] n = zeros n
  where
    zeros : (n : ℕ) → total (replicate n 0) ≡ 0
    zeros zero = refl
    zeros (suc n) = ground (arith, zeros n, popcount-zero 64)
total-append-replicate (w ∷ ws) n = omega (arith, total-append-replicate ws n)

get_or-grown : (words : List ℕ) (n i : ℕ) → get_or (words ++ replicate n 0) i 0 ≡ get_or words i 0
get_or-grown [] n i = get_or-replicate n i 0
get_or-grown (w ∷ ws) n zero = refl
get_or-grown (w ∷ ws) n (suc i) = get_or-grown ws n i

pub record Grown (s : TombstoneSet) (rows : ℕ) (t : TombstoneSet) : Type 0 where
  pub valid : IsValid t
  pub tests : (j : ℕ) → test t j ≡ test s j
  pub count : t.count ≡ s.count
  pub room : (j : ℕ) → j < rows → j / 64 < length t.words
  pub larger : length s.words ≤ length t.words

grown-by :
    {s : TombstoneSet} (n : ℕ)
    → IsValid s
    → let t : TombstoneSet = record s { words = s.words ++ replicate n 0 } in
      IsValid t × ((j : ℕ) → test t j ≡ test s j)
grown-by {s} n valid =
    let t : TombstoneSet = record s { words = s.words ++ replicate n 0 } in
    (
      record {
        narrow = λ i. rw (get_or-grown s.words n i) (valid.narrow i);
        counted = rw (total-append-replicate s.words n) valid.counted;
      },
      λ j. rw (test-mark t j, test-mark s j, get_or-grown s.words n (j / 64)) refl,
    )

-- Growing makes room for the rows, unmarked, and changes no mark.
pub ensure_size-Grown :
    {s : TombstoneSet} (rows : ℕ) → IsValid s → rows ≤ 2 ^ 32 → Grown s rows (ensure_size s rows)
unfolding ensure_size word_count
ensure_size-Grown {s} rows valid small =
    elim (Bool-cases (ltb (length s.words) ((rows + 63) % 2 ^ 64 / 64))) [
      | inl more ↦
          let n = (rows + 63) % 2 ^ 64 / 64 - length s.words in
          let size = length-append s.words (replicate n 0) in
          let added = length-replicate {A = ℕ} n 0 in
          rw more (record {
            valid = (grown-by n valid).0;
            tests = (grown-by n valid).1;
            count = refl;
            room = λ j h. ground (arith, size, added);
            larger = ground (arith, size, added);
          })
      | inr enough ↦ rw enough (record {
        valid = valid;
        tests = λ j. refl;
        count = refl;
        room = λ j h. ground arith;
        larger = omega arith;
      })
    ]
