-- ===== src/Storage/Tombstones.antt =====
-- src/storage/tombstones.hpp: deletion markers for rows, one bit to a row in words of 64 bits.
pub mod Laws
pub mod Restore
pub mod Empty
use Prim.Native.Nat.{bit_and, bit_or}
use vector_forge.Common.{
  ℕ, ◌+◌, ◌-◌, ◌*◌, ◌/◌, ◌%◌, ◌^◌, Bool, true, false, Option, none, some, List, [], ◌∷◌, ◌++◌, ◌&&◌,
  ◌==◌, not, if◌then◌else◌, length, get_or, set as set_elem, replicate, ltb,
}
use vector_forge.Common.Bits.{popcount}
use vector_forge.Core.Status.{Result, ok, ◌>>=◌, ◌>>◌, check}

pub record TombstoneSet : Type 0 where
  pub words : List ℕ
  pub count : ℕ

abbrev pub empty : TombstoneSet
empty = record { words = []; count = 0 }

-- `(rows + 63) / 64` in 64 bits.
unfoldable pub word_count : ℕ → ℕ
word_count rows = (rows + 63) % 2 ^ 64 / 64

unfoldable pub ensure_size : TombstoneSet → ℕ → TombstoneSet
unfolding word_count
ensure_size s rows =
    let words = word_count rows in
    if ltb (length s.words) words
    then record s { words = s.words ++ replicate (words - length s.words) 0 }
    else s

-- The answer is whether the row was not marked already.
unfoldable pub set : TombstoneSet → ℕ → Result (Bool × TombstoneSet)
set s id = do
  check (ltb (id / 64) (length s.words))
  let word = get_or s.words (id / 64) 0
  let mask = 2 ^ (id % 64)
  if not (bit_and word mask == 0)
      then ok (false, s)
      else ok (
        true,
        record { words = set_elem s.words (id / 64) (bit_or word mask); count = s.count + 1 },
      )

-- The answer is whether the row was marked.
unfoldable pub clear : TombstoneSet → ℕ → Result (Bool × TombstoneSet)
clear s id = do
  check (ltb (id / 64) (length s.words))
  let word = get_or s.words (id / 64) 0
  let mask = 2 ^ (id % 64)
  if bit_and word mask == 0
      then ok (false, s)
      else ok (
        true,
        record {
          words = set_elem s.words (id / 64) (bit_and word (2 ^ 64 - 1 - mask));
          count = s.count - 1;
        },
      )

unfoldable pub test : TombstoneSet → ℕ → Bool
test s id =
    ltb (id / 64) (length s.words)
    && not (bit_and (get_or s.words (id / 64) 0 / 2 ^ (id % 64)) 1 == 0)

unfoldable pub any : TombstoneSet → Bool
any s = not (s.count == 0)

-- `words.back()`
unfoldable pub last_word : List ℕ → ℕ
last_word words = get_or words (length words - 1) 0

-- The sum of the words' population counts.
unfoldable pub total : List ℕ → ℕ
total [] = 0
total (w ∷ ws) = popcount 64 w + total ws

unfoldable pub restore : List ℕ → ℕ → Option TombstoneSet
unfolding last_word total word_count
restore words rows =
    if not (length words == word_count rows)
    then none
    else if not (rows % 64 == 0) && not (last_word words / 2 ^ (rows % 64) == 0)
    then none
    else some (record { words = words; count = total words })
