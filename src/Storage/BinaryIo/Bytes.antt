-- ===== src/Storage/BinaryIo/Bytes.antt =====
-- Little-endian bytes: what is written is what is read.
use Prim.Native.Nat.{bit_or, bit_or-bitwise}
use native.Mathlib.Nat.{
  pow-suc, mod-eq_of_lt, mul-add, mul_comm, mul_assoc, add-mul-mod_self_left, pow-le-pow_right,
  mod-add-div, mul-le-mul_right, mod-lt,
}
use vector_forge.Common.{
  ℕ, zero, suc, ◌+◌, ◌-◌, ◌*◌, ◌/◌, ◌%◌, ◌^◌, ◌<◌, ◌≤◌, ◌≡◌, refl, sym, ap, ◌∙◌, List, [], ◌∷◌,
  ◌++◌, some, length, get_or, drop, take, arith, ltb, length-append, length-drop, drop-drop,
  drop-append, take-append, get_or-append_left, false,
}
use vector_forge.Common.Bits.{bit_or_step, mask-pos}
use vector_forge.Storage.BinaryIo.{ByteReader, remaining, read_loop, read_le, read_view, le_bytes}

-- Or-ing in bits above those in use adds them.
bit_or-above : (k a b : ℕ) → a < 2 ^ k → bit_or a (b * 2 ^ k) ≡ a + b * 2 ^ k
bit_or-above zero a b h =
    let none_ : a ≡ 0 = omega arith in
    let one : b * 2 ^ 0 ≡ b = omega arith in rw (none_, one) (simp bit_or-bitwise (omega arith))
bit_or-above (suc k) a b h =
    let scaled : b * 2 ^ suc k ≡ b * 2 ^ k * 2 = rw (pow-suc 2 k) (sym (mul_assoc b (2 ^ k) 2)) in
    let half : b * 2 ^ suc k / 2 ≡ b * 2 ^ k = omega (arith, scaled) in
    let even : b * 2 ^ suc k % 2 ≡ 0 = omega (arith, scaled) in
    rw
      (
        bit_or_step a (b * 2 ^ suc k),
        half,
        even,
        bit_or-above k (a / 2) b (omega (arith, pow-suc 2 k)),
      )
      (omega (arith, scaled))

pub length-le_bytes : (v i n : ℕ) → length (le_bytes v i n) ≡ n
unfolding le_bytes
length-le_bytes v i zero = refl
length-le_bytes v i (suc n) = ap suc (length-le_bytes v (i + 1) n)

pow-byte : (i : ℕ) → 2 ^ (8 * (i + 1)) ≡ 2 ^ (8 * i) * 256
pow-byte i =
    let e : 8 * (i + 1) ≡ suc (suc (suc (suc (suc (suc (suc (suc (8 * i)))))))) = omega arith in
    let k = 8 * i in
    rw e (
      omega (
        arith,
        pow-suc 2 k,
        pow-suc 2 (suc k),
        pow-suc 2 (suc (suc k)),
        pow-suc 2 (suc (suc (suc k))),
        pow-suc 2 (suc (suc (suc (suc k)))),
        pow-suc 2 (suc (suc (suc (suc (suc k))))),
        pow-suc 2 (suc (suc (suc (suc (suc (suc k)))))),
        pow-suc 2 (suc (suc (suc (suc (suc (suc (suc k))))))),
      ))

-- One more byte of a remainder.
mod-split : (v m : ℕ) → 0 < m → v % (m * 256) ≡ v % m + v / m % 256 * m
mod-split v m p =
    let r = v % m + v / m % 256 * m in
    let low = mod-lt v p in
    let byte = mul-le-mul_right {m = v / m % 256} {n = 255} m (omega arith) in
    let small : r < m * 256 = omega (arith, low, byte) in
    let whole : r + m * 256 * (v / m / 256) ≡ v =
      let outer = mod-add-div v m in
      let inner = ap (λ x. m * x) (mod-add-div (v / m) 256) in
      let scaled : m * (v / m % 256 + 256 * (v / m / 256))
          ≡ v / m % 256 * m + m * 256 * (v / m / 256) =
        rw
          (
            mul-add m (v / m % 256) (256 * (v / m / 256)),
            mul_comm m (v / m % 256),
            sym (mul_assoc m 256 (v / m / 256)),
          )
          refl in
      omega (arith, outer, inner, scaled) in
    ap (λ x. x % (m * 256)) (sym whole)
    ∙ add-mul-mod_self_left r (m * 256) (v / m / 256)
    ∙ mod-eq_of_lt small

read_loop-value :
    (w : ℕ) (bytes : List ℕ) (position v n i value : ℕ)
    → ((j : ℕ) → j < n → get_or bytes (position + (i + j)) 0 ≡ v / 2 ^ (8 * (i + j)) % 256)
    → value ≡ v % 2 ^ (8 * i)
    → v < 2 ^ (8 * (i + n))
    → 8 * (i + n) ≤ w
    → read_loop w bytes position i n value ≡ v
unfolding read_loop
read_loop-value w bytes position v zero i value at e small l =
    let here : 8 * (i + 0) ≡ 8 * i = omega arith in e ∙ mod-eq_of_lt (rw here at small)
read_loop-value w bytes position v (suc n) i value at e small l =
    let m = 2 ^ (8 * i) in
    let byte = v / m % 256 in
    let here : i + 0 ≡ i = omega arith in
    let read : get_or bytes (position + i) 0 ≡ byte = rw here at (at 0 (omega arith)) in
    let most = mul-le-mul_right {m = byte} {n = 255} m (omega arith) in
    let grown = pow-le-pow_right {n = 2} (omega arith) {i = 8 * (i + 1)} {j = w} (omega arith) in
    let fits : byte * m % 2 ^ w ≡ byte * m =
      mod-eq_of_lt (omega (arith, most, grown, pow-byte i, mask-pos (8 * i))) in
    let next : bit_or value (get_or bytes (position + i) 0 * m % 2 ^ w) ≡ v % 2 ^ (8 * (i + 1)) =
      rw
        (read, fits, e, bit_or-above (8 * i) (v % m) byte (mod-lt v (mask-pos (8 * i))), pow-byte i)
        (sym (mod-split v m (mask-pos (8 * i)))) in
    let place : i + 1 + n ≡ i + suc n = omega arith in
    read_loop-value w bytes position v n (i + 1) _
      (λ j p.
        let moved : i + suc j ≡ i + 1 + j = omega arith in rw moved at (at (suc j) (omega arith)))
      next (rw place small) (rw place l)

get_or-le_bytes : (v n i j : ℕ) → j < n → get_or (le_bytes v i n) j 0 ≡ v / 2 ^ (8 * (i + j)) % 256
unfolding le_bytes
get_or-le_bytes v zero i j h = absurd (omega arith)
get_or-le_bytes v (suc n) i zero h = ap (λ k. v / 2 ^ (8 * k) % 256) (omega arith)
get_or-le_bytes v (suc n) i (suc j) h =
    get_or-le_bytes v n (i + 1) j (omega arith) ∙ ap (λ k. v / 2 ^ (8 * k) % 256) (omega arith)

get_or-drop : (k j : ℕ) (l : List ℕ) → get_or l (k + j) 0 ≡ get_or (drop k l) j 0
get_or-drop zero j l = ap (λ n. get_or l n 0) (omega arith)
get_or-drop (suc k) j [] = refl
get_or-drop (suc k) j (x ∷ l) =
    let e : suc k + j ≡ suc (k + j) = omega arith in rw e (get_or-drop k j l)

-- The position before the bytes `front`, and `back` after them.
pub record At (r : ByteReader) (front back : List ℕ) : Type 0 where
  pub inside : r.position ≤ length r.bytes
  pub split : drop r.position r.bytes ≡ front ++ back

At-next :
    (r : ByteReader) (front back : List ℕ)
    → At r front back
    → At (record r { position = r.position + length front }) [] back
At-next r front back h =
    let size = ap length h.split in
    record {
      inside =
          omega (arith, h.inside, size, length-drop r.position r.bytes, length-append front back);
      split =
          sym (drop-drop (length front) r.position r.bytes)
          ∙ ap (drop (length front)) h.split
          ∙ drop-append front back;
    }

-- An integer of `n` bytes is read back, and the reader stands after its bytes.
pub read_le-le_bytes :
    (r : ByteReader) (v n : ℕ) (back : List ℕ)
    → At r (le_bytes v 0 n) back
    → v < 2 ^ (8 * n)
    → (read_le n r ≡ some (v, record r { position = r.position + n }))
      × At (record r { position = r.position + n }) [] back
unfolding read_le remaining
read_le-le_bytes r v n back h small =
    let size = length-le_bytes v 0 n in
    let whole = ap length h.split in
    let enough : ltb (length r.bytes - r.position) n ≡ false =
      ground
        (arith, whole, length-drop r.position r.bytes, length-append (le_bytes v 0 n) back, size) in
    let value : read_loop (8 * n) r.bytes r.position 0 n 0 ≡ v =
      read_loop-value (8 * n) r.bytes r.position v n 0 0
        (λ j p.
          let none_ : 0 + j ≡ j = omega arith in
          rw none_ (
            get_or-drop r.position j r.bytes
            ∙ ap (λ l. get_or l j 0) h.split
            ∙ get_or-append_left (le_bytes v 0 n) back j 0 (omega (arith, size))
            ∙ get_or-le_bytes v n 0 j p
            ∙ ap (λ k. v / 2 ^ (8 * k) % 256) (omega arith)))
        (omega arith) (rw (zero_add n) small) (omega arith) in
    (rw (enough, value, read_le) refl, rw size at (At-next r (le_bytes v 0 n) back h))
  where
    zero_add : (k : ℕ) → 0 + k ≡ k
    zero_add k = omega arith

-- A view of as many bytes as there are is those bytes.
pub read_view-bytes :
    (r : ByteReader) (bytes back : List ℕ)
    → At r bytes back
    → (read_view (length bytes) r ≡ some (bytes, record r { position = r.position + length bytes }))
      × At (record r { position = r.position + length bytes }) [] back
unfolding read_view remaining
read_view-bytes r bytes back h =
    let whole = ap length h.split in
    let enough : ltb (length r.bytes - r.position) (length bytes) ≡ false =
      ground (arith, whole, length-drop r.position r.bytes, length-append bytes back) in
    let value : take (length bytes) (drop r.position r.bytes) ≡ bytes =
      ap (take (length bytes)) h.split ∙ take-append bytes back in
    (rw (enough, value, read_view) refl, At-next r bytes back h)

-- Reading the first of the bytes that are left.
pub read_le-next :
    (v n : ℕ) {r : ByteReader} {back : List ℕ}
    → At r [] (le_bytes v 0 n ++ back)
    → v < 2 ^ (8 * n)
    → (read_le n r ≡ some (v, record r { position = r.position + n }))
      × At (record r { position = r.position + n }) [] back
read_le-next v n {r} {back} h small =
    read_le-le_bytes r v n back (record { inside = h.inside; split = h.split }) small

pub read_view-next :
    (bytes : List ℕ) {r : ByteReader} {back : List ℕ}
    → At r [] (bytes ++ back)
    → (read_view (length bytes) r ≡ some (bytes, record r { position = r.position + length bytes }))
      × At (record r { position = r.position + length bytes }) [] back
read_view-next bytes {r} {back} h =
    read_view-bytes r bytes back (record { inside = h.inside; split = h.split })
