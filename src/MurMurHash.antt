-- ===== src/MurMurHash.antt =====
-- pymammotion/utility/mur_mur_hash.py over lists of byte values. `& 0xFFFFFFFF` is `% 2 ^ 32`, and
-- `>> k` is `/ 2 ^ k`. `struct.unpack_from("<i", …)` followed by `get_unsigned_int` is the
-- unsigned little-endian word.
pub mod Words
use Prim.Native.Nat.{bit_xor, bit_or}
use py_mammotion.Base.{ℕ, ◌+◌, ◌*◌, ◌/◌, ◌%◌, ◌^◌, List, [], ◌∷◌, ◌++◌, length}

abbrev u32 : ℕ → ℕ
u32 x = x % 2 ^ 32

abbrev multiplier : ℕ
multiplier = 1540483477

-- The two loop-carried words of `hash`.
pub record Lanes : Type 0 where
  pub remaining : ℕ
  pub j : ℕ

unsigned_word : ℕ → ℕ → ℕ → ℕ → ℕ
unsigned_word b₀ b₁ b₂ b₃ = b₀ + 256 * b₁ + 65536 * b₂ + 16777216 * b₃

mixed : ℕ → ℕ
mixed word =
    let temp₁ = u32 (word * multiplier) in
    let temp₂ = u32 (bit_xor temp₁ (temp₁ / 2 ^ 24)) in u32 (temp₂ * multiplier)

pub absorb : ℕ → ℕ → ℕ
absorb lane word = u32 (bit_xor (u32 (lane * multiplier)) (mixed word))

-- `while (data_len - pos) >= 8`: the lanes and the bytes that are left.
blocks : Lanes → List ℕ → Lanes × List ℕ
unfolding unsigned_word absorb mixed
blocks s (a₀ ∷ a₁ ∷ a₂ ∷ a₃ ∷ b₀ ∷ b₁ ∷ b₂ ∷ b₃ ∷ rest) =
    blocks
      (record {
        remaining = absorb s.remaining (unsigned_word a₀ a₁ a₂ a₃);
        j = absorb s.j (unsigned_word b₀ b₁ b₂ b₃);
      })
      rest
blocks s rest = (s, rest)

-- `if (data_len - pos) >= 4`
last_word : Lanes × List ℕ → Lanes × List ℕ
unfolding unsigned_word absorb mixed
last_word (s, a₀ ∷ a₁ ∷ a₂ ∷ a₃ ∷ rest) =
    (record s { remaining = absorb s.remaining (unsigned_word a₀ a₁ a₂ a₃) }, rest)
last_word (s, rest) = (s, rest)

tail_bytes : Lanes × List ℕ → Lanes
tail_bytes (s, b₀ ∷ []) = record s { j = u32 (u32 (bit_xor s.j b₀) * multiplier) }
tail_bytes (s, b₀ ∷ b₁ ∷ []) =
    let j = u32 (bit_xor s.j (b₁ * 2 ^ 8)) in record s { j = u32 (u32 (bit_xor j b₀) * multiplier) }
tail_bytes (s, b₀ ∷ b₁ ∷ b₂ ∷ []) =
    let j = u32 (bit_xor s.j (b₂ * 2 ^ 16)) in
    let j' = u32 (bit_xor j (b₁ * 2 ^ 8)) in record s { j = u32 (u32 (bit_xor j' b₀) * multiplier) }
tail_bytes (s, rest) = s

-- The final avalanche, as the 64-bit pattern before the conversion to a signed integer.
pub avalanche : Lanes → ℕ
avalanche s =
    let j₅ = u32 (u32 (bit_xor s.remaining (s.j / 2 ^ 18)) * multiplier) in
    let j₆ = u32 (u32 (bit_xor s.j (j₅ / 2 ^ 22)) * multiplier) in
    let j₇ = u32 (u32 (bit_xor j₅ (j₆ / 2 ^ 17)) * multiplier) in
    let low = u32 (u32 (bit_xor j₆ (j₇ / 2 ^ 19)) * multiplier) in bit_or (j₇ * 2 ^ 32) low

abbrev seed : List ℕ → Lanes
seed bytes = record { remaining = bit_xor (length bytes) 97; j = 0 }

hash_bits : List ℕ → ℕ
unfolding blocks last_word tail_bytes avalanche
hash_bits bytes = avalanche (tail_bytes (last_word (blocks (seed bytes) bytes)))

-- `read_unsigned_long`: the sign bit is cut off, whether or not it was read as a sign.
read_unsigned_long : ℕ → ℕ
read_unsigned_long bits = bits % 2 ^ 63

-- `hash_unsigned` of `bytes`.
pub hash_unsigned : List ℕ → ℕ
unfolding hash_bits read_unsigned_long
hash_unsigned bytes = read_unsigned_long (hash_bits bytes)

-- The eight bytes of a value below 2 ^ 64, lowest first.
long_to_bytes : ℕ → List ℕ
long_to_bytes v =
    v % 256
    ∷ v / 256 % 256
    ∷ v / 256 ^ 2 % 256
    ∷ v / 256 ^ 3 % 256
    ∷ v / 256 ^ 4 % 256
    ∷ v / 256 ^ 5 % 256
    ∷ v / 256 ^ 6 % 256
    ∷ v / 256 ^ 7 % 256
    ∷ []

list_bytes : List ℕ → List ℕ
list_bytes [] = []
list_bytes (v ∷ values) = long_to_bytes v ++ list_bytes values

unfoldable pub hash_unsigned_list : List ℕ → ℕ
unfolding list_bytes long_to_bytes hash_unsigned
hash_unsigned_list values = hash_unsigned (list_bytes values)
