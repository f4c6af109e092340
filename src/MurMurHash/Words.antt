-- ===== src/MurMurHash/Words.antt =====
-- `hash_unsigned_list` on words.
use Prim.Native.Nat.{bit_xor}
use py_mammotion.Base.{ℕ, ◌*◌, ◌/◌, ◌%◌, ◌^◌, ◌<◌, ◌≡◌, refl, List, [], ◌∷◌, arith, length}
use py_mammotion.MurMurHash.{
  Lanes, absorb, unsigned_word, blocks, last_word, tail_bytes, avalanche, long_to_bytes, list_bytes,
  hash_unsigned_list,
}

-- One 64-bit hash ID: its low word goes to one lane, its high word to the other.
abbrev absorb_id : Lanes → ℕ → Lanes
absorb_id s v = record {
  remaining = absorb s.remaining (v % 2 ^ 32);
  j = absorb s.j (v / 2 ^ 32 % 2 ^ 32);
}

-- The hash as a fold over the IDs, with no bytes in sight.
pub absorb_ids : Lanes → List ℕ → Lanes
absorb_ids s [] = s
absorb_ids s (v ∷ values) = absorb_ids (absorb_id s v) values

low_word :
    (v : ℕ)
    → unsigned_word (v % 256) (v / 256 % 256) (v / 256 ^ 2 % 256) (v / 256 ^ 3 % 256) ≡ v % 2 ^ 32
unfolding unsigned_word
low_word v = omega arith

high_word :
    (v : ℕ)
    → unsigned_word (v / 256 ^ 4 % 256) (v / 256 ^ 5 % 256) (v / 256 ^ 6 % 256) (v / 256 ^ 7 % 256)
      ≡ v / 2 ^ 32 % 2 ^ 32
unfolding unsigned_word
high_word v = omega arith

blocks-list_bytes :
    (s : Lanes) (values : List ℕ) → blocks s (list_bytes values) ≡ (absorb_ids s values, [])
unfolding blocks list_bytes absorb_ids long_to_bytes
blocks-list_bytes s [] = refl
blocks-list_bytes s (v ∷ values) =
    rw (low_word v, high_word v) (blocks-list_bytes (absorb_id s v) values)

length-list_bytes : (values : List ℕ) → length (list_bytes values) ≡ 8 * length values
unfolding list_bytes long_to_bytes
length-list_bytes [] = refl
length-list_bytes (v ∷ values) = omega (arith, length-list_bytes values)

-- The byte-wise hash of a list of hash IDs equals one pass over their low and high 32-bit words,
-- seeded with the number of bytes, followed by the avalanche and cut to 63 bits; and it is below 2
-- ^ 63.
pub hash_unsigned_list-absorb_ids :
    (values : List ℕ)
    → (hash_unsigned_list values
        ≡ avalanche
            (absorb_ids (record { remaining = bit_xor (8 * length values) 97; j = 0 }) values)
          % 2 ^ 63)
      × (hash_unsigned_list values < 2 ^ 63)
unfolding hash_unsigned_list last_word tail_bytes
hash_unsigned_list-absorb_ids values =
    (rw (length-list_bytes values, blocks-list_bytes _ values), omega arith)
