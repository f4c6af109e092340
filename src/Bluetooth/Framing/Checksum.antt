-- ===== src/Bluetooth/Framing/Checksum.antt =====
-- The table of `calc_crc` against the polynomial that it stands for, 0x1021.
use Prim.Native.Nat.{bit_xor}
use py_mammotion.Base.{
  ℕ, zero, suc, ◌*◌, ◌%◌, ◌<◌, ◌≡◌, refl, Bool, true, ◌&&◌, ◌==◌, nat_keys, eqb_iff, if◌then◌else◌,
  leb, arith, Bool-cases, inl, inr,
}
use py_mammotion.Bluetooth.Framing.{at, crc_tb}

-- One bit of the division: shift, and subtract the polynomial if a bit fell out.
divide_bit : ℕ → ℕ
divide_bit crc = if leb 32768 crc then bit_xor (crc * 2) 4129 % 65536 else crc * 2

divide_bits : ℕ → ℕ → ℕ
unfolding divide_bit
divide_bits zero crc = crc
divide_bits (suc n) crc = divide_bits n (divide_bit crc)

-- The remainder of one byte, moved to the high half, after eight bits.
pub byte_remainder : ℕ → ℕ
unfolding divide_bits
byte_remainder i = divide_bits 8 (i * 256)

all_below : (ℕ → Bool) → ℕ → Bool
all_below f zero = true
all_below f (suc n) = f n && all_below f n

all_below-at : (f : ℕ → Bool) (n i : ℕ) → all_below f n ≡ true → i < n → f i ≡ true
unfolding all_below
all_below-at f zero i h l = absurd (omega (arith, l))
all_below-at f (suc n) i h l = elim (Bool-cases (i == n)) [
  | inl e ↦ rw ((eqb_iff i n).0 e) (ground arith)
  | inr e ↦ all_below-at f n i (ground arith) (ground (arith, l, e))
]

table_agrees : all_below (λ i. at crc_tb i == byte_remainder i) 256 ≡ true
unfolding all_below at crc_tb byte_remainder
table_agrees = refl

-- Each entry of CRC_TB, at an index below 256, is the remainder of that byte after eight bits of
-- division by the polynomial 0x1021.
pub at-crc_tb : (i : ℕ) → i < 256 → at crc_tb i ≡ byte_remainder i
at-crc_tb i l = (eqb_iff (at crc_tb i) (byte_remainder i)).0 (all_below-at _ 256 i table_agrees l)
