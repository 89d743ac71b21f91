-- ===== src/Crc32/Reference.antt =====
-- CRC-32 (reflected, polynomial 0xEDB88320) one bit at a time, with no table.
use partman.Base.{
  ℕ, zero, suc, ◌*◌, ◌/◌, ◌%◌, ◌^◌, bit_xor, List, [], ◌∷◌, ◌++◌, ◌≡◌, refl, ap, ◌∙◌, arith, ◌==◌,
  if◌then◌else◌,
}
use partman.Bits.Fields.{double_pow}
use partman.Bits.Xor.{bit_xor_comm, bit_xor_assoc, zero-bit_xor, xor_half, xor_parity, xor_fields}

-- what one bit shifted out adds
abbrev tap : ℕ → ℕ
tap v = if v % 2 == 0 then 0 else 0xEDB88320

unfoldable pub shift_bit : ℕ → ℕ
shift_bit v = bit_xor (v / 2) (tap v)

unfoldable pub shift_bits : ℕ → ℕ → ℕ
unfolding shift_bit
shift_bits zero v = v
shift_bits (suc n) v = shift_bits n (shift_bit v)

unfoldable pub next_byte : ℕ → ℕ → ℕ
next_byte crc b = shift_bits 8 (bit_xor crc b)

-- The remainder after all of `bytes`.
unfoldable pub remainder : ℕ → List ℕ → ℕ
remainder crc [] = crc
remainder crc (b ∷ bytes) = remainder (next_byte crc b) bytes

unfoldable pub checksum : List ℕ → ℕ
checksum bytes = bit_xor (remainder 0xFFFFFFFF bytes) 0xFFFFFFFF

-- The check value of the standard: the digits 1 to 9 in ASCII.
checksum_digits :
    checksum (0x31 ∷ 0x32 ∷ 0x33 ∷ 0x34 ∷ 0x35 ∷ 0x36 ∷ 0x37 ∷ 0x38 ∷ 0x39 ∷ []) ≡ 0xCBF43926
unfolding checksum remainder next_byte shift_bits
checksum_digits = refl

pub remainder-append :
    (crc : ℕ) (xs ys : List ℕ) → remainder crc (xs ++ ys) ≡ remainder (remainder crc xs) ys
unfolding remainder
remainder-append crc [] ys = refl
remainder-append crc (x ∷ xs) ys = remainder-append (next_byte crc x) xs ys

pub xor_swap :
    (a b c d : ℕ) → bit_xor (bit_xor a b) (bit_xor c d) ≡ bit_xor (bit_xor a c) (bit_xor b d)
xor_swap a b c d = cc (
  bit_xor_assoc a b (bit_xor c d),
  bit_xor_assoc b c d,
  bit_xor_assoc c b d,
  bit_xor_comm b c,
  bit_xor_assoc a c (bit_xor b d),
)

tap-xor : (a b : ℕ) → tap (bit_xor a b) ≡ bit_xor (tap a) (tap b)
tap-xor a b = ground (arith, xor_parity a b)

shift_bit-xor : (a b : ℕ) → shift_bit (bit_xor a b) ≡ bit_xor (shift_bit a) (shift_bit b)
unfolding shift_bit
shift_bit-xor a b = rw (xor_half a b, tap-xor a b) (xor_swap (a / 2) (b / 2) (tap a) (tap b))

pub shift_bits-xor :
    (n a b : ℕ) → shift_bits n (bit_xor a b) ≡ bit_xor (shift_bits n a) (shift_bits n b)
unfolding shift_bits
shift_bits-xor zero a b = refl
shift_bits-xor (suc n) a b = rw (shift_bit-xor a b) (shift_bits-xor n (shift_bit a) (shift_bit b))

shift_bit-double : (h : ℕ) → shift_bit (2 * h) ≡ h
unfolding shift_bit
shift_bit-double h = ground (arith, bit_xor_comm h 0, zero-bit_xor h)

-- `n` zero bits are shifted out as they are.
shift_bits-pow : (n h : ℕ) → shift_bits n (h * 2 ^ n) ≡ h
unfolding shift_bits
shift_bits-pow zero h = omega arith
shift_bits-pow (suc n) h = rw (double_pow h n, shift_bit-double (h * 2 ^ n)) (shift_bits-pow n h)

-- One byte at a time: the upper bits move down, and only the low byte needs the polynomial.
pub shift_byte : (v : ℕ) → shift_bits 8 v ≡ bit_xor (v / 256) (shift_bits 8 (v % 256))
shift_byte v =
    ap (shift_bits 8) whole
    ∙ shift_bits-xor 8 (v / 256 * 2 ^ 8) (v % 256)
    ∙ ap (λ (t : ℕ). bit_xor t (shift_bits 8 (v % 256))) (shift_bits-pow 8 (v / 256))
  where
    whole : v ≡ bit_xor (v / 256 * 2 ^ 8) (v % 256)
    whole = omega (arith, xor_fields 8 (v / 256) (v % 256) (omega arith))
