-- ===== src/Crc32/Bounds.antt =====
-- The remainder of the CRC-32 stays within 32 bits.
use mathlib.Core.Path.{subst}
use partman.Base.{ℕ, zero, suc, ◌/◌, ◌^◌, ◌<◌, bit_xor, List, [], ◌∷◌, refl, inr, sym, arith}
use partman.Bits.Xor.{xor-lt}
use partman.Guid.{AllBytes}
use partman.MemUtils.Region.{le_bytes}
use partman.Crc32.{Crc, crc32_compute16, crc32_compute64, crc32_finalize}
use partman.Crc32.Reference.{shift_bit, shift_bits, next_byte, remainder, checksum}
use partman.Crc32.Table.{IsTable}
use partman.Crc32.Laws.{Feeds, Feeds-16, Feeds-64}

shift_bit-lt : (v : ℕ) → v < 2 ^ 32 → shift_bit v < 2 ^ 32
unfolding shift_bit
shift_bit-lt v h = xor-lt 32 (v / 2) _ (omega arith) (ground arith)

shift_bits-lt : (n v : ℕ) → v < 2 ^ 32 → shift_bits n v < 2 ^ 32
unfolding shift_bits
shift_bits-lt zero v h = h
shift_bits-lt (suc n) v h = shift_bits-lt n (shift_bit v) (shift_bit-lt v h)

pub remainder-lt :
    (crc : ℕ) (bytes : List ℕ) → crc < 2 ^ 32 → AllBytes bytes → remainder crc bytes < 2 ^ 32
unfolding remainder next_byte
remainder-lt crc [] h all = h
remainder-lt crc (b ∷ bytes) h all =
    remainder-lt (next_byte crc b) bytes
      (shift_bits-lt 8 (bit_xor crc b) (xor-lt 32 crc b h (omega (arith, all.0)))) (all.1)

pub checksum-lt : (bytes : List ℕ) → AllBytes bytes → checksum bytes < 2 ^ 32
unfolding checksum
checksum-lt bytes all =
    xor-lt 32 _ _ (remainder-lt 0xFFFFFFFF bytes (omega arith) all) (omega arith)

pub le_bytes-AllBytes : (n i : ℕ) → AllBytes (le_bytes n i)
unfolding le_bytes
le_bytes-AllBytes zero i = tt
le_bytes-AllBytes (suc n) i = (omega arith, le_bytes-AllBytes n (i / 256))

-- A table that the code can go on with, and a remainder of 32 bits.
abbrev pub IsGood : Crc → Type 0
IsGood c = IsTable c.table × (c.crc32 < 2 ^ 32)

abbrev pub Keeps : (Crc → Crc) → Type 0
Keeps f = (c : Crc) → IsGood c → IsGood (f c)

pub Feeds-Keeps : (f : Crc → Crc) (bytes : List ℕ) → Feeds f bytes → AllBytes bytes → Keeps f
Feeds-Keeps f bytes feeds all c g =
    subst IsGood (sym (feeds c (g.0))) (inr refl, remainder-lt c.crc32 bytes (g.1) all)

pub Keeps-16 : (i : ℕ) → Keeps (crc32_compute16 i)
Keeps-16 i = Feeds-Keeps (crc32_compute16 i) (le_bytes 2 i) (Feeds-16 i) (le_bytes-AllBytes 2 i)

pub Keeps-64 : (i : ℕ) → Keeps (crc32_compute64 i)
Keeps-64 i = Feeds-Keeps (crc32_compute64 i) (le_bytes 8 i) (Feeds-64 i) (le_bytes-AllBytes 8 i)

pub crc32_finalize-lt : (crc : ℕ) → crc < 2 ^ 32 → crc32_finalize crc < 2 ^ 32
unfolding crc32_finalize
crc32_finalize-lt crc h = xor-lt 32 crc _ h (omega arith)
