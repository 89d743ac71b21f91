-- ===== src/Base/Words.antt =====
-- The unsigned types of partman_types.h on an LP64 system: `pu8` and `pu16` have 8 and 16 bits,
-- `pu32` (unsigned long) and `pu64` (unsigned long long) have 64. A value is a plain number; what
-- an operation may carry out of 64 bits is cut off by `u64`.
use Prim.Native.Nat.{ℕ, ◌+◌, ◌-◌, ◌*◌, ◌/◌, ◌%◌, ◌^◌}

abbrev pub u8 : ℕ → ℕ
u8 n = n % 2 ^ 8

abbrev pub u16 : ℕ → ℕ
u16 n = n % 2 ^ 16

abbrev pub u64 : ℕ → ℕ
u64 n = n % 2 ^ 64

-- `a - b` in 64 bits
abbrev pub sub64 : ℕ → ℕ → ℕ
sub64 a b = (a + 2 ^ 64 - b) % 2 ^ 64

infixl 75 ◌<<<◌ ◌>>>◌
abbrev pub ◌<<<◌ : ℕ → ℕ → ℕ
x <<< k = x * 2 ^ k

abbrev pub ◌>>>◌ : ℕ → ℕ → ℕ
x >>> k = x / 2 ^ k
