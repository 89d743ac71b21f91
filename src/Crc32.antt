-- ===== src/Crc32.antt =====
-- libs/libpartman/src/crc32.c. The static `crc_table` is filled on first use; `Crc` is that table
-- with the running remainder that the callers hold.
pub mod Reference
pub mod Table
pub mod Laws
pub mod Bounds
mod Tests
use partman.Base.{
  ℕ, zero, suc, ◌+◌, ◌*◌, ◌/◌, ◌^◌, bit_and, bit_xor, ◌>>>◌, List, get_or, set, replicate, ◌==◌,
  if◌then◌else◌,
}

-- `for(j = 0; j < 256; j += 2 * i) crc_table[i + j] = crc32 ^ crc_table[j];`, by the rounds left.
unfoldable pub fill_row : ℕ → ℕ → ℕ → ℕ → List ℕ → List ℕ
fill_row zero i j crc32 table = table
fill_row (suc left) i j crc32 table =
    fill_row left i (j + 2 * i) crc32 (set table (i + j) (bit_xor crc32 (get_or table j 0)))

-- The loop over `i`, which is `2 ^ bits / 2` when `bits` rounds are left.
unfoldable pub fill_rows : ℕ → ℕ → ℕ → List ℕ → List ℕ
unfolding fill_row
fill_rows zero i crc32 table = table
fill_rows (suc bits) i crc32 table =
    let crc32 = bit_xor (crc32 >>> 1) (if bit_and crc32 1 == 0 then 0 else 0xEDB88320) in
    fill_rows bits (i >>> 1) crc32 (fill_row (256 / (2 * i)) i 0 crc32 table)

unfoldable pub crc32_init_table : List ℕ → List ℕ
unfolding fill_rows
crc32_init_table table = fill_rows 8 128 1 table

pub record Crc : Type 0 where
  pub table : List ℕ
  pub crc32 : ℕ

abbrev pub crc32_init : ℕ
crc32_init = 0xFFFFFFFF

unfoldable pub crc32_finalize : ℕ → ℕ
crc32_finalize crc32 = bit_xor crc32 0xFFFFFFFF

unfoldable pub crc32_compute8 : ℕ → Crc → Crc
crc32_compute8 i c =
    let table = (if get_or c.table 255 0 == 0 then crc32_init_table c.table else c.table) in
    let crc32 = bit_xor c.crc32 i in
    record { table = table; crc32 = bit_xor (crc32 >>> 8) (get_or table (bit_and crc32 0xff) 0) }

unfoldable pub crc32_compute16 : ℕ → Crc → Crc
crc32_compute16 i c =
    let c = crc32_compute8 (bit_and (i >>> 0) 0xff) c in crc32_compute8 (bit_and (i >>> 8) 0xff) c

unfoldable pub crc32_compute32 : ℕ → Crc → Crc
crc32_compute32 i c =
    let c = crc32_compute8 (bit_and (i >>> 0) 0xff) c in
    let c = crc32_compute8 (bit_and (i >>> 8) 0xff) c in
    let c = crc32_compute8 (bit_and (i >>> 16) 0xff) c in crc32_compute8 (bit_and (i >>> 24) 0xff) c

unfoldable pub crc32_compute64 : ℕ → Crc → Crc
crc32_compute64 i c =
    let c = crc32_compute8 (bit_and (i >>> 0) 0xff) c in
    let c = crc32_compute8 (bit_and (i >>> 8) 0xff) c in
    let c = crc32_compute8 (bit_and (i >>> 16) 0xff) c in
    let c = crc32_compute8 (bit_and (i >>> 24) 0xff) c in
    let c = crc32_compute8 (bit_and (i >>> 32) 0xff) c in
    let c = crc32_compute8 (bit_and (i >>> 40) 0xff) c in
    let c = crc32_compute8 (bit_and (i >>> 48) 0xff) c in crc32_compute8 (bit_and (i >>> 56) 0xff) c

-- The table before its first use.
abbrev pub zero_table : List ℕ
zero_table = replicate 256 0
