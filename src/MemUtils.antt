-- ===== src/MemUtils.antt =====
-- libs/libpartman/src/memutils.c: unsigned numbers as little-endian bytes.
-- A memory is a function from addresses to bytes, and a pointer `pu8 *buf` an address in it. The
-- mapped regions of mbr.c and gpt.c are shared with the image file, so that for them an address is
-- an offset in the file.
pub mod Bytes
pub mod Layout
pub mod Region
pub mod RoundTrip
mod Tests
use partman.Base.{ℕ, ◌+◌, ◌*◌, ◌/◌, ◌^◌, ◌<◌, bit_and, bit_or, ◌>>>◌, ◌<<<◌, ◌==◌, if◌then◌else◌}

abbrev pub Memory : Type 0
Memory = ℕ → ℕ

-- `buf[0] = b`, the stored value being a byte already
abbrev pub store : ℕ → ℕ → Memory → Memory
store p b m q = if q == p then b else m q

unfoldable pub write_pu8 : ℕ → ℕ → Memory → Memory
write_pu8 p i m = store p (bit_and i 0xff) m

unfoldable pub write_pu16 : ℕ → ℕ → Memory → Memory
write_pu16 p i m =
    let m = store p (bit_and (i >>> 0) 0xff) m in store (p + 1) (bit_and (i >>> 8) 0xff) m

unfoldable pub write_pu24 : ℕ → ℕ → Memory → Memory
write_pu24 p i m =
    let m = store p (bit_and (i >>> 0) 0xff) m in
    let m = store (p + 1) (bit_and (i >>> 8) 0xff) m in store (p + 2) (bit_and (i >>> 16) 0xff) m

unfoldable pub write_pu32 : ℕ → ℕ → Memory → Memory
write_pu32 p i m =
    let m = store p (bit_and (i >>> 0) 0xff) m in
    let m = store (p + 1) (bit_and (i >>> 8) 0xff) m in
    let m = store (p + 2) (bit_and (i >>> 16) 0xff) m in store (p + 3) (bit_and (i >>> 24) 0xff) m

unfoldable pub write_pu64 : ℕ → ℕ → Memory → Memory
write_pu64 p i m =
    let m = store p (bit_and (i >>> 0) 0xff) m in
    let m = store (p + 1) (bit_and (i >>> 8) 0xff) m in
    let m = store (p + 2) (bit_and (i >>> 16) 0xff) m in
    let m = store (p + 3) (bit_and (i >>> 24) 0xff) m in
    let m = store (p + 4) (bit_and (i >>> 32) 0xff) m in
    let m = store (p + 5) (bit_and (i >>> 40) 0xff) m in
    let m = store (p + 6) (bit_and (i >>> 48) 0xff) m in store (p + 7) (bit_and (i >>> 56) 0xff) m

unfoldable pub read_pu8 : ℕ → Memory → ℕ
read_pu8 p m = m p

unfoldable pub read_pu16 : ℕ → Memory → ℕ
read_pu16 p m = bit_or (m p <<< 0) (m (p + 1) <<< 8)

unfoldable pub read_pu24 : ℕ → Memory → ℕ
read_pu24 p m = bit_or (bit_or (m p <<< 0) (m (p + 1) <<< 8)) (m (p + 2) <<< 16)

unfoldable pub read_pu32 : ℕ → Memory → ℕ
read_pu32 p m =
    bit_or (bit_or (bit_or (m p <<< 0) (m (p + 1) <<< 8)) (m (p + 2) <<< 16)) (m (p + 3) <<< 24)

unfoldable pub read_pu64 : ℕ → Memory → ℕ
read_pu64 p m =
    let low =
      bit_or (bit_or (bit_or (m p <<< 0) (m (p + 1) <<< 8)) (m (p + 2) <<< 16))
        (m (p + 3) <<< 24) in
    bit_or (bit_or (bit_or (bit_or low (m (p + 4) <<< 32)) (m (p + 5) <<< 40)) (m (p + 6) <<< 48))
      (m (p + 7) <<< 56)

-- Every address holds a byte.
abbrev pub IsBytes : Memory → Type 0
IsBytes m = (q : ℕ) → m q < 256
