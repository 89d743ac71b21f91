-- ===== src/ImgCtx.antt =====
-- libs/libpartman/src/img_ctx.c: the image's geometry, and conversions between bytes, sectors (LBA)
-- and cylinder/head/sector addresses (CHS).
-- A quotient by 0 is 0 here and undefined in C; `img_ctx_validate` and the defaults exclude it.
pub mod Validate
pub mod Sectors
pub mod Chs
mod Tests
use Prim.Native.String.{String}
use partman.Base.{
  ℕ, ◌+◌, ◌-◌, ◌*◌, ◌/◌, ◌%◌, ◌^◌, bit_and, bit_or, ◌<<<◌, ◌>>>◌, u64, sub64, Bool, true, false,
  not, ◌&&◌, ◌||◌, ltb, ◌==◌, if◌then◌else◌,
}

pub record ImgCtx : Type 0 where
  pub img_name : String
  pub img_fd : ℕ
  pub sec_sz : ℕ
  pub img_sz : ℕ
  pub align : ℕ
  pub hpc : ℕ
  pub spt : ℕ

-- 512 KiB
abbrev pub img_min_sz : ℕ
img_min_sz = 1024 * 512

unfoldable pub img_ctx_init : String → ℕ → ℕ → ImgCtx
img_ctx_init img_name img_fd img_sz = record {
  img_name = img_name;
  img_fd = img_fd;
  sec_sz = 512;
  img_sz = img_sz;
  align = 1024 * 1024 * 1 / 512;
  hpc = 255;
  spt = 63;
}

unfoldable pub img_ctx_validate : ImgCtx → Bool
img_ctx_validate ctx =
    if ltb ctx.img_sz img_min_sz
    then false
    else if ltb ctx.sec_sz 512
        || ltb 4096 ctx.sec_sz
        || not (bit_and ctx.sec_sz (sub64 ctx.sec_sz 1) == 0)
    then false
    else if ltb ctx.hpc 1
    then false
    else if ltb ctx.spt 1 || ltb 63 ctx.spt
    then false
    else true

unfoldable pub lba_to_byte : ImgCtx → ℕ → ℕ
lba_to_byte ctx lba = u64 (lba * ctx.sec_sz)

unfoldable pub byte_to_lba : ImgCtx → ℕ → Bool → ℕ
byte_to_lba ctx bytes round_up =
    u64 (bytes / ctx.sec_sz + (if round_up && not (bytes % ctx.sec_sz == 0) then 1 else 0))

unfoldable pub lba_align : ImgCtx → ℕ → Bool → ℕ
lba_align ctx lba next_aligned = u64 (
    lba / ctx.align * ctx.align
    + (if next_aligned && not (lba % ctx.align == 0) then ctx.align else 0))

unfoldable pub chs_tuple_to_int : ℕ → ℕ → ℕ → ℕ
chs_tuple_to_int c h s =
    bit_or
      (bit_or (bit_or (bit_and c 0xff <<< 16) (bit_and (c >>> 8) 0x3 <<< 14))
        (bit_and s 0x3f <<< 8))
      (bit_and h 0xff)

-- the cylinder, the head and the sector, in this order
unfoldable pub chs_int_to_tuple : ℕ → ℕ × ℕ × ℕ
chs_int_to_tuple chs =
    let c = bit_and (chs >>> 14) 0x3ff in
    let s = bit_and (chs >>> 8) 0x3f in let h = bit_and (chs >>> 0) 0xff in (c, h, s)

-- `hpc - 1` and `spt - 1` are -1 at 0, which the conversion to 64 bits turns into 2 ^ 64 - 1.
unfoldable pub max_lba : ImgCtx → ℕ
max_lba ctx = u64 ((0x3ff * ctx.hpc + sub64 ctx.hpc 1) * ctx.spt + sub64 ctx.spt 1)

-- the three lines after the limit
unfoldable pub chs_of_lba : ImgCtx → ℕ → ℕ
chs_of_lba ctx lba =
    let c = lba / (ctx.hpc * ctx.spt) in
    let h = lba / ctx.spt % ctx.hpc in let s = lba % ctx.spt + 1 in chs_tuple_to_int c h s

unfoldable pub lba_to_chs : ImgCtx → ℕ → Bool → ℕ
lba_to_chs ctx lba protective_limit =
    if ltb (max_lba ctx) lba
    then (if protective_limit then chs_tuple_to_int 1023 255 63 else chs_of_lba ctx (max_lba ctx))
    else chs_of_lba ctx lba
