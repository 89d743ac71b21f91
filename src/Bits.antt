-- ===== src/Bits.antt =====
-- Laws of `&`, `|` and `^` on unsigned values of any width, which memutils.c, crc32.c, guid.c and
-- img_ctx.c rest on.
pub mod Step
pub mod Fields
pub mod Xor
