-- ===== src/ImgCtx/Sectors.antt =====
-- Rounding of bytes to sectors and of sectors to the alignment.
use native.Mathlib.Nat.{
  mod-lt, div-add-mod', mul-mod_left, mod-eq_of_lt, add-mod_right, zero-div, zero-mod, div-le_self,
  mul-div_cancel,
}
use partman.Base.{ℕ, ◌+◌, ◌*◌, ◌/◌, ◌%◌, ◌^◌, ◌≤◌, ◌<◌, true, false, ◌≡◌, ◌≢◌, u64, arith}
use partman.ImgCtx.{ImgCtx, lba_to_byte, byte_to_lba, lba_align}

module _ (ctx : ImgCtx) (lba : ℕ) (pos : 0 < ctx.align) where
  -- Rounding down: the last multiple of the alignment that is not past the sector.
  pub lba_align_down :
      lba < 2 ^ 64
      → (lba_align ctx lba false % ctx.align ≡ 0)
        × (lba_align ctx lba false ≤ lba)
        × (lba < lba_align ctx lba false + ctx.align)
  unfolding lba_align
  lba_align_down h = ground (
    arith,
    div-add-mod' lba ctx.align,
    mod-lt lba pos,
    mul-mod_left (lba / ctx.align) ctx.align,
    mod-eq_of_lt {n = lba / ctx.align * ctx.align} {m = 2 ^ 64},
  )

  -- Rounding up, where no wrap is possible: the first multiple that is not before the sector.
  pub lba_align_up :
      lba + ctx.align ≤ 2 ^ 64
      → (lba_align ctx lba true % ctx.align ≡ 0)
        × (lba ≤ lba_align ctx lba true)
        × (lba_align ctx lba true < lba + ctx.align)
  unfolding lba_align
  lba_align_up h = ground (
    arith,
    div-add-mod' lba ctx.align,
    mod-lt lba pos,
    mul-mod_left (lba / ctx.align) ctx.align,
    add-mod_right (lba / ctx.align * ctx.align) ctx.align,
  )

pub lba_align-zero : (ctx : ImgCtx) (lba : ℕ) → lba ≡ 0 → lba_align ctx lba true ≡ 0
unfolding lba_align
lba_align-zero ctx lba e = rw e (ground (arith, zero-div ctx.align, zero-mod ctx.align))

-- A product that fits is not cut.
uncut : (k s : ℕ) → k < 2 ^ 64 → k * s < 2 ^ 64 → u64 (u64 k * s) ≡ k * s
uncut k s h g = rw (mod-eq_of_lt h) (mod-eq_of_lt g)

module _ (ctx : ImgCtx) (pos : 0 < ctx.sec_sz) where
  -- Rounding bytes up to sectors covers them and less than one sector more; rounding down stays
  -- within them. No wrap is possible.
  pub byte_to_lba_rounds :
      (bytes : ℕ)
      → bytes + ctx.sec_sz ≤ 2 ^ 64
      → (bytes ≤ lba_to_byte ctx (byte_to_lba ctx bytes true))
        × (lba_to_byte ctx (byte_to_lba ctx bytes true) < bytes + ctx.sec_sz)
        × (lba_to_byte ctx (byte_to_lba ctx bytes false) ≤ bytes)
        × (bytes < lba_to_byte ctx (byte_to_lba ctx bytes false) + ctx.sec_sz)
  unfolding byte_to_lba lba_to_byte
  byte_to_lba_rounds bytes h = ground (
    arith,
    div-add-mod' bytes ctx.sec_sz,
    mod-lt bytes pos,
    div-le_self bytes ctx.sec_sz,
    uncut (bytes / ctx.sec_sz) ctx.sec_sz,
    uncut (bytes / ctx.sec_sz + 1) ctx.sec_sz,
    div-lt-of_mod,
  )
    where
      div-lt-of_mod : bytes % ctx.sec_sz ≢ 0 → bytes / ctx.sec_sz < bytes
      div-lt-of_mod e = grind (arith, div-add-mod' bytes ctx.sec_sz)

  -- A whole number of sectors is converted back exactly, whichever way it is rounded.
  pub byte_to_lba-lba_to_byte :
      (lba : ℕ)
      → lba * ctx.sec_sz < 2 ^ 64
      → (byte_to_lba ctx (lba_to_byte ctx lba) true ≡ lba)
        × (byte_to_lba ctx (lba_to_byte ctx lba) false ≡ lba)
  unfolding byte_to_lba lba_to_byte
  byte_to_lba-lba_to_byte lba h =
      ground (arith, mod-eq_of_lt h, mul-mod_left lba ctx.sec_sz, mul-div_cancel lba pos, small)
    where
      small : lba < 2 ^ 64
      small = grind arith
