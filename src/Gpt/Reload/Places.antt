-- ===== src/Gpt/Reload/Places.antt =====
-- Where a GPT stands on an image: its parts do not meet, and their mapping does not wrap.
use native.Mathlib.Nat.{
  mul-le-mul_right, add-mul, div-add-mod', mod-lt, div-le_self, div-mul-le_self, div-lt_iff_lt-mul,
}
use partman.Base.{
  ℕ, ◌+◌, ◌*◌, ◌/◌, ◌%◌, ◌^◌, ◌≤◌, ◌<◌, ◌≡◌, refl, Bool, true, false, not, u64, ◌==◌, ◌&&◌,
  if◌then◌else◌, arith,
}
use partman.ImgCtx.{ImgCtx, byte_to_lba}
use partman.World.{World}
use partman.Schem.{Schem}
use partman.Gpt.Scheme.{gpt_calc_pos}
use partman.Gpt.Position.{schem_init_gpt_lem}

-- An image with room for a GPT, whose mapping does not wrap.
pub record IsGptImage (ctx : ImgCtx) (w : World) : Type 0 where
  pub page : 1 ≤ w.page_sz
  pub sec_sz : 512 ≤ ctx.sec_sz
  pub sectors : 70 ≤ ctx.img_sz / ctx.sec_sz
  pub fits : ctx.img_sz + 2 * w.page_sz < 2 ^ 64

one_bit : (b : Bool) → (if b then 1 else 0) ≤ 1
one_bit true = omega arith
one_bit false = omega arith

module _ (ctx : ImgCtx) (w : World) (im : IsGptImage ctx w) where
  -- The table of at most 128 entries has at most one sector more than the code gives it.
  secs_bound :
      (n : ℕ) → n ≤ 128 → byte_to_lba ctx (u64 (n * 128)) true ≤ byte_to_lba ctx 16384 true + 1
  unfolding byte_to_lba
  secs_bound n h = omega (
    arith,
    fewer,
    div-le_self 16384 ctx.sec_sz,
    one_bit (true && not (u64 (n * 128) % ctx.sec_sz == 0)),
    one_bit (true && not (16384 % ctx.sec_sz == 0)),
  )
    where
      whole :
          (16384 / ctx.sec_sz * ctx.sec_sz + 16384 % ctx.sec_sz ≡ 16384)
          × (16384 % ctx.sec_sz < ctx.sec_sz)
      whole = (div-add-mod' 16384 ctx.sec_sz, mod-lt 16384 (omega (arith, im.sec_sz)))

      fewer : u64 (n * 128) / ctx.sec_sz < 16384 / ctx.sec_sz + 1
      fewer =
          (div-lt_iff_lt-mul {k = ctx.sec_sz} {y = 16384 / ctx.sec_sz + 1}
              (omega (arith, im.sec_sz))).1
            (omega (arith, whole))

  -- The places of the two tables and of the secondary header.
  pub places :
      (s : Schem)
      → (2 + (gpt_calc_pos ctx).table_sz ≤ (gpt_calc_pos ctx).table_lba_sec)
        × ((gpt_calc_pos ctx).table_lba_sec + (gpt_calc_pos ctx).table_sz
            ≡ (gpt_calc_pos ctx).hdr_lba_sec)
        × ((gpt_calc_pos ctx).hdr_lba_sec + 1 ≡ ctx.img_sz / ctx.sec_sz)
        × (16384 ≤ (gpt_calc_pos ctx).table_sz * ctx.sec_sz)
  unfolding gpt_calc_pos
  places s =
      let (a, b, c, d, e, f, g, tight) =
        schem_init_gpt_lem s ctx w im.sec_sz (omega (arith, im.fits)) im.sectors in
      (omega (arith, a, b, c, d, e, f, g), e, f, g)

  -- A stretch of sectors of the image fits.
  pub fits :
      (lba secs : ℕ)
      → lba + secs ≤ ctx.img_sz / ctx.sec_sz
      → (lba + secs) * ctx.sec_sz + 2 * w.page_sz < 2 ^ 64
  fits lba secs h =
      omega (arith, mul-le-mul_right ctx.sec_sz h, div-mul-le_self ctx.img_sz ctx.sec_sz, im.fits)

  pub prim_lba : (gpt_calc_pos ctx).table_lba_prim ≡ 2
  unfolding gpt_calc_pos
  prim_lba = refl

  pub secs_le :
      (n : ℕ) → n ≤ 128 → byte_to_lba ctx (u64 (n * 128)) true ≤ (gpt_calc_pos ctx).table_sz + 1
  unfolding gpt_calc_pos
  secs_le n h = secs_bound n h

  -- A table has room where its sectors are.
  pub room :
      (s : Schem) (x y n : ℕ)
      → n ≤ 128
      → x + (gpt_calc_pos ctx).table_sz ≤ y
      → x * ctx.sec_sz + n * 128 ≤ y * ctx.sec_sz
  room s x y n few h = omega (
    arith,
    mul-le-mul_right ctx.sec_sz h,
    add-mul x (gpt_calc_pos ctx).table_sz ctx.sec_sz,
    places s,
  )
