-- ===== src/Gpt/Position.antt =====
-- Where a new GPT puts its parts.
use native.Mathlib.Nat.{mod-lt, div-add-mod', mul-le-mul_left, div-le_self}
use partman.Base.{
  ℕ, ◌+◌, ◌*◌, ◌/◌, ◌%◌, ◌^◌, ◌≤◌, ◌<◌, ◌≡◌, ◌≢◌, ◌⊎◌, inl, inr, arith, u64, true, false, not, ◌&&◌,
  ◌==◌, if◌then◌else◌,
}
use partman.ImgCtx.{ImgCtx, byte_to_lba}
use partman.World.{World}
use partman.Schem.{Schem}
use partman.Gpt.Scheme.{Pos, gpt_calc_pos, schem_init_gpt}

module _ (ctx : ImgCtx) (hs : 512 ≤ ctx.sec_sz) where
  sectors-eq : ctx.img_sz < 2 ^ 64 → byte_to_lba ctx ctx.img_sz false ≡ ctx.img_sz / ctx.sec_sz
  unfolding byte_to_lba
  sectors-eq h = omega (arith, div-le_self ctx.img_sz ctx.sec_sz)

  -- The quotient of the size of a table, and `b` for its rounding.
  quotient :
      (16384 / ctx.sec_sz * ctx.sec_sz + 16384 % ctx.sec_sz ≡ 16384)
      × (16384 % ctx.sec_sz < ctx.sec_sz)
      × (16384 / ctx.sec_sz * 512 ≤ 16384 / ctx.sec_sz * ctx.sec_sz)
  quotient = (
    div-add-mod' 16384 ctx.sec_sz,
    mod-lt 16384 (omega arith),
    mul-le-mul_left (16384 / ctx.sec_sz) hs,
  )

  sectors_up :
      (b : ℕ)
      → ((16384 % ctx.sec_sz ≢ 0) × (b ≡ 1)) ⊎ ((16384 % ctx.sec_sz ≡ 0) × (b ≡ 0))
      → let n = u64 (16384 / ctx.sec_sz + b) in
        (n ≤ 33) × (16384 ≤ n * ctx.sec_sz) × (n * ctx.sec_sz < 16384 + ctx.sec_sz)
  sectors_up b (inl (nz, e)) =
      rw (e, small)
        (omega (arith, quotient, nz), omega (arith, quotient, nz), omega (arith, quotient, nz))
    where
      small : u64 (16384 / ctx.sec_sz + 1) ≡ 16384 / ctx.sec_sz + 1
      small = omega (arith, quotient)
  sectors_up b (inr (z, e)) =
      rw (e, small) (omega (arith, quotient), omega (arith, quotient), omega (arith, quotient))
    where
      small : u64 (16384 / ctx.sec_sz + 0) ≡ 16384 / ctx.sec_sz
      small = omega (arith, quotient)

  table_bounds :
      let n = byte_to_lba ctx 16384 true in
      (n ≤ 33) × (16384 ≤ n * ctx.sec_sz) × (n * ctx.sec_sz < 16384 + ctx.sec_sz)
  unfolding byte_to_lba
  table_bounds = sectors_up (if true && not (16384 % ctx.sec_sz == 0) then 1 else 0) (ground arith)

-- On an image of at least 70 whole sectors (of at least 512 bytes) and below 2 ^ 64 bytes, the parts of a new GPT
-- follow one another: the primary header at sector 1, its table, the usable sectors, which are not
-- empty, the secondary table, and the secondary header in the last whole sector; each table has as
-- many sectors as 128 entries of 128 bytes take up, and no sector more.
pub schem_init_gpt_lem :
    (schem : Schem) (ctx : ImgCtx) (w : World)
    → 512 ≤ ctx.sec_sz
    → ctx.img_sz < 2 ^ 64
    → 70 ≤ ctx.img_sz / ctx.sec_sz
    → let pos : Pos = gpt_calc_pos ctx in
      let s : Schem = (schem_init_gpt schem ctx w).0 in
      (pos.hdr_lba_prim + 1 ≡ pos.table_lba_prim)
      × (pos.table_lba_prim + pos.table_sz ≡ s.first_usable_lba)
      × (s.first_usable_lba ≤ s.last_usable_lba)
      × (s.last_usable_lba + 1 ≡ pos.table_lba_sec)
      × (pos.table_lba_sec + pos.table_sz ≡ pos.hdr_lba_sec)
      × (pos.hdr_lba_sec + 1 ≡ ctx.img_sz / ctx.sec_sz)
      × (16384 ≤ pos.table_sz * ctx.sec_sz)
      × (pos.table_sz * ctx.sec_sz < 16384 + ctx.sec_sz)
unfolding schem_init_gpt gpt_calc_pos byte_to_lba
schem_init_gpt_lem schem ctx w hs hi hn = omega (arith, sectors-eq ctx hs hi, table_bounds ctx hs)
