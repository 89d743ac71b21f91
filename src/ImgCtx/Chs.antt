-- ===== src/ImgCtx/Chs.antt =====
-- CHS addresses: the packed form and the conversion from LBA.
use native.Mathlib.Nat.{div-div-eq-div-mul, div-add-mod', mod-lt, div-lt_iff_lt-mul, mul_comm}
use mathlib.Core.Path.{subst₂}
use partman.Base.{
  ℕ, suc, ap, ◌∙◌, ◌+◌, ◌-◌, ◌*◌, ◌/◌, ◌%◌, ◌^◌, ◌≤◌, ◌<◌, bit_or, ◌≡◌, ◌↔◌, ◌⊎◌, refl, u64, sub64,
  arith,
}
use partman.Bits.Fields.{bit_and_low, bit_or_high}
use partman.ImgCtx.{ImgCtx, chs_tuple_to_int, chs_int_to_tuple, max_lba, chs_of_lba}
use partman.ImgCtx.Validate.{IsImgCtx}

-- The packed form as a sum: the low eight bits of the cylinder, its two high bits, the sector and
-- the head.
pub chs_tuple_to_int_sum :
    (c h s : ℕ)
    → c < 1024
    → h < 256
    → s < 64
    → chs_tuple_to_int c h s ≡ c % 256 * 2 ^ 16 + c / 256 * 2 ^ 14 + s * 2 ^ 8 + h
unfolding chs_tuple_to_int
chs_tuple_to_int_sum c h s hc hh hs =
    rw (bit_and_low 8 c, bit_and_low 2 (c / 2 ^ 8), bit_and_low 6 s, bit_and_low 8 h)
      (ap (λ t. bit_or (bit_or t (s % 64 * 256)) (h % 256)) cylinder
        ∙ ap (λ t. bit_or t (h % 256))
            (bit_or_high 14 (c % 256 * 4 + c / 256) (s % 64 * 256) (omega arith) ∙ sector)
        ∙ bit_or_high 8 ((c % 256 * 4 + c / 256) * 64 + s) (h % 256) (omega arith)
        ∙ omega arith)
  where
    cylinder : bit_or (c % 256 * 2 ^ 16) (c / 256 % 4 * 2 ^ 14) ≡ (c % 256 * 4 + c / 256) * 2 ^ 14
    cylinder = bit_or_high 16 (c % 256) (c / 256 % 4 * 2 ^ 14) (omega arith) ∙ omega arith

    sector :
        (c % 256 * 4 + c / 256) * 2 ^ 14 + s % 64 * 256 ≡ ((c % 256 * 4 + c / 256) * 64 + s) * 2 ^ 8
    sector = omega arith

-- On the disk (`write_pu24`) that is a byte with the head, one with the sector in its low six bits
-- and the top of the cylinder above them, and one with the low byte of the cylinder.
pub chs_disk_bytes :
    (c h s : ℕ)
    → c < 1024
    → h < 256
    → s < 64
    → let v = chs_tuple_to_int c h s in
      (v % 256 ≡ h) × (v / 256 % 256 ≡ c / 256 * 64 + s) × (v / 65536 ≡ c % 256)
chs_disk_bytes c h s hc hh hs = omega (arith, chs_tuple_to_int_sum c h s hc hh hs)

chs_int_to_tuple_parts :
    (v : ℕ) → chs_int_to_tuple v ≡ (v / 2 ^ 14 % 2 ^ 10, v / 2 ^ 0 % 2 ^ 8, v / 2 ^ 8 % 2 ^ 6)
unfolding chs_int_to_tuple
chs_int_to_tuple_parts v =
    rw (bit_and_low 10 (v / 2 ^ 14), bit_and_low 6 (v / 2 ^ 8), bit_and_low 8 (v / 2 ^ 0)) refl

-- Unpacking a packed address gives the head and the sector back, and the cylinder with its ten bits
-- rotated by two.
pub chs_int_to_tuple-chs_tuple_to_int :
    (c h s : ℕ)
    → c < 1024
    → h < 256
    → s < 64
    → chs_int_to_tuple (chs_tuple_to_int c h s) ≡ (c % 256 * 4 + c / 256, h, s)
chs_int_to_tuple-chs_tuple_to_int c h s hc hh hs =
    rw chs_int_to_tuple_parts (ground (arith, chs_tuple_to_int_sum c h s hc hh hs))

-- The cylinder itself comes back for 0, 341, 682 and 1023 and for no other value.
pub cylinder_comes_back_iff :
    (c h s : ℕ)
    → c < 1024
    → h < 256
    → s < 64
    → ((chs_int_to_tuple (chs_tuple_to_int c h s)).0 ≡ c)
      ↔ ((c ≡ 0) ⊎ ((c ≡ 341) ⊎ ((c ≡ 682) ⊎ (c ≡ 1023))))
cylinder_comes_back_iff c h s hc hh hs =
    rw (chs_int_to_tuple-chs_tuple_to_int c h s hc hh hs) (λ e. omega arith, λ e. omega arith)

max_formula :
    (a b : ℕ)
    → suc a ≤ 255
    → suc b ≤ 63
    → u64 ((0x3ff * suc a + sub64 (suc a) 1) * suc b + sub64 (suc b) 1) + 1 ≡ 1024 * (suc a * suc b)
max_formula a b ha hb =
    rw (less_one a (omega arith), less_one b (omega arith)) (omega (arith, product))
  where
    less_one : (n : ℕ) → n < 2 ^ 64 → sub64 (suc n) 1 ≡ n
    less_one n h = omega arith

    product : a * b ≤ 255 * 63
    product = grind arith

module _ (ctx : ImgCtx) (v : IsImgCtx ctx) (hpc_byte : ctx.hpc ≤ 255) where
  -- The highest convertible sector, without wrap.
  max_lba-eq : max_lba ctx + 1 ≡ 1024 * (ctx.hpc * ctx.spt)
  unfolding max_lba
  max_lba-eq =
      subst₂ (λ a b. u64 ((0x3ff * a + sub64 a 1) * b + sub64 b 1) + 1 ≡ 1024 * (a * b))
        (omega (arith, v.hpc)) (omega (arith, v.spt_low))
        (max_formula (ctx.hpc - 1) (ctx.spt - 1) (omega (arith, v.hpc))
          (omega (arith, v.spt_low, v.spt_high)))

  -- A sector within the limit is converted to the packed form of a cylinder below 1024, a head below
  -- the heads per cylinder and a sector from 1 to the sectors per track, which stand for that sector.
  pub chs_of_lba_lem :
      (lba : ℕ)
      → lba ≤ max_lba ctx
      → (c : ℕ) × (h : ℕ) × (s : ℕ) × (chs_of_lba ctx lba ≡ chs_tuple_to_int c h s)
        × (c < 1024)
        × (h < ctx.hpc)
        × (1 ≤ s)
        × (s ≤ ctx.spt)
        × ((c * ctx.hpc + h) * ctx.spt + (s - 1) ≡ lba)
  unfolding chs_of_lba
  chs_of_lba_lem lba h = (
    lba / (ctx.hpc * ctx.spt),
    lba / ctx.spt % ctx.hpc,
    lba % ctx.spt + 1,
    refl,
    (div-lt_iff_lt-mul {k = ctx.hpc * ctx.spt} {y = 1024} size_pos).1 (omega (arith, max_lba-eq)),
    mod-lt (lba / ctx.spt) v.hpc,
    omega arith,
    omega (arith, mod-lt lba v.spt_low),
    whole,
  )
    where
      size_pos : 0 < ctx.hpc * ctx.spt
      size_pos = grind (arith, v.hpc, v.spt_low)

      tracks : lba / (ctx.hpc * ctx.spt) * ctx.hpc + lba / ctx.spt % ctx.hpc ≡ lba / ctx.spt
      tracks =
          rw (mul_comm ctx.hpc ctx.spt, ← div-div-eq-div-mul lba ctx.spt ctx.hpc)
            (div-add-mod' (lba / ctx.spt) ctx.hpc)

      whole :
          (lba / (ctx.hpc * ctx.spt) * ctx.hpc + lba / ctx.spt % ctx.hpc) * ctx.spt
            + (lba % ctx.spt + 1 - 1)
          ≡ lba
      whole = rw tracks (omega (arith, div-add-mod' lba ctx.spt))
