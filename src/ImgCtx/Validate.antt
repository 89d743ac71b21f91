-- ===== src/ImgCtx/Validate.antt =====
-- `img_ctx_validate` accepts exactly the supported geometries.
use native.Mathlib.Decide.{dec_lt}
use partman.Base.{
  ℕ, zero, suc, ◌≤◌, ◌<◌, bit_and, sub64, Bool, true, false, not, ◌&&◌, ◌||◌, ◌≡◌, refl, ◌↔◌, ◌⊎◌,
  arith, ltb, ◌==◌, if◌then◌else◌,
}
use partman.ImgCtx.{ImgCtx, img_min_sz, img_ctx_validate}

-- The sizes that the code names in its message.
abbrev pub IsSectorSize : ℕ → Type 0
IsSectorSize n = (n ≡ 512) ⊎ ((n ≡ 1024) ⊎ ((n ≡ 2048) ⊎ (n ≡ 4096)))

pub record IsImgCtx (ctx : ImgCtx) : Type 0 where
  pub img_sz : img_min_sz ≤ ctx.img_sz
  pub sec_sz : IsSectorSize ctx.sec_sz
  pub hpc : 1 ≤ ctx.hpc
  pub spt_low : 1 ≤ ctx.spt
  pub spt_high : ctx.spt ≤ 63

-- The code's test on a sector size, and the list of the sizes.
rejects : ℕ → Bool
rejects n = ltb n 512 || ltb 4096 n || not (bit_and n (sub64 n 1) == 0)

listed : ℕ → Bool
listed n = n == 512 || n == 1024 || n == 2048 || n == 4096

agree : ℕ → Bool
agree n = if listed n then not (rejects n) else rejects n

-- Both agree on every size up to 4096, by evaluation.
agree_below : ℕ → Bool
agree_below zero = true
agree_below (suc n) = agree n && agree_below n

agree_all : agree_below 4097 ≡ true
unfolding agree_below agree rejects listed
agree_all = refl

agree_below-agree : (k n : ℕ) → agree_below k ≡ true → n < k → agree n ≡ true
unfolding agree_below
agree_below-agree zero n h lt = absurd (omega arith)
agree_below-agree (suc k) n h lt = ground (arith, agree_below-agree k n)

rejects_iff : (n : ℕ) → (rejects n ≡ false) ↔ IsSectorSize n
unfolding rejects listed agree
rejects_iff n = elim (dec_lt n 4097) [
  | yes h ↦ (
    λ e. ground (arith, agree_below-agree 4097 n agree_all h),
    λ e. ground (arith, agree_below-agree 4097 n agree_all h),
  )
  | no h ↦ (λ e. absurd (ground arith), λ e. absurd (omega arith))
]

-- It accepts exactly an image of at least 512 KiB with a sector size of 512, 1024, 2048 or 4096
-- bytes, at least one head, and 1 to 63 sectors per track.
pub img_ctx_validate_iff : (ctx : ImgCtx) → (img_ctx_validate ctx ≡ true) ↔ IsImgCtx ctx
unfolding img_ctx_validate rejects
img_ctx_validate_iff ctx = (
  λ h. record {
    img_sz = ground arith;
    sec_sz = (rejects_iff ctx.sec_sz).0 (ground arith);
    hpc = ground arith;
    spt_low = ground arith;
    spt_high = ground arith;
  },
  λ v. ground (arith, (rejects_iff ctx.sec_sz).1 v.sec_sz),
)
