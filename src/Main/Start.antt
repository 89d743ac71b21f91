-- ===== src/Main/Start.antt =====
-- What the program starts from, and how it exits.
use native.Mathlib.Nat.{div-le_self}
use partman.Base.{
  ℕ, ◌+◌, ◌-◌, ◌/◌, ◌^◌, ◌≤◌, ◌<◌, ◌≡◌, ◌⊎◌, ◌↔◌, inl, inr, refl, Bool, true, false, Option, some,
  leb, ◌==◌, if◌then◌else◌, Bool-cases, arith,
}
use partman.MemUtils.{store}
use partman.Stdio.{Stream}
use partman.ImgCtx.{ImgCtx, img_ctx_init}
use partman.ImgCtx.Validate.{IsImgCtx, IsSectorSize, img_ctx_validate_iff}
use partman.World.{World, call}
use partman.Options.{PartmanOpts}
use partman.SchemCtx.{SchemCtx, schem_ctx_init, schem_ctx_load}
use partman.Session.{Session, Ending, routine_start}
use partman.Session.Init.{IsRoomy}
use partman.Main.{opts_ctx, checked_ctx, extend_image, img_init, exited, exit_of, run, run_opts}

-- The context that the options ask for: each that is 0 stands for its default, 512 bytes a sector,
-- 2048 sectors of alignment, 255 heads and 63 sectors a track.
pub record IsFrom (opts : PartmanOpts) (fd sz : ℕ) (ctx : ImgCtx) : Type 0 where
  pub img_name : ctx.img_name ≡ opts.img_name
  pub img_fd : ctx.img_fd ≡ fd
  pub img_sz : ctx.img_sz ≡ sz
  pub sec_sz : ctx.sec_sz ≡ (if opts.sec_sz == 0 then 512 else opts.sec_sz)
  pub align : ctx.align ≡ (if opts.align == 0 then 2048 else opts.align)
  pub hpc : ctx.hpc ≡ (if opts.hpc == 0 then 255 else opts.hpc)
  pub spt : ctx.spt ≡ (if opts.spt == 0 then 63 else opts.spt)

opts_ctx-IsFrom :
    (opts : PartmanOpts) (img_fd sz : ℕ) → IsFrom opts img_fd sz (opts_ctx opts img_fd sz)
unfolding opts_ctx img_ctx_init
opts_ctx-IsFrom opts img_fd sz = record {
  img_name = refl;
  img_fd = refl;
  img_sz = refl;
  sec_sz = ground arith;
  align = ground arith;
  hpc = ground arith;
  spt = ground arith;
}

checked-IsImgCtx :
    (opts : PartmanOpts) (img_fd sz : ℕ) (w : World)
    → (checked_ctx opts img_fd sz w).0 ≡ true
    → IsImgCtx (opts_ctx opts img_fd sz)
unfolding checked_ctx
checked-IsImgCtx opts img_fd sz w h = (img_ctx_validate_iff (opts_ctx opts img_fd sz)).0 h

module _ (opts : PartmanOpts) (img_fd : ℕ) (blank : ImgCtx) where
  extend_image_lem :
      (w : World)
      → (extend_image opts img_fd blank w).0 ≡ true
      → let r : Bool × ImgCtx × World = extend_image opts img_fd blank w in
        IsFrom opts img_fd opts.img_sz r.1
        × IsImgCtx r.1
        × (r.2.image ≡ store (opts.img_sz - 1) 0 w.image)
  unfolding extend_image checked_ctx
  extend_image_lem w h = elim (Bool-cases (w.succeeds w.calls)) [
    | inr e ↦ absurd (ground (arith, e))
    | inl e ↦ elim (Bool-cases (w.succeeds (w.calls + 1))) [
      | inr f ↦ absurd (ground (arith, e, f))
      | inl f ↦
          let w' : World = record w {
            calls = w.calls + 1 + 1;
            image = store (opts.img_sz - 1) 0 w.image;
          } in
          let valid : (checked_ctx opts img_fd opts.img_sz w').0 ≡ true = rw (e, f) at h in
          rw (e, f)
            (
              opts_ctx-IsFrom opts img_fd opts.img_sz,
              checked-IsImgCtx opts img_fd opts.img_sz w' valid,
              refl,
            )
    ]
  ]

  -- Where the image is prepared with success, its context is made of the options, each that is 0 left
  -- at its default (512 bytes a sector, 2048 sectors of alignment, 255 heads and 63 sectors a track),
  -- and of the image's size, which is raised to the one that the options ask for; the
  -- context is one that the checks accept. The image is unchanged, but for the zero byte that extends it.
  pub img_init_lem :
      (sz : ℕ) (w : World)
      → (img_init opts img_fd (some sz) blank w).0 ≡ true
      → let r : Bool × ImgCtx × World = img_init opts img_fd (some sz) blank w in
        IsFrom opts img_fd (if leb opts.img_sz sz then sz else opts.img_sz) r.1
        × IsImgCtx r.1
        × (r.2.image ≡ (if leb opts.img_sz sz then w.image else store (opts.img_sz - 1) 0 w.image))
  unfolding img_init checked_ctx
  img_init_lem sz w h = elim (Bool-cases (leb opts.img_sz sz)) [
    | inl e ↦
        rw e (opts_ctx-IsFrom opts img_fd sz, checked-IsImgCtx opts img_fd sz w (rw e at h), refl)
    | inr e ↦ rw e (extend_image_lem w (rw e at h))
  ]

-- A context that is accepted, of an image and an alignment below 2 ^ 63, is of a disk on which both
-- schemes have usable space.
pub IsImgCtx-IsRoomy :
    (ctx : ImgCtx)
    → IsImgCtx ctx
    → ctx.img_sz < 2 ^ 63
    → 0 < ctx.align
    → ctx.align < 2 ^ 63
    → IsRoomy ctx
IsImgCtx-IsRoomy ctx v small pos low = record {
  sec_sz = sector_low v.sec_sz;
  img_sz = omega arith;
  sectors = many v.sec_sz;
  align_pos = pos;
  aligns = omega (arith, div-le_self ctx.img_sz ctx.sec_sz);
}
  where
    sector_low : IsSectorSize ctx.sec_sz → 512 ≤ ctx.sec_sz
    sector_low h = omega (arith, h)

    many : IsSectorSize ctx.sec_sz → 70 ≤ ctx.img_sz / ctx.sec_sz
    many (inl e) = rw e (omega (arith, v.img_sz))
    many (inr (inl e)) = rw e (omega (arith, v.img_sz))
    many (inr (inr (inl e))) = rw e (omega (arith, v.img_sz))
    many (inr (inr (inr e))) = rw e (omega (arith, v.img_sz))

exit_of-zero :
    (e : Ending) → (exit_of e ≡ exited 0) ↔ ((s : Session) × (e ≡ Ending.returned false s))
unfolding exit_of
exit_of-zero (Ending.returned true s) =
    (λ h. absurd (ground arith), λ h. absurd (ground (arith, h.1)))
exit_of-zero (Ending.returned false s) = (λ h. (s, refl), λ h. refl)
exit_of-zero Ending.undefined = (λ h. absurd (ground arith), λ h. absurd (ground (arith, h.1)))
exit_of-zero Ending.running = (λ h. absurd (ground arith), λ h. absurd (ground (arith, h.1)))

-- The exit status is 0, which stands for success, exactly where the options, the file and the context
-- are right, and then the schemes cannot be loaded or the session ends with a failure.
pub run_opts_zero_iff :
    (fuel : ℕ) (opts : PartmanOpts) (img_fd : ℕ) (sz : Option ℕ) (blank : ImgCtx) (w : World)
    (stdin : Stream)
    → let init : Bool × ImgCtx × World = img_init opts img_fd sz blank (call w).1 in
      let load : Bool × SchemCtx × World = schem_ctx_load schem_ctx_init init.1 init.2 in
      (run_opts fuel (some opts) img_fd sz blank w stdin ≡ exited 0) ↔ (
        ((call w).0 ≡ true)
        × (init.0 ≡ true)
        × ((load.0 ≡ false)
            ⊎ ((load.0 ≡ true)
                × ((s : Session) × (routine_start fuel init.1 load.1 load.2 stdin
                      ≡ Ending.returned false s)))))
unfolding run_opts run
run_opts_zero_iff fuel opts img_fd sz blank w stdin = elim (Bool-cases (call w).0) [
  | inr e ↦ (λ h. absurd (ground (arith, e)), λ h. absurd (ground (arith, e, h.0)))
  | inl e ↦ elim (Bool-cases init.0) [
    | inr f ↦ (λ h. absurd (ground (arith, e, f)), λ h. absurd (ground (arith, f, h.1)))
    | inl f ↦ elim (Bool-cases load.0) [
      | inr g ↦ (λ h. (e, f, inl g), λ h. ground (arith, e, f, g))
      | inl g ↦
          let z = exit_of-zero (routine_start fuel init.1 load.1 load.2 stdin) in
          (
            λ h. (e, f, inr (g, z.0 (ground (arith, e, f, g)))),
            λ h. elim (h.2) [
              | inl k ↦ absurd (ground (arith, g, k))
              | inr k ↦ ground (arith, e, f, g, z.1 (k.1))
            ],
          )
    ]
  ]
]
  where
    init : Bool × ImgCtx × World
    init = img_init opts img_fd sz blank (call w).1

    load : Bool × SchemCtx × World
    load = schem_ctx_load schem_ctx_init init.1 init.2
