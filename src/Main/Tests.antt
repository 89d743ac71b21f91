-- ===== src/Main/Tests.antt =====
-- A start with an image of 4 MiB, and one that is to be extended to it.
use partman.Base.{◌-◌, ◌≡◌, ◌⊎◌, ◌↔◌, refl, [], Bool, true, false, some}
use partman.MemUtils.{store}
use partman.Stdio.{Stream}
use partman.ImgCtx.{ImgCtx, img_ctx_init, img_ctx_validate}
use partman.ImgCtx.Validate.{IsImgCtx}
use partman.World.{World, call}
use partman.SchemCtx.{SchemCtx, schem_ctx_init, schem_ctx_load}
use partman.Log.{LogLevel}
use partman.Options.{PartmanOpts}
use partman.Session.{Session, Ending, routine_start}
use partman.Examples.{disk, calls_succeed}
use partman.Main.{opts_ctx, checked_ctx, extend_image, img_init, exited, run_opts}
use partman.Main.Start.{IsFrom, img_init_lem, run_opts_zero_iff}

abbrev min_size : PartmanOpts
min_size = record {
  log_level = LogLevel.log_info;
  img_name = "disk.img";
  sec_sz = 0;
  img_sz = 4194304;
  align = 0;
  hpc = 0;
  spt = 32;
}

starts : (img_init min_size 3 (some 1000) disk calls_succeed).0 ≡ true
unfolding img_init extend_image checked_ctx opts_ctx img_ctx_init img_ctx_validate
starts = refl

img_init_lem_example :
    let r : Bool × ImgCtx × World = img_init min_size 3 (some 1000) disk calls_succeed in
    IsFrom min_size 3 4194304 r.1
    × IsImgCtx r.1
    × (r.2.image ≡ store (4194304 - 1) 0 calls_succeed.image)
img_init_lem_example = img_init_lem min_size 3 disk 1000 calls_succeed starts

abbrev no_input : Stream
no_input = record { events = []; eof = false; overflowed = false }

run_opts_zero_iff_example :
    let init : Bool × ImgCtx × World =
      img_init min_size 3 (some 1000) disk (call calls_succeed).1 in
    let load : Bool × SchemCtx × World = schem_ctx_load schem_ctx_init init.1 init.2 in
    (run_opts 5 (some min_size) 3 (some 1000) disk calls_succeed no_input ≡ exited 0) ↔ (
      ((call calls_succeed).0 ≡ true)
      × (init.0 ≡ true)
      × ((load.0 ≡ false)
          ⊎ ((load.0 ≡ true)
              × ((s : Session) × (routine_start 5 init.1 load.1 load.2 no_input
                    ≡ Ending.returned false s)))))
run_opts_zero_iff_example = run_opts_zero_iff 5 min_size 3 (some 1000) disk calls_succeed no_input
