-- ===== src/Main.antt =====
-- src/main.c, `img_init` and `main`: from the command line to the exit status.
-- What `lseek` says of the image's size is an argument, `none` for -1; the other calls may fail as
-- any call does. The random numbers are those of the world, whatever `srand` makes of the time.
pub mod Start
mod Tests
use Prim.Native.String.{String}
use partman.Base.{
  ℕ, ◌-◌, List, Bool, true, false, not, ◌&&◌, Option, none, some, ◌==◌, leb, if◌then◌else◌,
}
use partman.MemUtils.{store}
use partman.Stdio.{Stream}
use partman.ImgCtx.{ImgCtx, img_ctx_init, img_ctx_validate}
use partman.World.{World, call}
use partman.SchemCtx.{SchemCtx, schem_ctx_init, schem_ctx_load}
use partman.Options.{PartmanOpts, opts_init_default, opts_overflow, opts_parse}
use partman.Session.{Session, Ending, routine_start}

-- An option that is 0 leaves the default.
abbrev pub or_default : ℕ → ℕ → ℕ
or_default opt def = if not (opt == 0) then opt else def

-- the lines from `init:` to the check
unfoldable pub opts_ctx : PartmanOpts → ℕ → ℕ → ImgCtx
opts_ctx opts img_fd sz =
    let ctx = img_ctx_init opts.img_name img_fd sz in
    record ctx {
      sec_sz = or_default opts.sec_sz ctx.sec_sz;
      align = or_default opts.align ctx.align;
      hpc = or_default opts.hpc ctx.hpc;
      spt = or_default opts.spt ctx.spt;
    }

unfoldable pub checked_ctx : PartmanOpts → ℕ → ℕ → World → Bool × ImgCtx × World
checked_ctx opts img_fd sz w = let ctx = opts_ctx opts img_fd sz in (img_ctx_validate ctx, ctx, w)

-- `lseek` and `write` of one byte, which is the last one then
unfoldable pub extend_image : PartmanOpts → ℕ → ImgCtx → World → Bool × ImgCtx × World
extend_image opts img_fd img_ctx w =
    let (seeked, w) = call w in
    if not seeked
    then (false, img_ctx, w)
    else let (written, w) = call w in
      if not written
      then (false, img_ctx, w)
      else checked_ctx opts img_fd opts.img_sz
          (record w { image = store (opts.img_sz - 1) 0 w.image })

unfoldable pub img_init : PartmanOpts → ℕ → Option ℕ → ImgCtx → World → Bool × ImgCtx × World
img_init opts img_fd none img_ctx w = (false, img_ctx, w)
img_init opts img_fd (some sz) img_ctx w =
    if leb opts.img_sz sz then checked_ctx opts img_fd sz w else extend_image opts img_fd img_ctx w

-- The exit status, where the program exits: 1 is EXIT_FAILURE and `pres_ok`. It is `unfinished` where
-- C defines no result, or the fuel ran out.
pub data Exit : Type 0 where
  exited : ℕ → Exit
  unfinished : Exit

abbrev pub pres : Bool → ℕ
pres true = 1
pres false = 0

unfoldable pub exit_of : Ending → Exit
exit_of (Ending.returned res s) = exited (pres res)
exit_of Ending.undefined = unfinished
exit_of Ending.running = unfinished

-- from the image context on
unfoldable pub run : ℕ → ImgCtx → World → Stream → Exit
run fuel img_ctx w stdin =
    let (res, sc, w) = schem_ctx_load schem_ctx_init img_ctx w in
    if not res then exited (pres res) else exit_of (routine_start fuel img_ctx sc w stdin)

-- from the options on; `img_fd` is what `open` returns, and `blank` what stands in `img_ctx` before
unfoldable pub run_opts : ℕ → Option PartmanOpts → ℕ → Option ℕ → ImgCtx → World → Stream → Exit
run_opts fuel none img_fd sz blank w stdin = exited 1
run_opts fuel (some opts) img_fd sz blank w stdin =
    let (opened, w) = call w in
    if not opened
    then exited 1
    else let (res, img_ctx, w) = img_init opts img_fd sz blank w in
      if not res then exited 1 else run fuel img_ctx w stdin

unfoldable pub main :
    ℕ → ℕ → List String → List (ℕ × List ℕ) → ℕ → ℕ → Option ℕ → ImgCtx → World → Stream → Exit
main fuel argc argv given optind img_fd sz blank w stdin =
    if not (argc == 0) && opts_overflow given opts_init_default
    then unfinished
    else run_opts fuel (opts_parse argc argv given optind) img_fd sz blank w stdin
