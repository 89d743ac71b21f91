-- ===== src/SchemCtx/Flags.antt =====
-- The flags that say which schemes are in the image.
use partman.Base.{Bool, true, false, Option, none, some, ◌≡◌, arith}
use partman.ImgCtx.{ImgCtx}
use partman.World.{World}
use partman.Schem.{Schem}
use partman.SchemCtx.{SchemCtx, remove_one, save_one, schem_ctx_save, set_in_img}

abbrev pub is_some : Option Schem → Bool
is_some none = false
is_some (some s) = true

-- After a save that reports success, the schemes are unchanged, and exactly those that the context
-- holds are flagged as being in the image.
pub schem_ctx_save_lem :
    (sc : SchemCtx) (ctx : ImgCtx) (w : World)
    → (schem_ctx_save sc ctx w).0 ≡ true
    → let sc' : SchemCtx = (schem_ctx_save sc ctx w).1 in
      (sc'.mbr ≡ sc.mbr)
      × (sc'.gpt ≡ sc.gpt)
      × (sc'.mbr_in_img ≡ is_some sc.mbr)
      × (sc'.gpt_in_img ≡ is_some sc.gpt)
unfolding schem_ctx_save remove_one save_one set_in_img
schem_ctx_save_lem sc ctx w h = ground arith
