-- ===== src/SchemCtx.antt =====
-- libs/libpartman/src/schem.c, lines 10 to 307: the scheme context, which holds the schemes in
-- memory and says which are in the image, and `img_ctx_sync` of img_ctx.c.
-- The two arrays are a field for each type, a null pointer `none`. The function pointers of a scheme
-- are those of `funcs`; `schem_cnt` stands for pointers that are not mapped, which no code calls.
pub mod Prot
pub mod New
pub mod Flags
mod Tests
use partman.Base.{
  ℕ, List, [], ◌∷◌, replicate, Bool, true, false, not, Option, none, some, if◌then◌else◌,
}
use partman.Guid.{zero_guid}
use partman.ImgCtx.{ImgCtx}
use partman.World.{World, call}
use partman.Schem.{SchemType, SchemLoadRes, Schem, zero_part}
use partman.Mbr.{
  mbr_max_part_cnt, schem_init_mbr, schem_load_mbr, schem_save_mbr, schem_remove_mbr,
  schem_mbr_set_prot, schem_mbr_is_prot,
}
use partman.Gpt.{gpt_max_part_cnt}
use partman.Gpt.Scheme.{schem_init_gpt, schem_load_gpt, schem_save_gpt, schem_remove_gpt}

pub record SchemCtx : Type 0 where
  pub mbr : Option Schem
  pub gpt : Option Schem
  pub mbr_in_img : Bool
  pub gpt_in_img : Bool

unfoldable pub schem_get_max_part_cnt : SchemType → ℕ
schem_get_max_part_cnt SchemType.schem_type_mbr = mbr_max_part_cnt
schem_get_max_part_cnt SchemType.schem_type_gpt = gpt_max_part_cnt
schem_get_max_part_cnt SchemType.schem_cnt = 0

-- the calls through the function pointers
unfoldable pub call_init : SchemType → Schem → ImgCtx → World → Schem × World
call_init SchemType.schem_type_mbr schem ctx w = schem_init_mbr schem ctx w
call_init SchemType.schem_type_gpt schem ctx w = schem_init_gpt schem ctx w
call_init SchemType.schem_cnt schem ctx w = (schem, w)

unfoldable pub call_load : SchemType → Schem → ImgCtx → World → SchemLoadRes × Schem × World
call_load SchemType.schem_type_mbr schem ctx w = schem_load_mbr schem ctx w
call_load SchemType.schem_type_gpt schem ctx w = schem_load_gpt schem ctx w
call_load SchemType.schem_cnt schem ctx w = (SchemLoadRes.schem_load_fatal, schem, w)

unfoldable pub call_save : SchemType → Schem → ImgCtx → World → Bool × World
call_save SchemType.schem_type_mbr schem ctx w = schem_save_mbr schem ctx w
call_save SchemType.schem_type_gpt schem ctx w = schem_save_gpt schem ctx w
call_save SchemType.schem_cnt schem ctx w = (false, w)

unfoldable pub call_remove : SchemType → ImgCtx → World → Bool × World
call_remove SchemType.schem_type_mbr ctx w = schem_remove_mbr ctx w
call_remove SchemType.schem_type_gpt ctx w = schem_remove_gpt ctx w
call_remove SchemType.schem_cnt ctx w = (false, w)

-- what `memset` leaves
abbrev pub zero_schem : Schem
zero_schem = record {
  type = SchemType.schem_type_mbr;
  id_i = 0;
  id_guid = zero_guid;
  first_usable_lba = 0;
  last_usable_lba = 0;
  part_cnt = 0;
  table = [];
  funcs = SchemType.schem_cnt;
}

unfoldable pub schem_new : ImgCtx → SchemType → Bool → World → Bool × Schem × World
schem_new img_ctx type init w =
    let (allocated, w) = call w in
    if not allocated
    then (false, zero_schem, w)
    else let schem = record zero_schem {
      table = replicate (schem_get_max_part_cnt type) zero_part;
      funcs = type;
    } in
      if init
      then (let (schem, w) = call_init type schem img_ctx w in (true, schem, w))
      else (true, schem, w)

-- `schemes[type] = …` and `schemes_in_img[type] = …`
unfoldable pub set_scheme : SchemType → Option Schem → SchemCtx → SchemCtx
set_scheme SchemType.schem_type_mbr s sc = record sc { mbr = s }
set_scheme SchemType.schem_type_gpt s sc = record sc { gpt = s }
set_scheme SchemType.schem_cnt s sc = sc

unfoldable pub set_in_img : SchemType → Bool → SchemCtx → SchemCtx
set_in_img SchemType.schem_type_mbr b sc = record sc { mbr_in_img = b }
set_in_img SchemType.schem_type_gpt b sc = record sc { gpt_in_img = b }
set_in_img SchemType.schem_cnt b sc = sc

unfoldable pub schem_ctx_schem_alloc :
    SchemCtx → ImgCtx → SchemType → Bool → World → Bool × SchemCtx × World
schem_ctx_schem_alloc sc img_ctx type init w =
    let (allocated, w) = call w in
    if not allocated
    then (false, set_scheme type none sc, w)
    else let (res, schem, w) = schem_new img_ctx type init w in
      (res, set_scheme type (some schem) sc, w)

-- `schem_mbr_set_prot(schem_ctx->schemes[schem_type_mbr])`
unfoldable pub set_prot : SchemCtx → SchemCtx
set_prot sc = elim (sc.mbr) [
  | none ↦ sc
  | some schem ↦ record sc { mbr = some (schem_mbr_set_prot schem) }
]

unfoldable pub schem_ctx_new_gpt : SchemCtx → ImgCtx → World → Bool × SchemCtx × World
schem_ctx_new_gpt sc img_ctx w =
    let (res, sc, w) = schem_ctx_schem_alloc sc img_ctx SchemType.schem_type_gpt true w in
    if not res
    then (false, sc, w)
    else let (res, sc, w) = schem_ctx_schem_alloc sc img_ctx SchemType.schem_type_mbr true w in
      if not res then (false, sc, w) else (true, set_prot sc, w)

unfoldable pub schem_ctx_init : SchemCtx
schem_ctx_init = record { mbr = none; gpt = none; mbr_in_img = false; gpt_in_img = false }

unfoldable pub schem_ctx_reset : SchemCtx → Bool → SchemCtx
schem_ctx_reset sc keep_scheme_flags =
    let sc = record sc { mbr = none; gpt = none } in
    if not keep_scheme_flags then record sc { mbr_in_img = false; gpt_in_img = false } else sc

unfoldable pub schem_ctx_new : SchemCtx → ImgCtx → SchemType → World → Bool × SchemCtx × World
schem_ctx_new sc img_ctx SchemType.schem_type_gpt w =
    schem_ctx_new_gpt (schem_ctx_reset sc true) img_ctx w
schem_ctx_new sc img_ctx SchemType.schem_cnt w = (false, schem_ctx_reset sc true, w)
schem_ctx_new sc img_ctx SchemType.schem_type_mbr w =
    schem_ctx_schem_alloc (schem_ctx_reset sc true) img_ctx SchemType.schem_type_mbr true w

-- the last steps of one round of the loop of `schem_ctx_load`
unfoldable pub keep_loaded :
    SchemType → SchemCtx → SchemLoadRes × Schem × World → Bool × SchemCtx × World
keep_loaded type sc (SchemLoadRes.schem_load_fatal, schem, w) = (false, sc, w)
keep_loaded type sc (SchemLoadRes.schem_load_not_found, schem, w) = (true, sc, w)
keep_loaded type sc (SchemLoadRes.schem_load_ok, schem, w) =
    let (allocated, w) = call w in
    if not allocated
    then (false, set_scheme type none sc, w)
    else (true, set_in_img type true (set_scheme type (some schem) sc), w)

unfoldable pub load_one : SchemType → SchemCtx → ImgCtx → World → Bool × SchemCtx × World
load_one type sc img_ctx w =
    let (res_new, schem, w) = schem_new img_ctx type false w in
    if not res_new then (false, sc, w) else keep_loaded type sc (call_load type schem img_ctx w)

-- the checks after the loop
unfoldable pub check_prot :
    Option Schem → Option Schem → SchemCtx → ImgCtx → World → Bool × SchemCtx × World
check_prot none mbr sc img_ctx w = (true, sc, w)
check_prot (some gpt) none sc img_ctx w =
    let (res, sc, w) = schem_ctx_schem_alloc sc img_ctx SchemType.schem_type_mbr true w in
    if not res then (false, sc, w) else (true, set_prot sc, w)
check_prot (some gpt) (some mbr) sc img_ctx w =
    if not (schem_mbr_is_prot mbr)
    then (let (mbr, w) = schem_init_mbr mbr img_ctx w in
        (true, set_prot (record sc { mbr = some mbr }), w))
    else (true, sc, w)

unfoldable pub schem_ctx_load : SchemCtx → ImgCtx → World → Bool × SchemCtx × World
schem_ctx_load sc img_ctx w =
    let sc = schem_ctx_reset sc false in
    let (res, sc, w) = load_one SchemType.schem_type_mbr sc img_ctx w in
    if not res
    then (false, sc, w)
    else let (res, sc, w) = load_one SchemType.schem_type_gpt sc img_ctx w in
      if not res then (false, sc, w) else check_prot sc.gpt sc.mbr sc img_ctx w

unfoldable pub img_ctx_sync : ImgCtx → World → Bool × World
img_ctx_sync ctx w = call w

-- One round of the first loop of `schem_ctx_save`, with the flag and the scheme of the type.
unfoldable pub remove_one :
    SchemType → Bool → Option Schem → SchemCtx → ImgCtx → World → Bool × SchemCtx × World
remove_one type false schem sc img_ctx w = (true, sc, w)
remove_one type true none sc img_ctx w =
    let (r, w) = call_remove type img_ctx w in
    if not r then (false, sc, w) else (true, set_in_img type false sc, w)
remove_one type true (some schem) sc img_ctx w = (true, set_in_img type false sc, w)

-- and one of the second.
unfoldable pub save_one :
    SchemType → Option Schem → SchemCtx → ImgCtx → World → Bool × SchemCtx × World
save_one type none sc img_ctx w = (true, sc, w)
save_one type (some schem) sc img_ctx w =
    let (r, w) = call_save schem.funcs schem img_ctx w in
    if not r then (false, sc, w) else (true, set_in_img type true sc, w)

unfoldable pub schem_ctx_save : SchemCtx → ImgCtx → World → Bool × SchemCtx × World
schem_ctx_save sc img_ctx w =
    let (r, sc, w) = remove_one SchemType.schem_type_mbr sc.mbr_in_img sc.mbr sc img_ctx w in
    if not r
    then (false, sc, w)
    else let (r, sc, w) = remove_one SchemType.schem_type_gpt sc.gpt_in_img sc.gpt sc img_ctx w in
      if not r
      then (false, sc, w)
      else let (r, sc, w) = save_one SchemType.schem_type_mbr sc.mbr sc img_ctx w in
        if not r
        then (false, sc, w)
        else let (r, sc, w) = save_one SchemType.schem_type_gpt sc.gpt sc img_ctx w in
          if not r
          then (false, sc, w)
          else let (synced, w) = img_ctx_sync img_ctx w in (synced, sc, w)

-- GPT before the MBR that protects it.
unfoldable pub schem_ctx_get_type : SchemCtx → SchemType
schem_ctx_get_type sc = elim (sc.gpt) [
  | some gpt ↦ SchemType.schem_type_gpt
  | none ↦ elim (sc.mbr) [ some mbr ↦ SchemType.schem_type_mbr | none ↦ SchemType.schem_cnt ]
]
