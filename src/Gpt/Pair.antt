-- ===== src/Gpt/Pair.antt =====
-- libs/libpartman/src/gpt.c, lines 441 to 710: a header and its table are saved and loaded, and the
-- two copies of them. A region that is not mapped is `none`, and the label `exit` is `unmap_both`.
use partman.Base.{
  ℕ, ◌+◌, ◌*◌, List, Bool, true, false, not, ltb, u64, sub64, Option, none, some, if◌then◌else◌,
}
use partman.ImgCtx.{ImgCtx, byte_to_lba}
use partman.World.{World}
use partman.Schem.{SchemLoadRes}
use partman.Gpt.{
  GptHdr, GptPartEnt, Gpt, gpt_max_part_cnt, gpt_hdr_write, gpt_hdr_read, gpt_table_write,
  gpt_table_read, gpt_is_present, gpt_hdr_is_valid, gpt_table_is_valid, gpt_restore,
}
use partman.Gpt.Region.{map_secs, unmap_secs}

pub data PairLoadRes : Type 0 where
  gpt_pair_load_ok gpt_pair_load_hdr_inv gpt_pair_load_table_inv gpt_pair_load_fatal : PairLoadRes

abbrev pub table_secs : ImgCtx → GptHdr → ℕ
table_secs ctx hdr = byte_to_lba ctx (u64 (hdr.part_table_entry_cnt * hdr.part_entry_sz)) true

unfoldable pub unmap_if : Option ℕ → ImgCtx → ℕ → ℕ → World → Bool × World
unmap_if none ctx lba secs w = (true, w)
unmap_if (some reg) ctx lba secs w = unmap_secs reg ctx lba secs w

unfoldable pub unmap_both : Option ℕ → ℕ → Option ℕ → ℕ → ℕ → ImgCtx → World → Bool × World
unmap_both hdr_reg hdr_lba table_reg table_lba table_sz ctx w =
    let (res, w) = unmap_if hdr_reg ctx hdr_lba 1 w in
    if not res then (false, w) else unmap_if table_reg ctx table_lba table_sz w

-- from the mapping of the table on
unfoldable pub save_table :
    GptHdr → List GptPartEnt → ImgCtx → Option ℕ → Option ℕ → World → Bool × World
save_table hdr table ctx hdr_reg none w =
    let (res, w) = unmap_both hdr_reg hdr.my_lba none 0 0 ctx w in (false, w)
save_table hdr table ctx hdr_reg (some table_reg) w =
    let image =
      gpt_table_write table_reg table hdr.part_table_entry_cnt hdr.part_entry_sz w.image in
    unmap_both hdr_reg hdr.my_lba (some table_reg) hdr.part_table_lba (table_secs ctx hdr) ctx
      (record w { image = image })

unfoldable pub save_hdr : GptHdr → List GptPartEnt → ImgCtx → Option ℕ → World → Bool × World
save_hdr hdr table ctx none w = (false, w)
save_hdr hdr table ctx (some hdr_reg) w =
    let w = record w { image = gpt_hdr_write hdr_reg hdr w.image } in
    let (table_reg, w) = map_secs ctx hdr.part_table_lba (table_secs ctx hdr) w in
    save_table hdr table ctx (some hdr_reg) table_reg w

unfoldable pub gpt_pair_save : GptHdr → List GptPartEnt → ImgCtx → World → Bool × World
gpt_pair_save hdr table img_ctx w =
    let (hdr_reg, w) = map_secs img_ctx hdr.my_lba 1 w in save_hdr hdr table img_ctx hdr_reg w

-- What `gpt_pair_load` leaves in `hdr` and `table`, whatever it returns.
pub record Pair : Type 0 where
  pub hdr : GptHdr
  pub table : List GptPartEnt

-- the label `exit` of the load
unfoldable pub leave_load :
    PairLoadRes → Pair → Option ℕ → ℕ → Option ℕ → ImgCtx → World → PairLoadRes × Pair × World
leave_load load_res pair hdr_reg hdr_lba table_reg ctx w =
    let (res, w) =
      unmap_both hdr_reg hdr_lba table_reg pair.hdr.part_table_lba (table_secs ctx pair.hdr) ctx
        w in
    ((if not res then PairLoadRes.gpt_pair_load_fatal else load_res), pair, w)

unfoldable pub load_table :
    Pair → ImgCtx → Option ℕ → ℕ → Option ℕ → World → PairLoadRes × Pair × World
load_table pair ctx hdr_reg hdr_lba none w =
    leave_load PairLoadRes.gpt_pair_load_fatal pair hdr_reg hdr_lba none ctx w
load_table pair ctx hdr_reg hdr_lba (some table_reg) w =
    let hdr = pair.hdr in
    let table =
      gpt_table_read table_reg pair.table hdr.part_table_entry_cnt hdr.part_entry_sz w.image in
    leave_load
      (if not (gpt_table_is_valid hdr table)
        then PairLoadRes.gpt_pair_load_table_inv
        else PairLoadRes.gpt_pair_load_ok)
      (record { hdr = hdr; table = table }) hdr_reg hdr_lba (some table_reg) ctx w

unfoldable pub load_hdr : Pair → ImgCtx → ℕ → Option ℕ → World → PairLoadRes × Pair × World
load_hdr pair ctx hdr_lba none w = (PairLoadRes.gpt_pair_load_fatal, pair, w)
load_hdr pair ctx hdr_lba (some hdr_reg) w =
    if not (gpt_is_present hdr_reg w.image)
    then leave_load PairLoadRes.gpt_pair_load_hdr_inv pair (some hdr_reg) hdr_lba none ctx w
    else let hdr = gpt_hdr_read hdr_reg w.image in
      let pair = record pair { hdr = hdr } in
      if not (gpt_hdr_is_valid hdr hdr_lba)
      then leave_load PairLoadRes.gpt_pair_load_hdr_inv pair (some hdr_reg) hdr_lba none ctx w
      else if ltb gpt_max_part_cnt hdr.part_table_entry_cnt
      then leave_load PairLoadRes.gpt_pair_load_fatal pair (some hdr_reg) hdr_lba none ctx w
      else let (table_reg, w) = map_secs ctx hdr.part_table_lba (table_secs ctx hdr) w in
        load_table pair ctx (some hdr_reg) hdr_lba table_reg w

unfoldable pub gpt_pair_load : Pair → ImgCtx → ℕ → World → PairLoadRes × Pair × World
gpt_pair_load pair img_ctx hdr_lba w =
    let (hdr_reg, w) = map_secs img_ctx hdr_lba 1 w in load_hdr pair img_ctx hdr_lba hdr_reg w

unfoldable pub gpt_save : Gpt → ImgCtx → World → Bool × World
gpt_save gpt img_ctx w =
    let (res, w) = gpt_pair_save gpt.hdr_sec gpt.table_sec img_ctx w in
    if not res
    then (false, w)
    else let (res, w) = gpt_pair_save gpt.hdr_prim gpt.table_prim img_ctx w in
      if not res then (false, w) else (true, w)

-- where the secondary header is looked for
unfoldable pub lba_sec : PairLoadRes → GptHdr → ImgCtx → ℕ
lba_sec PairLoadRes.gpt_pair_load_ok hdr_prim ctx = hdr_prim.alt_lba
lba_sec PairLoadRes.gpt_pair_load_hdr_inv hdr_prim ctx = sub64 (byte_to_lba ctx ctx.img_sz false) 1
lba_sec PairLoadRes.gpt_pair_load_table_inv hdr_prim ctx =
    sub64 (byte_to_lba ctx ctx.img_sz false) 1
lba_sec PairLoadRes.gpt_pair_load_fatal hdr_prim ctx = sub64 (byte_to_lba ctx ctx.img_sz false) 1

abbrev pub is_ok : PairLoadRes → Bool
is_ok PairLoadRes.gpt_pair_load_ok = true
is_ok PairLoadRes.gpt_pair_load_hdr_inv = false
is_ok PairLoadRes.gpt_pair_load_table_inv = false
is_ok PairLoadRes.gpt_pair_load_fatal = false

abbrev pub is_fatal : PairLoadRes → Bool
is_fatal PairLoadRes.gpt_pair_load_ok = false
is_fatal PairLoadRes.gpt_pair_load_hdr_inv = false
is_fatal PairLoadRes.gpt_pair_load_table_inv = false
is_fatal PairLoadRes.gpt_pair_load_fatal = true

-- What is made of the two copies, where neither load was fatal.
unfoldable pub recover : Bool → Bool → Gpt → ImgCtx → SchemLoadRes × Gpt
recover false false gpt ctx = (SchemLoadRes.schem_load_not_found, gpt)
recover true false gpt ctx =
    let gpt_table_lba = sub64 gpt.hdr_prim.alt_lba (table_secs ctx gpt.hdr_prim) in
    (SchemLoadRes.schem_load_ok, gpt_restore gpt gpt_table_lba false)
recover false true gpt ctx =
    let gpt_table_lba = u64 (gpt.hdr_sec.alt_lba + 1) in
    (SchemLoadRes.schem_load_ok, gpt_restore gpt gpt_table_lba true)
recover true true gpt ctx = (SchemLoadRes.schem_load_ok, gpt)

unfoldable pub gpt_load : Gpt → ImgCtx → World → SchemLoadRes × Gpt × World
gpt_load gpt img_ctx w =
    let (res_prim, prim, w) =
      gpt_pair_load (record { hdr = gpt.hdr_prim; table = gpt.table_prim }) img_ctx 1 w in
    let gpt = record gpt { hdr_prim = prim.hdr; table_prim = prim.table } in
    if is_fatal res_prim
    then (SchemLoadRes.schem_load_fatal, gpt, w)
    else let (res_sec, sec, w) =
        gpt_pair_load (record { hdr = gpt.hdr_sec; table = gpt.table_sec }) img_ctx
          (lba_sec res_prim gpt.hdr_prim img_ctx) w in
      let gpt = record gpt { hdr_sec = sec.hdr; table_sec = sec.table } in
      if is_fatal res_sec
      then (SchemLoadRes.schem_load_fatal, gpt, w)
      else let (res, gpt) = recover (is_ok res_prim) (is_ok res_sec) gpt img_ctx in (res, gpt, w)
