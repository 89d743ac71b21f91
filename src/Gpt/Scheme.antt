-- ===== src/Gpt/Scheme.antt =====
-- libs/libpartman/src/gpt.c, lines 712 to 971: the conversions between a scheme and a GPT, and the
-- operations that the schemes are given.
use partman.Base.{
  ℕ, zero, suc, ◌+◌, ◌*◌, List, [], ◌∷◌, get_or, set, replicate, Bool, true, false, not, u64, sub64,
  Option, none, some, if◌then◌else◌,
}
use partman.Guid.{guid_create}
use partman.ImgCtx.{ImgCtx, byte_to_lba}
use partman.World.{World, call}
use partman.Schem.{
  SchemType, SchemLoadRes, SchemPart, Schem, zero_part, clear_table, parts, schem_part_is_used_gpt,
}
use partman.Gpt.{
  GptPartEnt, Gpt, zero_ent, zero_hdr, gpt_hdr_rev, gpt_hdr_sz, gpt_part_ent_sz, gpt_max_part_cnt,
  gpt_hdr_crc_create, gpt_table_crc_create, gpt_hdr_erase_sig, gpt_restore, gpt_is_part_used,
}
use partman.Gpt.Region.{map_secs, unmap_secs}
use partman.Gpt.Pair.{gpt_load, gpt_save}

pub record Pos : Type 0 where
  pub hdr_lba_prim : ℕ
  pub hdr_lba_sec : ℕ
  pub table_lba_prim : ℕ
  pub table_lba_sec : ℕ
  pub table_sz : ℕ

unfoldable pub gpt_calc_pos : ImgCtx → Pos
gpt_calc_pos img_ctx =
    let hdr_lba_sec = sub64 (byte_to_lba img_ctx img_ctx.img_sz false) 1 in
    let table_sz = byte_to_lba img_ctx (gpt_max_part_cnt * gpt_part_ent_sz) true in
    record {
      hdr_lba_prim = 1;
      hdr_lba_sec = hdr_lba_sec;
      table_lba_prim = 1 + 1;
      table_lba_sec = sub64 hdr_lba_sec table_sz;
      table_sz = table_sz;
    }

-- the body of the loop of `gpt_from_schem`
unfoldable pub ent_of : SchemPart → GptPartEnt
ent_of part = record {
  type_guid = part.type_guid;
  unique_guid = part.unique_guid;
  start_lba = part.start_lba;
  end_lba = part.end_lba;
  attr = part.attr;
  name = part.name;
}

-- the loops, over the entries of the scheme and over those of the GPT
unfoldable pub ents_from_parts : ℕ → List SchemPart → List GptPartEnt → List GptPartEnt
ents_from_parts i [] table = table
ents_from_parts i (part ∷ rest) table =
    ents_from_parts (i + 1) rest
      (if not (schem_part_is_used_gpt part) then table else set table i (ent_of part))

unfoldable pub gpt_from_schem : Schem → Gpt → ImgCtx → Gpt
gpt_from_schem schem gpt img_ctx =
    let pos = gpt_calc_pos img_ctx in
    let hdr = record gpt.hdr_prim {
      rev = gpt_hdr_rev;
      hdr_sz = gpt_hdr_sz;
      my_lba = pos.hdr_lba_prim;
      alt_lba = pos.hdr_lba_sec;
      first_usable_lba = schem.first_usable_lba;
      last_usable_lba = schem.last_usable_lba;
      part_table_lba = pos.table_lba_prim;
      part_table_entry_cnt = schem.part_cnt;
      part_entry_sz = gpt_part_ent_sz;
      disk_guid = schem.id_guid;
    } in
    let table = ents_from_parts 0 (parts schem) gpt.table_prim in
    let hdr = record hdr { part_table_crc32 = gpt_table_crc_create table schem.part_cnt } in
    let hdr = record hdr { hdr_crc32 = gpt_hdr_crc_create hdr } in
    gpt_restore (record gpt { hdr_prim = hdr; table_prim = table }) pos.table_lba_sec false

-- the body of the loop of `gpt_to_schem`, on an entry that is cleared
unfoldable pub part_of : GptPartEnt → SchemPart → SchemPart
part_of ent part = record part {
  type_guid = ent.type_guid;
  unique_guid = ent.unique_guid;
  start_lba = ent.start_lba;
  end_lba = ent.end_lba;
  attr = ent.attr;
  name = ent.name;
}

unfoldable pub parts_from_ents : ℕ → ℕ → List GptPartEnt → List SchemPart → List SchemPart
parts_from_ents zero i ents table = table
parts_from_ents (suc left) i ents table =
    let ent = get_or ents i zero_ent in
    parts_from_ents left (i + 1) ents (
      if not (gpt_is_part_used ent)
      then table
      else set table i (part_of ent (get_or table i zero_part)))

unfoldable pub gpt_to_schem : Schem → Gpt → Schem
gpt_to_schem schem gpt =
    let cnt = gpt.hdr_prim.part_table_entry_cnt in
    record schem {
      type = SchemType.schem_type_gpt;
      id_guid = gpt.hdr_prim.disk_guid;
      first_usable_lba = gpt.hdr_prim.first_usable_lba;
      last_usable_lba = gpt.hdr_prim.last_usable_lba;
      part_cnt = cnt;
      table = parts_from_ents cnt 0 gpt.table_prim (clear_table cnt schem.table);
    }

unfoldable pub schem_init_gpt : Schem → ImgCtx → World → Schem × World
schem_init_gpt schem img_ctx w =
    let pos = gpt_calc_pos img_ctx in
    let (guid, rng) = guid_create w.rng in
    (
      record schem {
        type = SchemType.schem_type_gpt;
        first_usable_lba = u64 (pos.table_lba_prim + pos.table_sz);
        last_usable_lba = sub64 pos.table_lba_sec 1;
        part_cnt = gpt_max_part_cnt;
        id_guid = guid;
        table = clear_table gpt_max_part_cnt schem.table;
      },
      record w { rng = rng },
    )

-- what `memset` and the two calls of `calloc` give
abbrev pub zero_gpt : Gpt
zero_gpt = record {
  hdr_prim = zero_hdr;
  table_prim = replicate 128 zero_ent;
  hdr_sec = zero_hdr;
  table_sec = replicate 128 zero_ent;
}

unfoldable pub alloc_tables : World → Bool × World
alloc_tables w =
    let (prim, w) = call w in let (sec, w) = call w in ((if not prim then false else sec), w)

-- the two ways through `schem_load_gpt` after `gpt_load`
unfoldable pub loaded_gpt : Schem → SchemLoadRes × Gpt × World → SchemLoadRes × Schem × World
loaded_gpt schem (SchemLoadRes.schem_load_ok, gpt, w) =
    (SchemLoadRes.schem_load_ok, gpt_to_schem schem gpt, w)
loaded_gpt schem (SchemLoadRes.schem_load_not_found, gpt, w) =
    (SchemLoadRes.schem_load_not_found, schem, w)
loaded_gpt schem (SchemLoadRes.schem_load_fatal, gpt, w) = (SchemLoadRes.schem_load_fatal, schem, w)

unfoldable pub schem_load_gpt : Schem → ImgCtx → World → SchemLoadRes × Schem × World
schem_load_gpt schem img_ctx w =
    let (allocated, w) = alloc_tables w in
    if not allocated
    then (SchemLoadRes.schem_load_fatal, schem, w)
    else loaded_gpt schem (gpt_load zero_gpt img_ctx w)

unfoldable pub schem_save_gpt : Schem → ImgCtx → World → Bool × World
schem_save_gpt schem img_ctx w =
    let (allocated, w) = alloc_tables w in
    if not allocated then (false, w) else gpt_save (gpt_from_schem schem zero_gpt img_ctx) img_ctx w

-- one half of `schem_remove_gpt`: a header's sector is mapped, its signature erased, and the sector
-- unmapped
unfoldable pub erase_at : ImgCtx → ℕ → Option ℕ → World → Bool × World
erase_at img_ctx lba none w = (false, w)
erase_at img_ctx lba (some hdr_reg) w =
    let w = record w { image = gpt_hdr_erase_sig hdr_reg w.image } in
    unmap_secs hdr_reg img_ctx lba 1 w

unfoldable pub erase_hdr : ImgCtx → ℕ → World → Bool × World
erase_hdr img_ctx lba w =
    let (hdr_reg, w) = map_secs img_ctx lba 1 w in erase_at img_ctx lba hdr_reg w

unfoldable pub schem_remove_gpt : ImgCtx → World → Bool × World
schem_remove_gpt img_ctx w =
    let pos = gpt_calc_pos img_ctx in
    let (res, w) = erase_hdr img_ctx pos.hdr_lba_prim w in
    if not res then (false, w) else erase_hdr img_ctx pos.hdr_lba_sec w
