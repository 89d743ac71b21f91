-- ===== src/Mbr.antt =====
-- libs/libpartman/src/mbr.c: the Master Boot Record.
pub mod Disk
pub mod Schemes
pub mod Save
pub mod Prot
mod Tests
use partman.Base.{
  ℕ, zero, suc, ◌+◌, ◌-◌, ◌*◌, ◌^◌, List, [], ◌∷◌, get_or, set, replicate, Bool, true, false, not,
  ltb, ◌==◌, sub64, u64, if◌then◌else◌,
}
use partman.MemUtils.{
  Memory, write_pu8, write_pu16, write_pu24, write_pu32, read_pu8, read_pu16, read_pu24, read_pu32,
}
use partman.ImgCtx.{ImgCtx, byte_to_lba, lba_to_byte, lba_to_chs}
use partman.Rand.{Rng, rand_32}
use partman.World.{World, call}
use partman.Schem.{
  SchemType, SchemPart, Schem, zero_part, parts, schem_part_is_used_mbr, SchemLoadRes, clear_table,
}

abbrev pub mbr_sz : ℕ
mbr_sz = 512

abbrev pub mbr_boot_sig : ℕ
mbr_boot_sig = 0xAA55

abbrev pub mbr_part_type_prot : ℕ
mbr_part_type_prot = 0xEE

abbrev pub mbr_max_part_cnt : ℕ
mbr_max_part_cnt = 4

pub record MbrPart : Type 0 where
  pub boot_ind : ℕ
  pub start_chs : ℕ
  pub type : ℕ
  pub end_chs : ℕ
  pub start_lba : ℕ
  pub sz_lba : ℕ

pub record Mbr : Type 0 where
  pub disk_sig : ℕ
  pub partitions : List MbrPart

abbrev pub zero_mbr_part : MbrPart
zero_mbr_part = record {
  boot_ind = 0;
  start_chs = 0;
  type = 0;
  end_chs = 0;
  start_lba = 0;
  sz_lba = 0;
}

-- what `memset` leaves
abbrev pub zero_mbr : Mbr
zero_mbr = record { disk_sig = 0; partitions = replicate 4 zero_mbr_part }

abbrev pub partition : Mbr → ℕ → MbrPart
partition mbr i = get_or mbr.partitions i zero_mbr_part

-- the length of the mapping, whole sectors in bytes
abbrev pub mbr_map_len : ImgCtx → ℕ
mbr_map_len img_ctx = lba_to_byte img_ctx (byte_to_lba img_ctx mbr_sz true)

unfoldable pub mbr_part_write : ℕ → MbrPart → Memory → Memory
mbr_part_write p part m =
    let m = write_pu8 p part.boot_ind m in
    let m = write_pu24 (p + 1) part.start_chs m in
    let m = write_pu8 (p + 4) part.type m in
    let m = write_pu24 (p + 5) part.end_chs m in
    let m = write_pu32 (p + 8) part.start_lba m in write_pu32 (p + 12) part.sz_lba m

unfoldable pub mbr_part_read : ℕ → Memory → MbrPart
mbr_part_read p m = record {
  boot_ind = read_pu8 p m;
  start_chs = read_pu24 (p + 1) m;
  type = read_pu8 (p + 4) m;
  end_chs = read_pu24 (p + 5) m;
  start_lba = read_pu32 (p + 8) m;
  sz_lba = read_pu32 (p + 12) m;
}

unfoldable pub mbr_write : ℕ → Mbr → Memory → Memory
mbr_write p mbr m =
    let m = write_pu32 (p + 440) mbr.disk_sig m in
    let m = mbr_part_write (p + 446) (partition mbr 0) m in
    let m = mbr_part_write (p + 462) (partition mbr 1) m in
    let m = mbr_part_write (p + 478) (partition mbr 2) m in
    let m = mbr_part_write (p + 494) (partition mbr 3) m in write_pu16 (p + 510) mbr_boot_sig m

unfoldable pub mbr_read : ℕ → Memory → Mbr
mbr_read p m = record {
  disk_sig = read_pu32 (p + 440) m;
  partitions =
      mbr_part_read (p + 446) m
      ∷ mbr_part_read (p + 462) m
      ∷ mbr_part_read (p + 478) m
      ∷ mbr_part_read (p + 494) m
      ∷ [];
}

unfoldable pub mbr_is_part_used : MbrPart → Bool
mbr_is_part_used part = not (part.type == 0)

unfoldable pub mbr_is_present : ℕ → Memory → Bool
mbr_is_present p m = read_pu16 (p + 510) m == mbr_boot_sig

unfoldable pub mbr_init_schem : Schem → ImgCtx → Schem
mbr_init_schem schem img_ctx =
    let last = sub64 (byte_to_lba img_ctx img_ctx.img_sz false) 1 in
    record schem {
      type = SchemType.schem_type_mbr;
      first_usable_lba = byte_to_lba img_ctx mbr_sz true;
      last_usable_lba = (if ltb 0xFFFFFFFF last then 0xFFFFFFFF else last);
      part_cnt = mbr_max_part_cnt;
      table = clear_table mbr_max_part_cnt schem.table;
    }

-- Map, write, unmap: the mapped region is at offset 0 of the image.
unfoldable pub mbr_save : Mbr → ImgCtx → World → Bool × World
mbr_save mbr img_ctx w =
    let (mapped, w) = call w in
    if not mapped
    then (false, w)
    else let w = record w { image = mbr_write 0 mbr w.image } in
      let (unmapped, w) = call w in if not unmapped then (false, w) else (true, w)

unfoldable pub mbr_load : Mbr → ImgCtx → World → SchemLoadRes × Mbr × World
mbr_load mbr img_ctx w =
    let (mapped, w) = call w in
    if not mapped
    then (SchemLoadRes.schem_load_fatal, mbr, w)
    else let present = mbr_is_present 0 w.image in
      let load_res =
        (if present then SchemLoadRes.schem_load_ok else SchemLoadRes.schem_load_not_found) in
      let mbr = (if present then mbr_read 0 w.image else mbr) in
      let (unmapped, w) = call w in
      if not unmapped then (SchemLoadRes.schem_load_fatal, mbr, w) else (load_res, mbr, w)

unfoldable pub schem_mbr_part_is_prot : SchemPart → Bool
schem_mbr_part_is_prot part = part.type_i == mbr_part_type_prot

-- the body of the loop of `mbr_from_schem`
unfoldable pub mbr_part_of : ImgCtx → SchemPart → MbrPart
mbr_part_of img_ctx part =
    let is_prot = schem_mbr_part_is_prot part in
    record {
      boot_ind = part.boot_ind;
      start_chs = lba_to_chs img_ctx part.start_lba is_prot;
      type = part.type_i;
      end_chs = lba_to_chs img_ctx part.end_lba is_prot;
      start_lba = part.start_lba;
      sz_lba = u64 (sub64 part.end_lba part.start_lba + 1);
    }

unfoldable pub from_parts : ImgCtx → ℕ → List SchemPart → List MbrPart → List MbrPart
from_parts img_ctx i [] partitions = partitions
from_parts img_ctx i (part ∷ rest) partitions = from_parts img_ctx (i + 1) rest (
    if not (schem_part_is_used_mbr part)
    then partitions
    else set partitions i (mbr_part_of img_ctx part))

unfoldable pub mbr_from_schem : Schem → Mbr → ImgCtx → Mbr
mbr_from_schem schem mbr img_ctx = record {
  disk_sig = schem.id_i;
  partitions = from_parts img_ctx 0 (parts schem) mbr.partitions;
}

-- the body of the loop of `mbr_to_schem`, on an entry that `mbr_init_schem` has cleared
unfoldable pub schem_part_of : MbrPart → SchemPart → SchemPart
schem_part_of part_mbr part = record part {
  type_i = part_mbr.type;
  start_lba = part_mbr.start_lba;
  end_lba = sub64 (u64 (part_mbr.start_lba + part_mbr.sz_lba)) 1;
  boot_ind = part_mbr.boot_ind;
}

-- The loop over `i < part_cnt`, by the rounds left.
unfoldable pub to_parts : ℕ → ℕ → Mbr → List SchemPart → List SchemPart
to_parts zero i mbr table = table
to_parts (suc left) i mbr table =
    let part_mbr = partition mbr i in
    to_parts left (i + 1) mbr (
      if not (mbr_is_part_used part_mbr)
      then table
      else set table i (schem_part_of part_mbr (get_or table i zero_part)))

unfoldable pub mbr_to_schem : Schem → Mbr → ImgCtx → Schem
mbr_to_schem schem mbr img_ctx =
    let schem = mbr_init_schem schem img_ctx in
    record schem { id_i = mbr.disk_sig; table = to_parts schem.part_cnt 0 mbr schem.table }

unfoldable pub schem_init_mbr : Schem → ImgCtx → World → Schem × World
schem_init_mbr schem img_ctx w =
    let schem = mbr_init_schem schem img_ctx in
    let (id, rng) = rand_32 w.rng in (record schem { id_i = id }, record w { rng = rng })

-- the three cases of `schem_load_mbr`
unfoldable pub loaded_mbr :
    Schem → ImgCtx → SchemLoadRes × Mbr × World → SchemLoadRes × Schem × World
loaded_mbr schem img_ctx (SchemLoadRes.schem_load_ok, mbr, w) =
    (SchemLoadRes.schem_load_ok, mbr_to_schem schem mbr img_ctx, w)
loaded_mbr schem img_ctx (SchemLoadRes.schem_load_not_found, mbr, w) =
    (SchemLoadRes.schem_load_not_found, schem, w)
loaded_mbr schem img_ctx (SchemLoadRes.schem_load_fatal, mbr, w) =
    (SchemLoadRes.schem_load_fatal, schem, w)

unfoldable pub schem_load_mbr : Schem → ImgCtx → World → SchemLoadRes × Schem × World
schem_load_mbr schem img_ctx w = loaded_mbr schem img_ctx (mbr_load zero_mbr img_ctx w)

unfoldable pub schem_save_mbr : Schem → ImgCtx → World → Bool × World
schem_save_mbr schem img_ctx w = mbr_save (mbr_from_schem schem zero_mbr img_ctx) img_ctx w

unfoldable pub schem_remove_mbr : ImgCtx → World → Bool × World
schem_remove_mbr img_ctx w = mbr_save zero_mbr img_ctx w

unfoldable pub schem_mbr_set_prot : Schem → Schem
schem_mbr_set_prot schem =
    let table = clear_table schem.part_cnt schem.table in
    let part = get_or table 0 zero_part in
    record schem {
      table = set table 0 (record part {
        type_i = mbr_part_type_prot;
        start_lba = schem.first_usable_lba;
        end_lba = schem.last_usable_lba;
        boot_ind = 0;
      });
    }

unfoldable pub schem_mbr_is_prot : Schem → Bool
schem_mbr_is_prot schem = schem_mbr_part_is_prot (get_or schem.table 0 zero_part)
