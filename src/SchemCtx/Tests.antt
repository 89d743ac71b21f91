-- ===== src/SchemCtx/Tests.antt =====
-- Contexts for a small disk.
use partman.Base.{◌≡◌, refl, true, false, some, none}
use partman.Crc32.{
  crc32_init_table, crc32_compute8, crc32_compute16, crc32_compute32, crc32_compute64,
  crc32_finalize,
}
use partman.ImgCtx.{lba_to_byte, byte_to_lba}
use partman.MemUtils.{
  write_pu8, write_pu16, write_pu32, write_pu64, read_pu8, read_pu16, read_pu32, read_pu64,
}
use partman.Guid.{guid_crc_compute, guid_write, guid_read}
use partman.Gpt.{
  gpt_hdr_write, gpt_hdr_read, gpt_is_present, gpt_hdr_crc_create, has_bytes, write_sig,
  gpt_hdr_is_valid, hdr_crc_compute, gpt_table_is_valid, gpt_table_crc_create, gpt_table_read,
  gpt_restore, mirror, copy_entries, crc_sig, crc_entries, read_entries,
}
use partman.Gpt.Region.{sec_mapping, map_secs, unmap_secs, byte_to_page, page_to_byte}
use partman.Gpt.Pair.{
  gpt_pair_load, gpt_load, load_hdr, load_table, leave_load, unmap_both, unmap_if, recover, lba_sec,
}
use partman.Gpt.Scheme.{gpt_to_schem, schem_init_gpt, schem_load_gpt, schem_remove_gpt}
use partman.Examples.{disk, two_parts, calls_succeed, one_header}
use partman.Mbr.{schem_load_mbr, loaded_mbr, mbr_load, mbr_is_present, schem_save_mbr, mbr_save}
use partman.Gpt.Scheme.{
  schem_load_gpt, schem_remove_gpt, erase_hdr, erase_at, loaded_gpt, alloc_tables, gpt_to_schem,
  schem_init_gpt,
}
use partman.SchemCtx.{
  SchemCtx, schem_ctx_init, schem_ctx_load, schem_ctx_new, schem_ctx_new_gpt, schem_ctx_save,
  schem_ctx_reset, schem_ctx_get_type, schem_ctx_schem_alloc, schem_new, schem_get_max_part_cnt,
  call_load, call_init, call_save, call_remove, set_scheme, set_in_img, set_prot, load_one,
  keep_loaded, check_prot, remove_one, save_one, img_ctx_sync,
}
use partman.SchemCtx.Prot.{IsProtected, schem_ctx_load-IsProtected}
use partman.SchemCtx.New.{schem_ctx_new_lem}
use partman.SchemCtx.Flags.{schem_ctx_save_lem}
use partman.Schem.{SchemType}

-- The disk has a GPT and no MBR.
loads : (schem_ctx_load schem_ctx_init disk one_header).0 ≡ true
unfolding gpt_load gpt_pair_load load_hdr load_table leave_load unmap_both unmap_if map_secs
    unmap_secs sec_mapping byte_to_page page_to_byte lba_to_byte byte_to_lba gpt_is_present
    has_bytes gpt_hdr_read gpt_hdr_write write_sig gpt_hdr_is_valid gpt_hdr_crc_create
    hdr_crc_compute crc_sig gpt_table_is_valid gpt_table_crc_create crc_entries gpt_table_read
    read_entries recover lba_sec gpt_restore mirror copy_entries crc32_init_table crc32_compute8
    crc32_compute16 crc32_compute32 crc32_compute64 crc32_finalize guid_crc_compute guid_write
    guid_read write_pu8 write_pu16 write_pu32 write_pu64 read_pu8 read_pu16 read_pu32 read_pu64
    schem_ctx_load schem_ctx_init schem_ctx_reset load_one schem_new schem_get_max_part_cnt
    call_load keep_loaded set_scheme set_in_img check_prot schem_ctx_schem_alloc set_prot
    schem_load_mbr loaded_mbr mbr_load mbr_is_present schem_load_gpt loaded_gpt alloc_tables
    gpt_to_schem
loads = refl

schem_ctx_load-IsProtected_example : IsProtected (schem_ctx_load schem_ctx_init disk one_header).1
schem_ctx_load-IsProtected_example = schem_ctx_load-IsProtected schem_ctx_init disk one_header loads

creates : (schem_ctx_new schem_ctx_init disk SchemType.schem_type_gpt calls_succeed).0 ≡ true
unfolding schem_ctx_new schem_ctx_new_gpt schem_ctx_schem_alloc schem_new set_prot call_init
    schem_init_gpt
creates = refl

schem_ctx_new_lem_example :
    let sc' : SchemCtx =
      (schem_ctx_new schem_ctx_init disk SchemType.schem_type_gpt calls_succeed).1 in
    (schem_ctx_get_type sc' ≡ SchemType.schem_type_gpt)
    × IsProtected sc'
    × (sc'.mbr_in_img ≡ false)
    × (sc'.gpt_in_img ≡ false)
unfolding schem_ctx_init
schem_ctx_new_lem_example =
    schem_ctx_new_lem schem_ctx_init disk SchemType.schem_type_gpt calls_succeed creates

-- An MBR is held, and a GPT was in the image.
abbrev replaced : SchemCtx
replaced = record { mbr = some two_parts; gpt = none; mbr_in_img = false; gpt_in_img = true }

saves : (schem_ctx_save replaced disk calls_succeed).0 ≡ true
unfolding schem_ctx_save remove_one save_one call_save call_remove set_in_img img_ctx_sync
    schem_save_mbr mbr_save schem_remove_gpt erase_hdr erase_at map_secs unmap_secs
saves = refl

schem_ctx_save_lem_example :
    let sc' : SchemCtx = (schem_ctx_save replaced disk calls_succeed).1 in
    (sc'.mbr ≡ some two_parts)
    × (sc'.gpt ≡ none)
    × (sc'.mbr_in_img ≡ true)
    × (sc'.gpt_in_img ≡ false)
schem_ctx_save_lem_example = schem_ctx_save_lem replaced disk calls_succeed saves
