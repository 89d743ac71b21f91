-- ===== src/Gpt/Tests.antt =====
-- A GPT on a small disk.
use partman.Base.{ℕ, ◌+◌, ◌*◌, ◌≤◌, ◌<◌, ◌≡◌, refl, ◌⊎◌, arith, take, get_or, replicate, ◌∷◌, true}
use partman.Crc32.{
  crc32_init_table, crc32_compute8, crc32_compute16, crc32_compute32, crc32_compute64,
  crc32_finalize,
}
use partman.ImgCtx.{lba_to_byte, byte_to_lba}
use partman.Examples.{header, one_header, disk, two_parts, part_at, calls_succeed, some_guid}
use partman.Examples.Valid.{some_guid-IsGuid}
use partman.MemUtils.{
  IsBytes, write_pu8, write_pu16, write_pu32, write_pu64, read_pu8, read_pu16, read_pu32, read_pu64,
}
use partman.MemUtils.Region.{region}
use partman.Crc32.Reference.{checksum}
use partman.Schem.{Schem, SchemLoadRes, zero_part}
use partman.Guid.{guid_crc_compute, guid_write, guid_read}
use partman.Gpt.{
  GptPartEnt, gpt_part_ent_read, gpt_part_ent_write, Gpt, zero_hdr, gpt_hdr_write, gpt_hdr_read,
  gpt_is_present, gpt_hdr_crc_create, has_bytes, write_sig, gpt_hdr_is_valid, hdr_crc_compute,
  gpt_table_is_valid, gpt_table_crc_create, gpt_table_read, gpt_restore, mirror, copy_entries,
  crc_sig, crc_entries, read_entries,
}
use partman.Gpt.Entry.{IsGptPartEnt, overlapped, gpt_part_ent_read-gpt_part_ent_write}
use partman.Gpt.Header.{IsGptHdr, gpt_hdr_read-gpt_hdr_write}
use partman.Gpt.Checksum.{gpt_hdr_crc_create_lem}
use partman.Gpt.Region.{
  Mapping, sec_mapping, unmap_range, unmap_range_lem, map_secs, unmap_secs, byte_to_page,
  page_to_byte,
}
use partman.Gpt.Pair.{
  PairLoadRes, Pair, gpt_pair_load, gpt_load, load_hdr, load_table, leave_load, unmap_both,
  unmap_if, recover, lba_sec,
}
use partman.Gpt.Recovery.{IsValidPair, gpt_pair_load_lem}
use partman.Gpt.Restore.{IsConsistent, gpt_load-IsConsistent}
use partman.Gpt.Scheme.{
  Pos, gpt_calc_pos, gpt_from_schem, gpt_to_schem, schem_init_gpt, schem_load_gpt, schem_remove_gpt,
  zero_gpt,
}
use partman.Gpt.Position.{schem_init_gpt_lem}
use partman.Gpt.Convert.{kept_by_gpt, gpt_from_schem-IsConsistent, gpt_to_schem-gpt_from_schem}
use partman.Gpt.Remove.{schem_load_gpt-schem_remove_gpt}

header-IsGptHdr : IsGptHdr header
header-IsGptHdr = record {
  rev = omega arith;
  hdr_sz = omega arith;
  hdr_crc32 = omega arith;
  my_lba = omega arith;
  alt_lba = omega arith;
  first_usable_lba = omega arith;
  last_usable_lba = omega arith;
  disk_guid = some_guid-IsGuid;
  part_table_lba = omega arith;
  part_table_entry_cnt = omega arith;
  part_entry_sz = omega arith;
  part_table_crc32 = omega arith;
}

gpt_hdr_read-gpt_hdr_write_example :
    let m' = gpt_hdr_write 512 header (λ q. 0) in
    (gpt_hdr_read 512 m' ≡ header)
    × (gpt_is_present 512 m' ≡ true)
    × IsBytes m'
    × ((q : ℕ) → (q < 512) ⊎ (512 + 92 ≤ q) → m' q ≡ 0)
gpt_hdr_read-gpt_hdr_write_example =
    gpt_hdr_read-gpt_hdr_write 512 header (λ q. 0) (λ q. omega arith) header-IsGptHdr

gpt_hdr_crc_create_lem_example :
    gpt_hdr_crc_create header
    ≡ checksum (region 92 512 (gpt_hdr_write 512 (record header { hdr_crc32 = 0 }) (λ q. 0)))
gpt_hdr_crc_create_lem_example = gpt_hdr_crc_create_lem 512 header (λ q. 0) some_guid-IsGuid

unmap_range_lem_example :
    let r : Mapping = sec_mapping 4096 disk 8191 1 in
    let range = unmap_range 4096 r.reg disk 8191 1 in
    (range.0 ≡ r.offset) × (range.1 * 4096 ≡ r.len)
unmap_range_lem_example = unmap_range_lem 4096 disk 8191 1 (omega arith) (omega arith)

abbrev empty_pair : Pair
empty_pair = record { hdr = zero_hdr; table = zero_gpt.table_prim }

loads : (gpt_load zero_gpt disk one_header).0 ≡ SchemLoadRes.schem_load_ok
unfolding gpt_load gpt_pair_load load_hdr load_table leave_load unmap_both unmap_if map_secs
    unmap_secs sec_mapping byte_to_page page_to_byte lba_to_byte byte_to_lba gpt_is_present
    has_bytes gpt_hdr_read gpt_hdr_write write_sig gpt_hdr_is_valid gpt_hdr_crc_create
    hdr_crc_compute crc_sig gpt_table_is_valid gpt_table_crc_create crc_entries gpt_table_read
    read_entries recover lba_sec gpt_restore mirror copy_entries crc32_init_table crc32_compute8
    crc32_compute16 crc32_compute32 crc32_compute64 crc32_finalize guid_crc_compute guid_write
    guid_read write_pu8 write_pu16 write_pu32 write_pu64 read_pu8 read_pu16 read_pu32 read_pu64
loads = refl

loads_pair : (gpt_pair_load empty_pair disk 1 one_header).0 ≡ PairLoadRes.gpt_pair_load_ok
unfolding gpt_load gpt_pair_load load_hdr load_table leave_load unmap_both unmap_if map_secs
    unmap_secs sec_mapping byte_to_page page_to_byte lba_to_byte byte_to_lba gpt_is_present
    has_bytes gpt_hdr_read gpt_hdr_write write_sig gpt_hdr_is_valid gpt_hdr_crc_create
    hdr_crc_compute crc_sig gpt_table_is_valid gpt_table_crc_create crc_entries gpt_table_read
    read_entries recover lba_sec gpt_restore mirror copy_entries crc32_init_table crc32_compute8
    crc32_compute16 crc32_compute32 crc32_compute64 crc32_finalize guid_crc_compute guid_write
    guid_read write_pu8 write_pu16 write_pu32 write_pu64 read_pu8 read_pu16 read_pu32 read_pu64
loads_pair = refl

gpt_pair_load_lem_example :
    let (res, pair', w') = gpt_pair_load empty_pair disk 1 one_header in
    (w'.image ≡ one_header.image) × IsValidPair pair'.hdr pair'.table × (pair'.hdr.my_lba ≡ 1)
gpt_pair_load_lem_example = gpt_pair_load_lem empty_pair disk 1 one_header refl loads_pair

gpt_load-IsConsistent_example :
    ((gpt_load zero_gpt disk one_header).2.image ≡ one_header.image)
    × IsConsistent (gpt_load zero_gpt disk one_header).1
gpt_load-IsConsistent_example = gpt_load-IsConsistent zero_gpt disk one_header refl refl loads

schem_init_gpt_lem_example :
    let pos : Pos = gpt_calc_pos disk in
    let s : Schem = (schem_init_gpt two_parts disk calls_succeed).0 in
    (pos.hdr_lba_prim + 1 ≡ pos.table_lba_prim)
    × (pos.table_lba_prim + pos.table_sz ≡ s.first_usable_lba)
    × (s.first_usable_lba ≤ s.last_usable_lba)
    × (s.last_usable_lba + 1 ≡ pos.table_lba_sec)
    × (pos.table_lba_sec + pos.table_sz ≡ pos.hdr_lba_sec)
    × (pos.hdr_lba_sec + 1 ≡ 8192)
    × (16384 ≤ pos.table_sz * 512)
    × (pos.table_sz * 512 < 16384 + 512)
schem_init_gpt_lem_example =
    schem_init_gpt_lem two_parts disk calls_succeed (omega arith) (omega arith) (omega arith)

gpt_from_schem-IsConsistent_example :
    let gpt : Gpt = gpt_from_schem two_parts zero_gpt disk in
    IsConsistent gpt × (take 4 gpt.table_sec ≡ take 4 gpt.table_prim)
gpt_from_schem-IsConsistent_example = gpt_from_schem-IsConsistent two_parts disk (omega arith)

gpt_to_schem-gpt_from_schem_example :
    let back : Schem = gpt_to_schem two_parts (gpt_from_schem two_parts zero_gpt disk) in
    (back.id_guid ≡ some_guid)
    × (back.first_usable_lba ≡ 1)
    × (back.last_usable_lba ≡ 8191)
    × (back.part_cnt ≡ 4)
    × (get_or back.table 1 zero_part ≡ kept_by_gpt (part_at 6144 8191))
gpt_to_schem-gpt_from_schem_example =
    gpt_to_schem-gpt_from_schem two_parts two_parts disk 1 (omega arith) (omega arith) (omega arith)
      (omega arith)

schem_load_gpt-schem_remove_gpt_example :
    let (removed, w1) = schem_remove_gpt disk calls_succeed in
    let (res, schem', w2) = schem_load_gpt two_parts disk w1 in
    (removed ≡ true)
    × (res ≡ SchemLoadRes.schem_load_not_found)
    × (schem' ≡ two_parts)
    × (w2.image ≡ w1.image)
schem_load_gpt-schem_remove_gpt_example =
    schem_load_gpt-schem_remove_gpt two_parts disk calls_succeed (λ n. refl)

abbrev entry : GptPartEnt
entry = record {
  type_guid = some_guid;
  unique_guid = some_guid;
  start_lba = 2048;
  end_lba = 4095;
  attr = 0;
  name = 0x4C ∷ 0x69 ∷ replicate 34 0x41;
}

entry-IsGptPartEnt : IsGptPartEnt entry
entry-IsGptPartEnt = record {
  type_guid = some_guid-IsGuid;
  unique_guid = some_guid-IsGuid;
  start_lba = omega arith;
  end_lba = omega arith;
  attr = omega arith;
  name_len = refl;
}

gpt_part_ent_read-gpt_part_ent_write_example :
    gpt_part_ent_read 1024 (gpt_part_ent_write 1024 entry (λ q. 0))
    ≡ record entry { name = overlapped entry.name }
gpt_part_ent_read-gpt_part_ent_write_example =
    gpt_part_ent_read-gpt_part_ent_write 1024 entry (λ q. 0) (λ q. omega arith) entry-IsGptPartEnt

-- The name is not what was written.
name_lost : get_or (overlapped entry.name) 0 0 ≡ 0x694C
name_lost = refl
