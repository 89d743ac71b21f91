-- ===== src/Examples.antt =====
-- Small disks, schemes and worlds, which the tests share.
pub mod Valid
use partman.Base.{ℕ, [], ◌∷◌, true}
use partman.ImgCtx.{ImgCtx}
use partman.World.{World}
use partman.Guid.{Guid}
use partman.Gpt.{GptHdr, zero_hdr, gpt_hdr_crc_create, gpt_hdr_write}
use partman.Schem.{SchemType, SchemPart, Schem, zero_part}

-- 4 MiB with the default geometry
abbrev pub disk : ImgCtx
disk = record {
  img_name = "disk.img";
  img_fd = 3;
  sec_sz = 512;
  img_sz = 4194304;
  align = 2048;
  hpc = 255;
  spt = 63;
}

abbrev pub some_guid : Guid
some_guid = record {
  time_lo = 0x0FC63DAF;
  time_mid = 0x8483;
  time_hi_ver = 0x4772;
  cl_seq_hi_res = 0x8E;
  cl_seq_lo = 0x79;
  nodes = 0x3D ∷ 0x69 ∷ 0xD8 ∷ 0x47 ∷ 0x7D ∷ 0xE4 ∷ [];
}

-- A partition for either type of scheme.
abbrev pub part_at : ℕ → ℕ → SchemPart
part_at s e = record zero_part {
  type_i = 0x83;
  type_guid = some_guid;
  unique_guid = some_guid;
  start_lba = s;
  end_lba = e;
  attr = 4;
  boot_ind = 0x80;
}

abbrev pub two_parts : Schem
two_parts = record {
  type = SchemType.schem_type_mbr;
  id_i = 77;
  id_guid = some_guid;
  first_usable_lba = 1;
  last_usable_lba = 8191;
  part_cnt = 4;
  table = part_at 1 4095 ∷ part_at 6144 8191 ∷ zero_part ∷ zero_part ∷ [];
  funcs = SchemType.schem_type_mbr;
}

abbrev pub calls_succeed : World
calls_succeed = record {
  image = λ q. 0;
  rng = record { rand_max = 32767; sequence = λ k. 1804; drawn = 0 };
  page_sz = 4096;
  succeeds = λ n. true;
  calls = 0;
}

abbrev pub header : GptHdr
header = record zero_hdr {
  rev = 0x10000;
  hdr_sz = 92;
  my_lba = 1;
  alt_lba = 8191;
  first_usable_lba = 34;
  last_usable_lba = 8158;
  disk_guid = some_guid;
  part_table_lba = 2;
  part_table_entry_cnt = 128;
  part_entry_sz = 128;
}

-- A disk with a primary header of no entries, and no secondary one.
abbrev pub signed : GptHdr
signed = record header {
  part_table_entry_cnt = 0;
  hdr_crc32 = gpt_hdr_crc_create (record header { part_table_entry_cnt = 0 });
}

abbrev pub one_header : World
one_header = record calls_succeed { image = gpt_hdr_write 512 signed (λ q. 0) }
