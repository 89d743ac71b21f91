-- ===== src/Gpt.antt =====
-- libs/libpartman/src/gpt.c, lines 13 to 439: the structures of a GPT, their checksums and their
-- form on the disk. The children model the mapped access, the loading and the saving.
-- A checksum starts from the static table of crc32.c before its first use: the checksum is the same
-- from the table that is filled in, and those are its only two states (Crc32/Laws).
-- A table is the array of 128 entries that `calloc` gives.
pub mod Header
pub mod Checksum
pub mod Region
pub mod Pair
pub mod Recovery
pub mod Restore
pub mod Scheme
pub mod Position
pub mod Convert
pub mod Remove
pub mod Entry
pub mod Table
pub mod Stored
pub mod Saved
pub mod Reload
pub mod Bounds
mod Tests
use partman.Base.{
  ℕ, zero, suc, ◌+◌, ◌-◌, ◌*◌, ◌^◌, List, [], ◌∷◌, map, take, get_or, set, replicate, min, Bool,
  true, false, not, ◌&&◌, ◌==◌, u64, if◌then◌else◌,
}
use partman.MemUtils.{
  Memory, write_pu8, write_pu16, write_pu32, write_pu64, read_pu16, read_pu32, read_pu64,
}
use partman.Crc32.{
  Crc, zero_table, crc32_init, crc32_finalize, crc32_compute8, crc32_compute16, crc32_compute32,
  crc32_compute64,
}
use partman.Guid.{Guid, zero_guid, guid_read, guid_write, guid_crc_compute, guid_is_zero}

-- "EFI PART"
abbrev pub gpt_sig : List ℕ
gpt_sig = 0x45 ∷ 0x46 ∷ 0x49 ∷ 0x20 ∷ 0x50 ∷ 0x41 ∷ 0x52 ∷ 0x54 ∷ []

abbrev pub gpt_hdr_rev : ℕ
gpt_hdr_rev = 0x00010000

abbrev pub gpt_hdr_sz : ℕ
gpt_hdr_sz = 92

abbrev pub gpt_part_ent_sz : ℕ
gpt_part_ent_sz = 128

abbrev pub gpt_max_part_cnt : ℕ
gpt_max_part_cnt = 128

pub record GptPartEnt : Type 0 where
  pub type_guid : Guid
  pub unique_guid : Guid
  pub start_lba : ℕ
  pub end_lba : ℕ
  pub attr : ℕ
  pub name : List ℕ

pub record GptHdr : Type 0 where
  pub rev : ℕ
  pub hdr_sz : ℕ
  pub hdr_crc32 : ℕ
  pub my_lba : ℕ
  pub alt_lba : ℕ
  pub first_usable_lba : ℕ
  pub last_usable_lba : ℕ
  pub disk_guid : Guid
  pub part_table_lba : ℕ
  pub part_table_entry_cnt : ℕ
  pub part_entry_sz : ℕ
  pub part_table_crc32 : ℕ

pub record Gpt : Type 0 where
  pub hdr_prim : GptHdr
  pub table_prim : List GptPartEnt
  pub hdr_sec : GptHdr
  pub table_sec : List GptPartEnt

abbrev pub zero_ent : GptPartEnt
zero_ent = record {
  type_guid = zero_guid;
  unique_guid = zero_guid;
  start_lba = 0;
  end_lba = 0;
  attr = 0;
  name = replicate 36 0;
}

abbrev pub zero_hdr : GptHdr
zero_hdr = record {
  rev = 0;
  hdr_sz = 0;
  hdr_crc32 = 0;
  my_lba = 0;
  alt_lba = 0;
  first_usable_lba = 0;
  last_usable_lba = 0;
  disk_guid = zero_guid;
  part_table_lba = 0;
  part_table_entry_cnt = 0;
  part_entry_sz = 0;
  part_table_crc32 = 0;
}

crc_name : List ℕ → Crc → Crc
crc_name [] c = c
crc_name (x ∷ xs) c = crc_name xs (crc32_compute16 x c)

unfoldable pub gpt_part_ent_crc_compute : GptPartEnt → Crc → Crc
unfolding crc_name
gpt_part_ent_crc_compute entry c =
    let c = guid_crc_compute entry.type_guid c in
    let c = guid_crc_compute entry.unique_guid c in
    let c = crc32_compute64 entry.start_lba c in
    let c = crc32_compute64 entry.end_lba c in
    let c = crc32_compute64 entry.attr c in crc_name entry.name c

abbrev pub crc_start : Crc
crc_start = record { table = zero_table; crc32 = crc32_init }

unfoldable pub crc_entries : List GptPartEnt → Crc → Crc
crc_entries [] c = c
crc_entries (entry ∷ rest) c = crc_entries rest (gpt_part_ent_crc_compute entry c)

unfoldable pub gpt_table_crc_create : List GptPartEnt → ℕ → ℕ
unfolding crc_entries
gpt_table_crc_create table table_len =
    let c = crc_entries (take table_len table) crc_start in crc32_finalize c.crc32

unfoldable pub crc_sig : List ℕ → Crc → Crc
crc_sig [] c = c
crc_sig (x ∷ xs) c = crc_sig xs (crc32_compute8 x c)

unfoldable pub hdr_crc_compute : GptHdr → Crc → Crc
unfolding crc_sig
hdr_crc_compute hdr c =
    let c = crc_sig gpt_sig c in
    let c = crc32_compute32 hdr.rev c in
    let c = crc32_compute32 hdr.hdr_sz c in
    let c = crc32_compute32 0 c in
    let c = crc32_compute32 0 c in
    let c = crc32_compute64 hdr.my_lba c in
    let c = crc32_compute64 hdr.alt_lba c in
    let c = crc32_compute64 hdr.first_usable_lba c in
    let c = crc32_compute64 hdr.last_usable_lba c in
    let c = guid_crc_compute hdr.disk_guid c in
    let c = crc32_compute64 hdr.part_table_lba c in
    let c = crc32_compute32 hdr.part_table_entry_cnt c in
    let c = crc32_compute32 hdr.part_entry_sz c in crc32_compute32 hdr.part_table_crc32 c

unfoldable pub gpt_hdr_crc_create : GptHdr → ℕ
gpt_hdr_crc_create hdr = let c = hdr_crc_compute hdr crc_start in crc32_finalize c.crc32

-- `buf + 56 + i`: two bytes are written at each address, one address after the other
unfoldable pub write_name : ℕ → List ℕ → Memory → Memory
write_name p [] m = m
write_name p (x ∷ xs) m = write_name (p + 1) xs (write_pu16 p x m)

unfoldable pub read_name : ℕ → ℕ → Memory → List ℕ
read_name zero p m = []
read_name (suc left) p m = read_pu16 p m ∷ read_name left (p + 1) m

unfoldable pub gpt_part_ent_write : ℕ → GptPartEnt → Memory → Memory
gpt_part_ent_write p entry m =
    let m = guid_write p entry.type_guid m in
    let m = guid_write (p + 16) entry.unique_guid m in
    let m = write_pu64 (p + 32) entry.start_lba m in
    let m = write_pu64 (p + 40) entry.end_lba m in
    let m = write_pu64 (p + 48) entry.attr m in write_name (p + 56) entry.name m

unfoldable pub gpt_part_ent_read : ℕ → Memory → GptPartEnt
gpt_part_ent_read p m = record {
  type_guid = guid_read p m;
  unique_guid = guid_read (p + 16) m;
  start_lba = read_pu64 (p + 32) m;
  end_lba = read_pu64 (p + 40) m;
  attr = read_pu64 (p + 48) m;
  name = read_name 36 (p + 56) m;
}

-- The loops over the entries, by the rounds left.
unfoldable pub write_entries : ℕ → ℕ → ℕ → List GptPartEnt → ℕ → Memory → Memory
write_entries zero i p table entry_sz m = m
write_entries (suc left) i p table entry_sz m =
    write_entries left (i + 1) p table entry_sz
      (gpt_part_ent_write (p + u64 (i * entry_sz)) (get_or table i zero_ent) m)

unfoldable pub gpt_table_write : ℕ → List GptPartEnt → ℕ → ℕ → Memory → Memory
unfolding write_entries
gpt_table_write p table table_len entry_sz m =
    write_entries (min table_len gpt_max_part_cnt) 0 p table entry_sz m

unfoldable pub read_entries : ℕ → ℕ → ℕ → List GptPartEnt → ℕ → Memory → List GptPartEnt
read_entries zero i p table entry_sz m = table
read_entries (suc left) i p table entry_sz m =
    read_entries left (i + 1) p (set table i (gpt_part_ent_read (p + u64 (i * entry_sz)) m))
      entry_sz m

unfoldable pub gpt_table_read : ℕ → List GptPartEnt → ℕ → ℕ → Memory → List GptPartEnt
unfolding read_entries
gpt_table_read p table table_len entry_sz m =
    read_entries (min table_len gpt_max_part_cnt) 0 p table entry_sz m

unfoldable pub write_sig : ℕ → List ℕ → Memory → Memory
write_sig p [] m = m
write_sig p (x ∷ xs) m = write_sig (p + 1) xs (write_pu8 p x m)

unfoldable pub gpt_hdr_erase_sig : ℕ → Memory → Memory
gpt_hdr_erase_sig p m = write_sig p (replicate 8 0) m

unfoldable pub gpt_hdr_write : ℕ → GptHdr → Memory → Memory
gpt_hdr_write p hdr m =
    let m = write_sig p gpt_sig m in
    let m = write_pu32 (p + 8) hdr.rev m in
    let m = write_pu32 (p + 12) hdr.hdr_sz m in
    let m = write_pu32 (p + 16) hdr.hdr_crc32 m in
    let m = write_pu32 (p + 20) 0 m in
    let m = write_pu64 (p + 24) hdr.my_lba m in
    let m = write_pu64 (p + 32) hdr.alt_lba m in
    let m = write_pu64 (p + 40) hdr.first_usable_lba m in
    let m = write_pu64 (p + 48) hdr.last_usable_lba m in
    let m = guid_write (p + 56) hdr.disk_guid m in
    let m = write_pu64 (p + 72) hdr.part_table_lba m in
    let m = write_pu32 (p + 80) hdr.part_table_entry_cnt m in
    let m = write_pu32 (p + 84) hdr.part_entry_sz m in write_pu32 (p + 88) hdr.part_table_crc32 m

unfoldable pub gpt_hdr_read : ℕ → Memory → GptHdr
gpt_hdr_read p m = record {
  rev = read_pu32 (p + 8) m;
  hdr_sz = read_pu32 (p + 12) m;
  hdr_crc32 = read_pu32 (p + 16) m;
  my_lba = read_pu64 (p + 24) m;
  alt_lba = read_pu64 (p + 32) m;
  first_usable_lba = read_pu64 (p + 40) m;
  last_usable_lba = read_pu64 (p + 48) m;
  disk_guid = guid_read (p + 56) m;
  part_table_lba = read_pu64 (p + 72) m;
  part_table_entry_cnt = read_pu32 (p + 80) m;
  part_entry_sz = read_pu32 (p + 84) m;
  part_table_crc32 = read_pu32 (p + 88) m;
}

-- The loop that copies entries, by the rounds left.
unfoldable pub copy_entries : ℕ → ℕ → List GptPartEnt → List GptPartEnt → List GptPartEnt
copy_entries zero i dst src = dst
copy_entries (suc left) i dst src =
    copy_entries left (i + 1) (set dst i (get_or src i zero_ent)) src

-- the header that is restored from `hdr_src`
unfoldable pub mirror : GptHdr → ℕ → GptHdr
mirror hdr_src table_dst_lba =
    let hdr_dst = record hdr_src {
      my_lba = hdr_src.alt_lba;
      alt_lba = hdr_src.my_lba;
      part_table_lba = table_dst_lba;
    } in
    record hdr_dst { hdr_crc32 = gpt_hdr_crc_create hdr_dst }

unfoldable pub gpt_restore : Gpt → ℕ → Bool → Gpt
gpt_restore gpt table_dst_lba true = record gpt {
  hdr_prim = mirror gpt.hdr_sec table_dst_lba;
  table_prim = copy_entries gpt.hdr_sec.part_table_entry_cnt 0 gpt.table_prim gpt.table_sec;
}
gpt_restore gpt table_dst_lba false = record gpt {
  hdr_sec = mirror gpt.hdr_prim table_dst_lba;
  table_sec = copy_entries gpt.hdr_prim.part_table_entry_cnt 0 gpt.table_sec gpt.table_prim;
}

unfoldable pub gpt_table_is_valid : GptHdr → List GptPartEnt → Bool
gpt_table_is_valid hdr table =
    hdr.part_table_crc32 == gpt_table_crc_create table hdr.part_table_entry_cnt

unfoldable pub gpt_hdr_is_valid : GptHdr → ℕ → Bool
gpt_hdr_is_valid hdr hdr_lba = (hdr.hdr_crc32 == gpt_hdr_crc_create hdr) && (hdr.my_lba == hdr_lba)

unfoldable pub gpt_is_part_used : GptPartEnt → Bool
gpt_is_part_used part = not (guid_is_zero part.type_guid)

-- `strncmp` with a signature that holds no 0 compares the bytes.
unfoldable pub has_bytes : ℕ → List ℕ → Memory → Bool
has_bytes p [] m = true
has_bytes p (x ∷ xs) m = (m p == x) && has_bytes (p + 1) xs m

unfoldable pub gpt_is_present : ℕ → Memory → Bool
gpt_is_present p m = has_bytes p gpt_sig m
