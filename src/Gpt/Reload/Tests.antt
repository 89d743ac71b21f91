-- ===== src/Gpt/Reload/Tests.antt =====
-- A GPT with a table of one entry, and a scheme of two partitions, on a small disk.
use partman.Base.{
  ℕ, ◌<◌, ◌^◌, zero, suc, ◌≡◌, refl, sym, List, ◌∷◌, get_or, get_or-replicate, replicate, true,
  arith,
}
use mathlib.Core.Path.{subst}
use partman.Crc32.{
  crc32_init_table, crc32_compute8, crc32_compute16, crc32_compute32, crc32_compute64,
  crc32_finalize,
}
use partman.ImgCtx.{byte_to_lba}
use partman.Schem.{SchemPart, SchemLoadRes, zero_part}
use partman.Guid.{guid_crc_compute}
use partman.Examples.{header, disk, some_guid, calls_succeed, part_at, two_parts}
use partman.Examples.Valid.{some_guid-IsGuid}
use partman.Gpt.{
  GptHdr, GptPartEnt, Gpt, zero_ent, gpt_hdr_crc_create, hdr_crc_compute, crc_sig,
  gpt_table_crc_create, crc_entries, gpt_part_ent_crc_compute, crc_name,
}
use partman.Gpt.Entry.{IsGptPartEnt, overlapped}
use partman.Gpt.Table.{AreEntries}
use partman.Gpt.Scheme.{zero_gpt, ent_of, schem_save_gpt, schem_load_gpt}
use partman.Gpt.Convert.{kept_by_gpt}
use partman.Gpt.Reload.Places.{IsGptImage}
use partman.Gpt.Reload.Storable.{IsGptSchem}
use partman.Gpt.Reload.Scheme.{schem_load_gpt-schem_save_gpt}
use partman.Gpt.Pair.{gpt_save, gpt_load}
use partman.Gpt.Stored.{IsStorable}
use partman.Gpt.Reload.Entries.{zero_ent-IsGptPartEnt}
use partman.Gpt.Reload.{IsLaidOut, AreLoaded, gpt_load-gpt_save}

abbrev entry : GptPartEnt
entry = record zero_ent {
  type_guid = some_guid;
  unique_guid = some_guid;
  start_lba = 2048;
  end_lba = 4095;
}

abbrev table : List GptPartEnt
table = entry ∷ replicate 127 zero_ent

abbrev prim : GptHdr
prim = record header {
  part_table_entry_cnt = 1;
  part_table_crc32 = 2979425126;
  hdr_crc32 = 2766794322;
}

abbrev sec : GptHdr
sec = record prim { my_lba = 8191; alt_lba = 1; part_table_lba = 8190; hdr_crc32 = 2753474895 }

table_sum : gpt_table_crc_create table 1 ≡ 2979425126
unfolding gpt_table_crc_create crc_entries gpt_part_ent_crc_compute crc_name guid_crc_compute
    crc32_init_table crc32_compute8 crc32_compute16 crc32_compute32 crc32_compute64 crc32_finalize
table_sum = refl

-- The two checksums are those of the code.
sums : (gpt_hdr_crc_create prim ≡ prim.hdr_crc32) × (gpt_hdr_crc_create sec ≡ sec.hdr_crc32)
unfolding gpt_hdr_crc_create hdr_crc_compute crc_sig guid_crc_compute crc32_init_table
    crc32_compute8 crc32_compute16 crc32_compute32 crc32_compute64 crc32_finalize
sums = (refl, refl)

entry_at : (P : GptPartEnt → Type 0) (k : ℕ) → P entry → P zero_ent → P (get_or table k zero_ent)
entry_at P zero h h0 = h
entry_at P (suc k) h h0 = subst P (sym (get_or-replicate 127 k zero_ent)) h0

table-AreEntries : AreEntries table
table-AreEntries k =
    entry_at IsGptPartEnt k
      (record {
        type_guid = some_guid-IsGuid;
        unique_guid = some_guid-IsGuid;
        start_lba = omega arith;
        end_lba = omega arith;
        attr = omega arith;
        name_len = refl;
      })
      zero_ent-IsGptPartEnt

names : (k : ℕ) → overlapped (get_or table k zero_ent).name ≡ (get_or table k zero_ent).name
names k = entry_at (λ (e : GptPartEnt). overlapped e.name ≡ e.name) k refl refl

prim-IsStorable : IsStorable prim table
prim-IsStorable = record {
  valid = record {
    hdr_crc = sym (sums.0);
    table_crc = sym table_sum;
    count = omega arith;
    size = refl;
  };
  header = record {
    rev = omega arith;
    hdr_sz = omega arith;
    hdr_crc32 = omega arith;
    my_lba = omega arith;
    alt_lba = omega arith;
    first_usable_lba = omega arith;
    last_usable_lba = omega arith;
    disk_guid = some_guid-IsGuid;
    part_table_lba = omega arith;
    part_table_entry_cnt = omega arith;
    part_entry_sz = omega arith;
    part_table_crc32 = omega arith;
  };
  entry_sz = refl;
  entries = table-AreEntries;
  names = names;
}

sec-IsStorable : IsStorable sec table
sec-IsStorable = record {
  valid = record {
    hdr_crc = sym (sums.1);
    table_crc = sym table_sum;
    count = omega arith;
    size = refl;
  };
  header = record {
    rev = omega arith;
    hdr_sz = omega arith;
    hdr_crc32 = omega arith;
    my_lba = omega arith;
    alt_lba = omega arith;
    first_usable_lba = omega arith;
    last_usable_lba = omega arith;
    disk_guid = some_guid-IsGuid;
    part_table_lba = omega arith;
    part_table_entry_cnt = omega arith;
    part_entry_sz = omega arith;
    part_table_crc32 = omega arith;
  };
  entry_sz = refl;
  entries = table-AreEntries;
  names = names;
}

abbrev two_copies : Gpt
two_copies = record { hdr_prim = prim; table_prim = table; hdr_sec = sec; table_sec = table }

two_copies-IsLaidOut : IsLaidOut two_copies disk calls_succeed
unfolding byte_to_lba
two_copies-IsLaidOut = record {
  page = omega arith;
  sec_low = omega arith;
  first = refl;
  linked = refl;
  prim_table = omega arith;
  sec_table = omega arith;
  sec_hdr = omega arith;
  prim_fits = omega arith;
  sec_fits = omega arith;
  hdr_fits = omega arith;
}

gpt_load-gpt_save_example :
    let (saved, w1) = gpt_save two_copies disk calls_succeed in
    let (res, got, w2) = gpt_load zero_gpt disk w1 in
    (saved ≡ true)
    × (res ≡ SchemLoadRes.schem_load_ok)
    × (got.hdr_prim ≡ prim)
    × (got.hdr_sec ≡ sec)
    × AreLoaded prim table zero_gpt.table_prim got.table_prim
    × AreLoaded sec table zero_gpt.table_sec got.table_sec
gpt_load-gpt_save_example =
    gpt_load-gpt_save two_copies zero_gpt disk calls_succeed two_copies-IsLaidOut prim-IsStorable
      sec-IsStorable (λ q. omega arith) (λ n. refl) refl refl

-- An entry of the scheme of two partitions, which has room for four.
part_at-All :
    (P : SchemPart → Type 0) (k : ℕ)
    → P (part_at 1 4095)
    → P (part_at 6144 8191)
    → P zero_part
    → P (get_or two_parts.table k zero_part)
part_at-All P zero a b z = a
part_at-All P (suc zero) a b z = b
part_at-All P (suc (suc zero)) a b z = z
part_at-All P (suc (suc (suc zero))) a b z = z
part_at-All P (suc (suc (suc (suc k)))) a b z = z

two_parts-IsGptSchem : IsGptSchem two_parts
unfolding ent_of
two_parts-IsGptSchem = record {
  count = omega arith;
  array = omega arith;
  first_usable_lba = omega arith;
  last_usable_lba = omega arith;
  id_guid = some_guid-IsGuid;
  entries = λ k.
      part_at-All (λ (p : SchemPart). IsGptPartEnt (ent_of p)) k
        (at 1 4095 (omega arith) (omega arith)) (at 6144 8191 (omega arith) (omega arith))
        zero_ent-IsGptPartEnt;
  names = λ k. part_at-All (λ (p : SchemPart). overlapped p.name ≡ p.name) k refl refl refl;
}
  where
    at : (a b : ℕ) → a < 2 ^ 64 → b < 2 ^ 64 → IsGptPartEnt (ent_of (part_at a b))
    at a b ha hb = record {
      type_guid = some_guid-IsGuid;
      unique_guid = some_guid-IsGuid;
      start_lba = ha;
      end_lba = hb;
      attr = omega arith;
      name_len = refl;
    }

disk-IsGptImage : IsGptImage disk calls_succeed
disk-IsGptImage = record {
  page = omega arith;
  sec_sz = omega arith;
  sectors = omega arith;
  fits = omega arith;
}

schem_load_gpt-schem_save_gpt_example :
    let (saved, w1) = schem_save_gpt two_parts disk calls_succeed in
    let (res, back, w2) = schem_load_gpt two_parts disk w1 in
    (saved ≡ true)
    × (res ≡ SchemLoadRes.schem_load_ok)
    × (back.id_guid ≡ some_guid)
    × (back.first_usable_lba ≡ 1)
    × (back.last_usable_lba ≡ 8191)
    × (back.part_cnt ≡ 4)
    × (get_or back.table 1 zero_part ≡ kept_by_gpt (part_at 6144 8191))
schem_load_gpt-schem_save_gpt_example =
    schem_load_gpt-schem_save_gpt two_parts two_parts disk calls_succeed 1 two_parts-IsGptSchem
      disk-IsGptImage (λ q. omega arith) (λ n. refl) (omega arith) (omega arith)
