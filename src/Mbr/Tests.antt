-- ===== src/Mbr/Tests.antt =====
-- The MBR of a disk with two partitions.
use partman.Base.{ℕ, ◌≤◌, ◌<◌, ◌≡◌, refl, ◌⊎◌, arith, [], ◌∷◌, true}
use partman.Examples.{disk, two_parts, part_at, calls_succeed}
use partman.MemUtils.{IsBytes}
use partman.Schem.{SchemLoadRes, zero_part, schem_part_is_used_mbr}
use partman.Mbr.{
  Mbr, MbrPart, zero_mbr_part, mbr_write, mbr_read, mbr_is_present, mbr_init_schem, schem_save_mbr,
  schem_load_mbr, schem_remove_mbr,
}
use partman.Mbr.Disk.{IsMbrPart, mbr_read-mbr_write}
use partman.Mbr.Schemes.{Fits, kept}
use partman.Mbr.Save.{schem_load_mbr-schem_save_mbr, schem_load_mbr-schem_remove_mbr}

linux_part : MbrPart
linux_part = record {
  boot_ind = 0x80;
  start_chs = 0x010100;
  type = 0x83;
  end_chs = 0x3F41FE;
  start_lba = 2048;
  sz_lba = 2048;
}

linux_part-IsMbrPart : IsMbrPart linux_part
unfolding linux_part
linux_part-IsMbrPart = record {
  boot_ind = omega arith;
  start_chs = omega arith;
  type = omega arith;
  end_chs = omega arith;
  start_lba = omega arith;
  sz_lba = omega arith;
}

zero-IsMbrPart : IsMbrPart zero_mbr_part
zero-IsMbrPart = record {
  boot_ind = omega arith;
  start_chs = omega arith;
  type = omega arith;
  end_chs = omega arith;
  start_lba = omega arith;
  sz_lba = omega arith;
}

mbr_read-mbr_write_example :
    let mbr : Mbr = record {
      disk_sig = 77;
      partitions = linux_part ∷ zero_mbr_part ∷ zero_mbr_part ∷ zero_mbr_part ∷ [];
    } in
    let m' = mbr_write 0 mbr (λ q. 0) in
    (mbr_read 0 m' ≡ mbr)
    × (mbr_is_present 0 m' ≡ true)
    × IsBytes m'
    × ((q : ℕ) → (q < 440) ⊎ (((444 ≤ q) × (q < 446)) ⊎ (512 ≤ q)) → m' q ≡ 0)
mbr_read-mbr_write_example =
    mbr_read-mbr_write 0 77 linux_part zero_mbr_part zero_mbr_part zero_mbr_part (λ q. 0)
      (λ q. omega arith) (omega arith) linux_part-IsMbrPart zero-IsMbrPart zero-IsMbrPart
      zero-IsMbrPart

first-Fits : Fits (part_at 1 4095)
first-Fits = record {
  type = omega arith;
  boot = omega arith;
  start_pos = omega arith;
  ordered = omega arith;
  end = omega arith;
}

second-Fits : Fits (part_at 6144 8191)
second-Fits = record {
  type = omega arith;
  boot = omega arith;
  start_pos = omega arith;
  ordered = omega arith;
  end = omega arith;
}

unused-Fits : schem_part_is_used_mbr zero_part ≡ true → Fits zero_part
unfolding schem_part_is_used_mbr
unused-Fits u = absurd (ground arith)

schem_load_mbr-schem_save_mbr_example :
    let (saved, w1) = schem_save_mbr two_parts disk calls_succeed in
    let (res, loaded, w2) = schem_load_mbr two_parts disk w1 in
    (saved ≡ true)
    × (res ≡ SchemLoadRes.schem_load_ok)
    × (loaded ≡ record (mbr_init_schem two_parts disk) {
      id_i = 77;
      table =
          kept (part_at 1 4095) ∷ kept (part_at 6144 8191) ∷ kept zero_part ∷ kept zero_part ∷ [];
    })
    × ((k : ℕ) → (k < 440) ⊎ (((444 ≤ k) × (k < 446)) ⊎ (512 ≤ k)) → w2.image k ≡ 0)
schem_load_mbr-schem_save_mbr_example =
    schem_load_mbr-schem_save_mbr disk calls_succeed two_parts two_parts (part_at 1 4095)
      (part_at 6144 8191) zero_part zero_part (part_at 1 4095) (part_at 6144 8191) zero_part
      zero_part (λ q. omega arith) (λ n. refl) (omega arith) refl refl (λ u. first-Fits)
      (λ u. second-Fits) unused-Fits unused-Fits

schem_load_mbr-schem_remove_mbr_example :
    let (removed, w1) = schem_remove_mbr disk calls_succeed in
    let (res, loaded, w2) = schem_load_mbr two_parts disk w1 in
    (removed ≡ true)
    × (res ≡ SchemLoadRes.schem_load_ok)
    × (loaded ≡ record (mbr_init_schem two_parts disk) {
      id_i = 0;
      table = zero_part ∷ zero_part ∷ zero_part ∷ zero_part ∷ [];
    })
schem_load_mbr-schem_remove_mbr_example =
    schem_load_mbr-schem_remove_mbr disk calls_succeed two_parts (part_at 1 4095)
      (part_at 6144 8191) zero_part zero_part (λ q. omega arith) (λ n. refl) refl
