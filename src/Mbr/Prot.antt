-- ===== src/Mbr/Prot.antt =====
-- `schem_mbr_set_prot`, and the array of an MBR scheme, whose length no operation changes.
use partman.Base.{
  ◌<◌, ℕ, zero, suc, ◌+◌, ◌≤◌, List, length, length-set, get_or-set_self, get_or, get_or-set_ne,
  ◌≡◌, refl, ap, ◌∙◌, arith, true, ◌&&◌, Bool-cases, inl, inr,
}
use partman.ImgCtx.{ImgCtx}
use partman.World.{World}
use partman.Schem.{SchemPart, Schem, zero_part, clear_table, length-clear_table, get_or-clear_table}
use partman.Mbr.{
  Mbr, to_parts, partition, mbr_init_schem, mbr_to_schem, mbr_is_part_used, schem_init_mbr,
  schem_load_mbr, schem_mbr_set_prot, schem_mbr_is_prot, mbr_part_type_prot, schem_mbr_part_is_prot,
  mbr_read, mbr_is_present,
}
use partman.Mbr.Save.{schem_load_mbr_lem}

pub set_prot-is_prot :
    (s : Schem) → 1 ≤ length s.table → schem_mbr_is_prot (schem_mbr_set_prot s) ≡ true
unfolding schem_mbr_is_prot schem_mbr_set_prot schem_mbr_part_is_prot
set_prot-is_prot s h =
    rw
      (get_or-set_self (clear_table s.part_cnt s.table) 0 _ zero_part
        (omega (arith, length-clear_table s.part_cnt s.table)))
      refl

-- A scheme whose array is not empty is made protective by one entry of that type, which covers the usable
-- sectors exactly; all other entries are cleared.
pub schem_mbr_set_prot_lem :
    (s : Schem) (i : ℕ)
    → 1 ≤ length s.table
    → 1 ≤ i
    → i < s.part_cnt
    → let s' : Schem = schem_mbr_set_prot s in
      let part : SchemPart = get_or s'.table 0 zero_part in
      (schem_mbr_is_prot s' ≡ true)
      × (part.start_lba ≡ s.first_usable_lba)
      × (part.end_lba ≡ s.last_usable_lba)
      × (get_or s'.table i zero_part ≡ zero_part)
unfolding schem_mbr_set_prot
schem_mbr_set_prot_lem s i h hi hc = (
  set_prot-is_prot s h,
  ap (λ (p : SchemPart). p.start_lba) first_entry,
  ap (λ (p : SchemPart). p.end_lba) first_entry,
  get_or-set_ne cleared 0 i _ zero_part (λ e. omega arith)
      ∙ get_or-clear_table s.part_cnt i s.table hc,
)
  where
    cleared : List SchemPart
    cleared = clear_table s.part_cnt s.table

    first_entry :
        get_or (schem_mbr_set_prot s).table 0 zero_part ≡ record (get_or cleared 0 zero_part) {
          type_i = mbr_part_type_prot;
          start_lba = s.first_usable_lba;
          end_lba = s.last_usable_lba;
          boot_ind = 0;
        }
    first_entry =
        get_or-set_self cleared 0 _ zero_part
          (omega (arith, h, length-clear_table s.part_cnt s.table))

length-to_parts :
    (left i : ℕ) (mbr : Mbr) (t : List SchemPart) → length (to_parts left i mbr t) ≡ length t
unfolding to_parts
length-to_parts zero i mbr t = refl
length-to_parts (suc left) i mbr t = elim (Bool-cases (mbr_is_part_used (partition mbr i))) [
  | inl u ↦ rw u (length-to_parts left (i + 1) mbr _ ∙ length-set t i _)
  | inr u ↦ rw u (length-to_parts left (i + 1) mbr t)
]

length-mbr_to_schem :
    (s : Schem) (mbr : Mbr) (ctx : ImgCtx) → length (mbr_to_schem s mbr ctx).table ≡ length s.table
unfolding mbr_to_schem mbr_init_schem
length-mbr_to_schem s mbr ctx =
    length-to_parts 4 0 mbr (clear_table 4 s.table) ∙ length-clear_table 4 s.table

pub length-schem_load_mbr :
    (s : Schem) (ctx : ImgCtx) (w : World)
    → length (schem_load_mbr s ctx w).1.table ≡ length s.table
length-schem_load_mbr s ctx w =
    ap (λ (t : Schem). length t.table) (schem_load_mbr_lem s ctx w).2
    ∙ elim (Bool-cases
        (w.succeeds w.calls && w.succeeds (w.calls + 1) && mbr_is_present 0 w.image)) [
          | inl b ↦ rw b (length-mbr_to_schem s (mbr_read 0 w.image) ctx)
          | inr b ↦ rw b refl
        ]

pub length-schem_init_mbr :
    (s : Schem) (ctx : ImgCtx) (w : World)
    → length (schem_init_mbr s ctx w).0.table ≡ length s.table
unfolding schem_init_mbr mbr_init_schem
length-schem_init_mbr s ctx w = length-clear_table 4 s.table
