-- ===== src/Mbr/Schemes.antt =====
-- The conversions between a scheme of four entries and the MBR that is written for it.
use partman.Base.{
  ℕ, ◌+◌, ◌*◌, ◌/◌, ◌%◌, ◌^◌, ◌≤◌, ◌<◌, [], ◌∷◌, map, ◌≡◌, refl, sym, ap, ◌∙◌, Bool, true, false,
  not, arith, ◌==◌, if◌then◌else◌, Bool-cases, inl, inr, u64, sub64,
}
use partman.Bits.Fields.{bit_or-lt, bit_and_low}
use partman.ImgCtx.{ImgCtx, lba_to_chs, chs_tuple_to_int, chs_of_lba, max_lba}
use partman.Schem.{SchemPart, Schem, zero_part, parts, schem_part_is_used_mbr}
use partman.Mbr.{
  MbrPart, zero_mbr_part, zero_mbr, mbr_is_part_used, mbr_part_of, from_parts, mbr_from_schem,
  schem_part_of, to_parts, mbr_to_schem, mbr_init_schem,
}
use partman.Mbr.Disk.{IsMbrPart}

-- A used entry that the MBR can hold.
pub record Fits (part : SchemPart) : Type 0 where
  pub type : part.type_i < 2 ^ 8
  pub boot : part.boot_ind < 2 ^ 8
  pub start_pos : 1 ≤ part.start_lba
  pub ordered : part.start_lba ≤ part.end_lba
  pub end : part.end_lba < 2 ^ 32

-- What the MBR keeps of an entry: an unused one is cleared, and of a used one only the type, the
-- bounds and the boot indicator are kept.
unfoldable pub kept : SchemPart → SchemPart
kept part =
    if schem_part_is_used_mbr part
    then record zero_part {
      type_i = part.type_i;
      start_lba = part.start_lba;
      end_lba = part.end_lba;
      boot_ind = part.boot_ind;
    }
    else zero_part

module _ (ctx : ImgCtx) where
  -- The entry that is written for `part`.
  unfoldable pub entry : SchemPart → MbrPart
  entry part = if schem_part_is_used_mbr part then mbr_part_of ctx part else zero_mbr_part

  pub from_parts_four :
      (a b c d : SchemPart)
      → from_parts ctx 0 (a ∷ b ∷ c ∷ d ∷ []) zero_mbr.partitions
        ≡ entry a ∷ entry b ∷ entry c ∷ entry d ∷ []
  unfolding from_parts entry
  from_parts_four a b c d = ground arith

  pub mbr_from_schem_four :
      (schem : Schem) (a b c d : SchemPart)
      → parts schem ≡ a ∷ b ∷ c ∷ d ∷ []
      → mbr_from_schem schem zero_mbr ctx
        ≡ record { disk_sig = schem.id_i; partitions = entry a ∷ entry b ∷ entry c ∷ entry d ∷ [] }
  unfolding mbr_from_schem
  mbr_from_schem_four schem a b c d e = rw (e, from_parts_four a b c d) refl

  chs_tuple_to_int-lt : (c h s : ℕ) → chs_tuple_to_int c h s < 2 ^ 24
  unfolding chs_tuple_to_int
  chs_tuple_to_int-lt c h s =
      rw (bit_and_low 8 c, bit_and_low 2 (c / 2 ^ 8), bit_and_low 6 s, bit_and_low 8 h)
        (bit_or-lt 24 _ (h % 256)
          (bit_or-lt 24 _ (s % 64 * 256)
            (bit_or-lt 24 (c % 256 * 2 ^ 16) (c / 256 % 4 * 2 ^ 14) (omega arith) (omega arith))
            (omega arith))
          (omega arith))

  lba_to_chs-lt : (lba : ℕ) (prot : Bool) → lba_to_chs ctx lba prot < 2 ^ 24
  unfolding lba_to_chs chs_of_lba
  lba_to_chs-lt lba true = ground (
    arith,
    chs_tuple_to_int-lt 1023 255 63,
    chs_tuple_to_int-lt (lba / (ctx.hpc * ctx.spt)) (lba / ctx.spt % ctx.hpc) (lba % ctx.spt + 1),
  )
  lba_to_chs-lt lba false = ground (
    arith,
    chs_tuple_to_int-lt (max_lba ctx / (ctx.hpc * ctx.spt)) (max_lba ctx / ctx.spt % ctx.hpc)
        (max_lba ctx % ctx.spt + 1),
    chs_tuple_to_int-lt (lba / (ctx.hpc * ctx.spt)) (lba / ctx.spt % ctx.hpc) (lba % ctx.spt + 1),
  )

  sectors_back :
      (a b : ℕ) → 1 ≤ a → a ≤ b → b < 2 ^ 32 → sub64 (u64 (a + u64 (sub64 b a + 1))) 1 ≡ b
  sectors_back a b h1 h2 h3 = omega arith

  -- One entry there and back.
  pub schem_part_of-entry :
      (part : SchemPart)
      → (schem_part_is_used_mbr part ≡ true → Fits part)
      → (if not (mbr_is_part_used (entry part))
          then zero_part
          else schem_part_of (entry part) zero_part)
        ≡ kept part
  unfolding kept entry mbr_part_of mbr_is_part_used schem_part_is_used_mbr schem_part_of
  schem_part_of-entry part fits = elim (Bool-cases (part.type_i == 0)) [
    | inl e ↦ rw e refl
    | inr e ↦
        let f : Fits part = fits (rw e refl) in
        ap
          (λ (u : Bool).
            if not (mbr_is_part_used (if not u then mbr_part_of ctx part else zero_mbr_part))
            then zero_part
            else schem_part_of (if not u then mbr_part_of ctx part else zero_mbr_part) zero_part)
          e
        ∙ ap
            (λ (u : Bool).
              if not (not u) then zero_part else schem_part_of (mbr_part_of ctx part) zero_part)
            e
        ∙ ap
            (λ (l : ℕ). record zero_part {
              type_i = part.type_i;
              start_lba = part.start_lba;
              end_lba = l;
              boot_ind = part.boot_ind;
            })
            (sectors_back part.start_lba part.end_lba f.start_pos f.ordered f.end)
        ∙ sym (
            ap
              (λ (u : Bool).
                if not u
                then record zero_part {
                  type_i = part.type_i;
                  start_lba = part.start_lba;
                  end_lba = part.end_lba;
                  boot_ind = part.boot_ind;
                }
                else zero_part)
              e)
  ]

  pub entry-IsMbrPart :
      (part : SchemPart) → (schem_part_is_used_mbr part ≡ true → Fits part) → IsMbrPart (entry part)
  unfolding entry schem_part_is_used_mbr mbr_part_of
  entry-IsMbrPart part fits = elim (Bool-cases (part.type_i == 0)) [
    | inl e ↦ rw e (record {
      boot_ind = omega arith;
      start_chs = omega arith;
      type = omega arith;
      end_chs = omega arith;
      start_lba = omega arith;
      sz_lba = omega arith;
    })
    | inr e ↦
        let f : Fits part = fits (rw e refl) in
        let h1 : 1 ≤ part.start_lba = f.start_pos in
        let h2 : part.start_lba ≤ part.end_lba = f.ordered in
        let h3 : part.end_lba < 2 ^ 32 = f.end in
        rw e (record {
          boot_ind = f.boot;
          start_chs = lba_to_chs-lt _ _;
          type = f.type;
          end_chs = lba_to_chs-lt _ _;
          start_lba = omega arith;
          sz_lba = omega arith;
        })
  ]

  -- The table that `mbr_to_schem` fills from four entries.
  to_parts_four :
      (x y z t : MbrPart) (sig : ℕ)
      → to_parts 4 0
          (record { disk_sig = sig; partitions = x ∷ y ∷ z ∷ t ∷ [] })
          (zero_part ∷ zero_part ∷ zero_part ∷ zero_part ∷ [])
        ≡ map
            (λ (part : MbrPart).
              if not (mbr_is_part_used part) then zero_part else schem_part_of part zero_part)
            (x ∷ y ∷ z ∷ t ∷ [])
  unfolding to_parts
  to_parts_four x y z t sig = ground arith

  -- The scheme that is read from the MBR written for `schem`, into any scheme with four entries: its
  -- type and its usable sectors are those of the disk, its identifier is that of `schem`, and an
  -- entry has what the MBR keeps of it.
  pub mbr_to_schem-mbr_from_schem :
      (schem into : Schem) (a b c d p q r s : SchemPart)
      → parts schem ≡ a ∷ b ∷ c ∷ d ∷ []
      → into.table ≡ p ∷ q ∷ r ∷ s ∷ []
      → (schem_part_is_used_mbr a ≡ true → Fits a)
      → (schem_part_is_used_mbr b ≡ true → Fits b)
      → (schem_part_is_used_mbr c ≡ true → Fits c)
      → (schem_part_is_used_mbr d ≡ true → Fits d)
      → mbr_to_schem into (mbr_from_schem schem zero_mbr ctx) ctx
        ≡ record (mbr_init_schem into ctx) {
          id_i = schem.id_i;
          table = kept a ∷ kept b ∷ kept c ∷ kept d ∷ [];
        }
  unfolding mbr_to_schem mbr_from_schem mbr_init_schem
  mbr_to_schem-mbr_from_schem schem into a b c d p q r s e e' fa fb fc fd =
      rw
        (
          e,
          e',
          from_parts_four a b c d,
          to_parts_four (entry a) (entry b) (entry c) (entry d) schem.id_i,
          schem_part_of-entry a fa,
          schem_part_of-entry b fb,
          schem_part_of-entry c fc,
          schem_part_of-entry d fd,
        )
        refl

  pub mbr_to_schem-zero_mbr :
      (into : Schem) (p q r s : SchemPart)
      → into.table ≡ p ∷ q ∷ r ∷ s ∷ []
      → mbr_to_schem into zero_mbr ctx ≡ record (mbr_init_schem into ctx) {
        id_i = 0;
        table = zero_part ∷ zero_part ∷ zero_part ∷ zero_part ∷ [];
      }
  unfolding mbr_to_schem mbr_init_schem to_parts mbr_is_part_used
  mbr_to_schem-zero_mbr into p q r s e = rw e refl
