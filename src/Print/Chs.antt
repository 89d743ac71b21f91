-- ===== src/Print/Chs.antt =====
-- The cylinder, head and sector addresses in the listing of an MBR.
use partman.Base.{
  ℕ, ◌+◌, ◌-◌, ◌*◌, ◌/◌, ◌%◌, ◌≤◌, ◌<◌, ◌≡◌, refl, ◌∙◌, ap, true, false, none, some, get_or,
  get_or-take, ltb, if◌then◌else◌, arith,
}
use partman.ImgCtx.{ImgCtx, max_lba, chs_of_lba, lba_to_chs, chs_int_to_tuple}
use partman.ImgCtx.Validate.{IsImgCtx}
use partman.ImgCtx.Chs.{chs_of_lba_lem, chs_int_to_tuple-chs_tuple_to_int}
use partman.Schem.{SchemPart, Schem, zero_part, parts, part_is_used}
use partman.Mbr.{schem_mbr_part_is_prot}
use partman.Command.Refine.Edits.{zero-unused}
use partman.Print.{print_mbr_part, pm_print_mbr}
use partman.Print.Listing.{mbr_body}
use partman.Print.View.{after, chs_in, read-listed}

abbrev printed_tuple : ImgCtx → SchemPart → ℕ → ℕ × ℕ × ℕ
printed_tuple ctx p lba = chs_int_to_tuple (lba_to_chs ctx lba (schem_mbr_part_is_prot p))

abbrev printed_chs : ImgCtx → SchemPart → (ℕ × ℕ × ℕ) × (ℕ × ℕ × ℕ)
printed_chs ctx p = (printed_tuple ctx p p.start_lba, printed_tuple ctx p p.end_lba)

mbr_chs :
    (s : Schem) (ctx : ImgCtx) (j : ℕ)
    → chs_in (after (j + 1) (pm_print_mbr s ctx)) ≡ (
        if part_is_used s.funcs (get_or (parts s) j zero_part)
        then some (printed_chs ctx (get_or (parts s) j zero_part))
        else none)
unfolding pm_print_mbr print_mbr_part
mbr_chs s ctx j =
    read-listed (part_is_used s.funcs) (print_mbr_part ctx) (mbr_body ctx) chs_in (printed_chs ctx)
      (λ i p. refl) (λ n p rest. refl) (λ p rest e. refl) refl (zero-unused s.funcs) j (parts s)

-- A sector that is shown: its cylinder has its ten bits rotated by two, and with the cylinder
-- rotated back the three numbers stand for the sector.
abbrev pub Shows : ImgCtx → ℕ → ℕ × ℕ × ℕ → Type 0
Shows ctx lba t =
    (c : ℕ) × (t.0 ≡ c % 256 * 4 + c / 256)
    × (c < 1024)
    × (t.1 < ctx.hpc)
    × (1 ≤ t.2)
    × (t.2 ≤ ctx.spt)
    × ((c * ctx.hpc + t.1) * ctx.spt + (t.2 - 1) ≡ lba)

module _ (ctx : ImgCtx) (v : IsImgCtx ctx) (hpc_byte : ctx.hpc ≤ 255) where
  printed_tuple-Shows :
      (p : SchemPart) (lba : ℕ) → lba ≤ max_lba ctx → Shows ctx lba (printed_tuple ctx p lba)
  unfolding lba_to_chs
  printed_tuple-Shows p lba le =
      let (c, h, s, packed, hc, hh, s1, s2, whole) = chs_of_lba_lem ctx v hpc_byte lba le in
      let within : ltb (max_lba ctx) lba ≡ false = ground arith in
      let unpacked : chs_int_to_tuple (chs_of_lba ctx lba) ≡ (c % 256 * 4 + c / 256, h, s) =
        ap chs_int_to_tuple packed
        ∙ chs_int_to_tuple-chs_tuple_to_int c h s hc (omega (arith, hh, hpc_byte))
            (omega (arith, s2, v.spt_high)) in
      rw (within, unpacked) (c, refl, hc, hh, s1, s2, whole)

  -- Where both ends of an entry in use have a C/H/S address, the listing of an MBR shows for each of
  -- them its own head and sector, and its cylinder with the ten bits rotated by two.
  pub pm_print_mbr-chs :
      (s : Schem) (j : ℕ)
      → let part : SchemPart = get_or s.table j zero_part in
        j < s.part_cnt
        → part_is_used s.funcs part ≡ true
        → part.start_lba ≤ max_lba ctx
        → part.end_lba ≤ max_lba ctx
        → (a : ℕ × ℕ × ℕ) × (b : ℕ × ℕ × ℕ) × (chs_in (after (j + 1) (pm_print_mbr s ctx))
            ≡ some (a, b))
          × Shows ctx part.start_lba a
          × Shows ctx part.end_lba b
  pm_print_mbr-chs s j lt used first last =
      let part : SchemPart = get_or s.table j zero_part in
      (
        printed_tuple ctx part part.start_lba,
        printed_tuple ctx part part.end_lba,
        rw (mbr_chs s ctx j, get_or-take s.part_cnt j s.table zero_part lt, used) refl,
        printed_tuple-Shows part part.start_lba first,
        printed_tuple-Shows part part.end_lba last,
      )
