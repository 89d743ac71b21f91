-- ===== src/Mbr/Save.antt =====
-- Saving a scheme as an MBR, loading it, and what the calls that fail leave.
use partman.Base.{
  ℕ, ◌+◌, ◌^◌, ◌≤◌, ◌<◌, [], ◌∷◌, ◌≡◌, ◌↔◌, ◌⊎◌, refl, ap, ◌∙◌, true, false, ◌&&◌, arith,
  if◌then◌else◌,
}
use partman.MemUtils.{Memory, IsBytes}
use partman.ImgCtx.{ImgCtx}
use partman.World.{World}
use partman.Schem.{SchemLoadRes, SchemPart, Schem, parts, zero_part, schem_part_is_used_mbr}
use partman.Mbr.{
  Mbr, zero_mbr_part, zero_mbr, mbr_write, mbr_read, mbr_is_present, mbr_save, mbr_load, loaded_mbr,
  schem_load_mbr, schem_save_mbr, mbr_from_schem, mbr_to_schem, mbr_init_schem, schem_remove_mbr,
}
use partman.Mbr.Disk.{mbr_read-mbr_write, IsMbrPart}
use partman.Mbr.Schemes.{
  Fits, kept, entry, entry-IsMbrPart, mbr_from_schem_four, mbr_to_schem-mbr_from_schem,
  mbr_to_schem-zero_mbr,
}

-- The calls that the next `n` steps make all succeed.
pub record Answers (w : World) : Type 0 where
  pub first : w.succeeds w.calls ≡ true
  pub second : w.succeeds (w.calls + 1) ≡ true

mbr_save-ok :
    (mbr : Mbr) (ctx : ImgCtx) (w : World)
    → Answers w
    → mbr_save mbr ctx w
      ≡ (true, record w { image = mbr_write 0 mbr w.image; calls = w.calls + 1 + 1 })
unfolding mbr_save
mbr_save-ok mbr ctx w h = rw (h.first, h.second) refl

mbr_load-ok :
    (mbr : Mbr) (ctx : ImgCtx) (w : World)
    → Answers w
    → mbr_is_present 0 w.image ≡ true
    → mbr_load mbr ctx w
      ≡ (SchemLoadRes.schem_load_ok, mbr_read 0 w.image, record w { calls = w.calls + 1 + 1 })
unfolding mbr_load
mbr_load-ok mbr ctx w h p = rw (h.first, h.second, p) refl

schem_load_mbr-ok :
    (into : Schem) (ctx : ImgCtx) (w : World)
    → Answers w
    → mbr_is_present 0 w.image ≡ true
    → schem_load_mbr into ctx w ≡ (
      SchemLoadRes.schem_load_ok,
      mbr_to_schem into (mbr_read 0 w.image) ctx,
      record w { calls = w.calls + 1 + 1 },
    )
unfolding schem_load_mbr loaded_mbr
schem_load_mbr-ok into ctx w h p = ap (loaded_mbr into ctx) (mbr_load-ok zero_mbr ctx w h p)

-- A scheme whose four entries fit is saved, and loaded from the image that this leaves. Where every
-- call succeeds both report success; what is loaded has the identifier and, for each entry, what
-- the MBR keeps of it, with the type and the usable sectors that the disk gives; and the bytes of
-- the image before the disk signature, between it and the table, and after the sector are as they
-- were.
pub schem_load_mbr-schem_save_mbr :
    (ctx : ImgCtx) (w : World) (schem into : Schem) (a b c d p q r s : SchemPart)
    → IsBytes w.image
    → ((n : ℕ) → w.succeeds n ≡ true)
    → schem.id_i < 2 ^ 32
    → parts schem ≡ a ∷ b ∷ c ∷ d ∷ []
    → into.table ≡ p ∷ q ∷ r ∷ s ∷ []
    → (schem_part_is_used_mbr a ≡ true → Fits a)
    → (schem_part_is_used_mbr b ≡ true → Fits b)
    → (schem_part_is_used_mbr c ≡ true → Fits c)
    → (schem_part_is_used_mbr d ≡ true → Fits d)
    → let (saved, w1) = schem_save_mbr schem ctx w in
      let (res, loaded, w2) = schem_load_mbr into ctx w1 in
      (saved ≡ true)
      × (res ≡ SchemLoadRes.schem_load_ok)
      × (loaded ≡ record (mbr_init_schem into ctx) {
        id_i = schem.id_i;
        table = kept a ∷ kept b ∷ kept c ∷ kept d ∷ [];
      })
      × ((k : ℕ) → (k < 440) ⊎ (((444 ≤ k) × (k < 446)) ⊎ (512 ≤ k)) → w2.image k ≡ w.image k)
unfolding schem_save_mbr
schem_load_mbr-schem_save_mbr ctx w schem into a b c d p q r s bytes ok hs e e' fa fb fc fd =
    rw (mbr_save-ok mbr ctx w (record { first = ok _; second = ok _ }), loaded)
      (
        refl,
        refl,
        ap (λ t. mbr_to_schem into t ctx) back.0
            ∙ mbr_to_schem-mbr_from_schem ctx schem into a b c d p q r s e e' fa fb fc fd,
        back.3,
      )
  where
    mbr : Mbr
    mbr = mbr_from_schem schem zero_mbr ctx

    image : Memory
    image = mbr_write 0 mbr w.image

    written : mbr ≡ record {
      disk_sig = schem.id_i;
      partitions = entry ctx a ∷ entry ctx b ∷ entry ctx c ∷ entry ctx d ∷ [];
    }
    written = mbr_from_schem_four ctx schem a b c d e

    back :
        (mbr_read 0 image ≡ mbr)
        × (mbr_is_present 0 image ≡ true)
        × IsBytes image
        × ((k : ℕ) → (k < 440) ⊎ (((444 ≤ k) × (k < 446)) ⊎ (512 ≤ k)) → image k ≡ w.image k)
    back = rw written (
        mbr_read-mbr_write 0 schem.id_i (entry ctx a) (entry ctx b) (entry ctx c) (entry ctx d)
          w.image bytes hs (entry-IsMbrPart ctx a fa) (entry-IsMbrPart ctx b fb)
          (entry-IsMbrPart ctx c fc) (entry-IsMbrPart ctx d fd))

    loaded : schem_load_mbr into ctx (record w { image = image; calls = w.calls + 1 + 1 }) ≡ (
      SchemLoadRes.schem_load_ok,
      mbr_to_schem into (mbr_read 0 image) ctx,
      record w { image = image; calls = w.calls + 1 + 1 + 1 + 1 },
    )
    loaded =
        schem_load_mbr-ok into ctx (record w { image = image; calls = w.calls + 1 + 1 })
          (record { first = ok _; second = ok _ }) back.1

-- Removing the MBR of an image of bytes leaves the boot signature, with no entry used: where every
-- call succeeds a load still finds a scheme, its identifier is 0, and all its entries are cleared.
pub schem_load_mbr-schem_remove_mbr :
    (ctx : ImgCtx) (w : World) (into : Schem) (p q r s : SchemPart)
    → IsBytes w.image
    → ((n : ℕ) → w.succeeds n ≡ true)
    → into.table ≡ p ∷ q ∷ r ∷ s ∷ []
    → let (removed, w1) = schem_remove_mbr ctx w in
      let (res, loaded, w2) = schem_load_mbr into ctx w1 in
      (removed ≡ true)
      × (res ≡ SchemLoadRes.schem_load_ok)
      × (loaded ≡ record (mbr_init_schem into ctx) {
        id_i = 0;
        table = zero_part ∷ zero_part ∷ zero_part ∷ zero_part ∷ [];
      })
unfolding schem_remove_mbr
schem_load_mbr-schem_remove_mbr ctx w into p q r s bytes ok e =
    rw (mbr_save-ok zero_mbr ctx w (record { first = ok _; second = ok _ }), loaded)
      (refl, refl, ap (λ t. mbr_to_schem into t ctx) back.0 ∙ cleared)
  where
    zero_fits : IsMbrPart zero_mbr_part
    zero_fits = record {
      boot_ind = omega arith;
      start_chs = omega arith;
      type = omega arith;
      end_chs = omega arith;
      start_lba = omega arith;
      sz_lba = omega arith;
    }

    image : Memory
    image = mbr_write 0 zero_mbr w.image

    back : (mbr_read 0 image ≡ zero_mbr) × (mbr_is_present 0 image ≡ true)
    back =
        let all =
          mbr_read-mbr_write 0 0 zero_mbr_part zero_mbr_part zero_mbr_part zero_mbr_part w.image
            bytes (omega arith) zero_fits zero_fits zero_fits zero_fits in
        (all.0, all.1)

    cleared : mbr_to_schem into zero_mbr ctx ≡ record (mbr_init_schem into ctx) {
      id_i = 0;
      table = zero_part ∷ zero_part ∷ zero_part ∷ zero_part ∷ [];
    }
    cleared = mbr_to_schem-zero_mbr ctx into p q r s e

    loaded : schem_load_mbr into ctx (record w { image = image; calls = w.calls + 1 + 1 }) ≡ (
      SchemLoadRes.schem_load_ok,
      mbr_to_schem into (mbr_read 0 image) ctx,
      record w { image = image; calls = w.calls + 1 + 1 + 1 + 1 },
    )
    loaded =
        schem_load_mbr-ok into ctx (record w { image = image; calls = w.calls + 1 + 1 })
          (record { first = ok _; second = ok _ }) back.1

-- Saving and loading where a call fails: a save reports failure when the mapping or the unmapping fails, and
-- leaves the image as it was in the first case.
pub mbr_save-fails :
    (mbr : Mbr) (ctx : ImgCtx) (w : World)
    → let (saved, w') = mbr_save mbr ctx w in
      let mapped = w.succeeds w.calls in
      ((saved ≡ true) ↔ ((mapped ≡ true) × (w.succeeds (w.calls + 1) ≡ true)))
      × (w'.image ≡ (if mapped then mbr_write 0 mbr w.image else w.image))
unfolding mbr_save
mbr_save-fails mbr ctx w = ground arith

-- What a load says: it is fatal where the mapping or the unmapping fails, else it says whether the
-- boot signature stands at 510; it changes no byte of the image, and the scheme only where it is
-- found.
pub schem_load_mbr_lem :
    (schem : Schem) (ctx : ImgCtx) (w : World)
    → let (res, got, w') = schem_load_mbr schem ctx w in
      let works = w.succeeds w.calls && w.succeeds (w.calls + 1) in
      let present = mbr_is_present 0 w.image in
      ((res ≡ SchemLoadRes.schem_load_fatal) ↔ (works ≡ false))
      × ((res ≡ SchemLoadRes.schem_load_ok) ↔ (works && present ≡ true))
      × (got ≡ (if works && present then mbr_to_schem schem (mbr_read 0 w.image) ctx else schem))
      × (w'.image ≡ w.image)
unfolding schem_load_mbr loaded_mbr mbr_load
schem_load_mbr_lem schem ctx w = ground arith
