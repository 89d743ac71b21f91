-- ===== src/Gpt/Remove.antt =====
-- `schem_remove_gpt` makes both headers unreadable.
use partman.Base.{ℕ, zero, suc, ◌+◌, replicate, ◌≡◌, refl, arith, true, false}
use partman.MemUtils.{Memory, write_pu8}
use partman.ImgCtx.{ImgCtx}
use partman.World.{World}
use partman.Schem.{SchemLoadRes, Schem}
use partman.Gpt.{Gpt, write_sig, gpt_hdr_erase_sig, gpt_is_present, has_bytes}
use partman.Gpt.Region.{map_secs, unmap_secs, sec_mapping}
use partman.Gpt.Pair.{
  PairLoadRes, Pair, gpt_pair_load, load_hdr, leave_load, unmap_both, unmap_if, gpt_load, recover,
  lba_sec,
}
use partman.Gpt.Scheme.{
  gpt_calc_pos, zero_gpt, alloc_tables, loaded_gpt, schem_load_gpt, erase_at, erase_hdr,
  schem_remove_gpt,
}

-- Writing zeroes leaves a zero.
write_zeroes : (n p q : ℕ) (m : Memory) → m q ≡ 0 → write_sig p (replicate n 0) m q ≡ 0
unfolding write_sig write_pu8
write_zeroes zero p q m h = h
write_zeroes (suc n) p q m h = write_zeroes n (p + 1) q (write_pu8 p 0 m) (ground arith)

erased : (p : ℕ) (m : Memory) → gpt_hdr_erase_sig p m p ≡ 0
unfolding gpt_hdr_erase_sig write_sig write_pu8
erased p m = write_zeroes 7 (p + 1) p (write_pu8 p 0 m) (ground arith)

still_erased : (p q : ℕ) (m : Memory) → m q ≡ 0 → gpt_hdr_erase_sig p m q ≡ 0
unfolding gpt_hdr_erase_sig
still_erased p q m h = write_zeroes 8 p q m h

absent : (p : ℕ) (m : Memory) → m p ≡ 0 → gpt_is_present p m ≡ false
unfolding gpt_is_present has_bytes
absent p m h = rw h refl

-- the address that a sector is mapped at
abbrev at : ImgCtx → ℕ → World → ℕ
at ctx lba w = (sec_mapping w.page_sz ctx lba 1).reg

erase_hdr-ok :
    (ctx : ImgCtx) (lba : ℕ) (w : World)
    → ((n : ℕ) → w.succeeds n ≡ true)
    → erase_hdr ctx lba w ≡ (
      true,
      record w { image = gpt_hdr_erase_sig (at ctx lba w) w.image; calls = w.calls + 1 + 1 },
    )
unfolding erase_hdr erase_at map_secs unmap_secs
erase_hdr-ok ctx lba w ok = rw (ok w.calls, ok (w.calls + 1)) refl

gpt_pair_load-absent :
    (pair : Pair) (ctx : ImgCtx) (lba : ℕ) (w : World)
    → ((n : ℕ) → w.succeeds n ≡ true)
    → w.image (at ctx lba w) ≡ 0
    → gpt_pair_load pair ctx lba w
      ≡ (PairLoadRes.gpt_pair_load_hdr_inv, pair, record w { calls = w.calls + 1 + 1 })
unfolding gpt_pair_load load_hdr leave_load unmap_both unmap_if map_secs unmap_secs
gpt_pair_load-absent pair ctx lba w ok h =
    rw (ok w.calls, absent (at ctx lba w) w.image h, ok (w.calls + 1)) refl

abbrev last_lba : ImgCtx → ℕ
last_lba ctx = (gpt_calc_pos ctx).hdr_lba_sec

gpt_load-absent :
    (gpt : Gpt) (ctx : ImgCtx) (w : World)
    → ((n : ℕ) → w.succeeds n ≡ true)
    → w.image (at ctx 1 w) ≡ 0
    → w.image (at ctx (last_lba ctx) w) ≡ 0
    → gpt_load gpt ctx w
      ≡ (SchemLoadRes.schem_load_not_found, gpt, record w { calls = w.calls + 1 + 1 + 1 + 1 })
unfolding gpt_load recover lba_sec gpt_calc_pos
gpt_load-absent gpt ctx w ok h h' =
    rw
      (
        gpt_pair_load-absent (record { hdr = gpt.hdr_prim; table = gpt.table_prim }) ctx 1 w ok h,
        gpt_pair_load-absent (record { hdr = gpt.hdr_sec; table = gpt.table_sec }) ctx
            (last_lba ctx) (record w { calls = w.calls + 1 + 1 }) ok h',
      )
      refl

schem_load_gpt-absent :
    (schem : Schem) (ctx : ImgCtx) (w : World)
    → ((n : ℕ) → w.succeeds n ≡ true)
    → w.image (at ctx 1 w) ≡ 0
    → w.image (at ctx (last_lba ctx) w) ≡ 0
    → let (res, schem', w') = schem_load_gpt schem ctx w in
      (res ≡ SchemLoadRes.schem_load_not_found) × (schem' ≡ schem) × (w'.image ≡ w.image)
unfolding schem_load_gpt alloc_tables loaded_gpt
schem_load_gpt-absent schem ctx w ok h h' =
    rw
      (
        ok w.calls,
        ok (w.calls + 1),
        gpt_load-absent zero_gpt ctx (record w { calls = w.calls + 1 + 1 }) ok h h',
      )
      (refl, refl, refl)

-- Where every call succeeds, removing a GPT succeeds, and a load that follows finds no GPT, leaves
-- the scheme as it was, and does not change the image.
pub schem_load_gpt-schem_remove_gpt :
    (schem : Schem) (ctx : ImgCtx) (w : World)
    → ((n : ℕ) → w.succeeds n ≡ true)
    → let (removed, w1) = schem_remove_gpt ctx w in
      let (res, schem', w2) = schem_load_gpt schem ctx w1 in
      (removed ≡ true)
      × (res ≡ SchemLoadRes.schem_load_not_found)
      × (schem' ≡ schem)
      × (w2.image ≡ w1.image)
unfolding schem_remove_gpt gpt_calc_pos
schem_load_gpt-schem_remove_gpt schem ctx w ok =
    rw (erase_hdr-ok ctx 1 w ok, erase_hdr-ok ctx (last_lba ctx) once ok)
      (let after =
          schem_load_gpt-absent schem ctx twice ok
            (still_erased (at ctx (last_lba ctx) w) (at ctx 1 w) once.image
              (erased (at ctx 1 w) w.image))
            (erased (at ctx (last_lba ctx) w) once.image) in
        (refl, after.0, after.1, after.2))
  where
    once : World
    once = record w { image = gpt_hdr_erase_sig (at ctx 1 w) w.image; calls = w.calls + 1 + 1 }

    twice : World
    twice = record once {
      image = gpt_hdr_erase_sig (at ctx (last_lba ctx) w) once.image;
      calls = once.calls + 1 + 1;
    }
