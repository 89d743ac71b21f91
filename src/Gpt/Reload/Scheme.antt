-- ===== src/Gpt/Reload/Scheme.antt =====
-- `schem_save_gpt` and then `schem_load_gpt`: a scheme comes back.
use partman.Base.{ℕ, ◌+◌, ◌≤◌, ◌<◌, ◌≡◌, refl, ◌∙◌, ap, List, length, get_or, true, ltb, arith}
use partman.MemUtils.{IsBytes}
use partman.ImgCtx.{ImgCtx}
use partman.World.{World}
use partman.Schem.{SchemPart, Schem, SchemLoadRes, zero_part}
use partman.Gpt.{GptHdr, Gpt}
use partman.Gpt.Scheme.{
  gpt_to_schem, zero_gpt, schem_load_gpt, schem_save_gpt, alloc_tables, loaded_gpt,
}
use partman.Gpt.Convert.{kept_by_gpt, gpt_to_schem-gpt_from_schem}
use partman.Gpt.Stored.{IsStorable, after_calls, read_into-get}
use partman.Gpt.Reload.Places.{IsGptImage, room}
use partman.Gpt.Reload.Storable.{IsGptSchem, gpt, prim-IsStorable, sec-IsStorable, laid_out}
use partman.Gpt.Reload.Entries.{parts_from_ents_congr}
use partman.Gpt.Reload.{
  IsLaidOut, AreLoaded, both_saved, loaded, prim_held, gpt_save-both, gpt_load-both,
}

-- What is loaded makes the same scheme as what was saved.
same_schem :
    (into : Schem) (gpt got : Gpt)
    → got.hdr_prim ≡ gpt.hdr_prim
    → AreLoaded gpt.hdr_prim gpt.table_prim zero_gpt.table_prim got.table_prim
    → gpt_to_schem into got ≡ gpt_to_schem into gpt
unfolding gpt_to_schem
same_schem into gpt got h same =
    ap (λ (x : GptHdr). gpt_to_schem into (record got { hdr_prim = x })) h
    ∙ ap (λ (t : List SchemPart). record (gpt_to_schem into gpt) { table = t })
        (parts_from_ents_congr gpt.hdr_prim.part_table_entry_cnt 0 got.table_prim gpt.table_prim _
          (λ k l.
            let within : ltb k gpt.hdr_prim.part_table_entry_cnt ≡ true = ground arith in
            same k ∙ rw within refl))

module _ (s into : Schem) (ctx : ImgCtx) (w : World) (v : IsGptSchem s) (im : IsGptImage ctx w)
    (b : IsBytes w.image) (ok : (n : ℕ) → w.succeeds n ≡ true) where
  abbrev made : Gpt
  made = gpt s ctx w v im

  abbrev allocated : World
  allocated = record w { calls = w.calls + 1 + 1 }

  abbrev im' : IsGptImage ctx allocated
  im' = record { page = im.page; sec_sz = im.sec_sz; sectors = im.sectors; fits = im.fits }

  abbrev prim : IsStorable made.hdr_prim made.table_prim
  prim = prim-IsStorable s ctx w v im

  abbrev sec : IsStorable made.hdr_sec made.table_sec
  sec = sec-IsStorable s ctx w v im

  abbrev lay : IsLaidOut made ctx allocated
  lay = laid_out s ctx allocated v im'

  abbrev both : World
  both = both_saved made ctx allocated lay prim sec b

  saved_ok : schem_save_gpt s ctx w ≡ (true, both)
  unfolding schem_save_gpt alloc_tables
  saved_ok =
      rw (ok w.calls, ok (w.calls + 1))
        (gpt_save-both made ctx allocated lay prim sec b zero_gpt 0 ok refl refl)

  abbrev got : Gpt
  got = loaded made ctx allocated lay prim sec b zero_gpt (both.calls + 1 + 1) ok refl refl

  loaded_ok : schem_load_gpt into ctx both ≡ (
    SchemLoadRes.schem_load_ok,
    gpt_to_schem into got,
    after_calls (after_calls (record both { calls = both.calls + 1 + 1 })),
  )
  unfolding schem_load_gpt alloc_tables loaded_gpt
  loaded_ok =
      rw
        (
          ok both.calls,
          ok (both.calls + 1),
          gpt_load-both made ctx allocated lay prim sec b zero_gpt (both.calls + 1 + 1) ok refl
              refl,
        )
        refl

  same : gpt_to_schem into got ≡ gpt_to_schem into made
  same = same_schem into made got refl (λ k.
      read_into-get ctx made.hdr_prim made.table_prim both prim
        (prim_held made ctx allocated lay prim sec b) zero_gpt.table_prim k refl)

-- A scheme that a GPT can hold, with names that come back as they are, is saved to an image with
-- room for it and loaded again where every call succeeds: both report success, and what is loaded
-- has its identifier, its usable sectors, its number of entries and each entry as it was, up to what
-- a GPT does not hold.
pub schem_load_gpt-schem_save_gpt :
    (s into : Schem) (ctx : ImgCtx) (w : World) (i : ℕ)
    → IsGptSchem s
    → IsGptImage ctx w
    → IsBytes w.image
    → ((n : ℕ) → w.succeeds n ≡ true)
    → s.part_cnt ≤ length into.table
    → i < s.part_cnt
    → let (saved, w1) = schem_save_gpt s ctx w in
      let (res, back, w2) = schem_load_gpt into ctx w1 in
      (saved ≡ true)
      × (res ≡ SchemLoadRes.schem_load_ok)
      × (back.id_guid ≡ s.id_guid)
      × (back.first_usable_lba ≡ s.first_usable_lba)
      × (back.last_usable_lba ≡ s.last_usable_lba)
      × (back.part_cnt ≡ s.part_cnt)
      × (get_or back.table i zero_part ≡ kept_by_gpt (get_or s.table i zero_part))
schem_load_gpt-schem_save_gpt s into ctx w i v im b ok room lt =
    let (id, first, last, cnt, entry) =
      gpt_to_schem-gpt_from_schem s into ctx i v.count v.array room lt in
    rw
      (
        saved_ok s into ctx w v im b ok,
        loaded_ok s into ctx w v im b ok,
        same s into ctx w v im b ok,
      )
      (refl, refl, id, first, last, cnt, entry)
