-- ===== src/Gpt/Reload/Storable.antt =====
-- The GPT that `gpt_from_schem` makes can be stored and is laid out as the reload asks for.
use native.Mathlib.Nat.{div-le_self}
use mathlib.Core.Path.{subst}
use partman.Base.{
  ℕ, ◌/◌, ◌^◌, ◌≤◌, ◌<◌, ◌≡◌, refl, sym, length, get_or, replicate, get_or-replicate, arith,
}
use partman.ImgCtx.{ImgCtx}
use partman.World.{World}
use partman.Guid.{IsGuid}
use partman.Schem.{SchemPart, Schem, zero_part, parts}
use partman.Gpt.{
  GptPartEnt, Gpt, zero_ent, gpt_restore, mirror, gpt_hdr_crc_create, gpt_table_crc_create,
}
use partman.Gpt.Header.{IsGptHdr}
use partman.Gpt.Entry.{IsGptPartEnt, overlapped}
use partman.Gpt.Bounds.{gpt_table_crc_create-lt, gpt_hdr_crc_create-lt}
use partman.Gpt.Scheme.{gpt_calc_pos, ent_of, gpt_from_schem, zero_gpt}
use partman.Gpt.Convert.{gpt_from_schem-IsConsistent}
use partman.Gpt.Stored.{IsStorable}
use partman.Gpt.Reload.Places.{IsGptImage, places, fits, prim_lba, secs_le, room}
use partman.Gpt.Reload.Entries.{
  zero_ent-IsGptPartEnt, All, take-All, ents_from_parts-All, copy_entries-All,
}
use partman.Gpt.Reload.{IsLaidOut}

-- A scheme that a GPT can hold.
pub record IsGptSchem (s : Schem) : Type 0 where
  pub count : s.part_cnt ≤ 128
  pub array : s.part_cnt ≤ length s.table
  pub first_usable_lba : s.first_usable_lba < 2 ^ 64
  pub last_usable_lba : s.last_usable_lba < 2 ^ 64
  pub id_guid : IsGuid s.id_guid
  pub entries : (k : ℕ) → IsGptPartEnt (ent_of (get_or s.table k zero_part))
  pub names :
      (k : ℕ) → overlapped (get_or s.table k zero_part).name ≡ (get_or s.table k zero_part).name

module _ (s : Schem) (ctx : ImgCtx) (w : World) (v : IsGptSchem s) (im : IsGptImage ctx w) where
  abbrev pub gpt : Gpt
  gpt = gpt_from_schem s zero_gpt ctx

  abbrev IsSame : GptPartEnt → Type 0
  IsSame e = IsGptPartEnt e × (overlapped e.name ≡ e.name)

  zero-IsSame : IsSame zero_ent
  zero-IsSame = (zero_ent-IsGptPartEnt, refl)

  zeroes : All IsSame zero_ent (replicate 128 zero_ent)
  zeroes k = subst IsSame (sym (get_or-replicate 128 k zero_ent)) zero-IsSame

  parts-All : All (λ (p : SchemPart). IsSame (ent_of p)) zero_part (parts s)
  unfolding ent_of
  parts-All =
      take-All (λ (p : SchemPart). IsSame (ent_of p)) zero_part s.part_cnt s.table zero-IsSame
        (λ k. (v.entries k, v.names k))

  prim-All : All IsSame zero_ent gpt.table_prim
  unfolding gpt_from_schem gpt_restore
  prim-All = ents_from_parts-All IsSame 0 (parts s) (replicate 128 zero_ent) parts-All zeroes

  sec-All : All IsSame zero_ent gpt.table_sec
  unfolding gpt_from_schem gpt_restore
  sec-All = copy_entries-All IsSame s.part_cnt 0 (replicate 128 zero_ent) _ zeroes prim-All

  -- The headers of both copies, for their places and their checksums.
  hdr_fits :
      (my alt lba crc : ℕ)
      → my < 2 ^ 64
      → alt < 2 ^ 64
      → lba < 2 ^ 64
      → crc < 2 ^ 32
      → IsGptHdr (record gpt.hdr_prim {
        my_lba = my;
        alt_lba = alt;
        part_table_lba = lba;
        hdr_crc32 = crc;
      })
  unfolding gpt_from_schem gpt_restore
  hdr_fits my alt lba crc hm ha hl hc = record {
    rev = omega arith;
    hdr_sz = omega arith;
    hdr_crc32 = hc;
    my_lba = hm;
    alt_lba = ha;
    first_usable_lba = v.first_usable_lba;
    last_usable_lba = v.last_usable_lba;
    disk_guid = v.id_guid;
    part_table_lba = hl;
    part_table_entry_cnt = omega (arith, v.count);
    part_entry_sz = omega arith;
    part_table_crc32 = gpt_table_crc_create-lt gpt.table_prim s.part_cnt (λ k. (prim-All k).0);
  }

  sectors_lt : ctx.img_sz / ctx.sec_sz < 2 ^ 64
  sectors_lt = omega (arith, div-le_self ctx.img_sz ctx.sec_sz, im.fits)

  sec_lt : (gpt_calc_pos ctx).hdr_lba_sec < 2 ^ 64
  sec_lt = omega (arith, places ctx w im s, sectors_lt)

  pub prim-IsStorable : IsStorable gpt.hdr_prim gpt.table_prim
  unfolding gpt_from_schem gpt_restore gpt_hdr_crc_create gpt_calc_pos gpt_table_crc_create
  prim-IsStorable = record {
    valid = (gpt_from_schem-IsConsistent s ctx v.count).0.prim;
    header = hdr_fits 1 _ 2 _ (omega arith) sec_lt (omega arith) (
        gpt_hdr_crc_create-lt _
          (hdr_fits 1 _ 2 0 (omega arith) sec_lt (omega arith) (omega arith)));
    entry_sz = refl;
    entries = λ k. (prim-All k).0;
    names = λ k. (prim-All k).1;
  }

  pub sec-IsStorable : IsStorable gpt.hdr_sec gpt.table_sec
  unfolding gpt_from_schem gpt_restore mirror gpt_hdr_crc_create gpt_calc_pos gpt_table_crc_create
  sec-IsStorable = record {
    valid = (gpt_from_schem-IsConsistent s ctx v.count).0.sec;
    header =
        hdr_fits _ 1 _ _ sec_lt (omega arith) table_lt
          (gpt_hdr_crc_create-lt _ (hdr_fits _ 1 _ 0 sec_lt (omega arith) table_lt (omega arith)));
    entry_sz = refl;
    entries = λ k. (sec-All k).0;
    names = λ k. (sec-All k).1;
  }
    where
      table_lt : (gpt_calc_pos ctx).table_lba_sec < 2 ^ 64
      table_lt = omega (arith, places ctx w im s, sectors_lt)

  pub laid_out : IsLaidOut gpt ctx w
  unfolding gpt_from_schem gpt_restore mirror
  laid_out = record {
    page = im.page;
    sec_low = omega (arith, im.sec_sz);
    first = unfold gpt_calc_pos in refl;
    linked = refl;
    prim_table = unfold gpt_calc_pos in omega arith;
    sec_table =
        room ctx w im s _ _ s.part_cnt v.count
          (omega (arith, prim_lba ctx w im, places ctx w im s));
    sec_hdr = room ctx w im s _ _ s.part_cnt v.count (omega (arith, places ctx w im s));
    prim_fits = fits ctx w im _ _ (
        omega (
          arith,
          im.sectors,
          prim_lba ctx w im,
          secs_le ctx w im s.part_cnt v.count,
          places ctx w im s,
        ));
    sec_fits =
        fits ctx w im _ _ (omega (arith, secs_le ctx w im s.part_cnt v.count, places ctx w im s));
    hdr_fits = fits ctx w im _ _ (omega (arith, places ctx w im s));
  }
