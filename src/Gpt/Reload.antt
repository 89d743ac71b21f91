-- ===== src/Gpt/Reload.antt =====
-- `gpt_save` and then `gpt_load`: both copies come back.
pub mod Entries
pub mod Places
pub mod Storable
pub mod Scheme
mod Tests
use mathlib.Core.Path.{subst}
use native.Mathlib.Nat.{mul-le-mul_right}
use partman.Base.{
  ℕ, ◌+◌, ◌*◌, ◌^◌, ◌≤◌, ◌<◌, ◌≡◌, ◌⊎◌, inl, inr, refl, ◌∙◌, sym, ap, List, length, get_or, true,
  ltb, if◌then◌else◌, arith,
}
use partman.MemUtils.{Memory, IsBytes}
use partman.ImgCtx.{ImgCtx}
use partman.World.{World}
use partman.Schem.{SchemLoadRes}
use partman.Gpt.{GptHdr, GptPartEnt, Gpt, zero_ent}
use partman.Gpt.Region.{sec_mapping_lem}
use partman.Gpt.Pair.{
  Pair, PairLoadRes, table_secs, gpt_pair_load, gpt_save, gpt_load, recover, lba_sec,
}
use partman.Gpt.Stored.{
  hdr_at, table_at, saved_image, after_calls, gpt_pair_save-ok, read_into, IsStorable, Holds,
  read_into-get, gpt_pair_load-Holds,
}
use partman.Gpt.Saved.{saved, saved-IsBytes, saved-Holds, saved-outside, Holds-kept}

-- The primary header in the second sector, then its table, the secondary table and the secondary
-- header, with no byte shared and with offsets that fit 64 bits.
pub record IsLaidOut (gpt : Gpt) (ctx : ImgCtx) (w : World) : Type 0 where
  pub page : 1 ≤ w.page_sz
  pub sec_low : 92 ≤ ctx.sec_sz
  pub first : gpt.hdr_prim.my_lba ≡ 1
  pub linked : gpt.hdr_sec.my_lba ≡ gpt.hdr_prim.alt_lba
  pub prim_table : 2 ≤ gpt.hdr_prim.part_table_lba
  pub sec_table :
      gpt.hdr_prim.part_table_lba * ctx.sec_sz + gpt.hdr_prim.part_table_entry_cnt * 128
      ≤ gpt.hdr_sec.part_table_lba * ctx.sec_sz
  pub sec_hdr :
      gpt.hdr_sec.part_table_lba * ctx.sec_sz + gpt.hdr_sec.part_table_entry_cnt * 128
      ≤ gpt.hdr_sec.my_lba * ctx.sec_sz
  pub prim_fits :
      (gpt.hdr_prim.part_table_lba + table_secs ctx gpt.hdr_prim) * ctx.sec_sz + 2 * w.page_sz
      < 2 ^ 64
  pub sec_fits :
      (gpt.hdr_sec.part_table_lba + table_secs ctx gpt.hdr_sec) * ctx.sec_sz + 2 * w.page_sz
      < 2 ^ 64
  pub hdr_fits : (gpt.hdr_sec.my_lba + 1) * ctx.sec_sz + 2 * w.page_sz < 2 ^ 64

module _ (gpt : Gpt) (ctx : ImgCtx) (w : World) (lay : IsLaidOut gpt ctx w) where
  two : (1 + 1) * ctx.sec_sz ≤ gpt.hdr_prim.part_table_lba * ctx.sec_sz
  two = mul-le-mul_right ctx.sec_sz lay.prim_table

  all_two :
      (1 + 1) * ctx.sec_sz
      ≤ (gpt.hdr_prim.part_table_lba + table_secs ctx gpt.hdr_prim) * ctx.sec_sz
  all_two = mul-le-mul_right ctx.sec_sz (omega (arith, lay.prim_table))

  -- The four regions are in order.
  order :
      (hdr_at ctx gpt.hdr_prim.my_lba w + 92 ≤ table_at ctx gpt.hdr_prim w)
      × (table_at ctx gpt.hdr_prim w + gpt.hdr_prim.part_table_entry_cnt * 128
          ≤ table_at ctx gpt.hdr_sec w)
      × (table_at ctx gpt.hdr_sec w + gpt.hdr_sec.part_table_entry_cnt * 128
          ≤ hdr_at ctx gpt.hdr_sec.my_lba w)
  order =
      rw (lay.first, hp, tp, ts, hs) (omega (arith, two, lay.sec_low), lay.sec_table, lay.sec_hdr)
    where
      hp : hdr_at ctx 1 w ≡ 1 * ctx.sec_sz
      hp = (sec_mapping_lem w.page_sz ctx 1 1 lay.page (omega (arith, all_two, lay.prim_fits))).0

      tp : table_at ctx gpt.hdr_prim w ≡ gpt.hdr_prim.part_table_lba * ctx.sec_sz
      tp =
          (sec_mapping_lem w.page_sz ctx gpt.hdr_prim.part_table_lba (table_secs ctx gpt.hdr_prim)
            lay.page lay.prim_fits).0

      ts : table_at ctx gpt.hdr_sec w ≡ gpt.hdr_sec.part_table_lba * ctx.sec_sz
      ts =
          (sec_mapping_lem w.page_sz ctx gpt.hdr_sec.part_table_lba (table_secs ctx gpt.hdr_sec)
            lay.page lay.sec_fits).0

      hs : hdr_at ctx gpt.hdr_sec.my_lba w ≡ gpt.hdr_sec.my_lba * ctx.sec_sz
      hs = (sec_mapping_lem w.page_sz ctx gpt.hdr_sec.my_lba 1 lay.page lay.hdr_fits).0

  module _ (prim : IsStorable gpt.hdr_prim gpt.table_prim)
      (sec : IsStorable gpt.hdr_sec gpt.table_sec) (b : IsBytes w.image) where
    -- The world after the secondary copy, and after both.
    abbrev pub one_saved : World
    one_saved = saved ctx gpt.hdr_sec gpt.table_sec w sec

    abbrev pub both_saved : World
    both_saved = saved ctx gpt.hdr_prim gpt.table_prim one_saved prim

    one_IsBytes : IsBytes one_saved.image
    one_IsBytes = saved-IsBytes ctx gpt.hdr_sec gpt.table_sec w sec b

    pub prim_held : Holds ctx gpt.hdr_prim gpt.table_prim both_saved
    prim_held =
        saved-Holds ctx gpt.hdr_prim gpt.table_prim one_saved prim one_IsBytes (inl (order.0))

    pub sec_held : Holds ctx gpt.hdr_sec gpt.table_sec both_saved
    sec_held =
        Holds-kept ctx gpt.hdr_sec gpt.table_sec one_saved both_saved.image both_saved.calls
          (saved-IsBytes ctx gpt.hdr_prim gpt.table_prim one_saved prim one_IsBytes)
          (λ q o.
            saved-outside ctx gpt.hdr_prim gpt.table_prim one_saved prim one_IsBytes q
              (omega (arith, order, o)) (omega (arith, order, o)))
          (saved-Holds ctx gpt.hdr_sec gpt.table_sec w sec b (inr (order.2)))

    -- The load may start after other calls.
    module _ (into : Gpt) (n : ℕ) (ok : (k : ℕ) → w.succeeds k ≡ true)
        (size_prim : length into.table_prim ≡ 128) (size_sec : length into.table_sec ≡ 128) where
      abbrev pub later : World
      later = record both_saved { calls = n }

      abbrev pub loaded : Gpt
      loaded = record {
        hdr_prim = gpt.hdr_prim;
        table_prim = read_into ctx gpt.hdr_prim into.table_prim both_saved;
        hdr_sec = gpt.hdr_sec;
        table_sec = read_into ctx gpt.hdr_sec into.table_sec both_saved;
      }

      pub gpt_save-both : gpt_save gpt ctx w ≡ (true, both_saved)
      unfolding gpt_save
      gpt_save-both =
          rw
            (
              gpt_pair_save-ok gpt.hdr_sec gpt.table_sec ctx w ok,
              gpt_pair_save-ok gpt.hdr_prim gpt.table_prim ctx one_saved ok,
            )
            refl

      prim_loaded :
          gpt_pair_load (record { hdr = into.hdr_prim; table = into.table_prim }) ctx 1 later ≡ (
            PairLoadRes.gpt_pair_load_ok,
            record { hdr = loaded.hdr_prim; table = loaded.table_prim },
            after_calls later,
          )
      prim_loaded =
          subst
            (λ lba.
              gpt_pair_load (record { hdr = into.hdr_prim; table = into.table_prim }) ctx lba later
              ≡ (
                PairLoadRes.gpt_pair_load_ok,
                record { hdr = loaded.hdr_prim; table = loaded.table_prim },
                after_calls later,
              ))
            lay.first
            (gpt_pair_load-Holds ctx gpt.hdr_prim gpt.table_prim later prim
              (Holds-kept ctx gpt.hdr_prim gpt.table_prim both_saved both_saved.image n
                prim_held.bytes (λ q o. refl) prim_held)
              (record { hdr = into.hdr_prim; table = into.table_prim }) ok size_prim)

      sec_loaded :
          gpt_pair_load
            (record { hdr = into.hdr_sec; table = into.table_sec })
            ctx
            gpt.hdr_prim.alt_lba
            (after_calls later)
          ≡ (
            PairLoadRes.gpt_pair_load_ok,
            record { hdr = loaded.hdr_sec; table = loaded.table_sec },
            after_calls (after_calls later),
          )
      sec_loaded =
          subst
            (λ lba.
              gpt_pair_load (record { hdr = into.hdr_sec; table = into.table_sec }) ctx lba
                (after_calls later)
              ≡ (
                PairLoadRes.gpt_pair_load_ok,
                record { hdr = loaded.hdr_sec; table = loaded.table_sec },
                after_calls (after_calls later),
              ))
            lay.linked
            (gpt_pair_load-Holds ctx gpt.hdr_sec gpt.table_sec (after_calls later) sec
              (Holds-kept ctx gpt.hdr_sec gpt.table_sec both_saved both_saved.image
                (n + 1 + 1 + 1 + 1) sec_held.bytes (λ q o. refl) sec_held)
              (record { hdr = into.hdr_sec; table = into.table_sec }) ok size_sec)

      pub gpt_load-both :
          gpt_load into ctx later
          ≡ (SchemLoadRes.schem_load_ok, loaded, after_calls (after_calls later))
      unfolding gpt_load recover lba_sec
      gpt_load-both = rw (prim_loaded, sec_loaded) refl

-- The entries of a table within the count that its header gives, and those of another past it.
abbrev pub AreLoaded : GptHdr → List GptPartEnt → List GptPartEnt → List GptPartEnt → Type 0
AreLoaded hdr table into got =
    (k : ℕ)
    → get_or got k zero_ent
      ≡ (if ltb k hdr.part_table_entry_cnt then get_or table k zero_ent else get_or into k zero_ent)

-- A GPT that is laid out on an image of bytes and whose two copies are valid, with fields in range
-- and names that come back as they are, is saved and loaded again where every call succeeds: both
-- report success, both headers come back unchanged, and so do the entries of both tables, as many as each header counts.
pub gpt_load-gpt_save :
    (gpt into : Gpt) (ctx : ImgCtx) (w : World)
    → IsLaidOut gpt ctx w
    → IsStorable gpt.hdr_prim gpt.table_prim
    → IsStorable gpt.hdr_sec gpt.table_sec
    → IsBytes w.image
    → ((n : ℕ) → w.succeeds n ≡ true)
    → length into.table_prim ≡ 128
    → length into.table_sec ≡ 128
    → let (saved, w1) = gpt_save gpt ctx w in
      let (res, got, w2) = gpt_load into ctx w1 in
      (saved ≡ true)
      × (res ≡ SchemLoadRes.schem_load_ok)
      × (got.hdr_prim ≡ gpt.hdr_prim)
      × (got.hdr_sec ≡ gpt.hdr_sec)
      × AreLoaded gpt.hdr_prim gpt.table_prim into.table_prim got.table_prim
      × AreLoaded gpt.hdr_sec gpt.table_sec into.table_sec got.table_sec
gpt_load-gpt_save gpt into ctx w lay prim sec b ok size_prim size_sec =
    rw
      (
        gpt_save-both gpt ctx w lay prim sec b into both_calls ok size_prim size_sec,
        gpt_load-both gpt ctx w lay prim sec b into both_calls ok size_prim size_sec,
      )
      (
        refl,
        refl,
        refl,
        refl,
        λ k.
            read_into-get ctx gpt.hdr_prim gpt.table_prim (both_saved gpt ctx w lay prim sec b) prim
              (prim_held gpt ctx w lay prim sec b) into.table_prim k size_prim,
        λ k.
            read_into-get ctx gpt.hdr_sec gpt.table_sec (both_saved gpt ctx w lay prim sec b) sec
              (sec_held gpt ctx w lay prim sec b) into.table_sec k size_sec,
      )
  where
    both_calls : ℕ
    both_calls = (both_saved gpt ctx w lay prim sec b).calls
