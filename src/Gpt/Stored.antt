-- ===== src/Gpt/Stored.antt =====
-- What `gpt_pair_save` leaves in the image, and that `gpt_pair_load` finds it there.
use partman.Base.{
  ℕ, zero, suc, ◌+◌, ◌*◌, ◌≤◌, ◌<◌, ◌≡◌, refl, ◌∙◌, sym, ap, ap₂, List, [], ◌∷◌, length, take,
  get_or, true, false, ltb, ==_iff, if◌then◌else◌, arith,
}
use partman.MemUtils.{Memory, IsBytes}
use partman.ImgCtx.{ImgCtx}
use partman.World.{World}
use partman.Gpt.{
  GptHdr, GptPartEnt, zero_ent, gpt_hdr_write, gpt_hdr_read, gpt_is_present, gpt_table_write,
  gpt_table_read, gpt_hdr_is_valid, gpt_table_is_valid, gpt_table_crc_create, crc_entries,
  crc_start,
}
use partman.Gpt.Region.{map_secs, unmap_secs, sec_mapping}
use partman.Gpt.Header.{IsGptHdr}
use partman.Gpt.Header.Frame.{gpt_hdr_read-agrees}
use partman.Crc32.{crc32_finalize}
use partman.Gpt.Recovery.{IsValidPair, length-gpt_table_read}
use partman.Gpt.Entry.{overlapped}
use partman.Gpt.Entry.Frame.{stored}
use partman.Gpt.Table.{AreEntries, gpt_table_read-agrees}
use partman.Gpt.Pair.{
  PairLoadRes, Pair, table_secs, unmap_if, unmap_both, save_table, save_hdr, gpt_pair_save,
  leave_load, load_table, load_hdr, gpt_pair_load,
}

-- The addresses of a header and of its table.
abbrev pub hdr_at : ImgCtx → ℕ → World → ℕ
hdr_at ctx lba w = (sec_mapping w.page_sz ctx lba 1).reg

abbrev pub table_at : ImgCtx → GptHdr → World → ℕ
table_at ctx hdr w = (sec_mapping w.page_sz ctx hdr.part_table_lba (table_secs ctx hdr)).reg

abbrev pub saved_image : ImgCtx → GptHdr → List GptPartEnt → World → Memory
saved_image ctx hdr table w =
    gpt_table_write (table_at ctx hdr w) table hdr.part_table_entry_cnt hdr.part_entry_sz
      (gpt_hdr_write (hdr_at ctx hdr.my_lba w) hdr w.image)

abbrev pub after_calls : World → World
after_calls w = record w { calls = w.calls + 1 + 1 + 1 + 1 }

pub gpt_pair_save-ok :
    (hdr : GptHdr) (table : List GptPartEnt) (ctx : ImgCtx) (w : World)
    → ((n : ℕ) → w.succeeds n ≡ true)
    → gpt_pair_save hdr table ctx w
      ≡ (true, record (after_calls w) { image = saved_image ctx hdr table w })
unfolding gpt_pair_save save_hdr save_table unmap_both unmap_if map_secs unmap_secs
gpt_pair_save-ok hdr table ctx w ok =
    rw (ok w.calls, ok (w.calls + 1), ok (w.calls + 1 + 1), ok (w.calls + 1 + 1 + 1)) refl

-- The table that is read into `into`.
abbrev pub read_into : ImgCtx → GptHdr → List GptPartEnt → World → List GptPartEnt
read_into ctx hdr into w =
    gpt_table_read (table_at ctx hdr w) into hdr.part_table_entry_cnt hdr.part_entry_sz w.image

pub gpt_pair_load-ok :
    (pair : Pair) (hdr : GptHdr) (ctx : ImgCtx) (w : World)
    → ((n : ℕ) → w.succeeds n ≡ true)
    → gpt_is_present (hdr_at ctx hdr.my_lba w) w.image ≡ true
    → gpt_hdr_read (hdr_at ctx hdr.my_lba w) w.image ≡ hdr
    → gpt_hdr_is_valid hdr hdr.my_lba ≡ true
    → hdr.part_table_entry_cnt ≤ 128
    → gpt_table_is_valid hdr (read_into ctx hdr pair.table w) ≡ true
    → gpt_pair_load pair ctx hdr.my_lba w ≡ (
      PairLoadRes.gpt_pair_load_ok,
      record { hdr = hdr; table = read_into ctx hdr pair.table w },
      after_calls w,
    )
unfolding gpt_pair_load load_hdr load_table leave_load unmap_both unmap_if map_secs unmap_secs
gpt_pair_load-ok pair hdr ctx w ok present read valid count tvalid =
    let few : ltb 128 hdr.part_table_entry_cnt ≡ false = ground arith in
    rw
      (
        ok w.calls,
        present,
        read,
        valid,
        few,
        ok (w.calls + 1),
        tvalid,
        ok (w.calls + 1 + 1),
        ok (w.calls + 1 + 1 + 1),
      )
      refl

take_ext :
    (n : ℕ) (xs ys : List GptPartEnt)
    → n ≤ length xs
    → n ≤ length ys
    → ((k : ℕ) → k < n → get_or xs k zero_ent ≡ get_or ys k zero_ent)
    → take n xs ≡ take n ys
take_ext zero xs ys h h' same = refl
take_ext (suc n) [] ys h h' same = absurd (omega arith)
take_ext (suc n) (x ∷ xs) [] h h' same = absurd (omega arith)
take_ext (suc n) (x ∷ xs) (y ∷ ys) h h' same =
    ap₂ ◌∷◌ (same 0 (omega arith))
      (take_ext n xs ys (omega arith) (omega arith) (λ k l. same (suc k) (omega arith)))

-- A header and a table whose checksums are right, whose fields are in range, and whose names come
-- back as they are, as a name of zeroes does.
pub record IsStorable (hdr : GptHdr) (table : List GptPartEnt) : Type 0 where
  pub valid : IsValidPair hdr table
  pub header : IsGptHdr hdr
  pub entry_sz : hdr.part_entry_sz ≡ 128
  pub entries : AreEntries table
  pub names : (k : ℕ) → overlapped (get_or table k zero_ent).name ≡ (get_or table k zero_ent).name

-- The image holds what was written of them, to whatever it held.
pub record Holds (ctx : ImgCtx) (hdr : GptHdr) (table : List GptPartEnt) (w : World) : Type 0 where
  pub bytes : IsBytes w.image
  pub hdr_base : Memory
  pub header :
      (q : ℕ)
      → hdr_at ctx hdr.my_lba w ≤ q
      → q < hdr_at ctx hdr.my_lba w + 92
      → w.image q ≡ gpt_hdr_write (hdr_at ctx hdr.my_lba w) hdr hdr_base q
  pub table_base : Memory
  pub base_bytes : IsBytes table_base
  pub entries :
      (q : ℕ)
      → table_at ctx hdr w ≤ q
      → q < table_at ctx hdr w + hdr.part_table_entry_cnt * 128
      → w.image q
        ≡ gpt_table_write (table_at ctx hdr w) table hdr.part_table_entry_cnt 128 table_base q

module _ (ctx : ImgCtx) (hdr : GptHdr) (table : List GptPartEnt) (w : World)
    (st : IsStorable hdr table) (at : Holds ctx hdr table w) where
  stored_same : (k : ℕ) → stored (get_or table k zero_ent) ≡ get_or table k zero_ent
  stored_same k = ap (λ (n : List ℕ). record (get_or table k zero_ent) { name = n }) (st.names k)

  -- The entries that are read.
  pub read_into-get :
      (into : List GptPartEnt) (k : ℕ)
      → length into ≡ 128
      → get_or (read_into ctx hdr into w) k zero_ent ≡ (
          if ltb k hdr.part_table_entry_cnt
          then get_or table k zero_ent
          else get_or into k zero_ent)
  read_into-get into k e =
      ap
        (λ sz.
          get_or (gpt_table_read (table_at ctx hdr w) into hdr.part_table_entry_cnt sz w.image) k
            zero_ent)
        st.entry_sz
      ∙ gpt_table_read-agrees (table_at ctx hdr w) hdr.part_table_entry_cnt table into at.table_base
          w.image st.entries at.base_bytes at.bytes st.valid.count (omega (arith, st.valid.count))
          at.entries k
      ∙ ap
          (λ (x : GptPartEnt). if ltb k hdr.part_table_entry_cnt then x else get_or into k zero_ent)
          (stored_same k)

  same_table :
      (into : List GptPartEnt)
      → length into ≡ 128
      → take hdr.part_table_entry_cnt (read_into ctx hdr into w)
        ≡ take hdr.part_table_entry_cnt table
  same_table into e =
      take_ext hdr.part_table_entry_cnt (read_into ctx hdr into w) table
        (omega (
          arith,
          length-gpt_table_read (table_at ctx hdr w) hdr.part_table_entry_cnt hdr.part_entry_sz into
              w.image,
          st.valid.count,
        ))
        (omega (arith, st.valid.count, st.valid.size))
        (λ k lt.
          let b : ltb k hdr.part_table_entry_cnt ≡ true = ground arith in
          read_into-get into k e ∙ rw b refl)

  table_valid :
      (into : List GptPartEnt)
      → length into ≡ 128
      → gpt_table_is_valid hdr (read_into ctx hdr into w) ≡ true
  unfolding gpt_table_is_valid gpt_table_crc_create
  table_valid into e = (==_iff _ _).1 (
      st.valid.table_crc
      ∙ sym
          (ap (λ t. let c = crc_entries t crc_start in crc32_finalize c.crc32) (same_table into e)))

  hdr_valid : gpt_hdr_is_valid hdr hdr.my_lba ≡ true
  unfolding gpt_hdr_is_valid
  hdr_valid = ground (arith, st.valid.hdr_crc)

  -- A pair that the image holds is loaded.
  pub gpt_pair_load-Holds :
      (pair : Pair)
      → ((n : ℕ) → w.succeeds n ≡ true)
      → length pair.table ≡ 128
      → gpt_pair_load pair ctx hdr.my_lba w ≡ (
        PairLoadRes.gpt_pair_load_ok,
        record { hdr = hdr; table = read_into ctx hdr pair.table w },
        after_calls w,
      )
  gpt_pair_load-Holds pair ok e =
      let (read, present) =
        gpt_hdr_read-agrees (hdr_at ctx hdr.my_lba w) hdr at.hdr_base w.image at.bytes st.header
          at.header in
      gpt_pair_load-ok pair hdr ctx w ok present read hdr_valid st.valid.count
        (table_valid pair.table e)
