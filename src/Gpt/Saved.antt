-- ===== src/Gpt/Saved.antt =====
-- `gpt_save` and then `gpt_load`: both copies come back.
use mathlib.Core.Path.{subst}
use partman.Base.{ℕ, ◌+◌, ◌*◌, ◌≤◌, ◌<◌, ◌≡◌, ◌⊎◌, inl, inr, ◌∙◌, sym, ap, List, arith}
use partman.MemUtils.{Memory, IsBytes}
use partman.ImgCtx.{ImgCtx}
use partman.World.{World}
use partman.Gpt.{GptHdr, GptPartEnt, gpt_hdr_write, gpt_table_write}
use partman.Gpt.Header.{gpt_hdr_read-gpt_hdr_write}
use partman.Gpt.Table.{gpt_table_write-IsBytes, gpt_table_write-outside}
use partman.Gpt.Stored.{hdr_at, table_at, saved_image, after_calls, IsStorable, Holds}

module _ (ctx : ImgCtx) (hdr : GptHdr) (table : List GptPartEnt) (w : World)
    (st : IsStorable hdr table) where
  abbrev pub hdr_pos : ℕ
  hdr_pos = hdr_at ctx hdr.my_lba w

  abbrev pub table_pos : ℕ
  table_pos = table_at ctx hdr w

  abbrev pub cnt : ℕ
  cnt = hdr.part_table_entry_cnt

  abbrev pub with_hdr : Memory
  with_hdr = gpt_hdr_write (hdr_at ctx hdr.my_lba w) hdr w.image

  abbrev pub saved : World
  saved = record (after_calls w) { image = saved_image ctx hdr table w }

  saved-eq : saved_image ctx hdr table w ≡ gpt_table_write table_pos table cnt 128 with_hdr
  saved-eq = ap (λ sz. gpt_table_write table_pos table cnt sz with_hdr) st.entry_sz

  module _ (b : IsBytes w.image) where
    with_hdr-IsBytes : IsBytes with_hdr
    with_hdr-IsBytes = (gpt_hdr_read-gpt_hdr_write hdr_pos hdr w.image b st.header).2

    pub saved-IsBytes : IsBytes (saved_image ctx hdr table w)
    saved-IsBytes = subst IsBytes (sym saved-eq) (
        gpt_table_write-IsBytes table_pos cnt table with_hdr st.entries st.valid.count
          with_hdr-IsBytes)

    -- Where the table is not, the image is as the header's write leaves it.
    off_table :
        (q : ℕ)
        → (q < table_pos) ⊎ (table_pos + cnt * 128 ≤ q)
        → saved_image ctx hdr table w q ≡ with_hdr q
    off_table q o =
        ap (λ t. t q) saved-eq
        ∙ gpt_table_write-outside table_pos cnt table with_hdr st.entries st.valid.count q o

    off_hdr : (q : ℕ) → (q < hdr_pos) ⊎ (hdr_pos + 92 ≤ q) → with_hdr q ≡ w.image q
    off_hdr q o = (gpt_hdr_read-gpt_hdr_write hdr_pos hdr w.image b st.header).3 q o

    -- The image then holds the pair, where the two regions do not meet.
    pub saved-Holds :
        (hdr_pos + 92 ≤ table_pos) ⊎ (table_pos + cnt * 128 ≤ hdr_pos) → Holds ctx hdr table saved
    saved-Holds apart = record {
      bytes = saved-IsBytes;
      hdr_base = w.image;
      header = λ q l u. off_table q (omega arith);
      table_base = with_hdr;
      base_bytes = with_hdr-IsBytes;
      entries = λ q l u. ap (λ t. t q) saved-eq;
    }

    -- No byte outside the two regions is changed.
    pub saved-outside :
        (q : ℕ)
        → (q < hdr_pos) ⊎ (hdr_pos + 92 ≤ q)
        → (q < table_pos) ⊎ (table_pos + cnt * 128 ≤ q)
        → saved_image ctx hdr table w q ≡ w.image q
    saved-outside q o o' = off_table q o' ∙ off_hdr q o

-- A pair that the image holds is held by an image that is the same on both regions.
pub Holds-kept :
    (ctx : ImgCtx) (hdr : GptHdr) (table : List GptPartEnt) (w : World) (image : Memory) (n : ℕ)
    → IsBytes image
    → ((q : ℕ)
        → ((hdr_at ctx hdr.my_lba w ≤ q) × (q < hdr_at ctx hdr.my_lba w + 92))
          ⊎ ((table_at ctx hdr w ≤ q) × (q < table_at ctx hdr w + hdr.part_table_entry_cnt * 128))
        → image q ≡ w.image q)
    → Holds ctx hdr table w
    → Holds ctx hdr table (record w { image = image; calls = n })
Holds-kept ctx hdr table w image n b same at = record {
  bytes = b;
  hdr_base = at.hdr_base;
  header = λ q l u. same q (inl (l, u)) ∙ at.header q l u;
  table_base = at.table_base;
  base_bytes = at.base_bytes;
  entries = λ q l u. same q (inr (l, u)) ∙ at.entries q l u;
}
