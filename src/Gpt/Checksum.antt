-- ===== src/Gpt/Checksum.antt =====
-- `gpt_hdr_crc_create` computes the CRC-32 of the header's bytes on the disk.
use partman.Base.{ℕ, List, [], ◌∷◌, ◌++◌, ◌≡◌, refl, ap, ap₂, ◌∙◌, sym, inl, arith}
use mathlib.Core.List.{append_assoc}
use partman.MemUtils.{Memory}
use partman.MemUtils.Layout.{Field, write_fields}
use partman.MemUtils.Region.{field_bytes, region, region-write_fields, le_bytes}
use partman.Crc32.{Crc, crc32_compute8, crc32_compute32, crc32_compute64, zero_table}
use partman.Crc32.Reference.{checksum}
use partman.Crc32.Laws.{Feeds, Feeds-8, Feeds-32, Feeds-64, Feeds-then, checksum-Feeds}
use partman.Guid.{IsGuid, guid_crc_compute}
use partman.Guid.Checksum.{Feeds-guid}
use partman.Guid.Disk.{guid_fields}
use partman.Gpt.{GptHdr, crc_sig, gpt_sig, hdr_crc_compute, gpt_hdr_crc_create, gpt_hdr_write}
use partman.Gpt.Header.{
  sig_fields, head_fields, tail_fields, guid_on, hdr_fields, gpt_hdr_write-eq, widths-hdr_fields,
  IsGapless-hdr_fields,
}

field_bytes-append :
    (fs gs : List Field) → field_bytes (fs ++ gs) ≡ field_bytes fs ++ field_bytes gs
field_bytes-append [] gs = refl
field_bytes-append (f ∷ fs) gs =
    ap (λ t. le_bytes f.width f.value ++ t) (field_bytes-append fs gs)
    ∙ sym (append_assoc (le_bytes f.width f.value) (field_bytes fs) (field_bytes gs))

-- The header with the checksum field at 0.
abbrev pub unsigned : GptHdr → GptHdr
unsigned h = record h { hdr_crc32 = 0 }

module _ (h : GptHdr) where
  tail_crc : Crc → Crc
  tail_crc c =
      let c = crc32_compute64 h.part_table_lba c in
      let c = crc32_compute32 h.part_table_entry_cnt c in
      let c = crc32_compute32 h.part_entry_sz c in crc32_compute32 h.part_table_crc32 c

  Feeds-tail : Feeds tail_crc (field_bytes (tail_fields h))
  unfolding tail_crc le_bytes
  Feeds-tail =
      Feeds-then (crc32_compute64 h.part_table_lba) _ (le_bytes 8 h.part_table_lba) _
        (Feeds-64 h.part_table_lba)
        (Feeds-then (crc32_compute32 h.part_table_entry_cnt) _ (le_bytes 4 h.part_table_entry_cnt) _
          (Feeds-32 h.part_table_entry_cnt)
          (Feeds-then (crc32_compute32 h.part_entry_sz) _ (le_bytes 4 h.part_entry_sz) _
            (Feeds-32 h.part_entry_sz) (Feeds-32 h.part_table_crc32)))

  Feeds-guid_on :
      IsGuid h.disk_guid
      → Feeds (λ c. tail_crc (guid_crc_compute h.disk_guid c)) (field_bytes (guid_on h))
  Feeds-guid_on v = rw (field_bytes-append (guid_fields 56 h.disk_guid) (tail_fields h)) (
      Feeds-then (guid_crc_compute h.disk_guid) tail_crc (field_bytes (guid_fields 56 h.disk_guid))
        _ (Feeds-guid 56 h.disk_guid v) Feeds-tail)

  head_crc : Crc → Crc
  head_crc c =
      let c = crc32_compute32 h.rev c in
      let c = crc32_compute32 h.hdr_sz c in
      let c = crc32_compute32 0 c in
      let c = crc32_compute32 0 c in
      let c = crc32_compute64 h.my_lba c in
      let c = crc32_compute64 h.alt_lba c in
      let c = crc32_compute64 h.first_usable_lba c in crc32_compute64 h.last_usable_lba c

  Feeds-head : Feeds head_crc (field_bytes (head_fields (unsigned h)))
  unfolding head_crc le_bytes
  Feeds-head = Feeds-then (crc32_compute32 h.rev) _ (le_bytes 4 h.rev) _ (Feeds-32 h.rev) (
      Feeds-then (crc32_compute32 h.hdr_sz) _ (le_bytes 4 h.hdr_sz) _ (Feeds-32 h.hdr_sz) (
        Feeds-then (crc32_compute32 0) _ (le_bytes 4 0) _ (Feeds-32 0) (
          Feeds-then (crc32_compute32 0) _ (le_bytes 4 0) _ (Feeds-32 0) (
            Feeds-then (crc32_compute64 h.my_lba) _ (le_bytes 8 h.my_lba) _ (Feeds-64 h.my_lba) (
              Feeds-then (crc32_compute64 h.alt_lba) _ (le_bytes 8 h.alt_lba) _ (Feeds-64 h.alt_lba)
                (Feeds-then (crc32_compute64 h.first_usable_lba) _ (le_bytes 8 h.first_usable_lba) _
                  (Feeds-64 h.first_usable_lba) (Feeds-64 h.last_usable_lba)))))))

  Feeds-sig : Feeds (crc_sig gpt_sig) (field_bytes sig_fields)
  unfolding crc_sig le_bytes
  Feeds-sig = Feeds-then (crc32_compute8 0x45) _ (0x45 ∷ []) _ (Feeds-8 0x45) (
      Feeds-then (crc32_compute8 0x46) _ (0x46 ∷ []) _ (Feeds-8 0x46) (
        Feeds-then (crc32_compute8 0x49) _ (0x49 ∷ []) _ (Feeds-8 0x49) (
          Feeds-then (crc32_compute8 0x20) _ (0x20 ∷ []) _ (Feeds-8 0x20) (
            Feeds-then (crc32_compute8 0x50) _ (0x50 ∷ []) _ (Feeds-8 0x50) (
              Feeds-then (crc32_compute8 0x41) _ (0x41 ∷ []) _ (Feeds-8 0x41) (
                Feeds-then (crc32_compute8 0x52) _ (0x52 ∷ []) _ (Feeds-8 0x52) (Feeds-8 0x54)))))))

  Feeds-hdr : IsGuid h.disk_guid → Feeds (hdr_crc_compute h) (field_bytes (hdr_fields (unsigned h)))
  unfolding hdr_crc_compute tail_crc head_crc
  Feeds-hdr v =
      rw
        (
          field_bytes-append sig_fields (head_fields (unsigned h) ++ guid_on h),
          field_bytes-append (head_fields (unsigned h)) (guid_on h),
        )
        (Feeds-then (crc_sig gpt_sig) (λ c. tail_crc (guid_crc_compute h.disk_guid (head_crc c)))
          (field_bytes sig_fields) _ Feeds-sig
          (Feeds-then head_crc (λ c. tail_crc (guid_crc_compute h.disk_guid c))
            (field_bytes (head_fields (unsigned h))) _ Feeds-head (Feeds-guid_on v)))

-- The checksum of a header is the CRC-32 of the 92 bytes that `gpt_hdr_write` puts on the disk for
-- it with the checksum field at 0, as the specification of the GPT asks.
pub gpt_hdr_crc_create_lem :
    (p : ℕ) (h : GptHdr) (m : Memory)
    → IsGuid h.disk_guid
    → gpt_hdr_crc_create h ≡ checksum (region 92 p (gpt_hdr_write p (record h { hdr_crc32 = 0 }) m))
unfolding gpt_hdr_crc_create
gpt_hdr_crc_create_lem p h m v =
    (checksum-Feeds (hdr_crc_compute h) (field_bytes (hdr_fields (unsigned h))) zero_table
      (Feeds-hdr h v) (inl refl)).0
    ∙ ap checksum (sym bytes)
  where
    bytes : region 92 p (gpt_hdr_write p (unsigned h) m) ≡ field_bytes (hdr_fields (unsigned h))
    bytes =
        ap (λ t. region 92 p t) (gpt_hdr_write-eq p (unsigned h) m)
        ∙ ap₂ (λ n q. region n q (write_fields p (hdr_fields (unsigned h)) m))
            (sym (widths-hdr_fields p (unsigned h) v.node_count)) (omega arith)
        ∙ region-write_fields p (hdr_fields (unsigned h)) 0 m
            (IsGapless-hdr_fields p (unsigned h) v.node_count)
