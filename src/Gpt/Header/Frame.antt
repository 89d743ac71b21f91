-- ===== src/Gpt/Header/Frame.antt =====
-- A header is read back from any memory that agrees with the written one on its 92 bytes.
use partman.Base.{ℕ, ◌+◌, ◌≤◌, ◌<◌, ◌≡◌, ap, ◌∙◌, true, arith}
use partman.MemUtils.{Memory, IsBytes}
use partman.MemUtils.Layout.{write_fields, IsIncreasing, IsWithin, write_fields-Reads, Reads-congr}
use partman.MemUtils.Region.{IsGapless, IsGapless-IsIncreasing, IsGapless-IsWithin}
use partman.Gpt.{GptHdr, gpt_hdr_write, gpt_hdr_read, gpt_is_present}
use partman.Gpt.Header.{
  IsGptHdr, hdr_fields, gpt_hdr_write-eq, gpt_hdr_read-eq, IsGapless-hdr_fields, widths-hdr_fields,
}

pub gpt_hdr_read-agrees :
    (p : ℕ) (h : GptHdr) (m m' : Memory)
    → IsBytes m'
    → IsGptHdr h
    → ((q : ℕ) → p ≤ q → q < p + 92 → m' q ≡ gpt_hdr_write p h m q)
    → (gpt_hdr_read p m' ≡ h) × (gpt_is_present p m' ≡ true)
gpt_hdr_read-agrees p h m m' b' v same = gpt_hdr_read-eq p h m' b' v (
    Reads-congr p (hdr_fields h) 0 92 (write_fields p (hdr_fields h) m) m' inc win
      (λ q l u. same q (omega arith) u ∙ ap (λ t. t q) (gpt_hdr_write-eq p h m))
      (write_fields-Reads p (hdr_fields h) 0 m inc))
  where
    gapless : IsGapless 0 (hdr_fields h)
    gapless = IsGapless-hdr_fields p h v.disk_guid.node_count

    inc : IsIncreasing 0 (hdr_fields h)
    inc = IsGapless-IsIncreasing (hdr_fields h) 0 gapless

    win : IsWithin 92 (hdr_fields h)
    win =
        IsGapless-IsWithin (hdr_fields h) 0 92 gapless
          (omega (arith, widths-hdr_fields p h v.disk_guid.node_count))
