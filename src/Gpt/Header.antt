-- ===== src/Gpt/Header.antt =====
-- The GPT header on the disk: `gpt_hdr_write`, `gpt_hdr_read`, `gpt_is_present` and the checksum
-- `gpt_hdr_crc_create`.
pub mod Frame
use native.Mathlib.Nat.{add_assoc, mod-eq_of_lt}
use partman.Base.{
  ℕ, ◌+◌, ◌^◌, ◌≤◌, ◌<◌, List, [], ◌∷◌, ◌++◌, ◌≡◌, ◌⊎◌, inl, inr, refl, ap, ◌∙◌, sym, true, arith,
  ◌==◌, ==_iff, length,
}
use partman.MemUtils.{Memory, IsBytes}
use partman.MemUtils.Bytes.{
  write_pu8-eq, write_pu32-eq, write_pu64-eq, read_le, read_pu32-eq, read_pu64-eq,
}
use partman.MemUtils.Layout.{
  Field, field, write_fields, Reads, write_fields-Reads, write_fields-IsBytes, write_fields-below,
  write_fields-above, Reads-append, write_fields-append,
}
use partman.MemUtils.Region.{IsGapless, IsGapless-IsIncreasing, IsGapless-IsWithin, widths}
use partman.Guid.{IsGuid, AllBytes, node_cnt}
use partman.Guid.Disk.{
  node_fields, guid_fields, guid_write-eq, guid_read-eq, IsGapless-guid_fields, widths-guid_fields,
}
use partman.Gpt.{GptHdr, gpt_sig, write_sig, gpt_hdr_write, gpt_hdr_read, gpt_is_present, has_bytes}

-- The ranges of a header's fields on the disk.
pub record IsGptHdr (h : GptHdr) : Type 0 where
  pub rev : h.rev < 2 ^ 32
  pub hdr_sz : h.hdr_sz < 2 ^ 32
  pub hdr_crc32 : h.hdr_crc32 < 2 ^ 32
  pub my_lba : h.my_lba < 2 ^ 64
  pub alt_lba : h.alt_lba < 2 ^ 64
  pub first_usable_lba : h.first_usable_lba < 2 ^ 64
  pub last_usable_lba : h.last_usable_lba < 2 ^ 64
  pub disk_guid : IsGuid h.disk_guid
  pub part_table_lba : h.part_table_lba < 2 ^ 64
  pub part_table_entry_cnt : h.part_table_entry_cnt < 2 ^ 32
  pub part_entry_sz : h.part_entry_sz < 2 ^ 32
  pub part_table_crc32 : h.part_table_crc32 < 2 ^ 32

abbrev pub sig_fields : List Field
sig_fields = node_fields 0 gpt_sig

abbrev pub head_fields : GptHdr → List Field
head_fields h =
    field 8 4 h.rev
    ∷ field 12 4 h.hdr_sz
    ∷ field 16 4 h.hdr_crc32
    ∷ field 20 4 0
    ∷ field 24 8 h.my_lba
    ∷ field 32 8 h.alt_lba
    ∷ field 40 8 h.first_usable_lba
    ∷ field 48 8 h.last_usable_lba
    ∷ []

abbrev pub tail_fields : GptHdr → List Field
tail_fields h =
    field 72 8 h.part_table_lba
    ∷ field 80 4 h.part_table_entry_cnt
    ∷ field 84 4 h.part_entry_sz
    ∷ field 88 4 h.part_table_crc32
    ∷ []

abbrev pub guid_on : GptHdr → List Field
guid_on h = guid_fields 56 h.disk_guid ++ tail_fields h

abbrev pub hdr_fields : GptHdr → List Field
hdr_fields h = sig_fields ++ (head_fields h ++ guid_on h)

module _ (p : ℕ) where
  write_sig-eq :
      (o : ℕ) (xs : List ℕ) (m : Memory)
      → write_sig (p + o) xs m ≡ write_fields p (node_fields o xs) m
  unfolding write_sig
  write_sig-eq o [] m = refl
  write_sig-eq o (x ∷ xs) m =
      rw (add_assoc p o 1, write_pu8-eq (p + o) x m) (write_sig-eq (o + 1) xs _)

  has_bytes-eq :
      (o : ℕ) (xs : List ℕ) (m : Memory)
      → AllBytes xs
      → Reads p (node_fields o xs) m
      → has_bytes (p + o) xs m ≡ true
  unfolding has_bytes read_le
  has_bytes-eq o [] m b r = refl
  has_bytes-eq o (x ∷ xs) m b r = rw (here, add_assoc p o 1) (has_bytes-eq (o + 1) xs m b.1 r.1)
    where
      here : (m (p + o) == x) ≡ true
      here = (==_iff (m (p + o)) x).1 (omega (arith, r.0, b.0))

module _ (p : ℕ) (h : GptHdr) where
  pub gpt_hdr_write-eq : (m : Memory) → gpt_hdr_write p h m ≡ write_fields p (hdr_fields h) m
  unfolding gpt_hdr_write
  gpt_hdr_write-eq m =
      simp (write_pu32-eq, write_pu64-eq, guid_write-eq)
        (ap
            (λ t.
              write_fields p (tail_fields h)
                (write_fields p (guid_fields 56 h.disk_guid) (write_fields p (head_fields h) t)))
            (ap (λ t. write_sig t gpt_sig m) (omega arith) ∙ write_sig-eq p 0 gpt_sig m)
          ∙ sym (
              write_fields-append p (guid_fields 56 h.disk_guid) (tail_fields h)
                (write_fields p (head_fields h) (write_fields p sig_fields m))))

  pub IsGapless-hdr_fields : length h.disk_guid.nodes ≡ node_cnt → IsGapless 0 (hdr_fields h)
  IsGapless-hdr_fields e = (
    refl,
    (
      refl,
      (
        refl,
        (
          refl,
          (
            refl,
            (
              refl,
              (
                refl,
                (
                  refl,
                  (
                    refl,
                    (
                      refl,
                      (
                        refl,
                        (
                          refl,
                          (
                            refl,
                            (
                              refl,
                              (
                                refl,
                                (
                                  refl,
                                  IsGapless-guid_fields 56 h.disk_guid (tail_fields h) e
                                      (refl, (refl, (refl, (refl, tt)))),
                                ),
                              ),
                            ),
                          ),
                        ),
                      ),
                    ),
                  ),
                ),
              ),
            ),
          ),
        ),
      ),
    ),
  )

  pub gpt_hdr_read-eq :
      (m : Memory)
      → IsBytes m
      → IsGptHdr h
      → Reads p (hdr_fields h) m
      → (gpt_hdr_read p m ≡ h) × (gpt_is_present p m ≡ true)
  unfolding gpt_hdr_read gpt_is_present
  gpt_hdr_read-eq m b v r =
      let (rs, r1) = Reads-append p sig_fields (head_fields h ++ guid_on h) m r in
      let (rh, r2) = Reads-append p (head_fields h) (guid_on h) m r1 in
      let (rg, rt) = Reads-append p (guid_fields 56 h.disk_guid) (tail_fields h) m r2 in
      (
        λ i. record {
          rev = (read_pu32-eq (p + 8) m b ∙ rh.0 ∙ mod-eq_of_lt v.rev) i;
          hdr_sz = (read_pu32-eq (p + 12) m b ∙ rh.1.0 ∙ mod-eq_of_lt v.hdr_sz) i;
          hdr_crc32 = (read_pu32-eq (p + 16) m b ∙ rh.1.1.0 ∙ mod-eq_of_lt v.hdr_crc32) i;
          my_lba = (read_pu64-eq (p + 24) m b ∙ rh.1.1.1.1.0 ∙ mod-eq_of_lt v.my_lba) i;
          alt_lba = (read_pu64-eq (p + 32) m b ∙ rh.1.1.1.1.1.0 ∙ mod-eq_of_lt v.alt_lba) i;
          first_usable_lba =
              (read_pu64-eq (p + 40) m b ∙ rh.1.1.1.1.1.1.0 ∙ mod-eq_of_lt v.first_usable_lba) i;
          last_usable_lba =
              (read_pu64-eq (p + 48) m b ∙ rh.1.1.1.1.1.1.1.0 ∙ mod-eq_of_lt v.last_usable_lba) i;
          disk_guid = guid_read-eq p 56 h.disk_guid m b v.disk_guid rg i;
          part_table_lba = (read_pu64-eq (p + 72) m b ∙ rt.0 ∙ mod-eq_of_lt v.part_table_lba) i;
          part_table_entry_cnt =
              (read_pu32-eq (p + 80) m b ∙ rt.1.0 ∙ mod-eq_of_lt v.part_table_entry_cnt) i;
          part_entry_sz = (read_pu32-eq (p + 84) m b ∙ rt.1.1.0 ∙ mod-eq_of_lt v.part_entry_sz) i;
          part_table_crc32 =
              (read_pu32-eq (p + 88) m b ∙ rt.1.1.1.0 ∙ mod-eq_of_lt v.part_table_crc32) i;
        },
        ap (λ t. has_bytes t gpt_sig m) (omega arith) ∙ has_bytes-eq p 0 gpt_sig m (omega arith) rs,
      )

  pub widths-hdr_fields : length h.disk_guid.nodes ≡ node_cnt → widths (hdr_fields h) ≡ 92
  widths-hdr_fields e = omega (arith, widths-guid_fields 56 h.disk_guid (tail_fields h) e)

  hdr_write_outside :
      (m : Memory) (q : ℕ)
      → length h.disk_guid.nodes ≡ node_cnt
      → (q < p) ⊎ (p + 92 ≤ q)
      → write_fields p (hdr_fields h) m q ≡ m q
  hdr_write_outside m q e (inl l) =
      write_fields-below p (hdr_fields h) 0 m q
        (IsGapless-IsIncreasing (hdr_fields h) 0 (IsGapless-hdr_fields e)) (omega arith)
  hdr_write_outside m q e (inr l) =
      write_fields-above p (hdr_fields h) 92 m q
        (IsGapless-IsWithin (hdr_fields h) 0 92 (IsGapless-hdr_fields e)
          (omega (arith, widths-hdr_fields e)))
        l

-- A header with fields in range, written to a memory of bytes, is read back unchanged and its
-- signature is found; no byte outside its 92 is changed, and the memory still holds bytes.
pub gpt_hdr_read-gpt_hdr_write :
    (p : ℕ) (h : GptHdr) (m : Memory)
    → IsBytes m
    → IsGptHdr h
    → let m' = gpt_hdr_write p h m in
      (gpt_hdr_read p m' ≡ h)
      × (gpt_is_present p m' ≡ true)
      × IsBytes m'
      × ((q : ℕ) → (q < p) ⊎ (p + 92 ≤ q) → m' q ≡ m q)
gpt_hdr_read-gpt_hdr_write p h m b v =
    rw (gpt_hdr_write-eq p h m) (back.0, back.1, kept, λ q o. hdr_write_outside p h m q count o)
  where
    count : length h.disk_guid.nodes ≡ node_cnt
    count = v.disk_guid.node_count

    m' : Memory
    m' = write_fields p (hdr_fields h) m

    kept : IsBytes m'
    kept = write_fields-IsBytes p (hdr_fields h) m b

    back : (gpt_hdr_read p m' ≡ h) × (gpt_is_present p m' ≡ true)
    back = gpt_hdr_read-eq p h m' kept v (
        write_fields-Reads p (hdr_fields h) 0 m
          (IsGapless-IsIncreasing (hdr_fields h) 0 (IsGapless-hdr_fields p h count)))
