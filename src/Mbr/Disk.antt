-- ===== src/Mbr/Disk.antt =====
-- The MBR sector as fields, and what writing one and reading it back gives.
use native.Mathlib.Nat.{add_assoc, mod-eq_of_lt}
use partman.Base.{
  ℕ, ◌+◌, ◌^◌, ◌≤◌, ◌<◌, List, [], ◌∷◌, ◌++◌, ◌≡◌, ◌⊎◌, inl, inr, ◌∙◌, true, arith, ==_iff,
}
use partman.MemUtils.{Memory, IsBytes, read_pu8, read_pu16, read_pu24, read_pu32}
use partman.MemUtils.Bytes.{
  write_le, write_le-above, write_pu8-eq, write_pu16-eq, write_pu24-eq, write_pu32-eq, read_pu8-eq,
  read_pu16-eq, read_pu24-eq, read_pu32-eq,
}
use partman.MemUtils.Layout.{
  Field, field, write_fields, Reads, write_fields-Reads, write_fields-IsBytes, write_fields-below,
  write_fields-above, Reads-append,
}
use partman.Mbr.{
  MbrPart, Mbr, mbr_boot_sig, mbr_part_write, mbr_part_read, mbr_write, mbr_read, mbr_is_present,
}

-- The ranges of the fields of an entry on the disk.
pub record IsMbrPart (part : MbrPart) : Type 0 where
  pub boot_ind : part.boot_ind < 2 ^ 8
  pub start_chs : part.start_chs < 2 ^ 24
  pub type : part.type < 2 ^ 8
  pub end_chs : part.end_chs < 2 ^ 24
  pub start_lba : part.start_lba < 2 ^ 32
  pub sz_lba : part.sz_lba < 2 ^ 32

abbrev pub part_fields : ℕ → MbrPart → List Field
part_fields o part =
    field o 1 part.boot_ind
    ∷ field (o + 1) 3 part.start_chs
    ∷ field (o + 4) 1 part.type
    ∷ field (o + 5) 3 part.end_chs
    ∷ field (o + 8) 4 part.start_lba
    ∷ field (o + 12) 4 part.sz_lba
    ∷ []

module _ (p : ℕ) where
  part_write-eq :
      (o : ℕ) (part : MbrPart) (m : Memory)
      → mbr_part_write (p + o) part m ≡ write_fields p (part_fields o part) m
  unfolding mbr_part_write
  part_write-eq o part m = simp (add_assoc, write_pu8-eq, write_pu24-eq, write_pu32-eq)

  part_read-eq :
      (o : ℕ) (part : MbrPart) (m : Memory)
      → IsBytes m
      → IsMbrPart part
      → Reads p (part_fields o part) m
      → mbr_part_read (p + o) m ≡ part
  unfolding mbr_part_read
  part_read-eq o part m b v r = λ i. record {
    boot_ind = (read_pu8-eq (p + o) m b ∙ r.0 ∙ mod-eq_of_lt v.boot_ind) i;
    start_chs = chs i;
    type = type i;
    end_chs = end_chs i;
    start_lba = start_lba i;
    sz_lba = sz_lba i;
  }
    where
      chs : read_pu24 (p + o + 1) m ≡ part.start_chs
      chs = rw (add_assoc p o 1) (read_pu24-eq _ m b ∙ r.1.0 ∙ mod-eq_of_lt v.start_chs)

      type : read_pu8 (p + o + 4) m ≡ part.type
      type = rw (add_assoc p o 4) (read_pu8-eq _ m b ∙ r.1.1.0 ∙ mod-eq_of_lt v.type)

      end_chs : read_pu24 (p + o + 5) m ≡ part.end_chs
      end_chs = rw (add_assoc p o 5) (read_pu24-eq _ m b ∙ r.1.1.1.0 ∙ mod-eq_of_lt v.end_chs)

      start_lba : read_pu32 (p + o + 8) m ≡ part.start_lba
      start_lba = rw (add_assoc p o 8) (read_pu32-eq _ m b ∙ r.1.1.1.1.0 ∙ mod-eq_of_lt v.start_lba)

      sz_lba : read_pu32 (p + o + 12) m ≡ part.sz_lba
      sz_lba = rw (add_assoc p o 12) (read_pu32-eq _ m b ∙ r.1.1.1.1.1.0 ∙ mod-eq_of_lt v.sz_lba)

-- The four entries of a table that an MBR holds.
abbrev pub four : MbrPart → MbrPart → MbrPart → MbrPart → List MbrPart
four a b c d = a ∷ b ∷ c ∷ d ∷ []

module _ (p sig : ℕ) (a b c d : MbrPart) where
  abbrev mbr : Mbr
  mbr = record { disk_sig = sig; partitions = four a b c d }

  abbrev fields_510 : List Field
  fields_510 = field 510 2 mbr_boot_sig ∷ []

  abbrev fields_494 : List Field
  fields_494 = part_fields 494 d ++ fields_510

  abbrev fields_478 : List Field
  fields_478 = part_fields 478 c ++ fields_494

  abbrev fields_462 : List Field
  fields_462 = part_fields 462 b ++ fields_478

  abbrev fields_446 : List Field
  fields_446 = part_fields 446 a ++ fields_462

  abbrev mbr_fields : List Field
  mbr_fields = field 440 4 sig ∷ fields_446

  pub mbr_write-eq : (m : Memory) → mbr_write p mbr m ≡ write_fields p mbr_fields m
  unfolding mbr_write
  mbr_write-eq m = simp (part_write-eq, write_pu16-eq, write_pu32-eq)

  -- What is read from a memory with these fields.
  -- No byte outside the two stretches is written.
  mbr_write_outside :
      (m : Memory) (q : ℕ)
      → (q < p + 440) ⊎ (((p + 444 ≤ q) × (q < p + 446)) ⊎ (p + 512 ≤ q))
      → write_fields p mbr_fields m q ≡ m q
  mbr_write_outside m q (inl h) = write_fields-below p mbr_fields 440 m q (omega arith) h
  mbr_write_outside m q (inr (inl h)) =
      write_fields-below p fields_446 446 (write_le 4 (p + 440) sig m) q (omega arith) h.1
      ∙ write_le-above 4 (p + 440) sig m q (omega arith)
  mbr_write_outside m q (inr (inr h)) = write_fields-above p mbr_fields 512 m q (omega arith) h

  pub mbr_read-eq :
      (m : Memory)
      → IsBytes m
      → sig < 2 ^ 32
      → IsMbrPart a
      → IsMbrPart b
      → IsMbrPart c
      → IsMbrPart d
      → Reads p mbr_fields m
      → (mbr_read p m ≡ mbr) × (mbr_is_present p m ≡ true)
  unfolding mbr_read mbr_is_present
  mbr_read-eq m bytes hs ha hb hc hd r =
      let (ra, r1) = Reads-append p (part_fields 446 a) fields_462 m r.1 in
      let (rb, r2) = Reads-append p (part_fields 462 b) fields_478 m r1 in
      let (rc, r3) = Reads-append p (part_fields 478 c) fields_494 m r2 in
      let (rd, r4) = Reads-append p (part_fields 494 d) fields_510 m r3 in
      (
        λ i. record {
          disk_sig = (read_pu32-eq (p + 440) m bytes ∙ r.0 ∙ mod-eq_of_lt hs) i;
          partitions =
              four (part_read-eq p 446 a m bytes ha ra i) (part_read-eq p 462 b m bytes hb rb i)
                (part_read-eq p 478 c m bytes hc rc i) (part_read-eq p 494 d m bytes hd rd i);
        },
        (==_iff (read_pu16 (p + 510) m) mbr_boot_sig).1 (read_pu16-eq (p + 510) m bytes ∙ r4.0),
      )

-- An MBR with fields in range, written to a memory of bytes, is read back unchanged, its boot signature
-- is found, and the memory still holds bytes; of the memory only the disk signature at 440 to 443 and
-- the bytes 446 to 511 have changed, so that the bootstrap code stays.
pub mbr_read-mbr_write :
    (p sig : ℕ) (a b c d : MbrPart) (m : Memory)
    → IsBytes m
    → sig < 2 ^ 32
    → IsMbrPart a
    → IsMbrPart b
    → IsMbrPart c
    → IsMbrPart d
    → let mbr : Mbr = record { disk_sig = sig; partitions = a ∷ b ∷ c ∷ d ∷ [] } in
      let m' = mbr_write p mbr m in
      (mbr_read p m' ≡ mbr)
      × (mbr_is_present p m' ≡ true)
      × IsBytes m'
      × ((q : ℕ) → (q < p + 440) ⊎ (((p + 444 ≤ q) × (q < p + 446)) ⊎ (p + 512 ≤ q)) → m' q ≡ m q)
mbr_read-mbr_write p sig a b c d m bytes hs ha hb hc hd =
    rw (mbr_write-eq p sig a b c d m) (back.0, back.1, kept, mbr_write_outside p sig a b c d m)
  where
    m' : Memory
    m' = write_fields p (mbr_fields p sig a b c d) m

    kept : IsBytes m'
    kept = write_fields-IsBytes p (mbr_fields p sig a b c d) m bytes

    back : (mbr_read p m' ≡ mbr p sig a b c d) × (mbr_is_present p m' ≡ true)
    back =
        mbr_read-eq p sig a b c d m' kept hs ha hb hc hd
          (write_fields-Reads p (mbr_fields p sig a b c d) 440 m (omega arith))
