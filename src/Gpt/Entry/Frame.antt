-- ===== src/Gpt/Entry/Frame.antt =====
-- The bytes of one entry's slot of 128: writing an entry changes no other byte, and an entry is read
-- back from any memory that agrees with the written one on the slot.
use native.Mathlib.Nat.{add-zero}
use mathlib.Core.Path.{subst}
use partman.Base.{
  ℕ, zero, suc, ◌+◌, ◌≤◌, ◌<◌, List, [], ◌∷◌, length, ◌≡◌, refl, ap, ap₂, ◌∙◌, sym, arith,
}
use partman.MemUtils.{Memory, IsBytes, write_pu16}
use partman.MemUtils.Bytes.{write_le-above, read_le_congr, write_pu16-eq, read_pu16-eq}
use partman.MemUtils.Layout.{
  write_fields, Reads, IsIncreasing, IsWithin, write_fields-Reads, write_fields-IsBytes,
  write_fields-below, write_fields-above, Reads-congr,
}
use partman.MemUtils.Region.{IsGapless-IsIncreasing, IsGapless-IsWithin}
use partman.Guid.Disk.{widths-guid_fields}
use partman.Gpt.{GptPartEnt, write_name, read_name, gpt_part_ent_write, gpt_part_ent_read}
use partman.Gpt.Entry.{
  IsGptPartEnt, overlapped, lba_fields, second_fields, ent_fields, gapless, write-eq, ent_read-eq,
  write_name-below, write_name-IsBytes, read_name-write_name,
}

write_name-above :
    (p : ℕ) (xs : List ℕ) (m : Memory) (q : ℕ) → p + length xs + 1 ≤ q → write_name p xs m q ≡ m q
unfolding write_name
write_name-above p [] m q h = refl
write_name-above p (x ∷ xs) m q h =
    write_name-above (p + 1) xs (write_pu16 p x m) q (omega arith)
    ∙ ap (λ t. t q) (write_pu16-eq p x m)
    ∙ write_le-above 2 p x m q (omega arith)

read_name_congr :
    (n p : ℕ) (m m' : Memory)
    → IsBytes m
    → IsBytes m'
    → ((q : ℕ) → p ≤ q → q < p + n + 1 → m' q ≡ m q)
    → read_name n p m' ≡ read_name n p m
unfolding read_name
read_name_congr zero p m m' b b' h = refl
read_name_congr (suc n) p m m' b b' h =
    ap₂ ◌∷◌
      (read_pu16-eq p m' b'
        ∙ read_le_congr 2 p m' m (λ q l u. h q l (omega arith))
        ∙ sym (read_pu16-eq p m b))
      (read_name_congr n (p + 1) m m' b b' (λ q l u. h q (omega arith) (omega arith)))

-- The entry as it comes back.
abbrev pub stored : GptPartEnt → GptPartEnt
stored e = record e { name = overlapped e.name }

module _ (p : ℕ) (e : GptPartEnt) (m : Memory) (v : IsGptPartEnt e) where
  start : Memory
  start = write_fields p (ent_fields e) m

  inc : IsIncreasing 0 (ent_fields e)
  inc = IsGapless-IsIncreasing (ent_fields e) 0 (gapless p e m v)

  win : IsWithin 56 (ent_fields e)
  win = IsGapless-IsWithin (ent_fields e) 0 56 (gapless p e m v) (
      omega (
        arith,
        widths-guid_fields 0 e.type_guid (second_fields e) v.type_guid.node_count,
        widths-guid_fields 16 e.unique_guid (lba_fields e) v.unique_guid.node_count,
      ))

  written : gpt_part_ent_write p e m ≡ write_name (p + 56) e.name start
  unfolding start
  written =
      subst (λ t. gpt_part_ent_write t e m ≡ write_name (t + 56) e.name start) (add-zero p)
        (write-eq p e m v)

  pub gpt_part_ent_write-below : (q : ℕ) → q < p → gpt_part_ent_write p e m q ≡ m q
  unfolding start
  gpt_part_ent_write-below q h =
      ap (λ t. t q) written
      ∙ write_name-below (p + 56) e.name start q (omega arith)
      ∙ write_fields-below p (ent_fields e) 0 m q inc (omega arith)

  pub gpt_part_ent_write-above : (q : ℕ) → p + 128 ≤ q → gpt_part_ent_write p e m q ≡ m q
  unfolding start
  gpt_part_ent_write-above q h =
      ap (λ t. t q) written
      ∙ write_name-above (p + 56) e.name start q (omega (arith, v.name_len))
      ∙ write_fields-above p (ent_fields e) 56 m q win (omega arith)

  pub gpt_part_ent_write-IsBytes : IsBytes m → IsBytes (gpt_part_ent_write p e m)
  unfolding start
  gpt_part_ent_write-IsBytes b =
      subst IsBytes (sym written)
        (write_name-IsBytes (p + 56) e.name start (write_fields-IsBytes p (ent_fields e) m b))

  pub gpt_part_ent_read-agrees :
      (m' : Memory)
      → IsBytes m
      → IsBytes m'
      → ((q : ℕ) → p ≤ q → q < p + 128 → m' q ≡ gpt_part_ent_write p e m q)
      → gpt_part_ent_read p m' ≡ stored e
  unfolding start
  gpt_part_ent_read-agrees m' b b' same =
      subst (λ t. gpt_part_ent_read t m' ≡ record e { name = read_name 36 (t + 56) m' })
        (add-zero p) (ent_read-eq p e m v m' b' reads)
      ∙ ap (λ (n : List ℕ). record e { name = n }) named
    where
      all : Memory
      all = write_name (p + 56) e.name start

      start_bytes : IsBytes start
      start_bytes = write_fields-IsBytes p (ent_fields e) m b

      agrees : (q : ℕ) → p ≤ q → q < p + 128 → m' q ≡ all q
      agrees q l u = same q l u ∙ ap (λ t. t q) written

      reads : Reads p (ent_fields e) m'
      reads =
          Reads-congr p (ent_fields e) 0 56 start m' inc win
            (λ q l u.
              agrees q (omega arith) (omega arith)
              ∙ write_name-below (p + 56) e.name start q (omega arith))
            (write_fields-Reads p (ent_fields e) 0 m inc)

      named : read_name 36 (p + 56) m' ≡ overlapped e.name
      named =
          read_name_congr 36 (p + 56) all m' (write_name-IsBytes (p + 56) e.name start start_bytes)
            b' (λ q l u. agrees q (omega arith) (omega arith))
          ∙ subst (λ n. read_name n (p + 56) all ≡ overlapped e.name) v.name_len
              (read_name-write_name (p + 56) e.name start start_bytes)
