-- ===== src/Gpt/Entry.antt =====
-- One entry of a GPT's table on the disk: `gpt_part_ent_write` and `gpt_part_ent_read`.
-- The characters of the name stand one byte apart, so that each overwrites the high byte of the one
-- before it.
pub mod Frame
use native.Mathlib.Nat.{mod-eq_of_lt, add_assoc, zero-add}
use partman.Base.{
  ℕ, ◌+◌, ◌*◌, ◌/◌, ◌%◌, ◌^◌, ◌<◌, List, [], ◌∷◌, ◌++◌, length, ◌≡◌, refl, ap, ap₂, ◌∙◌, sym, arith,
}
use mathlib.Core.Path.{subst}
use partman.MemUtils.{Memory, IsBytes, store, write_pu16, read_pu16, read_pu64}
use partman.MemUtils.Bytes.{
  write_le, read_le, write_le-below, write_le-IsBytes, write_pu16-eq, write_pu64-eq, read_pu16-eq,
  read_pu64-eq,
}
use partman.MemUtils.Layout.{
  Field, field, write_fields, Reads, IsIncreasing, IsWithin, write_fields-Reads,
  write_fields-IsBytes, write_fields-append, Reads-append, Reads-congr,
}
use partman.MemUtils.Region.{IsGapless, IsGapless-IsIncreasing, IsGapless-IsWithin}
use partman.MemUtils.RoundTrip.{read-write}
use partman.Guid.{IsGuid, guid_read}
use partman.Guid.Disk.{
  guid_fields, guid_write-eq, guid_read-eq, IsGapless-guid_fields, widths-guid_fields,
}
use partman.Gpt.{GptPartEnt, write_name, read_name, gpt_part_ent_write, gpt_part_ent_read}

-- What is read for a name: the low byte of each character, under that of the next.
abbrev pub overlapped : List ℕ → List ℕ
overlapped [] = []
overlapped (x ∷ []) = (x % 2 ^ 16) ∷ []
overlapped (x ∷ (y ∷ rest)) = (x % 256 + 256 * (y % 256)) ∷ overlapped (y ∷ rest)

write_pu16-low : (p x : ℕ) (m : Memory) → write_pu16 p x m p ≡ x % 256
unfolding write_le
write_pu16-low p x m =
    ap (λ t. t p) (write_pu16-eq p x m)
    ∙ write_le-below 1 (p + 1) (x / 256) (store p (x % 256) m) p (omega arith)
    ∙ ground arith

write_pu16-below : (p x : ℕ) (m : Memory) (q : ℕ) → q < p → write_pu16 p x m q ≡ m q
write_pu16-below p x m q h = ap (λ t. t q) (write_pu16-eq p x m) ∙ write_le-below 2 p x m q h

write_pu16-IsBytes : (p x : ℕ) (m : Memory) → IsBytes m → IsBytes (write_pu16 p x m)
write_pu16-IsBytes p x m b = subst IsBytes (sym (write_pu16-eq p x m)) (write_le-IsBytes 2 p x m b)

pub write_name-below :
    (p : ℕ) (xs : List ℕ) (m : Memory) (q : ℕ) → q < p → write_name p xs m q ≡ m q
unfolding write_name
write_name-below p [] m q h = refl
write_name-below p (x ∷ xs) m q h =
    write_name-below (p + 1) xs (write_pu16 p x m) q (omega arith) ∙ write_pu16-below p x m q h

pub write_name-IsBytes :
    (p : ℕ) (xs : List ℕ) (m : Memory) → IsBytes m → IsBytes (write_name p xs m)
unfolding write_name
write_name-IsBytes p [] m b = b
write_name-IsBytes p (x ∷ xs) m b =
    write_name-IsBytes (p + 1) xs (write_pu16 p x m) (write_pu16-IsBytes p x m b)

write_name-low : (p x : ℕ) (xs : List ℕ) (m : Memory) → write_name p (x ∷ xs) m p ≡ x % 256
unfolding write_name
write_name-low p x xs m =
    write_name-below (p + 1) xs (write_pu16 p x m) p (omega arith) ∙ write_pu16-low p x m

pair_of :
    (p : ℕ) (m : Memory) (a b : ℕ)
    → IsBytes m
    → m p ≡ a
    → m (p + 1) ≡ b
    → read_pu16 p m ≡ a + 256 * b
unfolding read_le
pair_of p m a b h e e' = read_pu16-eq p m h ∙ omega (arith, e, e')

pub read_name-write_name :
    (p : ℕ) (xs : List ℕ) (m : Memory)
    → IsBytes m
    → read_name (length xs) p (write_name p xs m) ≡ overlapped xs
unfolding read_name write_name
read_name-write_name p [] m b = refl
read_name-write_name p (x ∷ []) m b = ap (λ t. t ∷ []) (read-write p x m b).1
read_name-write_name p (x ∷ (y ∷ rest)) m b =
    ap₂ ◌∷◌ head
      (read_name-write_name (p + 1) (y ∷ rest) (write_pu16 p x m) (write_pu16-IsBytes p x m b))
  where
    all : Memory
    all = write_name (p + 1) (y ∷ rest) (write_pu16 p x m)

    head : read_pu16 p all ≡ x % 256 + 256 * (y % 256)
    head =
        pair_of p all _ _
          (write_name-IsBytes (p + 1) (y ∷ rest) (write_pu16 p x m) (write_pu16-IsBytes p x m b))
          (write_name-below (p + 1) (y ∷ rest) (write_pu16 p x m) p (omega arith)
            ∙ write_pu16-low p x m)
          (write_name-low (p + 1) y rest (write_pu16 p x m))

abbrev pub lba_fields : GptPartEnt → List Field
lba_fields e = field 32 8 e.start_lba ∷ field 40 8 e.end_lba ∷ field 48 8 e.attr ∷ []

abbrev pub second_fields : GptPartEnt → List Field
second_fields e = guid_fields 16 e.unique_guid ++ lba_fields e

-- The part before the name: 56 bytes, without gaps.
abbrev pub ent_fields : GptPartEnt → List Field
ent_fields e = guid_fields 0 e.type_guid ++ second_fields e

-- The ranges of an entry's fields on the disk.
pub record IsGptPartEnt (e : GptPartEnt) : Type 0 where
  pub type_guid : IsGuid e.type_guid
  pub unique_guid : IsGuid e.unique_guid
  pub start_lba : e.start_lba < 2 ^ 64
  pub end_lba : e.end_lba < 2 ^ 64
  pub attr : e.attr < 2 ^ 64
  pub name_len : length e.name ≡ 36

module _ (p : ℕ) (e : GptPartEnt) (m : Memory) (v : IsGptPartEnt e) where
  pub gapless : IsGapless 0 (ent_fields e)
  gapless = IsGapless-guid_fields 0 e.type_guid (second_fields e) v.type_guid.node_count (
      IsGapless-guid_fields 16 e.unique_guid (lba_fields e) v.unique_guid.node_count
        (refl, (refl, (refl, tt))))

  abbrev before : Memory
  before = write_fields p (ent_fields e) m

  pub write-eq : gpt_part_ent_write (p + 0) e m ≡ write_name (p + 0 + 56) e.name before
  unfolding gpt_part_ent_write
  write-eq =
      simp (add_assoc, write_pu64-eq, guid_write-eq) (ap (write_name (p + 56) e.name) (sym split))
    where
      split :
          before
          ≡ write_fields p (lba_fields e) (
              write_fields p
                (guid_fields 16 e.unique_guid)
                (write_fields p (guid_fields 0 e.type_guid) m))
      split =
          write_fields-append p (guid_fields 0 e.type_guid) (second_fields e) m
          ∙ write_fields-append p (guid_fields 16 e.unique_guid) (lba_fields e)
              (write_fields p (guid_fields 0 e.type_guid) m)

  pub ent_read-eq :
      (m' : Memory)
      → IsBytes m'
      → Reads p (ent_fields e) m'
      → gpt_part_ent_read (p + 0) m' ≡ record e { name = read_name 36 (p + 0 + 56) m' }
  unfolding gpt_part_ent_read
  ent_read-eq m' b r =
      let (rt, r1) = Reads-append p (guid_fields 0 e.type_guid) (second_fields e) m' r in
      let (ru, rl) = Reads-append p (guid_fields 16 e.unique_guid) (lba_fields e) m' r1 in
      λ i. record {
        type_guid = guid_read-eq p 0 e.type_guid m' b v.type_guid rt i;
        unique_guid = guid_at ru i;
        start_lba = at 32 e.start_lba v.start_lba rl.0 i;
        end_lba = at 40 e.end_lba v.end_lba rl.1.0 i;
        attr = at 48 e.attr v.attr rl.1.1.0 i;
        name = read_name 36 (p + 0 + 56) m';
      }
    where
      at : (o x : ℕ) → x < 2 ^ 64 → read_le 8 (p + o) m' ≡ x % 2 ^ 64 → read_pu64 (p + 0 + o) m' ≡ x
      at o x h r = rw (add_assoc p 0 o, zero-add o) (read_pu64-eq (p + o) m' b ∙ r ∙ mod-eq_of_lt h)

      guid_at :
          Reads p (guid_fields 16 e.unique_guid) m' → guid_read (p + 0 + 16) m' ≡ e.unique_guid
      guid_at ru = rw (add_assoc p 0 16) (guid_read-eq p 16 e.unique_guid m' b v.unique_guid ru)

-- An entry with fields in range and a name of 36 characters, written to a memory of bytes and read
-- back, is unchanged but for the name: of each character but the last, the high byte is replaced by
-- the low byte of the next.
pub gpt_part_ent_read-gpt_part_ent_write :
    (p : ℕ) (e : GptPartEnt) (m : Memory)
    → IsBytes m
    → IsGptPartEnt e
    → gpt_part_ent_read p (gpt_part_ent_write p e m) ≡ record e { name = overlapped e.name }
gpt_part_ent_read-gpt_part_ent_write p e m b v =
    subst
      (λ t. gpt_part_ent_read t (gpt_part_ent_write t e m) ≡ record e { name = overlapped e.name })
      {x = p + 0} (omega arith)
      (rw (write-eq p e m v) (
        ent_read-eq p e m v after (write_name-IsBytes (p + 0 + 56) e.name start start_bytes) reads
        ∙ named))
  where
    start : Memory
    start = write_fields p (ent_fields e) m

    start_bytes : IsBytes start
    start_bytes = write_fields-IsBytes p (ent_fields e) m b

    after : Memory
    after = write_name (p + 0 + 56) e.name start

    inc : IsIncreasing 0 (ent_fields e)
    inc = IsGapless-IsIncreasing (ent_fields e) 0 (gapless p e m v)

    win : IsWithin 56 (ent_fields e)
    win = IsGapless-IsWithin (ent_fields e) 0 56 (gapless p e m v) (
        omega (
          arith,
          widths-guid_fields 0 e.type_guid (second_fields e) v.type_guid.node_count,
          widths-guid_fields 16 e.unique_guid (lba_fields e) v.unique_guid.node_count,
        ))

    reads : Reads p (ent_fields e) after
    reads =
        Reads-congr p (ent_fields e) 0 56 start after inc win
          (λ q l h. write_name-below (p + 0 + 56) e.name start q (omega arith))
          (write_fields-Reads p (ent_fields e) 0 m inc)

    named :
        record e { name = read_name 36 (p + 0 + 56) after } ≡ record e { name = overlapped e.name }
    named =
        ap (λ (n : List ℕ). record e { name = n })
          (subst (λ n. read_name n (p + 0 + 56) after ≡ overlapped e.name) (v.name_len)
            (read_name-write_name (p + 0 + 56) e.name start start_bytes))
