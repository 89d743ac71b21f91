-- ===== src/Gpt/Recovery.antt =====
-- What `gpt_pair_load` and `gpt_load` promise about what they have loaded or restored.
use partman.Base.{
  ℕ, zero, suc, ◌+◌, ◌≤◌, ◌<◌, List, [], ◌∷◌, length, take, get_or, set, length-set, ◌≡◌, refl, ap,
  ap₂, ◌∙◌, sym, arith, true, not, ltb, Option, none, some, if◌then◌else◌, min, Bool-cases, inl,
  inr,
}
use mathlib.Core.Path.{subst}
use partman.ImgCtx.{ImgCtx}
use partman.MemUtils.{Memory}
use partman.World.{World}
use partman.Gpt.{
  GptHdr, GptPartEnt, zero_ent, gpt_max_part_cnt, gpt_hdr_crc_create, gpt_table_crc_create,
  gpt_hdr_is_valid, gpt_table_is_valid, gpt_is_present, gpt_hdr_read, gpt_table_read, read_entries,
  copy_entries,
}
use partman.Gpt.Region.{map_secs, unmap_secs}
use partman.Gpt.Pair.{
  PairLoadRes, Pair, unmap_if, unmap_both, leave_load, load_table, load_hdr, gpt_pair_load, is_ok,
}

-- A header and a table whose checksums are right, in an array of 128 entries.
pub record IsValidPair (hdr : GptHdr) (table : List GptPartEnt) : Type 0 where
  pub hdr_crc : hdr.hdr_crc32 ≡ gpt_hdr_crc_create hdr
  pub table_crc : hdr.part_table_crc32 ≡ gpt_table_crc_create table hdr.part_table_entry_cnt
  pub count : hdr.part_table_entry_cnt ≤ gpt_max_part_cnt
  pub size : length table ≡ gpt_max_part_cnt

abbrev tail : List GptPartEnt → List GptPartEnt
tail [] = []
tail (x ∷ xs) = xs

take-set :
    (xs ys : List GptPartEnt) (i : ℕ)
    → length xs ≡ length ys
    → i < length ys
    → take i xs ≡ take i ys
    → take (suc i) (set xs i (get_or ys i zero_ent)) ≡ take (suc i) ys
take-set xs [] i e h same = absurd (omega arith)
take-set [] (y ∷ ys) i e h same = absurd (omega arith)
take-set (x ∷ xs) (y ∷ ys) zero e h same = refl
take-set (x ∷ xs) (y ∷ ys) (suc i) e h same =
    ap₂ ◌∷◌ (ap (λ (l : List GptPartEnt). get_or l 0 zero_ent) same)
      (take-set xs ys i (omega arith) (omega arith) (ap tail same))

module _ (src : List GptPartEnt) where
  pub length-copy_entries :
      (left i : ℕ) (dst : List GptPartEnt) → length (copy_entries left i dst src) ≡ length dst
  unfolding copy_entries
  length-copy_entries zero i dst = refl
  length-copy_entries (suc left) i dst =
      length-copy_entries left (i + 1) (set dst i (get_or src i zero_ent))
      ∙ length-set dst i (get_or src i zero_ent)

  -- Entries below `i` that agree already, and those that the loop copies.
  pub take-copy_entries :
      (left i : ℕ) (dst : List GptPartEnt)
      → length dst ≡ length src
      → i + left ≤ length src
      → take i dst ≡ take i src
      → take (i + left) (copy_entries left i dst src) ≡ take (i + left) src
  unfolding copy_entries
  take-copy_entries zero i dst e h same =
      ap (λ t. take t dst) (omega arith) ∙ same ∙ ap (λ t. take t src) (omega arith)
  take-copy_entries (suc left) i dst e h same =
      ap (λ t. take t (copy_entries left (i + 1) dst' src)) (omega arith)
      ∙ take-copy_entries left (i + 1) dst' (length-set dst i v ∙ e) (omega arith) next
      ∙ ap (λ t. take t src) (omega arith)
    where
      v : GptPartEnt
      v = get_or src i zero_ent

      dst' : List GptPartEnt
      dst' = set dst i v

      next : take (i + 1) dst' ≡ take (i + 1) src
      next =
          ap (λ t. take t dst') {y = suc i} (omega arith)
          ∙ take-set dst src i e (omega arith) same
          ∙ ap (λ t. take t src) {x = suc i} (omega arith)

length-read_entries :
    (left i p sz : ℕ) (table : List GptPartEnt) (m : Memory)
    → length (read_entries left i p table sz m) ≡ length table
unfolding read_entries
length-read_entries zero i p sz table m = refl
length-read_entries (suc left) i p sz table m =
    length-read_entries left (i + 1) p sz _ m ∙ length-set table i _

pub length-gpt_table_read :
    (p n sz : ℕ) (table : List GptPartEnt) (m : Memory)
    → length (gpt_table_read p table n sz m) ≡ length table
unfolding gpt_table_read
length-gpt_table_read p n sz table m = length-read_entries (min n gpt_max_part_cnt) 0 p sz table m

leave_load_lem :
    (r : PairLoadRes) (pair : Pair) (hdr_reg : Option ℕ) (lba : ℕ) (table_reg : Option ℕ)
    (ctx : ImgCtx) (w : World)
    → let (res, pair', w') = leave_load r pair hdr_reg lba table_reg ctx w in
      (pair' ≡ pair) × (w'.image ≡ w.image) × (is_ok res ≡ true → is_ok r ≡ true)
unfolding leave_load unmap_both unmap_if unmap_secs
leave_load_lem r pair none lba none ctx w = ground arith
leave_load_lem r pair none lba (some y) ctx w = ground arith
leave_load_lem r pair (some x) lba none ctx w = ground arith
leave_load_lem r pair (some x) lba (some y) ctx w = ground arith

-- What a load of the header at `lba` with the image `image` may leave.
record IsLoad (lba : ℕ) (image : Memory) (result : PairLoadRes × Pair × World) : Type 0 where
  pub same : result.2.image ≡ image
  pub size : length result.1.table ≡ gpt_max_part_cnt
  pub valid :
      is_ok result.0 ≡ true → IsValidPair result.1.hdr result.1.table × (result.1.hdr.my_lba ≡ lba)

leave_load-IsLoad :
    (r : PairLoadRes) (pair : Pair) (hdr_reg : Option ℕ) (lba : ℕ) (table_reg : Option ℕ)
    (ctx : ImgCtx) (w : World)
    → length pair.table ≡ gpt_max_part_cnt
    → (is_ok r ≡ true → IsValidPair pair.hdr pair.table × (pair.hdr.my_lba ≡ lba))
    → IsLoad lba w.image (leave_load r pair hdr_reg lba table_reg ctx w)
leave_load-IsLoad r pair hdr_reg lba table_reg ctx w e v =
    let all = leave_load_lem r pair hdr_reg lba table_reg ctx w in
    record {
      same = all.1;
      size = ap (λ (t : Pair). length t.table) all.0 ∙ e;
      valid = λ ok.
          subst (λ (t : Pair). IsValidPair t.hdr t.table × (t.hdr.my_lba ≡ lba)) (sym all.0)
            (v (all.2 ok));
    }

hdr_checked :
    (hdr : GptHdr) (lba : ℕ)
    → gpt_hdr_is_valid hdr lba ≡ true
    → (hdr.hdr_crc32 ≡ gpt_hdr_crc_create hdr) × (hdr.my_lba ≡ lba)
unfolding gpt_hdr_is_valid
hdr_checked hdr lba v = ground arith

table_checked :
    (hdr : GptHdr) (table : List GptPartEnt)
    → is_ok (
        if not (gpt_table_is_valid hdr table)
        then PairLoadRes.gpt_pair_load_table_inv
        else PairLoadRes.gpt_pair_load_ok)
      ≡ true
    → hdr.part_table_crc32 ≡ gpt_table_crc_create table hdr.part_table_entry_cnt
unfolding gpt_table_is_valid
table_checked hdr table ok = ground arith

load_table-IsLoad :
    (pair : Pair) (ctx : ImgCtx) (hdr_reg : Option ℕ) (lba : ℕ) (table_reg : Option ℕ) (w : World)
    → length pair.table ≡ gpt_max_part_cnt
    → gpt_hdr_is_valid pair.hdr lba ≡ true
    → pair.hdr.part_table_entry_cnt ≤ gpt_max_part_cnt
    → IsLoad lba w.image (load_table pair ctx hdr_reg lba table_reg w)
unfolding load_table
load_table-IsLoad pair ctx hdr_reg lba none w e v c =
    leave_load-IsLoad PairLoadRes.gpt_pair_load_fatal pair hdr_reg lba none ctx w e
      (λ k. ground arith)
load_table-IsLoad pair ctx hdr_reg lba (some reg) w e v c =
    leave_load-IsLoad _ (record { hdr = pair.hdr; table = table }) hdr_reg lba (some reg) ctx w size
      (λ ok. (
        record {
          hdr_crc = (hdr_checked pair.hdr lba v).0;
          table_crc = table_checked pair.hdr table ok;
          count = c;
          size = size;
        },
        (hdr_checked pair.hdr lba v).1,
      ))
  where
    table : List GptPartEnt
    table =
        gpt_table_read reg pair.table pair.hdr.part_table_entry_cnt pair.hdr.part_entry_sz w.image

    size : length table ≡ gpt_max_part_cnt
    size =
        length-gpt_table_read reg pair.hdr.part_table_entry_cnt pair.hdr.part_entry_sz pair.table
          w.image
        ∙ e

load_hdr-IsLoad :
    (pair : Pair) (ctx : ImgCtx) (lba : ℕ) (hdr_reg : Option ℕ) (w : World)
    → length pair.table ≡ gpt_max_part_cnt
    → IsLoad lba w.image (load_hdr pair ctx lba hdr_reg w)
unfolding load_hdr load_table map_secs
load_hdr-IsLoad pair ctx lba none w e = record { same = refl; size = e; valid = λ k. ground arith }
load_hdr-IsLoad pair ctx lba (some reg) w e = elim (Bool-cases (gpt_is_present reg w.image)) [
  | inr p ↦ rw p (
      leave_load-IsLoad PairLoadRes.gpt_pair_load_hdr_inv pair (some reg) lba none ctx w e
        (λ k. ground arith))
  | inl p ↦ elim (Bool-cases (gpt_hdr_is_valid hdr lba)) [
    | inr v ↦
        rw (p, v)
          (leave_load-IsLoad PairLoadRes.gpt_pair_load_hdr_inv read (some reg) lba none ctx w e
            (λ k. ground arith))
    | inl v ↦ elim (Bool-cases (ltb gpt_max_part_cnt hdr.part_table_entry_cnt)) [
      | inl c ↦
          rw (p, v, c)
            (leave_load-IsLoad PairLoadRes.gpt_pair_load_fatal read (some reg) lba none ctx w e
              (λ k. ground arith))
      | inr c ↦ rw (p, v, c) (load_table-IsLoad read ctx (some reg) lba _ _ e v (ground arith))
    ]
  ]
]
  where
    hdr : GptHdr
    hdr = gpt_hdr_read reg w.image

    read : Pair
    read = record pair { hdr = hdr }

-- A load of a header, from its mapping on.
pub gpt_pair_load-all :
    (pair : Pair) (ctx : ImgCtx) (hdr_lba : ℕ) (w : World)
    → length pair.table ≡ gpt_max_part_cnt
    → let (res, pair', w') = gpt_pair_load pair ctx hdr_lba w in
      (w'.image ≡ w.image)
      × (length pair'.table ≡ gpt_max_part_cnt)
      × (is_ok res ≡ true → IsValidPair pair'.hdr pair'.table × (pair'.hdr.my_lba ≡ hdr_lba))
unfolding gpt_pair_load map_secs
gpt_pair_load-all pair ctx hdr_lba w e =
    let (mapped, w1) = map_secs ctx hdr_lba 1 w in
    let load : IsLoad hdr_lba w.image (gpt_pair_load pair ctx hdr_lba w) =
      load_hdr-IsLoad pair ctx hdr_lba mapped w1 e in
    (load.same, load.size, load.valid)

-- A load of a header and its table that reports success does not change the image; both checksums
-- are right, the header says that it stands where it was read, and the table has at most 128 entries.
pub gpt_pair_load_lem :
    (pair : Pair) (ctx : ImgCtx) (hdr_lba : ℕ) (w : World)
    → length pair.table ≡ gpt_max_part_cnt
    → (gpt_pair_load pair ctx hdr_lba w).0 ≡ PairLoadRes.gpt_pair_load_ok
    → let (res, pair', w') = gpt_pair_load pair ctx hdr_lba w in
      (w'.image ≡ w.image) × IsValidPair pair'.hdr pair'.table × (pair'.hdr.my_lba ≡ hdr_lba)
gpt_pair_load_lem pair ctx hdr_lba w e ok =
    let all = gpt_pair_load-all pair ctx hdr_lba w e in
    let valid = all.2 (ap is_ok ok) in (all.0, valid.0, valid.1)
