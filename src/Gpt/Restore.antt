-- ===== src/Gpt/Restore.antt =====
-- `gpt_load` recovers from the loss of one of the two copies.
use partman.Base.{
  ℕ, List, length, take, ◌≡◌, refl, ap, ◌∙◌, sym, arith, Bool, true, false, ◌||◌, if◌then◌else◌,
  Bool-cases, inl, inr,
}
use mathlib.Core.Path.{subst}
use native.Mathlib.Nat.{zero-add}
use partman.Crc32.{crc32_finalize}
use partman.ImgCtx.{ImgCtx}
use partman.World.{World}
use partman.Schem.{SchemLoadRes}
use partman.Gpt.{
  GptHdr, GptPartEnt, Gpt, gpt_max_part_cnt, gpt_hdr_crc_create, gpt_table_crc_create, crc_entries,
  crc_start, hdr_crc_compute, gpt_restore, mirror, copy_entries,
}
use partman.Gpt.Pair.{PairLoadRes, Pair, gpt_pair_load, gpt_load, recover, is_ok, is_fatal, lba_sec}
use partman.Gpt.Recovery.{IsValidPair, take-copy_entries, length-copy_entries, gpt_pair_load-all}

-- One direction of `gpt_restore`: a copy of a valid pair is valid.
pub copy-IsValidPair :
    (hdr : GptHdr) (src dst : List GptPartEnt) (table_lba : ℕ)
    → IsValidPair hdr src
    → length dst ≡ gpt_max_part_cnt
    → let table = copy_entries hdr.part_table_entry_cnt 0 dst src in
      IsValidPair (mirror hdr table_lba) table
      × (take hdr.part_table_entry_cnt table ≡ take hdr.part_table_entry_cnt src)
unfolding mirror gpt_table_crc_create gpt_hdr_crc_create hdr_crc_compute
copy-IsValidPair hdr src dst table_lba v e = (
  record {
    hdr_crc = refl;
    table_crc = v.table_crc ∙ sym (ap (λ t. crc_of t) same);
    count = v.count;
    size = length-copy_entries src hdr.part_table_entry_cnt 0 dst ∙ e;
  },
  same,
)
  where
    crc_of : List GptPartEnt → ℕ
    crc_of t = (let c = crc_entries t crc_start in crc32_finalize c.crc32)

    same :
        take hdr.part_table_entry_cnt (copy_entries hdr.part_table_entry_cnt 0 dst src)
        ≡ take hdr.part_table_entry_cnt src
    same =
        subst (λ n. take n (copy_entries hdr.part_table_entry_cnt 0 dst src) ≡ take n src)
          (zero-add hdr.part_table_entry_cnt)
          (take-copy_entries src hdr.part_table_entry_cnt 0 dst (e ∙ sym v.size)
            (omega (arith, v.count, v.size)) refl)

-- Both copies are valid, and the secondary header stands where the primary one says.
pub record IsConsistent (gpt : Gpt) : Type 0 where
  pub prim : IsValidPair gpt.hdr_prim gpt.table_prim
  pub sec : IsValidPair gpt.hdr_sec gpt.table_sec
  pub linked : gpt.hdr_sec.my_lba ≡ gpt.hdr_prim.alt_lba

recover-IsConsistent :
    (p s : Bool) (gpt : Gpt) (ctx : ImgCtx)
    → length gpt.table_prim ≡ gpt_max_part_cnt
    → length gpt.table_sec ≡ gpt_max_part_cnt
    → (p ≡ true → IsValidPair gpt.hdr_prim gpt.table_prim)
    → (s ≡ true → IsValidPair gpt.hdr_sec gpt.table_sec)
    → (p ≡ true → s ≡ true → gpt.hdr_sec.my_lba ≡ gpt.hdr_prim.alt_lba)
    → let (res, gpt') = recover p s gpt ctx in res ≡ SchemLoadRes.schem_load_ok → IsConsistent gpt'
unfolding recover gpt_restore mirror
recover-IsConsistent true true gpt ctx e e' vp vs l k = record {
  prim = vp refl;
  sec = vs refl;
  linked = l refl refl;
}
recover-IsConsistent true false gpt ctx e e' vp vs l k = record {
  prim = vp refl;
  sec = (copy-IsValidPair gpt.hdr_prim gpt.table_prim gpt.table_sec _ (vp refl) e').0;
  linked = refl;
}
recover-IsConsistent false true gpt ctx e e' vp vs l k = record {
  prim = (copy-IsValidPair gpt.hdr_sec gpt.table_sec gpt.table_prim _ (vs refl) e).0;
  sec = vs refl;
  linked = refl;
}
recover-IsConsistent false false gpt ctx e e' vp vs l k = absurd (ground arith)

-- The loads of the two copies, in this order.
abbrev pub prim_load : Gpt → ImgCtx → World → PairLoadRes × Pair × World
prim_load gpt ctx w = gpt_pair_load (record { hdr = gpt.hdr_prim; table = gpt.table_prim }) ctx 1 w

abbrev pub sec_load : Gpt → ImgCtx → World → PairLoadRes × Pair × World
sec_load gpt ctx w =
    let (res, prim, w) = prim_load gpt ctx w in
    gpt_pair_load (record { hdr = gpt.hdr_sec; table = gpt.table_sec }) ctx
      (lba_sec res prim.hdr ctx) w

lba_sec_ok :
    (r : PairLoadRes) (hdr : GptHdr) (ctx : ImgCtx)
    → is_ok r ≡ true
    → lba_sec r hdr ctx ≡ hdr.alt_lba
unfolding lba_sec
lba_sec_ok PairLoadRes.gpt_pair_load_ok hdr ctx k = refl
lba_sec_ok PairLoadRes.gpt_pair_load_hdr_inv hdr ctx k = absurd (ground arith)
lba_sec_ok PairLoadRes.gpt_pair_load_table_inv hdr ctx k = absurd (ground arith)
lba_sec_ok PairLoadRes.gpt_pair_load_fatal hdr ctx k = absurd (ground arith)

-- What `gpt_load` returns follows from the loads of the two copies alone: it is fatal where one of those it makes
-- is, the scheme is found where one copy is valid, and not found where none is.
pub gpt_load_result :
    (gpt : Gpt) (ctx : ImgCtx) (w : World)
    → let p : PairLoadRes = (prim_load gpt ctx w).0 in
      let s : PairLoadRes = (sec_load gpt ctx w).0 in
      (gpt_load gpt ctx w).0 ≡ (
        if is_fatal p || is_fatal s
        then SchemLoadRes.schem_load_fatal
        else if is_ok p || is_ok s
        then SchemLoadRes.schem_load_ok
        else SchemLoadRes.schem_load_not_found)
unfolding gpt_load recover
gpt_load_result gpt ctx w = elim (Bool-cases (is_fatal p)) [
  | inl f ↦ rw f refl
  | inr f ↦ elim (Bool-cases (is_fatal s)) [
    | inl g ↦ rw (f, g) refl
    | inr g ↦ elim (Bool-cases (is_ok p)) [
      | inl a ↦ elim (Bool-cases (is_ok s)) [
        | inl b ↦ rw (f, g, a, b) refl
        | inr b ↦ rw (f, g, a, b) refl
      ]
      | inr a ↦ elim (Bool-cases (is_ok s)) [
        | inl b ↦ rw (f, g, a, b) refl
        | inr b ↦ rw (f, g, a, b) refl
      ]
    ]
  ]
]
  where
    p : PairLoadRes
    p = (prim_load gpt ctx w).0

    s : PairLoadRes
    s = (sec_load gpt ctx w).0

-- Both, with the image.
gpt_load-ok :
    (gpt : Gpt) (ctx : ImgCtx) (w : World)
    → length gpt.table_prim ≡ gpt_max_part_cnt
    → length gpt.table_sec ≡ gpt_max_part_cnt
    → let (res, gpt', w') = gpt_load gpt ctx w in
      (w'.image ≡ w.image) × (res ≡ SchemLoadRes.schem_load_ok → IsConsistent gpt')
unfolding gpt_load
gpt_load-ok gpt ctx w e e' =
    let prim =
      gpt_pair_load-all (record { hdr = gpt.hdr_prim; table = gpt.table_prim }) ctx 1 w e in
    let sec =
      gpt_pair_load-all (record { hdr = gpt.hdr_sec; table = gpt.table_sec }) ctx
        (lba_sec p (prim_load gpt ctx w).1.hdr ctx) (prim_load gpt ctx w).2 e' in
    elim (Bool-cases (is_fatal p)) [
      | inl f ↦ rw f (prim.0, λ k. absurd (ground arith))
      | inr f ↦ elim (Bool-cases (is_fatal s)) [
        | inl g ↦ rw (f, g) (sec.0 ∙ prim.0, λ k. absurd (ground arith))
        | inr g ↦
            rw (f, g)
              (
                sec.0 ∙ prim.0,
                recover-IsConsistent (is_ok p) (is_ok s) _ ctx prim.1 sec.1 (λ k. (prim.2 k).0)
                    (λ k. (sec.2 k).0) (λ k k'. (sec.2 k').1 ∙ lba_sec_ok p _ ctx k),
              )
      ]
    ]
  where
    p : PairLoadRes
    p = (prim_load gpt ctx w).0

    s : PairLoadRes
    s = (sec_load gpt ctx w).0

-- A load of a GPT that reports success does not change the image, and leaves both copies in memory
-- with right checksums and at most 128 entries, the secondary header standing where the primary one
-- says, also where one of them was lost and is restored from the other.
pub gpt_load-IsConsistent :
    (gpt : Gpt) (ctx : ImgCtx) (w : World)
    → length gpt.table_prim ≡ gpt_max_part_cnt
    → length gpt.table_sec ≡ gpt_max_part_cnt
    → (gpt_load gpt ctx w).0 ≡ SchemLoadRes.schem_load_ok
    → ((gpt_load gpt ctx w).2.image ≡ w.image) × IsConsistent (gpt_load gpt ctx w).1
gpt_load-IsConsistent gpt ctx w e e' ok = let all = gpt_load-ok gpt ctx w e e' in (all.0, all.1 ok)
