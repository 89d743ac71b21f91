-- ===== src/Session/Init.antt =====
-- New schemes are sound: nothing is used, or only the entry of a protective MBR.
use native.Mathlib.Nat.{div-le_self, div-eq_of_lt, mod-eq_of_lt}
use native.Mathlib.Decide.{ℕ_discrete}
use partman.Base.{
  ℕ, zero, suc, ◌+◌, ◌/◌, ◌^◌, ◌≤◌, ◌<◌, ◌≡◌, refl, ◌∙◌, true, none, some, length, length-set,
  get_or, get_or-set_self, get_or-set_ne, ltb, ◌==◌, if◌then◌else◌, Bool-cases, inl, inr, arith,
}
use partman.ImgCtx.{ImgCtx, byte_to_lba}
use partman.World.{World}
use partman.Schem.{
  SchemType, Schem, zero_part, clear_table, length-clear_table, get_or-clear_table, part_is_used,
  schem_part_is_used_mbr,
}
use partman.Mbr.{mbr_init_schem, schem_init_mbr, schem_mbr_set_prot}
use partman.Gpt.Scheme.{schem_init_gpt}
use partman.Gpt.Position.{schem_init_gpt_lem}
use partman.Command.Layout.{layout, IsApart}
use partman.Command.Refine.Edits.{zero-unused}
use partman.Command.Refine.Sound.{IsSound}

-- A disk on which both schemes have usable space and aligning does not wrap.
pub record IsRoomy (ctx : ImgCtx) : Type 0 where
  pub sec_sz : 512 ≤ ctx.sec_sz
  pub img_sz : ctx.img_sz < 2 ^ 64
  pub sectors : 70 ≤ ctx.img_sz / ctx.sec_sz
  pub align_pos : 0 < ctx.align
  pub aligns : ctx.img_sz / ctx.sec_sz + ctx.align < 2 ^ 64

abbrev IsCleared : Schem → Type 0
IsCleared s = (j : ℕ) → j < s.part_cnt → get_or s.table j zero_part ≡ zero_part

layout-cleared : (s : Schem) → IsCleared s → (j : ℕ) → layout s j ≡ none
layout-cleared s cleared j = elim (Bool-cases (ltb j s.part_cnt)) [
  | inr e ↦ rw e refl
  | inl e ↦ rw (e, cleared j (ground arith), zero-unused s.funcs) refl
]

none-IsApart : (s : Schem) → IsCleared s → IsApart s.first_usable_lba s.last_usable_lba (layout s)
none-IsApart s cleared = record {
  within = λ i a b e. absurd (ground (arith, layout-cleared s cleared i));
  apart = λ i j a b c d ne e f. absurd (ground (arith, layout-cleared s cleared i));
}

-- One entry alone, with all the usable space.
alone-IsApart :
    (s : Schem)
    → s.first_usable_lba ≤ s.last_usable_lba
    → ((j : ℕ)
        → layout s j ≡ (if j == 0 then some (s.first_usable_lba, s.last_usable_lba) else none))
    → IsApart s.first_usable_lba s.last_usable_lba (layout s)
alone-IsApart s room one = record {
  within = λ i a b e. ground (arith, one i);
  apart = λ i j a b c d ne e f. ground (arith, one i, one j);
}

-- A scheme of its type, sound, with the whole array that is allocated for the type.
pub record IsHeld (t : SchemType) (cnt : ℕ) (s : Schem) (ctx : ImgCtx) : Type 0 where
  pub sound : IsSound s ctx
  pub funcs : s.funcs ≡ t
  pub array : cnt ≤ length s.table

mbr_first : (ctx : ImgCtx) → 512 ≤ ctx.sec_sz → byte_to_lba ctx 512 true ≡ 1
unfolding byte_to_lba
mbr_first ctx h = elim (ℕ_discrete ctx.sec_sz 512) [
  | yes e ↦ rw e refl
  | no ne ↦
      rw
        (
          div-eq_of_lt {n = 512} {m = ctx.sec_sz} (omega arith),
          mod-eq_of_lt {n = 512} {m = ctx.sec_sz} (omega arith),
        )
        refl
]

module _ (s : Schem) (ctx : ImgCtx) (w : World) (roomy : IsRoomy ctx) where
  mbr_bounds :
      ((mbr_init_schem s ctx).first_usable_lba ≡ 1)
      × (1 ≤ (mbr_init_schem s ctx).last_usable_lba)
      × ((mbr_init_schem s ctx).last_usable_lba < ctx.img_sz / ctx.sec_sz)
  unfolding mbr_init_schem byte_to_lba
  mbr_bounds =
      let whole = div-le_self ctx.img_sz ctx.sec_sz in
      (
        mbr_first ctx roomy.sec_sz,
        ground (arith, roomy.sectors, roomy.img_sz, whole),
        ground (arith, roomy.sectors, roomy.img_sz, whole),
      )

  -- A new MBR has no entry in use.
  pub schem_init_mbr-IsHeld :
      s.funcs ≡ SchemType.schem_type_mbr
      → 4 ≤ length s.table
      → IsHeld SchemType.schem_type_mbr 4 (schem_init_mbr s ctx w).0 ctx
  unfolding schem_init_mbr mbr_init_schem
  schem_init_mbr-IsHeld f l = record {
    sound = record {
      mapped = λ e. ground (arith, f, e);
      fits = omega (arith, length-clear_table 4 s.table);
      room = omega (arith, mbr_bounds);
      align_pos = roomy.align_pos;
      aligns = omega (arith, mbr_bounds, roomy.aligns);
      entries = none-IsApart (schem_init_mbr s ctx w).0 (λ j h. get_or-clear_table 4 j s.table h);
    };
    funcs = f;
    array = omega (arith, length-clear_table 4 s.table);
  }

  -- A new GPT has none either.
  pub schem_init_gpt-IsHeld :
      s.funcs ≡ SchemType.schem_type_gpt
      → 128 ≤ length s.table
      → IsHeld SchemType.schem_type_gpt 128 (schem_init_gpt s ctx w).0 ctx
  unfolding schem_init_gpt
  schem_init_gpt-IsHeld f l =
      let pos = schem_init_gpt_lem s ctx w roomy.sec_sz roomy.img_sz roomy.sectors in
      record {
        sound = record {
          mapped = λ e. ground (arith, f, e);
          fits = omega (arith, length-clear_table 128 s.table);
          room = pos.2;
          align_pos = roomy.align_pos;
          aligns = omega (arith, pos.3, pos.4, pos.5, roomy.aligns);
          entries =
              none-IsApart (schem_init_gpt s ctx w).0 (λ j h. get_or-clear_table 128 j s.table h);
        };
        funcs = f;
        array = omega (arith, length-clear_table 128 s.table);
      }

module _ (s : Schem) (ctx : ImgCtx) where
  -- The protective entry is alone, and holds the usable space.
  layout-set_prot :
      s.funcs ≡ SchemType.schem_type_mbr
      → 1 ≤ s.part_cnt
      → 1 ≤ length s.table
      → (j : ℕ)
      → layout (schem_mbr_set_prot s) j
        ≡ (if j == 0 then some (s.first_usable_lba, s.last_usable_lba) else none)
  unfolding schem_mbr_set_prot part_is_used schem_part_is_used_mbr
  layout-set_prot f c l zero =
      rw
        (
          get_or-set_self (clear_table s.part_cnt s.table) 0
              (record (get_or (clear_table s.part_cnt s.table) 0 zero_part) {
                type_i = 0xee;
                start_lba = s.first_usable_lba;
                end_lba = s.last_usable_lba;
                boot_ind = 0;
              })
              zero_part (omega (arith, length-clear_table s.part_cnt s.table)),
          f,
        )
        (ground arith)
  layout-set_prot f c l (suc j) = elim (Bool-cases (ltb (suc j) s.part_cnt)) [
    | inr e ↦ rw e (ground arith)
    | inl e ↦
        rw
          (
            e,
            get_or-set_ne (clear_table s.part_cnt s.table) 0 (suc j)
                (record (get_or (clear_table s.part_cnt s.table) 0 zero_part) {
                  type_i = 0xee;
                  start_lba = s.first_usable_lba;
                  end_lba = s.last_usable_lba;
                  boot_ind = 0;
                })
                zero_part (λ z. omega arith),
            get_or-clear_table s.part_cnt (suc j) s.table (ground arith),
            f,
          )
          (ground arith)
  ]

  pub set_prot-IsHeld :
      IsHeld SchemType.schem_type_mbr 4 s ctx
      → 1 ≤ s.part_cnt
      → IsHeld SchemType.schem_type_mbr 4 (schem_mbr_set_prot s) ctx
  unfolding schem_mbr_set_prot
  set_prot-IsHeld h c =
      let sized =
        length-set (clear_table s.part_cnt s.table) 0
          (record (get_or (clear_table s.part_cnt s.table) 0 zero_part) {
            type_i = 0xee;
            start_lba = s.first_usable_lba;
            end_lba = s.last_usable_lba;
            boot_ind = 0;
          })
        ∙ length-clear_table s.part_cnt s.table in
      record {
        sound = record {
          mapped = h.sound.mapped;
          fits = omega (arith, sized, h.sound.fits);
          room = h.sound.room;
          align_pos = h.sound.align_pos;
          aligns = h.sound.aligns;
          entries =
              alone-IsApart (schem_mbr_set_prot s) h.sound.room
                (layout-set_prot h.funcs c (omega (arith, h.array)));
        };
        funcs = h.funcs;
        array = omega (arith, sized, h.array);
      }
