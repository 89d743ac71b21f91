-- ===== src/Command/Input.antt =====
-- A command on a partition never gives input back.
use partman.Base.{
  ℕ, ◌≤◌, ◌≡◌, refl, Bool, true, not, some, Bool-cases, Option-cases, inl, inr, arith,
}
use native.Mathlib.Nat.{le_trans}
use partman.CText.{◌>>=◌}
use partman.Stdio.{Stream}
use partman.Scan.{Scanned, prompt_range, prompt_sector_ext}
use partman.Scan.Lines.{left, scan_int-le, scan_guid-le, prompt_range-le, prompt_sector_ext-le}
use partman.ImgCtx.{ImgCtx}
use partman.World.{World}
use partman.Schem.{SchemType, Schem}
use partman.Find.{
  Search, found, not_found, out_of_fuel, schem_find_overlap, schem_find_start_sector,
  schem_find_last_sector,
}
use partman.Command.{
  Edited, is_ok, lba_res, pm_part_prompt, pm_part_delete, is_mbr, pm_part_toggle_boot,
  pm_part_change_type_mbr, pm_part_change_type_gpt, change_type_of, pm_part_change_type, alter_end,
  alter_start, alter_found, pm_part_alter,
}
use partman.Command.Prompt.{pm_part_prompt-le}

module _ (s : Schem) (w : World) (st : Stream) where
  pub pm_part_delete-le : left (pm_part_delete s w st).stdin ≤ left st
  unfolding pm_part_delete
  pm_part_delete-le = elim (Option-cases (pm_part_prompt s true st).0) [
    | inl e ↦ rw (e, pm_part_delete) (pm_part_prompt-le s true st)
    | inr (i, e) ↦ rw (e, pm_part_delete) (pm_part_prompt-le s true st)
  ]

  pub pm_part_toggle_boot-le : left (pm_part_toggle_boot s w st).stdin ≤ left st
  unfolding pm_part_toggle_boot
  pm_part_toggle_boot-le = elim (Bool-cases (is_mbr s.type)) [
    | inr e ↦ rw e (omega arith)
    | inl e ↦ elim (Option-cases (pm_part_prompt s true st).0) [
      | inl e' ↦ rw (e, e') (pm_part_prompt-le s true st)
      | inr (i, e') ↦ rw (e, e') (pm_part_prompt-le s true st)
    ]
  ]

  change_type_of-le :
      (t : SchemType) (i : ℕ) (st : Stream) → left (change_type_of t s i w st).stdin ≤ left st
  unfolding change_type_of pm_part_change_type_mbr pm_part_change_type_gpt
  change_type_of-le SchemType.schem_type_mbr i st = scan_int-le 16 st
  change_type_of-le SchemType.schem_type_gpt i st = scan_guid-le st
  change_type_of-le SchemType.schem_cnt i st = omega arith

  pub pm_part_change_type-le : left (pm_part_change_type s w st).stdin ≤ left st
  unfolding pm_part_change_type
  pm_part_change_type-le = elim (Option-cases (pm_part_prompt s true st).0) [
    | inl e ↦ rw (e, pm_part_change_type) (pm_part_prompt-le s true st)
    | inr (i, e) ↦
        rw (e, pm_part_change_type)
          (le_trans (change_type_of-le s.type i (pm_part_prompt s true st).1)
            (pm_part_prompt-le s true st))
  ]

module _ (s : Schem) (ctx : ImgCtx) (is_new : Bool) (i : ℕ) (w : World) where
  pub alter_end-stdin : (a : ℕ) (r : Scanned ℕ) → (alter_end s is_new i a w r).stdin ≡ r.stdin
  unfolding alter_end
  alter_end-stdin a r = elim (Bool-cases (is_ok r.res)) [
    | inr e ↦ rw e refl
    | inl e ↦ elim (Option-cases (schem_find_overlap s a r.value i)) [
      | inl f ↦ rw (e, f) refl
      | inr (j, f) ↦ rw (e, f) refl
    ]
  ]

  alter_start-le :
      (r : Scanned ℕ) (e : Edited)
      → alter_start s ctx is_new i w r ≡ some e
      → left e.stdin ≤ left r.stdin
  unfolding alter_start
  alter_start-le r e h = elim (Bool-cases (is_ok r.res)) [
    | inr f ↦ ground (arith, f)
    | inl f ↦ elim (Option-cases (schem_find_last_sector s ctx i r.value >>= lba_res)) [
      | inl g ↦ ground (arith, f, g)
      | inr (d, g) ↦
          elim (Option-cases (prompt_sector_ext r.value s.last_usable_lba d ctx.sec_sz r.stdin)) [
            | inl k ↦ absurd (ground (arith, f, g, k))
            | inr (q, k) ↦
                let at : alter_end s is_new i r.value w q ≡ e = ground (arith, f, g, k) in
                rw (← at) (
                  rw (alter_end-stdin r.value q)
                    (prompt_sector_ext-le r.value s.last_usable_lba d ctx.sec_sz r.stdin q k))
          ]
    ]
  ]

  alter_found-le :
      (st : Stream) (r : Search) (e : Edited)
      → alter_found s ctx is_new i w st r ≡ some e
      → left e.stdin ≤ left st
  unfolding alter_found
  alter_found-le st out_of_fuel e h = absurd (ground arith)
  alter_found-le st not_found e h = ground arith
  alter_found-le st (found l) e h = elim (Option-cases (lba_res l)) [
    | inl f ↦ ground (arith, f)
    | inr (d, f) ↦
        le_trans
          (alter_start-le (prompt_range s.first_usable_lba s.last_usable_lba d st) e
            (rw (f, alter_found) at h))
          (prompt_range-le s.first_usable_lba s.last_usable_lba d st)
  ]

pub pm_part_alter-le :
    (s : Schem) (ctx : ImgCtx) (is_new : Bool) (w : World) (st : Stream) (e : Edited)
    → pm_part_alter s ctx is_new w st ≡ some e
    → left e.stdin ≤ left st
unfolding pm_part_alter
pm_part_alter-le s ctx is_new w st e h = elim (Option-cases (pm_part_prompt s (not is_new) st).0) [
  | inl f ↦
      let same : (pm_part_prompt s (not is_new) st).1 ≡ e.stdin = ground (arith, f) in
      rw (← same) (pm_part_prompt-le s (not is_new) st)
  | inr (i, f) ↦
      le_trans
        (alter_found-le s ctx is_new i w (pm_part_prompt s (not is_new) st).1
          (schem_find_start_sector s ctx i) e (rw (f, pm_part_alter) at h))
        (pm_part_prompt-le s (not is_new) st)
]
