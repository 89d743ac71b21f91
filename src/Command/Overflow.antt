-- ===== src/Command/Overflow.antt =====
-- A command converts a number of more than 64 bits only from the lines that are typed for it.
use partman.Base.{
  ℕ, ◌+◌, ◌≡◌, ◌⊎◌, Bool, true, false, not, Option, none, some, Bool-cases, Option-cases, inl, inr,
  arith,
}
use partman.CText.{◌>>=◌}
use partman.Stdio.{Stream}
use partman.Scan.{Scanned, prompt_range, prompt_sector_ext}
use partman.Scan.Overflow.{
  IsTooLarge, scan_guid-overflowed, scan_int-IsTooLarge, prompt_range-IsTooLarge,
  prompt_sector_ext-overflowed,
}
use partman.ImgCtx.{ImgCtx}
use partman.World.{World}
use partman.Schem.{SchemType, Schem}
use partman.Find.{
  Search, found, not_found, out_of_fuel, schem_find_part_index, schem_find_start_sector,
  schem_find_last_sector,
}
use partman.Command.{
  Edited, is_ok, lba_res, prompt_from, pm_part_prompt, pm_part_delete, is_mbr, pm_part_toggle_boot,
  pm_part_change_type_mbr, pm_part_change_type_gpt, change_type_of, pm_part_change_type, alter_end,
  alter_start, alter_found, pm_part_alter,
}
use partman.Command.Prompt.{prompted-stdin}
use partman.Command.Input.{alter_end-stdin}

module _ (s : Schem) (find_used : Bool) (st : Stream) (clean : st.overflowed ≡ false) where
  prompt_from-IsTooLarge :
      (o : Option ℕ) → (prompt_from s find_used o st).1.overflowed ≡ true → IsTooLarge 10 st
  unfolding prompt_from
  prompt_from-IsTooLarge none h = absurd (ground (arith, clean, h))
  prompt_from-IsTooLarge (some j) h =
      prompt_range-IsTooLarge 1 s.part_cnt (j + 1) st clean
        (rw (prompted-stdin s find_used (prompt_range 1 s.part_cnt (j + 1) st)) at h)

  pub pm_part_prompt-IsTooLarge :
      (pm_part_prompt s find_used st).1.overflowed ≡ true → IsTooLarge 10 st
  unfolding pm_part_prompt
  pm_part_prompt-IsTooLarge h = prompt_from-IsTooLarge (schem_find_part_index s find_used) h

module _ (s : Schem) (w : World) (st : Stream) (clean : st.overflowed ≡ false) where
  pub pm_part_delete-IsTooLarge : (pm_part_delete s w st).stdin.overflowed ≡ true → IsTooLarge 10 st
  unfolding pm_part_delete
  pm_part_delete-IsTooLarge h = elim (Option-cases (pm_part_prompt s true st).0) [
    | inl e ↦ pm_part_prompt-IsTooLarge s true st clean (rw (e, pm_part_delete) at h)
    | inr (i, e) ↦ pm_part_prompt-IsTooLarge s true st clean (rw (e, pm_part_delete) at h)
  ]

  pub pm_part_toggle_boot-IsTooLarge :
      (pm_part_toggle_boot s w st).stdin.overflowed ≡ true → IsTooLarge 10 st
  unfolding pm_part_toggle_boot
  pm_part_toggle_boot-IsTooLarge h = elim (Bool-cases (is_mbr s.type)) [
    | inr e ↦ absurd (ground (arith, clean, e, h))
    | inl e ↦ elim (Option-cases (pm_part_prompt s true st).0) [
      | inl f ↦ pm_part_prompt-IsTooLarge s true st clean (rw (e, f) at h)
      | inr (i, f) ↦ pm_part_prompt-IsTooLarge s true st clean (rw (e, f) at h)
    ]
  ]

  change_type_of-IsTooLarge :
      (t : SchemType) (i : ℕ)
      → (change_type_of t s i w st).stdin.overflowed ≡ true
      → IsTooLarge 16 st
  unfolding change_type_of pm_part_change_type_mbr pm_part_change_type_gpt
  change_type_of-IsTooLarge SchemType.schem_type_mbr i h = scan_int-IsTooLarge 16 st clean h
  change_type_of-IsTooLarge SchemType.schem_type_gpt i h =
      let e = scan_guid-overflowed st in absurd (ground (arith, e, clean, h))
  change_type_of-IsTooLarge SchemType.schem_cnt i h = absurd (ground (arith, clean, h))

pub pm_part_change_type-IsTooLarge :
    (s : Schem) (w : World) (st : Stream)
    → st.overflowed ≡ false
    → (pm_part_change_type s w st).stdin.overflowed ≡ true
    → IsTooLarge 10 st ⊎ IsTooLarge 16 (pm_part_prompt s true st).1
unfolding pm_part_change_type
pm_part_change_type-IsTooLarge s w st clean h =
    elim (Bool-cases (pm_part_prompt s true st).1.overflowed) [
      | inl o ↦ inl (pm_part_prompt-IsTooLarge s true st clean o)
      | inr o ↦ elim (Option-cases (pm_part_prompt s true st).0) [
        | inl e ↦ inl (pm_part_prompt-IsTooLarge s true st clean (rw (e, pm_part_change_type) at h))
        | inr (i, e) ↦ inr (
            change_type_of-IsTooLarge s w (pm_part_prompt s true st).1 o s.type i
              (rw (e, pm_part_change_type) at h))
      ]
    ]

module _ (s : Schem) (ctx : ImgCtx) (is_new : Bool) (i : ℕ) (w : World) where
  alter_start-overflowed :
      (r : Scanned ℕ) (e : Edited)
      → alter_start s ctx is_new i w r ≡ some e
      → e.stdin.overflowed ≡ r.stdin.overflowed
  unfolding alter_start
  alter_start-overflowed r e h = elim (Bool-cases (is_ok r.res)) [
    | inr f ↦ ground (arith, f)
    | inl f ↦ elim (Option-cases (schem_find_last_sector s ctx i r.value >>= lba_res)) [
      | inl g ↦ ground (arith, f, g)
      | inr (d, g) ↦
          elim (Option-cases (prompt_sector_ext r.value s.last_usable_lba d ctx.sec_sz r.stdin)) [
            | inl k ↦ absurd (ground (arith, f, g, k))
            | inr (q, k) ↦
                let at : alter_end s is_new i r.value w q ≡ e = ground (arith, f, g, k) in
                rw (← at) (
                  rw (alter_end-stdin s ctx is_new i w r.value q) (
                    prompt_sector_ext-overflowed r.value s.last_usable_lba d ctx.sec_sz r.stdin q
                      k))
          ]
    ]
  ]

  alter_found-IsTooLarge :
      (st : Stream) (r : Search) (e : Edited)
      → st.overflowed ≡ false
      → alter_found s ctx is_new i w st r ≡ some e
      → e.stdin.overflowed ≡ true
      → IsTooLarge 10 st
  unfolding alter_found
  alter_found-IsTooLarge st out_of_fuel e clean h o = absurd (ground arith)
  alter_found-IsTooLarge st not_found e clean h o = absurd (ground (arith, clean, o))
  alter_found-IsTooLarge st (found l) e clean h o = elim (Option-cases (lba_res l)) [
    | inl f ↦ absurd (ground (arith, f, clean, o))
    | inr (d, f) ↦
        let r = prompt_range s.first_usable_lba s.last_usable_lba d st in
        prompt_range-IsTooLarge s.first_usable_lba s.last_usable_lba d st clean
          (rw (← alter_start-overflowed r e (rw (f, alter_found) at h)) o)
  ]

pub pm_part_alter-IsTooLarge :
    (s : Schem) (ctx : ImgCtx) (is_new : Bool) (w : World) (st : Stream) (e : Edited)
    → st.overflowed ≡ false
    → pm_part_alter s ctx is_new w st ≡ some e
    → e.stdin.overflowed ≡ true
    → IsTooLarge 10 st ⊎ IsTooLarge 10 (pm_part_prompt s (not is_new) st).1
unfolding pm_part_alter
pm_part_alter-IsTooLarge s ctx is_new w st e clean h o =
    elim (Bool-cases (pm_part_prompt s (not is_new) st).1.overflowed) [
      | inl p ↦ inl (pm_part_prompt-IsTooLarge s (not is_new) st clean p)
      | inr p ↦ elim (Option-cases (pm_part_prompt s (not is_new) st).0) [
        | inl f ↦
            let same : (pm_part_prompt s (not is_new) st).1 ≡ e.stdin = ground (arith, f) in
            inl (pm_part_prompt-IsTooLarge s (not is_new) st clean (rw same o))
        | inr (i, f) ↦ inr (
            alter_found-IsTooLarge s ctx is_new i w (pm_part_prompt s (not is_new) st).1
              (schem_find_start_sector s ctx i) e p (rw (f, pm_part_alter) at h) o)
      ]
    ]
