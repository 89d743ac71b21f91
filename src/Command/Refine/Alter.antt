-- ===== src/Command/Refine/Alter.antt =====
-- Adding and resizing a partition.
use mathlib.Core.Path.{subst}
use partman.Base.{
  ℕ, ◌≤◌, ◌<◌, ◌≡◌, ◌≢◌, refl, sym, ◌∙◌, Bool, true, not, some, length, Bool-cases, Option-cases,
  inl, inr, arith,
}
use partman.CText.{◌>>=◌}
use partman.Stdio.{Stream}
use partman.Scan.{ScanRes, Scanned, prompt_range, prompt_sector_ext}
use partman.Scan.Bounds.{prompt_range_bounds, prompt_sector_ext_bounds}
use partman.ImgCtx.{ImgCtx}
use partman.World.{World}
use partman.Guid.{guid_is_zero}
use partman.Schem.{
  SchemType, Schem, SchemPart, part_is_used, schem_part_is_used_mbr, schem_part_is_used_gpt,
  schem_part_init_mbr, schem_part_init_gpt,
}
use partman.Find.{
  Search, found, not_found, out_of_fuel, schem_find_overlap, schem_find_start_sector,
  schem_find_last_sector,
}
use partman.Find.Start.{Outcome, schem_find_start_sector-Outcome}
use partman.Command.{
  Edited, get_part, put_part, is_ok, lba_res, pm_part_prompt, part_init, place_part, alter_end,
  alter_start, alter_found, pm_part_alter,
}
use partman.Command.Layout.{layout, IsFree, place}
use partman.Command.Prompt.{IsChosen, pm_part_prompt-IsChosen, is_ok→ok}
use partman.Command.Refine.Edits.{Refines, Refines-refl, Refines-put_part, layout-put_part}
use partman.Command.Refine.Sound.{
  IsSound, IsSound-IsBounded, find_last_bounds, schem_find_overlap-IsFree,
}

-- The scheme is unchanged, or one entry is in use with sectors of the usable space that are free.
pub data Altered (s : Schem) (is_new : Bool) (s' : Schem) : Type 0 where
  same : s' ≡ s → Altered s is_new s'
  moved :
      (i : ℕ) (p : SchemPart)
      → s' ≡ put_part s i p
      → i < s.part_cnt
      → part_is_used s.funcs (get_part s i) ≡ not is_new
      → part_is_used s.funcs p ≡ true
      → s.first_usable_lba ≤ p.start_lba
      → p.start_lba ≤ p.end_lba
      → p.end_lba ≤ s.last_usable_lba
      → IsFree (layout s) i p.start_lba p.end_lba
      → Altered s is_new s'

pub Altered-Refines :
    (s s' : Schem) (is_new : Bool)
    → s.part_cnt ≤ length s.table
    → Altered s is_new s'
    → Refines s s'
Altered-Refines s s' is_new fits (same e) = subst (Refines s) (sym e) (Refines-refl s)
Altered-Refines s s' is_new fits (moved i p e below before used low ord high clear) =
    subst (Refines s) (sym e) (
      Refines-put_part s fits i p (
        place i p.start_lba p.end_lba low ord high clear
          (λ j. rw (layout-put_part s fits i p j below, used) refl)))

module _ (a b : ℕ) where
  retouch : SchemPart → SchemPart
  retouch p = record p { start_lba = a; end_lba = b }

  init_used :
      (t : SchemType) (p : SchemPart) (w : World)
      → t ≢ SchemType.schem_cnt
      → part_is_used t (retouch (part_init t p w).0) ≡ true
  unfolding retouch part_init part_is_used schem_part_is_used_mbr schem_part_is_used_gpt
      schem_part_init_mbr schem_part_init_gpt guid_is_zero
  init_used SchemType.schem_type_mbr p w h = refl
  init_used SchemType.schem_type_gpt p w h = refl
  init_used SchemType.schem_cnt p w h = absurd (h refl)

  retouch_used : (t : SchemType) (p : SchemPart) → part_is_used t (retouch p) ≡ part_is_used t p
  unfolding retouch part_is_used schem_part_is_used_mbr schem_part_is_used_gpt
  retouch_used SchemType.schem_type_mbr p = refl
  retouch_used SchemType.schem_type_gpt p = refl
  retouch_used SchemType.schem_cnt p = refl

module _ (s : Schem) (ctx : ImgCtx) (sound : IsSound s ctx) (is_new : Bool) (i : ℕ)
    (c : IsChosen s (not is_new) i) (w : World) where
  placed :
      (a b : ℕ)
      → s.first_usable_lba ≤ a
      → a ≤ b
      → b ≤ s.last_usable_lba
      → IsFree (layout s) i a b
      → Altered s is_new (place_part s is_new i a b w).0
  unfolding place_part retouch
  placed a b low ord high clear = elim (Bool-cases is_new) [
    | inl e ↦
        let p : SchemPart = retouch a b (part_init s.funcs (get_part s i) w).0 in
        moved i p (rw e refl) (c.0) (c.1) (init_used a b s.funcs (get_part s i) w sound.mapped) low
          ord high clear
    | inr e ↦
        let p : SchemPart = retouch a b (get_part s i) in
        moved i p (rw e refl) (c.0) (c.1)
          (retouch_used a b s.funcs (get_part s i) ∙ c.1 ∙ rw e refl) low ord high clear
  ]

  alter_end-Altered :
      (a : ℕ) (r : Scanned ℕ)
      → s.first_usable_lba ≤ a
      → (r.res ≡ ScanRes.scan_ok → (a ≤ r.value) × (r.value ≤ s.last_usable_lba))
      → Altered s is_new (alter_end s is_new i a w r).schem
  unfolding alter_end
  alter_end-Altered a r low within = elim (Bool-cases (is_ok r.res)) [
    | inr e ↦ rw e (same refl)
    | inl e ↦
        let (ord, high) = within (is_ok→ok r.res e) in
        elim (Option-cases (schem_find_overlap s a r.value i)) [
          | inr (j, e') ↦ rw (e, e') (same refl)
          | inl e' ↦
              rw (e, e')
                (placed a r.value low ord high (schem_find_overlap-IsFree s a r.value i ord e'))
        ]
  ]

  lba_res-eq : (l d : ℕ) → lba_res l ≡ some d → l ≡ d
  lba_res-eq l d h = ground arith

  last_def :
      (a d : ℕ)
      → a ≤ s.last_usable_lba
      → (schem_find_last_sector s ctx i a >>= lba_res) ≡ some d
      → (a ≤ d) × (d ≤ s.last_usable_lba)
  last_def a d le h = elim (Option-cases (schem_find_last_sector s ctx i a)) [
    | inl e ↦ absurd (ground (arith, e))
    | inr (l, e) ↦
        let at : l ≡ d = lba_res-eq l d (rw e at h) in
        rw (← at) (find_last_bounds s ctx sound i a l le e)
  ]

  alter_start-Altered :
      (r : Scanned ℕ) (e : Edited)
      → (r.res ≡ ScanRes.scan_ok → (s.first_usable_lba ≤ r.value) × (r.value ≤ s.last_usable_lba))
      → alter_start s ctx is_new i w r ≡ some e
      → Altered s is_new e.schem
  unfolding alter_start
  alter_start-Altered r e within h = elim (Bool-cases (is_ok r.res)) [
    | inr f ↦ same (ground (arith, f))
    | inl f ↦
        let (low, high) = within (is_ok→ok r.res f) in
        elim (Option-cases (schem_find_last_sector s ctx i r.value >>= lba_res)) [
          | inl g ↦ same (ground (arith, f, g))
          | inr (d, g) ↦
              let (ord, top) = last_def r.value d high g in
              elim (Option-cases
                (prompt_sector_ext r.value s.last_usable_lba d ctx.sec_sz r.stdin)) [
                  | inl k ↦ absurd (ground (arith, f, g, k))
                  | inr (q, k) ↦
                      let at : alter_end s is_new i r.value w q ≡ e = ground (arith, f, g, k) in
                      subst (λ (x : Edited). Altered s is_new x.schem) at
                        (alter_end-Altered r.value q low (
                          prompt_sector_ext_bounds r.value s.last_usable_lba d ctx.sec_sz r.stdin q
                            ord top k))
                ]
        ]
  ]

  alter_found-Altered :
      (st : Stream) (r : Search) (e : Edited)
      → Outcome s ctx i (IsSound-IsBounded s ctx sound) r
      → alter_found s ctx is_new i w st r ≡ some e
      → Altered s is_new e.schem
  unfolding alter_found
  alter_found-Altered st out_of_fuel e o h = absurd o
  alter_found-Altered st not_found e o h = same (ground arith)
  alter_found-Altered st (found l) e (low, high, clear) h = elim (Option-cases (lba_res l)) [
    | inl f ↦ same (ground (arith, f))
    | inr (d, f) ↦
        let at : l ≡ d = lba_res-eq l d f in
        alter_start-Altered (prompt_range s.first_usable_lba s.last_usable_lba d st) e
          (λ k.
            prompt_range_bounds s.first_usable_lba s.last_usable_lba d st (ground (arith, at, low))
              (ground (arith, at, high sound.room)) k)
          (rw (f, alter_found) at h)
  ]

-- Adding a partition or resizing one: where a result is defined, either nothing is changed, or one
-- entry, which was unused where one is added and used where one is resized, is then in use and holds
-- sectors of the usable space, at least one, that no other entry holds.
pub pm_part_alter-Altered :
    (s : Schem) (ctx : ImgCtx) (is_new : Bool) (w : World) (st : Stream) (e : Edited)
    → IsSound s ctx
    → pm_part_alter s ctx is_new w st ≡ some e
    → Altered s is_new e.schem
unfolding pm_part_alter
pm_part_alter-Altered s ctx is_new w st e sound h =
    elim (Option-cases (pm_part_prompt s (not is_new) st).0) [
      | inl f ↦ same (ground (arith, f))
      | inr (i, f) ↦
          alter_found-Altered s ctx sound is_new i (pm_part_prompt-IsChosen s (not is_new) st i f) w
            (pm_part_prompt s (not is_new) st).1 (schem_find_start_sector s ctx i) e
            (schem_find_start_sector-Outcome s ctx i (IsSound-IsBounded s ctx sound)
              (omega (arith, sound.room, sound.aligns)))
            (rw (f, pm_part_alter) at h)
    ]
