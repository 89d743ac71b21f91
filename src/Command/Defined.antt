-- ===== src/Command/Defined.antt =====
-- The searches of a sound scheme end, so that only the prompt for the last sector gives nothing.
use partman.Base.{ℕ, ◌≡◌, List, Bool, not, none, Bool-cases, Option-cases, inl, inr, arith}
use partman.CText.{◌>>=◌}
use partman.Stdio.{Stream}
use partman.Scan.{Scanned, prompt_range, prompt_sector_ext, scan_str, scan_buf_sz}
use partman.Scan.Undefined.{IsUndefined, prompt_sector_ext-IsUndefined}
use partman.ImgCtx.{ImgCtx}
use partman.World.{World}
use partman.Schem.{Schem}
use partman.Find.{
  Search, found, not_found, out_of_fuel, schem_find_start_sector, schem_find_last_sector,
}
use partman.Find.Start.{Outcome, schem_find_start_sector-Outcome}
use partman.Command.{is_ok, lba_res, pm_part_prompt, alter_start, alter_found, pm_part_alter}
use partman.Command.Refine.Sound.{IsSound, IsSound-IsBounded}

-- The line that is typed for the last sector, from the input of the command on: after the prompts
-- for the partition and, with a default, for the first sector.
abbrev pub last_line : Schem → Bool → ℕ → Stream → List ℕ
last_line s is_new def st =
    (scan_str scan_buf_sz
      (prompt_range s.first_usable_lba s.last_usable_lba def
        (pm_part_prompt s (not is_new) st).1).stdin).1

module _ (s : Schem) (ctx : ImgCtx) (is_new : Bool) (i : ℕ) (w : World) where
  start-undefined :
      (r : Scanned ℕ)
      → alter_start s ctx is_new i w r ≡ none
      → IsUndefined (scan_str scan_buf_sz r.stdin).1
  unfolding alter_start
  start-undefined r h = elim (Bool-cases (is_ok r.res)) [
    | inr f ↦ absurd (ground (arith, f))
    | inl f ↦ elim (Option-cases (schem_find_last_sector s ctx i r.value >>= lba_res)) [
      | inl g ↦ absurd (ground (arith, f, g))
      | inr (d, g) ↦
          elim (Option-cases (prompt_sector_ext r.value s.last_usable_lba d ctx.sec_sz r.stdin)) [
            | inl k ↦ prompt_sector_ext-IsUndefined r.value s.last_usable_lba ctx.sec_sz d r.stdin k
            | inr (q, k) ↦ absurd (ground (arith, f, g, k))
          ]
    ]
  ]

  found-undefined :
      (sound : IsSound s ctx) (st : Stream) (r : Search)
      → Outcome s ctx i (IsSound-IsBounded s ctx sound) r
      → alter_found s ctx is_new i w st r ≡ none
      → (def : ℕ) × IsUndefined
          (scan_str scan_buf_sz (prompt_range s.first_usable_lba s.last_usable_lba def st).stdin).1
  unfolding alter_found
  found-undefined sound st out_of_fuel o h = absurd o
  found-undefined sound st not_found o h = absurd (ground arith)
  found-undefined sound st (found l) o h = elim (Option-cases (lba_res l)) [
    | inl f ↦ absurd (ground (arith, f))
    | inr (d, f) ↦ (
      d,
      start-undefined (prompt_range s.first_usable_lba s.last_usable_lba d st)
          (rw (f, alter_found) at h),
    )
  ]

-- Adding or resizing a partition of a sound scheme gives nothing only where the line that is typed for
-- the last sector is one of the undefined ones.
pub pm_part_alter-IsUndefined :
    (s : Schem) (ctx : ImgCtx) (is_new : Bool) (w : World) (st : Stream)
    → IsSound s ctx
    → pm_part_alter s ctx is_new w st ≡ none
    → (def : ℕ) × IsUndefined (last_line s is_new def st)
unfolding pm_part_alter
pm_part_alter-IsUndefined s ctx is_new w st sound h =
    elim (Option-cases (pm_part_prompt s (not is_new) st).0) [
      | inl f ↦ absurd (ground (arith, f))
      | inr (i, f) ↦
          found-undefined s ctx is_new i w sound (pm_part_prompt s (not is_new) st).1
            (schem_find_start_sector s ctx i)
            (schem_find_start_sector-Outcome s ctx i (IsSound-IsBounded s ctx sound)
              (omega (arith, sound.room, sound.aligns)))
            (rw (f, pm_part_alter) at h)
    ]
