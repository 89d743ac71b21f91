-- ===== src/Find.antt =====
-- The searches of libs/libpartman/src/schem.c over the partitions of a scheme.
-- `part_ign` is an index that the search leaves out; -1 as a result is `none` or `not_found`.
pub mod Clear
pub mod Overlap
pub mod Start
pub mod Last
pub mod Index
mod Tests
use partman.Base.{
  ℕ, zero, suc, ◌+◌, ◌-◌, ◌*◌, ◌^◌, List, [], ◌∷◌, Option, none, some, Bool, true, false, not, ◌&&◌,
  ◌||◌, ltb, leb, ◌==◌, u64, if◌then◌else◌,
}
use partman.ImgCtx.{ImgCtx, lba_align}
use partman.Schem.{SchemPart, Schem, parts, part_is_used}

module _ (used : SchemPart → Bool) where
  -- The loop of `schem_find_overlap` from index `i` on.
  unfoldable pub overlap_from : ℕ → ℕ → ℕ → ℕ → List SchemPart → Option ℕ
  overlap_from start_lba end_lba part_ign i [] = none
  overlap_from start_lba end_lba part_ign i (part ∷ rest) =
      let later = overlap_from start_lba end_lba part_ign (i + 1) rest in
      if i == part_ign
      then later
      else if not (used part)
      then later
      else if leb part.start_lba start_lba && leb start_lba part.end_lba
      then some i
      else if leb part.start_lba end_lba && leb end_lba part.end_lba
      then some i
      else if ltb start_lba part.start_lba && ltb part.end_lba end_lba
      then some i
      else later

  -- The loop of `schem_find_part_index`; the flags are 0 or 1.
  unfoldable pub index_from : Bool → ℕ → List SchemPart → Option ℕ
  index_from part_used i [] = none
  index_from part_used i (part ∷ rest) =
      let later = index_from part_used (i + 1) rest in
      if (if used part then part_used else not part_used) then some i else later

  -- The inner loop of `schem_find_start_sector` up to its `pos_changed = 1`: the first partition
  -- that holds `lba`.
  unfoldable pub occupant_from : ℕ → ℕ → ℕ → List SchemPart → Option SchemPart
  occupant_from lba part_ign i [] = none
  occupant_from lba part_ign i (part ∷ rest) =
      let later = occupant_from lba part_ign (i + 1) rest in
      if i == part_ign
      then later
      else if not (used part)
      then later
      else if ltb lba part.start_lba || ltb part.end_lba lba
      then later
      else some part

  -- One round of the loop of `schem_find_last_sector`.
  unfoldable pub lower_bound : ℕ → ℕ → ℕ → ℕ → SchemPart → ℕ
  lower_bound first_lba part_ign next_lba_bound i part =
      if i == part_ign
      then next_lba_bound
      else if not (used part)
      then next_lba_bound
      else if ltb first_lba part.start_lba && ltb part.start_lba next_lba_bound
      then part.start_lba - 1
      else next_lba_bound

  unfoldable pub bound_from : ℕ → ℕ → ℕ → ℕ → List SchemPart → ℕ
  bound_from first_lba part_ign next_lba_bound i [] = next_lba_bound
  bound_from first_lba part_ign next_lba_bound i (part ∷ rest) =
      bound_from first_lba part_ign (lower_bound first_lba part_ign next_lba_bound i part) (i + 1)
        rest

-- `… == -1`
abbrev pub is_none : Option ℕ → Bool
is_none none = true
is_none (some i) = false

unfoldable pub schem_find_overlap : Schem → ℕ → ℕ → ℕ → Option ℕ
schem_find_overlap schem start_lba end_lba part_ign =
    overlap_from (part_is_used schem.funcs) start_lba end_lba part_ign 0 (parts schem)

unfoldable pub schem_find_part_index : Schem → Bool → Option ℕ
schem_find_part_index schem part_used =
    index_from (part_is_used schem.funcs) part_used 0 (parts schem)

-- `test_end_lba` of `schem_find_last_sector`, from the bound.
unfoldable pub test_end : ImgCtx → ℕ → ℕ
test_end img_ctx next_lba_bound =
    let aligned = lba_align img_ctx next_lba_bound false in
    if ltb 0 aligned && ltb 1 img_ctx.align then aligned - 1 else aligned

pub data Search : Type 0 where
  found : ℕ → Search
  not_found : Search
  out_of_fuel : Search

module _ (schem : Schem) (img_ctx : ImgCtx) (part_ign : ℕ) where
  -- The `do` loop. `end_lba + 1` is computed in 64 bits.
  unfoldable pub start_loop : ℕ → ℕ → ℕ → Search
  start_loop zero lba lba_no_align = out_of_fuel
  start_loop (suc fuel) lba lba_no_align =
      elim (occupant_from (part_is_used schem.funcs) lba part_ign 0 (parts schem)) [
        | none ↦ found lba
        | some part ↦
            let retry = start_loop fuel lba_no_align 0 in
            let next = u64 (part.end_lba + 1) in
            let aligned = lba_align img_ctx next true in
            let at_next = start_loop fuel next 0 in
            let at_aligned = start_loop fuel aligned next in
            if not (lba_no_align == 0)
            then retry
            else if ltb schem.last_usable_lba next
            then not_found
            else if ltb schem.last_usable_lba aligned
            then at_next
            else at_aligned
      ]

  -- More rounds than the loop can make.
  abbrev pub start_fuel : ℕ
  start_fuel = 2 * (schem.last_usable_lba + 2)

  unfoldable pub schem_find_start_sector : Search
  schem_find_start_sector =
      let lba_no_align = schem.first_usable_lba in
      let lba = lba_align img_ctx lba_no_align true in
      if ltb schem.last_usable_lba lba
      then start_loop start_fuel lba_no_align 0
      else start_loop start_fuel lba lba_no_align

  unfoldable pub schem_find_last_sector : ℕ → Option ℕ
  schem_find_last_sector first_lba =
      let next_lba_bound =
        bound_from (part_is_used schem.funcs) first_lba part_ign schem.last_usable_lba 0
          (parts schem) in
      let test_end_lba = test_end img_ctx next_lba_bound in
      if ltb next_lba_bound first_lba
      then none
      else if leb first_lba test_end_lba
          && is_none (schem_find_overlap schem first_lba test_end_lba part_ign)
      then some test_end_lba
      else some next_lba_bound
