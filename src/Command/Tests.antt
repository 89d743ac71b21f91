-- ===== src/Command/Tests.antt =====
-- Commands on a small MBR scheme.
use partman.Base.{ℕ, ◌≡◌, refl, [], ◌∷◌, true, false, none, some, ◌==◌, if◌then◌else◌, arith}
use partman.CText.{overflows, sscanf_overflows}
use partman.Stdio.{Stream, typed, read_chars, fgets, fgets_result}
use partman.Scan.{
  cut_line, line_result, str_result, scan_str, convert, note_overflow, scan_int, range_result,
  prompt_range, sector_ext_result, prompt_sector_ext,
}
use partman.ImgCtx.{lba_align}
use partman.Schem.{zero_part, part_is_used, schem_part_is_used_mbr, schem_part_init_mbr}
use partman.Find.{
  overlap_from, index_from, occupant_from, lower_bound, bound_from, schem_find_overlap,
  schem_find_part_index, test_end, start_loop, schem_find_start_sector, schem_find_last_sector,
}
use partman.Examples.{disk, two_parts, calls_succeed}
use partman.Command.{
  Edited, get_part, put_part, chosen, prompted, prompt_from, pm_part_prompt, part_init, place_part,
  alter_end, alter_start, alter_found, pm_part_alter, pm_part_delete,
}
use partman.Command.Layout.{layout}
use partman.Command.Samples.{two_parts-IsSound}
use partman.Command.Refine.Alter.{Altered, pm_part_alter-Altered}
use partman.Command.Typed.{pm_part_delete-typed}

-- A new partition with the defaults: three empty lines.
abbrev defaults : Stream
defaults = record { events = typed [] (typed [] (typed [] [])); eof = false; overflowed = false }

abbrev three_parts : Edited
three_parts = record {
  schem =
      put_part two_parts 2 (record zero_part { type_i = 0x83; start_lba = 4096; end_lba = 6143 });
  world = calls_succeed;
  stdin = record { events = []; eof = false; overflowed = false };
}

adds : pm_part_alter two_parts disk true calls_succeed defaults ≡ some three_parts
unfolding pm_part_alter pm_part_prompt prompt_from prompted chosen alter_found alter_start alter_end
    place_part part_init schem_part_init_mbr schem_find_part_index index_from part_is_used
    schem_part_is_used_mbr schem_find_start_sector start_loop occupant_from lba_align
    schem_find_last_sector bound_from lower_bound test_end schem_find_overlap overlap_from
    prompt_sector_ext scan_str fgets read_chars fgets_result str_result cut_line line_result
    sector_ext_result prompt_range scan_int convert note_overflow sscanf_overflows overflows
    range_result
adds = refl

pm_part_alter-Altered_example : Altered two_parts true three_parts.schem
pm_part_alter-Altered_example =
    pm_part_alter-Altered two_parts disk true calls_succeed defaults three_parts two_parts-IsSound
      adds

second_used : part_is_used two_parts.funcs (get_part two_parts 1) ≡ true
unfolding part_is_used schem_part_is_used_mbr
second_used = refl

pm_part_delete-typed_example :
    let e : Edited =
      pm_part_delete two_parts calls_succeed
        (record { events = typed (b'2' ∷ []) []; eof = false; overflowed = false }) in
    ((j : ℕ) → layout e.schem j ≡ (if j == 1 then none else layout two_parts j))
    × (e.world ≡ calls_succeed)
    × (e.stdin ≡ record { events = []; eof = false; overflowed = false })
pm_part_delete-typed_example =
    pm_part_delete-typed two_parts calls_succeed (b'2' ∷ []) [] (omega arith) (omega arith)
      (omega arith) (omega arith) (omega arith) (omega arith) (omega arith) second_used
