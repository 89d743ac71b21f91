-- ===== src/Session/Tests.antt =====
-- Sessions on a small MBR scheme.
use partman.Base.{◌≡◌, refl, [], ◌∷◌, true, false, none, some, arith}
use partman.CText.{
  isspace, skip_space, digit_value, digits, starts_digit, number, has_prefix, magnitude,
  to_unsigned, signed_number, scan_number, sscanf_number, is_too_large, overflows, sscanf_overflows,
}
use partman.Stdio.{Stream, typed, read_chars, fgets, fgets_result}
use partman.Scan.{
  cut_line, line_result, str_result, scan_str, convert, first_char, scan_char, note_overflow,
  scan_int, in_range, range_result, prompt_range,
}
use partman.Schem.{SchemType, zero_part, part_is_used, schem_part_is_used_mbr}
use partman.SchemCtx.{SchemCtx, set_scheme}
use partman.Find.{index_from, schem_find_part_index}
use partman.Examples.{disk, two_parts, calls_succeed}
use partman.Command.{
  put_part, chosen, prompted, prompt_from, pm_part_prompt, schem_part_delete, pm_part_delete,
}
use partman.Command.Samples.{two_parts-IsSound}
use partman.Session.{
  ActionRes, Session, action_of, get_scheme, edited, kept, on_scheme, act, action_handle,
  command_char, is_eof,
}
use partman.Session.Init.{IsRoomy}
use partman.Session.Steps.{AreHeld, BothStep, action_handle-BothStep}
use partman.Session.Invariant.{Reaches, start, command, Reaches-AreHeld}
use partman.Session.Ends.{Ends}

abbrev mbr_only : SchemCtx
mbr_only = record { mbr = some two_parts; gpt = none; mbr_in_img = true; gpt_in_img = false }

abbrev session : Stream → Session
session st = record {
  ctx = mbr_only;
  cur = SchemType.schem_type_mbr;
  world = calls_succeed;
  stdin = st;
}

disk-IsRoomy : IsRoomy disk
disk-IsRoomy = record {
  sec_sz = omega arith;
  img_sz = omega arith;
  sectors = omega arith;
  align_pos = omega arith;
  aligns = omega arith;
}

mbr_only-AreHeld : AreHeld mbr_only disk
mbr_only-AreHeld = (record { sound = two_parts-IsSound; funcs = refl; array = omega arith }, tt)

-- `2`, at the prompt of `d`
abbrev second : Stream
second = record { events = typed (b'2' ∷ []) []; eof = false; overflowed = false }

abbrev one_left : Session
one_left = record (session (record { events = []; eof = false; overflowed = false })) {
  ctx = record mbr_only { mbr = some (put_part two_parts 1 zero_part) };
}

deletes : action_handle disk (session second) b'd' ≡ some (ActionRes.action_continue, one_left)
unfolding action_handle action_of act on_scheme get_scheme kept edited set_scheme pm_part_delete
    schem_part_delete pm_part_prompt prompt_from prompted chosen schem_find_part_index index_from
    part_is_used schem_part_is_used_mbr prompt_range range_result in_range scan_int convert
    note_overflow sscanf_overflows overflows is_too_large scan_str fgets read_chars fgets_result
    str_result cut_line line_result sscanf_number scan_number signed_number magnitude has_prefix
    number starts_digit digits digit_value skip_space isspace to_unsigned
deletes = refl

action_handle-BothStep_example : BothStep mbr_only one_left.ctx
unfolding action_of
action_handle-BothStep_example =
    action_handle-BothStep disk (session second) b'd' ActionRes.action_continue one_left
      mbr_only-AreHeld refl deletes

-- The same from the line of the command on.
abbrev delete_second : Session
delete_second =
    session (record {
      events = typed (b'd' ∷ []) (typed (b'2' ∷ []) []);
      eof = false;
      overflowed = false;
    })

reaches : Reaches disk delete_second one_left
unfolding scan_char first_char command_char is_eof action_handle action_of act on_scheme get_scheme
    kept edited set_scheme pm_part_delete schem_part_delete pm_part_prompt prompt_from prompted
    chosen schem_find_part_index index_from part_is_used schem_part_is_used_mbr prompt_range
    range_result in_range scan_int convert note_overflow sscanf_overflows overflows is_too_large
    scan_str fgets read_chars fgets_result str_result cut_line line_result sscanf_number scan_number
    signed_number magnitude has_prefix number starts_digit digits digit_value skip_space isspace
    to_unsigned
reaches = command start refl refl

Reaches-AreHeld_example : AreHeld one_left.ctx disk
Reaches-AreHeld_example = Reaches-AreHeld disk delete_second disk-IsRoomy mbr_only-AreHeld reaches

-- `n`, two defaults, and a blank for the last sector
abbrev blank_line : Session
blank_line = session (record {
  events = typed [] (typed [] (typed (b' ' ∷ []) []));
  eof = false;
  overflowed = false;
})

-- `d`, and the number 2 ^ 64
abbrev large_line : Session
large_line = session (record {
  events =
      typed
        (b'1' ∷ b'8' ∷ b'4' ∷ b'4' ∷ b'6' ∷ b'7' ∷ b'4' ∷ b'4' ∷ b'0' ∷ b'7' ∷ b'3' ∷ b'7' ∷ b'0'
          ∷ b'9' ∷ b'5' ∷ b'5' ∷ b'1' ∷ b'6' ∷ b'1' ∷ b'6' ∷ [])
        [];
  eof = false;
  overflowed = false;
})

no_large : action_handle disk large_line b'd' ≡ none
unfolding action_handle action_of act on_scheme get_scheme kept edited set_scheme pm_part_delete
    schem_part_delete pm_part_prompt prompt_from prompted chosen schem_find_part_index index_from
    part_is_used schem_part_is_used_mbr prompt_range range_result in_range scan_int convert
    note_overflow sscanf_overflows overflows is_too_large scan_str fgets read_chars fgets_result
    str_result cut_line line_result sscanf_number scan_number signed_number magnitude has_prefix
    number starts_digit digits digit_value skip_space isspace to_unsigned
no_large = refl
