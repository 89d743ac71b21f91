-- ===== src/Scan/Tests.antt =====
-- Lines at the prompts.
use partman.Base.{◌*◌, ◌/◌, ◌≤◌, ◌≡◌, refl, [], ◌∷◌, true, false, some, none, arith}
use partman.CText.{
  isspace, isdigit, toupper, skip_space, digit_value, digits, starts_digit, number, has_prefix,
  magnitude, to_unsigned, signed_number, scan_number, sscanf_number, is_too_large, overflows,
  sscanf_overflows,
}
use partman.Stdio.{Stream, typed, read_chars, fgets, fgets_result}
use partman.Scan.{
  ScanRes, cut_line, line_result, str_result, scan_str, convert, note_overflow, scan_int, in_range,
  range_result, prompt_range, keep_unless_blank, trim_end, looked_up, str_trim, last_char,
  drop_last, split_modifier, split_sign, modifier_val, scale, apply_modifier, apply_sign,
  check_range, parse_sector, trimmed_sector, sector_scanned, sector_ext_result, prompt_sector_ext,
}
use partman.Scan.Bounds.{prompt_sector_ext_bounds}
use partman.Scan.Sizes.{mib, sized, sectors_result, prompt_sector_ext-sized}

-- " 77", and "+1M"
abbrev seventy_seven : Stream
seventy_seven = record {
  events = typed (b' ' ∷ b'7' ∷ b'7' ∷ []) [];
  eof = false;
  overflowed = false;
}

abbrev one_mib : Stream
one_mib = record { events = typed (sized (b'1' ∷ []) mib true) []; eof = false; overflowed = false }

abbrev one_tib : Stream
one_tib = record { events = typed (b'+' ∷ b'1' ∷ b'T' ∷ []) []; eof = false; overflowed = false }

accepts : (prompt_range 1 100 5 seventy_seven).res ≡ ScanRes.scan_ok
unfolding prompt_range scan_int scan_str fgets read_chars fgets_result str_result cut_line
    line_result convert note_overflow sscanf_overflows overflows is_too_large range_result in_range
    sscanf_number scan_number signed_number magnitude has_prefix number starts_digit digits
    digit_value skip_space isspace to_unsigned
accepts = refl

prompt_sector_ext-sized_example :
    prompt_sector_ext 2048 8191 8191 512 one_mib
    ≡ some (sectors_result 2048 8191 512 (1 * (1024 * 1024) / 512) [])
prompt_sector_ext-sized_example =
    prompt_sector_ext-sized 2048 8191 8191 512 (b'1' ∷ []) mib true [] (omega arith) (omega arith)
      (omega arith) (omega arith) (omega arith) (omega arith) (omega arith)

measured :
    prompt_sector_ext 2048 8191 8191 512 one_mib
    ≡ some (sectors_result 2048 8191 512 (1 * (1024 * 1024) / 512) [])
unfolding prompt_sector_ext scan_str fgets read_chars fgets_result str_result cut_line line_result
    sector_ext_result str_trim looked_up skip_space isspace trim_end keep_unless_blank
    trimmed_sector parse_sector split_modifier last_char drop_last isdigit split_sign sscanf_number
    scan_number signed_number magnitude has_prefix number starts_digit digits digit_value
    to_unsigned sscanf_overflows overflows is_too_large apply_modifier modifier_val toupper scale
    apply_sign check_range sector_scanned
measured = refl

prompt_sector_ext_bounds_example :
    (2048 ≤ (sectors_result 2048 8191 512 (1 * (1024 * 1024) / 512) []).value)
    × ((sectors_result 2048 8191 512 (1 * (1024 * 1024) / 512) []).value ≤ 8191)
prompt_sector_ext_bounds_example =
    prompt_sector_ext_bounds 2048 8191 8191 512 one_mib
      (sectors_result 2048 8191 512 (1 * (1024 * 1024) / 512) []) (omega arith) (omega arith)
      measured refl

no_result : prompt_sector_ext 2048 8191 8191 512 one_tib ≡ none
unfolding prompt_sector_ext scan_str fgets read_chars fgets_result str_result cut_line line_result
    sector_ext_result str_trim looked_up skip_space isspace trim_end keep_unless_blank
    trimmed_sector parse_sector split_modifier last_char drop_last isdigit split_sign sscanf_number
    scan_number signed_number magnitude has_prefix number starts_digit digits digit_value
    to_unsigned sscanf_overflows overflows is_too_large apply_modifier modifier_val toupper scale
    apply_sign check_range sector_scanned
no_result = refl

-- a byte from 128 on at the end
no_class :
    prompt_sector_ext 2048 8191 8191 512
      (record { events = typed (b'+' ∷ b'1' ∷ 0xe9 ∷ []) []; eof = false; overflowed = false })
    ≡ none
unfolding prompt_sector_ext scan_str fgets read_chars fgets_result str_result cut_line line_result
    sector_ext_result str_trim looked_up last_char skip_space isspace trim_end keep_unless_blank
    trimmed_sector sector_scanned
no_class = refl
