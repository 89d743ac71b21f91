-- ===== src/Scan.antt =====
-- src/scan.c: reading a line of the standard input, and the prompts for a number.
-- The prompts' texts are not modelled. A last sector that C does not define is `undefined`; for the
-- other numbers the stream notes it.
pub mod Lines
pub mod Bounds
pub mod Sizes
pub mod Undefined
pub mod Overflow
mod Tests
use partman.Base.{
  ℕ, zero, suc, ◌+◌, ◌-◌, ◌*◌, ◌/◌, ◌^◌, List, [], ◌∷◌, Bool, true, false, not, ◌&&◌, ◌||◌, Option,
  none, some, ltb, leb, ◌==◌, if◌then◌else◌, u64, sub64, ◌<<<◌,
}
use partman.CText.{isspace, isdigit, toupper, skip_space, sscanf_number, sscanf_overflows}
use partman.Stdio.{Stream, fgets, clearerr}
use partman.Guid.{Guid, zero_guid}
use partman.Guid.Text.{str_to_guid}

pub data ScanRes : Type 0 where
  scan_ok scan_empty scan_eof scan_fail : ScanRes

abbrev pub scan_buf_sz : ℕ
scan_buf_sz = 256

-- `buf[strcspn(buf, "\n\r")] = '\0'`; the buffer ends at its first terminator, too
unfoldable pub cut_line : List ℕ → List ℕ
cut_line [] = []
cut_line (c ∷ s) =
    let rest = c ∷ cut_line s in if c == b'\n' || c == b'\r' || c == 0 then [] else rest

-- what `scan_str` makes of the line that was read
unfoldable pub line_result : List ℕ → ScanRes
line_result [] = ScanRes.scan_empty
line_result (c ∷ s) = ScanRes.scan_ok

unfoldable pub str_result : Option (List ℕ) → Stream → ScanRes × List ℕ × Stream
str_result none stdin =
    if stdin.eof then (ScanRes.scan_eof, [], clearerr stdin) else (ScanRes.scan_fail, [], stdin)
str_result (some text) stdin = let buf = cut_line text in (line_result buf, buf, stdin)

unfoldable pub scan_str : ℕ → Stream → ScanRes × List ℕ × Stream
scan_str buf_sz stdin = let (text, stdin) = fgets buf_sz stdin in str_result text stdin

-- What a scan of a value returns; the value stands only where `res` is `scan_ok`.
pub record Scanned {ℓ} (A : Type ℓ) : Type ℓ where
  pub res : ScanRes
  pub value : A
  pub stdin : Stream

-- the end of `scan_char`, `scan_int` and `scan_guid`, from the result of `scan_str`
unfoldable pub convert {ℓ} :
    {A : Type ℓ} → A → (List ℕ → Option A) → ScanRes × List ℕ × Stream → Scanned A
convert d parse (ScanRes.scan_empty, buf, stdin) = record {
  res = ScanRes.scan_empty;
  value = d;
  stdin = stdin;
}
convert d parse (ScanRes.scan_eof, buf, stdin) = record {
  res = ScanRes.scan_eof;
  value = d;
  stdin = stdin;
}
convert d parse (ScanRes.scan_fail, buf, stdin) = record {
  res = ScanRes.scan_fail;
  value = d;
  stdin = stdin;
}
convert d parse (ScanRes.scan_ok, buf, stdin) = elim (parse buf) [
  | none ↦ record { res = ScanRes.scan_fail; value = d; stdin = stdin }
  | some a ↦ record { res = ScanRes.scan_ok; value = a; stdin = stdin }
]

-- `sscanf(buf, " %c", c)`
unfoldable pub first_char : List ℕ → Option ℕ
first_char s = elim (skip_space s) [ [] ↦ none | c ∷ rest ↦ some c ]

unfoldable pub scan_char : Stream → Scanned ℕ
scan_char stdin = convert 0 first_char (scan_str scan_buf_sz stdin)

unfoldable pub scan_guid : Stream → Scanned Guid
scan_guid stdin = convert zero_guid str_to_guid (scan_str scan_buf_sz stdin)

-- whether a conversion was undefined
unfoldable pub note_overflow : Bool → Scanned ℕ → Scanned ℕ
note_overflow o r = record r { stdin = record r.stdin { overflowed = r.stdin.overflowed || o } }

-- The formats are " %lu", " %llu" and " %lx": a base. Where no line was read, its text is empty.
unfoldable pub scan_int : ℕ → Stream → Scanned ℕ
scan_int base stdin =
    let r = scan_str scan_buf_sz stdin in
    note_overflow (sscanf_overflows base r.1) (convert 0 (sscanf_number base) r)

unfoldable pub in_range : ℕ → ℕ → Scanned ℕ → Scanned ℕ
in_range start end r =
    if ltb r.value start || ltb end r.value then record r { res = ScanRes.scan_fail } else r

unfoldable pub range_result : ℕ → ℕ → ℕ → ScanRes → Scanned ℕ → Scanned ℕ
range_result start end def ScanRes.scan_empty r = record r { res = ScanRes.scan_ok; value = def }
range_result start end def ScanRes.scan_eof r = r
range_result start end def ScanRes.scan_fail r = r
range_result start end def ScanRes.scan_ok r = in_range start end r

-- `prompt_range_pu32` and `prompt_range_pu64`, which differ in nothing on an LP64 system
unfoldable pub prompt_range : ℕ → ℕ → ℕ → Stream → Scanned ℕ
prompt_range start end def stdin = let r = scan_int 10 stdin in range_result start end def r.res r

-- the loop over the white space at the end
unfoldable pub keep_unless_blank : ℕ → List ℕ → List ℕ
keep_unless_blank c [] = if isspace c then [] else c ∷ []
keep_unless_blank c (d ∷ s) = c ∷ d ∷ s

unfoldable pub trim_end : List ℕ → List ℕ
trim_end [] = []
trim_end (c ∷ s) = keep_unless_blank c (trim_end s)

unfoldable pub last_char : ℕ → List ℕ → ℕ
last_char c [] = c
last_char c (d ∷ s) = last_char d s

-- `isspace`, `isdigit` and `toupper` take an `unsigned char`. A byte from 128 on is negative in a
-- plain `char`, and the call is undefined: `none`. The text that is left begins and ends with the
-- bytes at which the two loops stop; those are all that are looked up and not white space.
unfoldable pub looked_up : List ℕ → Option (List ℕ)
looked_up [] = none
looked_up (c ∷ s) = if leb 128 c || leb 128 (last_char c s) then none else some (c ∷ s)

-- In a text of white space alone the second loop reads before the buffer: `none`.
unfoldable pub str_trim : List ℕ → Option (List ℕ)
str_trim buf = looked_up (trim_end (skip_space buf))

-- a number of sectors, `scan_fail`, or a result that C does not define
pub data SectorRes : Type 0 where
  sector : ℕ → SectorRes
  bad : SectorRes
  undefined : SectorRes

unfoldable pub drop_last : ℕ → List ℕ → List ℕ
drop_last c [] = []
drop_last c (d ∷ s) = c ∷ drop_last d s

-- `mod_c`, and the text without it
unfoldable pub split_modifier : ℕ → List ℕ → ℕ × List ℕ
split_modifier c s =
    let last = last_char c s in if not (isdigit last) then (last, drop_last c s) else (0, c ∷ s)

-- `sign_c`, and the text behind it; of an empty text, the terminator
unfoldable pub split_sign : List ℕ → ℕ × List ℕ
split_sign [] = (0, [])
split_sign (c ∷ s) = if not (isdigit c) then (c, s) else (0, c ∷ s)

-- The loop over `modifiers`. `1 << (10 * (i + 1))` is an `int`, of 32 bits: from `i` = 3 on it is
-- undefined.
unfoldable pub modifier_val : ℕ → SectorRes
modifier_val mod_c =
    let c = toupper mod_c in
    if c == b'K'
    then sector (1 <<< 10)
    else if c == b'M'
    then sector (1 <<< 20)
    else if c == b'G'
    then sector (1 <<< 30)
    else if c == b'T' || c == b'P'
    then undefined
    else bad

-- the integer in sectors
unfoldable pub scale : ℕ → ℕ → SectorRes → SectorRes
scale sec_sz n (sector mod_val) = sector (u64 (n * mod_val) / sec_sz)
scale sec_sz n bad = bad
scale sec_sz n undefined = undefined

unfoldable pub apply_modifier : ℕ → ℕ → ℕ → SectorRes
apply_modifier sec_sz mod_c n = if mod_c == 0 then sector n else scale sec_sz n (modifier_val mod_c)

unfoldable pub apply_sign : ℕ → ℕ → ℕ → SectorRes → SectorRes
apply_sign start end sign_c (sector n) =
    if sign_c == 0
    then sector n
    else if sign_c == b'+'
    then sector (u64 (n + sub64 start 1))
    else if sign_c == b'-'
    then sector (sub64 end n)
    else bad
apply_sign start end sign_c bad = bad
apply_sign start end sign_c undefined = undefined

unfoldable pub check_range : ℕ → ℕ → SectorRes → SectorRes
check_range start end (sector n) = if ltb n start || ltb end n then bad else sector n
check_range start end bad = bad
check_range start end undefined = undefined

-- from the line's characters on; `i < 1` is the empty text
unfoldable pub parse_sector : ℕ → ℕ → ℕ → List ℕ → SectorRes
parse_sector start end sec_sz [] = bad
parse_sector start end sec_sz (c ∷ s) =
    let (mod_c, s) = split_modifier c s in
    let (sign_c, s) = split_sign s in
    if not (mod_c == 0) && sign_c == 0
    then bad
    else if sscanf_overflows 10 s
    then undefined
    else elim (sscanf_number 10 s) [
      | none ↦ bad
      | some n ↦ check_range start end (apply_sign start end sign_c (apply_modifier sec_sz mod_c n))
    ]

unfoldable pub trimmed_sector : ℕ → ℕ → ℕ → Option (List ℕ) → SectorRes
trimmed_sector start end sec_sz none = undefined
trimmed_sector start end sec_sz (some s) = parse_sector start end sec_sz s

unfoldable pub sector_scanned : SectorRes → Stream → Option (Scanned ℕ)
sector_scanned (sector n) stdin = some (record { res = ScanRes.scan_ok; value = n; stdin = stdin })
sector_scanned bad stdin = some (record { res = ScanRes.scan_fail; value = 0; stdin = stdin })
sector_scanned undefined stdin = none

unfoldable pub sector_ext_result : ℕ → ℕ → ℕ → ℕ → ScanRes × List ℕ × Stream → Option (Scanned ℕ)
sector_ext_result start end def sec_sz (ScanRes.scan_empty, buf, stdin) =
    some (record { res = ScanRes.scan_ok; value = def; stdin = stdin })
sector_ext_result start end def sec_sz (ScanRes.scan_eof, buf, stdin) =
    some (record { res = ScanRes.scan_eof; value = 0; stdin = stdin })
sector_ext_result start end def sec_sz (ScanRes.scan_fail, buf, stdin) =
    some (record { res = ScanRes.scan_fail; value = 0; stdin = stdin })
sector_ext_result start end def sec_sz (ScanRes.scan_ok, buf, stdin) =
    sector_scanned (trimmed_sector start end sec_sz (str_trim buf)) stdin

-- `none` is a result that C does not define.
unfoldable pub prompt_sector_ext : ℕ → ℕ → ℕ → ℕ → Stream → Option (Scanned ℕ)
prompt_sector_ext start end def sec_sz stdin =
    sector_ext_result start end def sec_sz (scan_str scan_buf_sz stdin)
