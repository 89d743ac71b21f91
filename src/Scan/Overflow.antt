-- ===== src/Scan/Overflow.antt =====
-- Which lines make the conversion of a number undefined.
use partman.Base.{ℕ, ◌≡◌, refl, List, true, false, ◌||◌, Option, none, some, arith}
use partman.CText.{sscanf_overflows}
use partman.Stdio.{Stream, fgets, fgets-overflowed, clearerr}
use partman.Guid.{zero_guid}
use partman.Guid.Text.{str_to_guid}
use partman.Scan.{
  Scanned, str_result, scan_str, scan_buf_sz, note_overflow, scan_int, scan_guid, prompt_range,
  prompt_sector_ext,
}
use partman.Scan.Lines.{convert-stdin, range_result-stdin, sector_ext_result-stdin}

-- The line that the next scan reads.
abbrev pub next_line : Stream → List ℕ
next_line st = (scan_str scan_buf_sz st).1

-- That line is a number of more than 64 bits.
abbrev pub IsTooLarge : ℕ → Stream → Type 0
IsTooLarge base st = sscanf_overflows base (next_line st) ≡ true

str_result-overflowed :
    (t : Option (List ℕ)) (st : Stream) → (str_result t st).2.overflowed ≡ st.overflowed
unfolding str_result clearerr
str_result-overflowed none st = ground arith
str_result-overflowed (some t) st = refl

scan_str-overflowed : (n : ℕ) (st : Stream) → (scan_str n st).2.overflowed ≡ st.overflowed
unfolding scan_str
scan_str-overflowed n st =
    rw (str_result-overflowed (fgets n st).0 (fgets n st).1) (fgets-overflowed n st)

pub scan_guid-overflowed : (st : Stream) → (scan_guid st).stdin.overflowed ≡ st.overflowed
unfolding scan_guid
scan_guid-overflowed st =
    rw (convert-stdin zero_guid str_to_guid (scan_str scan_buf_sz st))
      (scan_str-overflowed scan_buf_sz st)

scan_int-overflowed :
    (base : ℕ) (st : Stream)
    → (scan_int base st).stdin.overflowed ≡ (st.overflowed || sscanf_overflows base (next_line st))
unfolding scan_int note_overflow
scan_int-overflowed base st =
    rw (convert-stdin {A = ℕ} 0 _ (scan_str scan_buf_sz st))
      (rw (scan_str-overflowed scan_buf_sz st) refl)

prompt_range-overflowed :
    (start end def : ℕ) (st : Stream)
    → (prompt_range start end def st).stdin.overflowed
      ≡ (st.overflowed || sscanf_overflows 10 (next_line st))
unfolding prompt_range
prompt_range-overflowed start end def st =
    rw (range_result-stdin start end def (scan_int 10 st).res (scan_int 10 st))
      (scan_int-overflowed 10 st)

pub scan_int-IsTooLarge :
    (base : ℕ) (st : Stream)
    → st.overflowed ≡ false
    → (scan_int base st).stdin.overflowed ≡ true
    → IsTooLarge base st
scan_int-IsTooLarge base st clean h =
    let e = scan_int-overflowed base st in ground (arith, e, clean, h)

pub prompt_range-IsTooLarge :
    (start end def : ℕ) (st : Stream)
    → st.overflowed ≡ false
    → (prompt_range start end def st).stdin.overflowed ≡ true
    → IsTooLarge 10 st
prompt_range-IsTooLarge start end def st clean h =
    let e = prompt_range-overflowed start end def st in ground (arith, e, clean, h)

pub prompt_sector_ext-overflowed :
    (start end def sec_sz : ℕ) (st : Stream) (s : Scanned ℕ)
    → prompt_sector_ext start end def sec_sz st ≡ some s
    → s.stdin.overflowed ≡ st.overflowed
unfolding prompt_sector_ext
prompt_sector_ext-overflowed start end def sec_sz st s h =
    rw (sector_ext_result-stdin start end def sec_sz (scan_str scan_buf_sz st) s h)
      (scan_str-overflowed scan_buf_sz st)
