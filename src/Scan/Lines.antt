-- ===== src/Scan/Lines.antt =====
-- What the scans take from the input, and what they make of a typed line.
use partman.Base.{
  ℕ, suc, ◌≤◌, ◌<◌, ◌≡◌, ◌⊎◌, inl, inr, refl, ap, List, [], ◌∷◌, length, false, Option, none, some,
  ==_ne, Option-cases, arith,
}
use partman.Stdio.{
  typed, AllText, line_of, read_chars-typed, Event, Stream, fgets, fgets_result, clearerr, fgets-le,
  fgets-Progress, FoundEnd,
}
use partman.Guid.{zero_guid}
use partman.Guid.Text.{str_to_guid}
use partman.Scan.{
  ScanRes, Scanned, scan_str, scan_buf_sz, str_result, line_result, cut_line, convert, scan_char,
  note_overflow, scan_int, scan_guid, in_range, range_result, prompt_range, sector_scanned,
  sector_ext_result, prompt_sector_ext, SectorRes,
}

str_result-events : (t : Option (List ℕ)) (st : Stream) → (str_result t st).2.events ≡ st.events
unfolding str_result clearerr
str_result-events none st = ground arith
str_result-events (some t) st = refl

str_result-end :
    (r : Option (List ℕ) × Stream) → FoundEnd r → (str_result r.0 r.1).0 ≡ ScanRes.scan_eof
unfolding str_result
str_result-end r f = rw f.0 (rw f.1 refl)

pub scan_str-le : (n : ℕ) (st : Stream) → length (scan_str n st).2.events ≤ length st.events
unfolding scan_str
scan_str-le n st = rw (str_result-events (fgets n st).0 (fgets n st).1) (fgets-le n st)

-- Each line that is read, or fails to be read, takes at least one event, unless the end of the file is
-- reported.
pub scan_str_progress :
    (n : ℕ) (st : Stream)
    → ((scan_str (suc (suc n)) st).0 ≡ ScanRes.scan_eof)
      ⊎ (length (scan_str (suc (suc n)) st).2.events < length st.events)
unfolding scan_str
scan_str_progress n st = elim (fgets-Progress n st) [
  | inl f ↦ inl (str_result-end (fgets (suc (suc n)) st) f)
  | inr h ↦ inr (rw (str_result-events (fgets (suc (suc n)) st).0 (fgets (suc (suc n)) st).1) h)
]

module _ {ℓ} {A : Type ℓ} (d : A) (parse : List ℕ → Option A) where
  pub convert-stdin : (r : ScanRes × List ℕ × Stream) → (convert d parse r).stdin ≡ r.2
  unfolding convert
  convert-stdin (ScanRes.scan_empty, buf, st) = refl
  convert-stdin (ScanRes.scan_eof, buf, st) = refl
  convert-stdin (ScanRes.scan_fail, buf, st) = refl
  convert-stdin (ScanRes.scan_ok, buf, st) = elim (Option-cases (parse buf)) [
    | inl e ↦ rw (e, convert) refl
    | inr (a, e) ↦ rw (e, convert) refl
  ]

  pub convert-eof :
      (r : ScanRes × List ℕ × Stream)
      → r.0 ≡ ScanRes.scan_eof
      → (convert d parse r).res ≡ ScanRes.scan_eof
  unfolding convert
  convert-eof r h = rw h refl

-- How much input is left, and that one scan makes it less or reports the end of the file.
abbrev pub left : Stream → ℕ
left st = length st.events

module _ {ℓ} {A : Type ℓ} (d : A) (parse : List ℕ → Option A) (st : Stream) where
  convert_progress :
      ((convert d parse (scan_str scan_buf_sz st)).res ≡ ScanRes.scan_eof)
      ⊎ (left (convert d parse (scan_str scan_buf_sz st)).stdin < left st)
  convert_progress = elim (scan_str_progress 254 st) [
    | inl h ↦ inl (convert-eof d parse (scan_str scan_buf_sz st) h)
    | inr h ↦ inr (rw (convert-stdin d parse (scan_str scan_buf_sz st)) h)
  ]

  convert-le : left (convert d parse (scan_str scan_buf_sz st)).stdin ≤ left st
  convert-le = rw (convert-stdin d parse (scan_str scan_buf_sz st)) (scan_str-le scan_buf_sz st)

pub scan_char_progress :
    (st : Stream) → ((scan_char st).res ≡ ScanRes.scan_eof) ⊎ (left (scan_char st).stdin < left st)
unfolding scan_char
scan_char_progress st = convert_progress 0 _ st

pub scan_int-le : (base : ℕ) (st : Stream) → left (scan_int base st).stdin ≤ left st
unfolding scan_int note_overflow
scan_int-le base st = convert-le 0 _ st

pub scan_guid-le : (st : Stream) → left (scan_guid st).stdin ≤ left st
unfolding scan_guid
scan_guid-le st = convert-le zero_guid str_to_guid st

pub range_result-stdin :
    (start end def : ℕ) (res : ScanRes) (r : Scanned ℕ)
    → (range_result start end def res r).stdin ≡ r.stdin
unfolding range_result in_range
range_result-stdin start end def ScanRes.scan_empty r = refl
range_result-stdin start end def ScanRes.scan_eof r = refl
range_result-stdin start end def ScanRes.scan_fail r = refl
range_result-stdin start end def ScanRes.scan_ok r = ground arith

pub prompt_range-le :
    (start end def : ℕ) (st : Stream) → left (prompt_range start end def st).stdin ≤ left st
unfolding prompt_range
prompt_range-le start end def st =
    rw (range_result-stdin start end def (scan_int 10 st).res (scan_int 10 st)) (scan_int-le 10 st)

sector_scanned-stdin :
    (r : SectorRes) (st : Stream) (s : Scanned ℕ) → sector_scanned r st ≡ some s → s.stdin ≡ st
unfolding sector_scanned
sector_scanned-stdin (SectorRes.sector n) st s h = ground arith
sector_scanned-stdin SectorRes.bad st s h = ground arith
sector_scanned-stdin SectorRes.undefined st s h = ground arith

pub sector_ext_result-stdin :
    (start end def sec_sz : ℕ) (r : ScanRes × List ℕ × Stream) (s : Scanned ℕ)
    → sector_ext_result start end def sec_sz r ≡ some s
    → s.stdin ≡ r.2
unfolding sector_ext_result
sector_ext_result-stdin start end def sec_sz (ScanRes.scan_empty, buf, st) s h = ground arith
sector_ext_result-stdin start end def sec_sz (ScanRes.scan_eof, buf, st) s h = ground arith
sector_ext_result-stdin start end def sec_sz (ScanRes.scan_fail, buf, st) s h = ground arith
sector_ext_result-stdin start end def sec_sz (ScanRes.scan_ok, buf, st) s h =
    sector_scanned-stdin _ st s h

pub prompt_sector_ext-le :
    (start end def sec_sz : ℕ) (st : Stream) (s : Scanned ℕ)
    → prompt_sector_ext start end def sec_sz st ≡ some s
    → left s.stdin ≤ left st
unfolding prompt_sector_ext
prompt_sector_ext-le start end def sec_sz st s h =
    rw (sector_ext_result-stdin start end def sec_sz (scan_str scan_buf_sz st) s h)
      (scan_str-le scan_buf_sz st)

cut_line-line_of : (line : List ℕ) → AllText line → cut_line (line_of line) ≡ line
unfolding cut_line
cut_line-line_of [] h = refl
cut_line-line_of (c ∷ s) (lf, cr, nul, h) =
    rw (==_ne c b'\n' lf, ==_ne c b'\r' cr, ==_ne c 0 nul) (ap (◌∷◌ c) (cut_line-line_of s h))

-- A typed line of text that fits the buffer is what `scan_str` returns, and only that line is taken.
pub scan_str-typed :
    (line : List ℕ) (es : List Event)
    → AllText line
    → length line < 255
    → scan_str scan_buf_sz (record { events = typed line es; eof = false; overflowed = false })
      ≡ (line_result line, line, record { events = es; eof = false; overflowed = false })
unfolding scan_str fgets fgets_result str_result
scan_str-typed line es h short =
    rw (read_chars-typed 255 line es h short, cut_line-line_of line h) refl
