-- ===== src/Scan/Sizes.antt =====
-- The extended form of a last sector: `+` with a size.
use native.Mathlib.Nat.{mod-eq_of_lt, div-le_self}
use partman.Base.{
  ℕ, ◌+◌, ◌-◌, ◌*◌, ◌/◌, ◌^◌, ◌≤◌, ◌<◌, ◌≡◌, refl, ap, List, [], ◌∷◌, ◌++◌, length, Bool, true,
  false, ◌&&◌, ◌==◌, leb, if◌then◌else◌, u64, sub64, some, arith,
}
use partman.CText.{isspace, isdigit, toupper, skip_space}
use partman.CText.Decimal.{AllDigits, decimal, sscanf_number-AllDigits, sscanf_overflows-AllDigits}
use partman.Stdio.{Event, typed, AllText}
use partman.Scan.{
  ScanRes, Scanned, SectorRes, line_result, keep_unless_blank, trim_end, looked_up, str_trim,
  last_char, drop_last, split_modifier, split_sign, modifier_val, scale, apply_modifier, apply_sign,
  check_range, parse_sector, trimmed_sector, sector_scanned, sector_ext_result, prompt_sector_ext,
}
use partman.Scan.Lines.{scan_str-typed}

pub data Size : Type 0 where
  kib mib gib : Size

-- the letter that is typed for a size, as a capital or not
abbrev pub letter : Size → Bool → ℕ
letter kib true = b'K'
letter kib false = b'k'
letter mib true = b'M'
letter mib false = b'm'
letter gib true = b'G'
letter gib false = b'g'

abbrev pub bytes_in : Size → ℕ
bytes_in kib = 1024
bytes_in mib = 1024 * 1024
bytes_in gib = 1024 * 1024 * 1024

-- `+`, a number and a letter
abbrev pub sized : List ℕ → Size → Bool → List ℕ
sized ds size capital = b'+' ∷ ds ++ letter size capital ∷ []

last_char-append : (c m : ℕ) (s : List ℕ) → last_char c (s ++ m ∷ []) ≡ m
unfolding last_char
last_char-append c m [] = refl
last_char-append c m (d ∷ s) = last_char-append d m s

drop_last-append : (c m : ℕ) (s : List ℕ) → drop_last c (s ++ m ∷ []) ≡ c ∷ s
unfolding drop_last
drop_last-append c m [] = refl
drop_last-append c m (d ∷ s) = ap (◌∷◌ c) (drop_last-append d m s)

keep-append : (c m : ℕ) (s : List ℕ) → keep_unless_blank c (s ++ m ∷ []) ≡ c ∷ s ++ m ∷ []
unfolding keep_unless_blank
keep-append c m [] = refl
keep-append c m (d ∷ s) = refl

trim_end-append : (m : ℕ) (s : List ℕ) → isspace m ≡ false → trim_end (s ++ m ∷ []) ≡ s ++ m ∷ []
unfolding trim_end keep_unless_blank
trim_end-append m [] h = rw h refl
trim_end-append m (c ∷ s) h = rw (trim_end-append m s h) (keep-append c m s)

letter_class :
    (size : Size) (capital : Bool)
    → (isspace (letter size capital) ≡ false)
      × (isdigit (letter size capital) ≡ false)
      × (modifier_val (letter size capital) ≡ SectorRes.sector (bytes_in size))
      × ((letter size capital == 0) ≡ false)
unfolding isspace isdigit modifier_val toupper
letter_class kib true = (refl, refl, refl, refl)
letter_class kib false = (refl, refl, refl, refl)
letter_class mib true = (refl, refl, refl, refl)
letter_class mib false = (refl, refl, refl, refl)
letter_class gib true = (refl, refl, refl, refl)
letter_class gib false = (refl, refl, refl, refl)

letter-ascii : (size : Size) (capital : Bool) → leb 128 (letter size capital) ≡ false
letter-ascii kib true = refl
letter-ascii kib false = refl
letter-ascii mib true = refl
letter-ascii mib false = refl
letter-ascii gib true = refl
letter-ascii gib false = refl

AllText-sized :
    (ds : List ℕ) (size : Size) (capital : Bool)
    → AllDigits ds
    → AllText (ds ++ letter size capital ∷ [])
AllText-sized [] kib true h = omega arith
AllText-sized [] kib false h = omega arith
AllText-sized [] mib true h = omega arith
AllText-sized [] mib false h = omega arith
AllText-sized [] gib true h = omega arith
AllText-sized [] gib false h = omega arith
AllText-sized (c ∷ ds) size capital (a, b, h) =
    (omega arith, omega arith, omega arith, AllText-sized ds size capital h)

length-sized : (ds : List ℕ) (m : ℕ) → length (ds ++ m ∷ []) ≡ length ds + 1
length-sized [] m = omega arith
length-sized (c ∷ ds) m = omega (arith, length-sized ds m)

module _ (ds : List ℕ) (size : Size) (capital : Bool) where
  str_trim-sized : str_trim (sized ds size capital) ≡ some (sized ds size capital)
  unfolding str_trim skip_space isspace looked_up
  str_trim-sized =
      rw
        (
          trim_end-append (letter size capital) (b'+' ∷ ds) (letter_class size capital).0,
          last_char-append b'+' (letter size capital) ds,
          letter-ascii size capital,
        )
        refl

  split_modifier-sized :
      split_modifier b'+' (ds ++ letter size capital ∷ []) ≡ (letter size capital, b'+' ∷ ds)
  unfolding split_modifier
  split_modifier-sized =
      rw
        (
          last_char-append b'+' (letter size capital) ds,
          drop_last-append b'+' (letter size capital) ds,
          (letter_class size capital).1,
        )
        refl

  scaled :
      (sec_sz : ℕ)
      → apply_modifier sec_sz (letter size capital) (decimal ds)
        ≡ SectorRes.sector (u64 (decimal ds * bytes_in size) / sec_sz)
  unfolding apply_modifier scale
  scaled sec_sz = rw ((letter_class size capital).3, (letter_class size capital).2) refl

  parse_sector-sized :
      (start end sec_sz : ℕ)
      → AllDigits ds
      → 1 ≤ length ds
      → decimal ds < 2 ^ 64
      → parse_sector start end sec_sz (sized ds size capital)
        ≡ check_range start end
            (SectorRes.sector (u64 (u64 (decimal ds * bytes_in size) / sec_sz + sub64 start 1)))
  unfolding parse_sector split_sign isdigit apply_sign
  parse_sector-sized start end sec_sz h l small =
      rw
        (
          split_modifier-sized,
          (letter_class size capital).3,
          sscanf_overflows-AllDigits ds l h small,
          sscanf_number-AllDigits ds l h small,
          split_modifier-sized,
          scaled sec_sz,
        )
        refl

decimal-lt : (ds : List ℕ) (size : Size) → decimal ds * bytes_in size < 2 ^ 63 → decimal ds < 2 ^ 64
decimal-lt ds kib h = omega arith
decimal-lt ds mib h = omega arith
decimal-lt ds gib h = omega arith

module _ (start end sec_sz q : ℕ) (es : List Event) where
  -- What the prompt returns for a partition of `q` sectors.
  abbrev pub sectors_result : Scanned ℕ
  sectors_result =
      if leb 1 q && leb (start + q) (end + 1)
      then record {
        res = ScanRes.scan_ok;
        value = start + q - 1;
        stdin = record { events = es; eof = false; overflowed = false };
      }
      else record {
        res = ScanRes.scan_fail;
        value = 0;
        stdin = record { events = es; eof = false; overflowed = false };
      }

  checked :
      1 ≤ start
      → start ≤ end
      → end < 2 ^ 63
      → q < 2 ^ 63
      → sector_scanned
          (check_range start end (SectorRes.sector (u64 (q + sub64 start 1))))
          (record { events = es; eof = false; overflowed = false })
        ≡ some sectors_result
  unfolding sector_scanned check_range
  checked a b c d = ground arith

-- `+`, a number and K, M or G at the prompt for a last sector: the partition gets as many sectors as
-- the size has whole ones, where that is at least one and they end within the range; otherwise the
-- value is refused. No conversion before is undefined, the line must fit the buffer, and the size
-- must be below 2 ^ 63 bytes.
pub prompt_sector_ext-sized :
    (start end def sec_sz : ℕ) (ds : List ℕ) (size : Size) (capital : Bool) (es : List Event)
    → 1 ≤ start
    → start ≤ end
    → end < 2 ^ 63
    → AllDigits ds
    → 1 ≤ length ds
    → length ds < 253
    → decimal ds * bytes_in size < 2 ^ 63
    → prompt_sector_ext start end def sec_sz
        (record { events = typed (sized ds size capital) es; eof = false; overflowed = false })
      ≡ some (sectors_result start end sec_sz (decimal ds * bytes_in size / sec_sz) es)
unfolding prompt_sector_ext sector_ext_result line_result trimmed_sector
prompt_sector_ext-sized start end def sec_sz ds size capital es a b c digits one short small =
    rw
      (
        scan_str-typed (sized ds size capital) es
            (omega arith, omega arith, omega arith, AllText-sized ds size capital digits)
            (omega (arith, length-sized ds (letter size capital))),
        str_trim-sized ds size capital,
        parse_sector-sized ds size capital start end sec_sz digits one below,
        mod-eq_of_lt whole,
      )
      (checked start end sec_sz (decimal ds * bytes_in size / sec_sz) es a b c
        (omega (arith, div-le_self (decimal ds * bytes_in size) sec_sz)))
  where
    whole : decimal ds * bytes_in size < 2 ^ 64
    whole = omega arith

    below : decimal ds < 2 ^ 64
    below = decimal-lt ds size small
