-- ===== src/CText/Decimal.antt =====
-- Decimal numbers as they are typed.
use partman.Base.{
  ℕ, ◌+◌, ◌-◌, ◌*◌, ◌^◌, ◌≤◌, ◌<◌, ◌≡◌, refl, List, [], ◌∷◌, length, false, some, arith,
}
use partman.CText.{
  isspace, skip_space, digit_value, digits, starts_digit, number, magnitude, to_unsigned,
  signed_number, scan_number, sscanf_number, is_too_large, overflows, sscanf_overflows,
}

-- A text of digits alone, and the number that it writes down.
abbrev pub AllDigits : List ℕ → Type 0
AllDigits [] = Unit
AllDigits (c ∷ s) = (b'0' ≤ c) × (c ≤ b'9') × AllDigits s

abbrev pub decimal_from : ℕ → List ℕ → ℕ
decimal_from acc [] = acc
decimal_from acc (c ∷ s) = decimal_from (acc * 10 + (c - b'0')) s

abbrev pub decimal : List ℕ → ℕ
decimal s = decimal_from 0 s

digits-AllDigits :
    (acc : ℕ) (s : List ℕ) → AllDigits s → digits 10 acc (length s) s ≡ (decimal_from acc s, [])
unfolding digits digit_value
digits-AllDigits acc [] h = refl
digits-AllDigits acc (c ∷ s) (a, b, h) =
    ground (arith, digits-AllDigits (acc * 10 + (c - b'0')) s h)

scan_number-digits :
    (c : ℕ) (s : List ℕ)
    → AllDigits (c ∷ s)
    → scan_number 10 (length (c ∷ s)) (c ∷ s)
      ≡ some (
        to_unsigned false (digits 10 0 (length (c ∷ s)) (c ∷ s)).0,
        (digits 10 0 (length (c ∷ s)) (c ∷ s)).1,
      )
unfolding scan_number skip_space isspace signed_number magnitude number starts_digit digit_value
scan_number-digits c s (a, b, h) = ground arith

-- A text of digits is scanned as the number that it writes down, where 64 bits hold that.
pub sscanf_number-AllDigits :
    (s : List ℕ)
    → 1 ≤ length s
    → AllDigits s
    → decimal s < 2 ^ 64
    → sscanf_number 10 s ≡ some (decimal s)
unfolding sscanf_number to_unsigned
sscanf_number-AllDigits [] l h small = absurd (omega arith)
sscanf_number-AllDigits (c ∷ s) l h small =
    rw (scan_number-digits c s h, digits-AllDigits 0 (c ∷ s) h) (ground arith)

overflows-digits :
    (c : ℕ) (s : List ℕ)
    → AllDigits (c ∷ s)
    → sscanf_overflows 10 (c ∷ s) ≡ is_too_large (some (digits 10 0 (length (c ∷ s)) (c ∷ s)))
unfolding sscanf_overflows overflows skip_space isspace magnitude number starts_digit digit_value
overflows-digits c s (a, b, h) = ground arith

pub sscanf_overflows-AllDigits :
    (s : List ℕ) → 1 ≤ length s → AllDigits s → decimal s < 2 ^ 64 → sscanf_overflows 10 s ≡ false
unfolding is_too_large
sscanf_overflows-AllDigits [] l h small = absurd (omega arith)
sscanf_overflows-AllDigits (c ∷ s) l h small =
    rw (overflows-digits c s h, digits-AllDigits 0 (c ∷ s) h) (ground arith)
