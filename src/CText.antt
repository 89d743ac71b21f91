-- ===== src/CText.antt =====
-- The text functions of the C library that the front end and guid.c use, as the C standard defines
-- them in the "C" locale: character classes, the integer conversions of `sscanf` and `%0wlX` of
-- `sprintf`. A text is the list of its characters before the terminator.
-- The conversion of a value past 64 bits is undefined. `sscanf_overflows` tells where, and the
-- callers make that an outcome of its own; the number that is computed there beside it is not used.
pub mod Hex
pub mod Decimal
use partman.Base.{
  ℕ, zero, suc, ◌+◌, ◌-◌, ◌*◌, ◌/◌, ◌%◌, ◌^◌, List, [], ◌∷◌, Bool, true, false, ◌&&◌, ◌||◌, Option,
  none, some, ltb, leb, ◌==◌, if◌then◌else◌, length, sub64,
}

infixl 5 ◌>>=◌
abbrev pub ◌>>=◌ {ℓ κ} : {A : Type ℓ} {B : Type κ} → Option A → (A → Option B) → Option B
none >>= f = none
some a >>= f = f a

unfoldable pub isspace : ℕ → Bool
isspace c = c == b' ' || leb 9 c && leb c 13

unfoldable pub isdigit : ℕ → Bool
isdigit c = leb b'0' c && leb c b'9'

unfoldable pub toupper : ℕ → ℕ
toupper c = if leb b'a' c && leb c b'z' then c - 32 else c

-- the white space before a conversion, and a space of the format
unfoldable pub skip_space : List ℕ → List ℕ
skip_space [] = []
skip_space (c ∷ s) = let rest = skip_space s in if isspace c then rest else c ∷ s

-- the value of a digit in base 10 or 16
unfoldable pub digit_value : ℕ → ℕ → Option ℕ
digit_value base c =
    if leb b'0' c && leb c b'9'
    then some (c - b'0')
    else if ltb base 16
    then none
    else if leb b'A' c && leb c b'F'
    then some (c - 55)
    else if leb b'a' c && leb c b'f'
    then some (c - 87)
    else none

-- At most `w` digits are taken on to the value so far.
unfoldable pub digits : ℕ → ℕ → ℕ → List ℕ → ℕ × List ℕ
digits base acc zero s = (acc, s)
digits base acc (suc w) [] = (acc, [])
digits base acc (suc w) (c ∷ s) = elim (digit_value base c) [
  | none ↦ (acc, c ∷ s)
  | some d ↦ digits base (acc * base + d) w s
]

unfoldable pub starts_digit : ℕ → ℕ → List ℕ → Bool
starts_digit base zero s = false
starts_digit base (suc w) [] = false
starts_digit base (suc w) (c ∷ s) = elim (digit_value base c) [ none ↦ false | some d ↦ true ]

unfoldable pub number : ℕ → ℕ → List ℕ → Option (ℕ × List ℕ)
number base w s = if starts_digit base w s then some (digits base 0 w s) else none

-- In base 16, `0x` may stand before the digits; a digit must follow it.
unfoldable pub has_prefix : ℕ → List ℕ → Bool
has_prefix w [] = false
has_prefix w (c ∷ []) = false
has_prefix w (c ∷ d ∷ s) = leb 2 w && c == b'0' && (d == b'x' || d == b'X')

unfoldable pub drop2 : List ℕ → List ℕ
drop2 [] = []
drop2 (c ∷ []) = []
drop2 (c ∷ d ∷ s) = s

unfoldable pub magnitude : ℕ → ℕ → List ℕ → Option (ℕ × List ℕ)
magnitude base w s =
    if leb 16 base && has_prefix w s then number base (w - 2) (drop2 s) else number base w s

-- the value in 64 bits, from the sign and the digits' value
unfoldable pub to_unsigned : Bool → ℕ → ℕ
to_unsigned negative v =
    if ltb (2 ^ 64 - 1) v then 2 ^ 64 - 1 else if negative then sub64 0 v else v

unfoldable pub signed_number : ℕ → ℕ → List ℕ → Option (ℕ × List ℕ)
signed_number base zero s = none
signed_number base (suc w) [] = none
signed_number base (suc w) (c ∷ s) =
    let negative = c == b'-' in
    (if negative || c == b'+' then magnitude base w s else magnitude base (suc w) (c ∷ s)) >>= λ r.
    some (to_unsigned negative r.0, r.1)

-- `%lu` and `%llu` (base 10), `%lx` (base 16), with a maximal width
unfoldable pub scan_number : ℕ → ℕ → List ℕ → Option (ℕ × List ℕ)
scan_number base w s = signed_number base w (skip_space s)

-- `sscanf(s, "%llu", &n)`: the number, where the result is 1
unfoldable pub sscanf_number : ℕ → List ℕ → Option ℕ
sscanf_number base s = scan_number base (length s) s >>= λ r. some (r.0)

-- the value behind a sign is past 64 bits
unfoldable pub is_too_large : Option (ℕ × List ℕ) → Bool
is_too_large none = false
is_too_large (some r) = ltb (2 ^ 64 - 1) r.0

unfoldable pub overflows : ℕ → ℕ → List ℕ → Bool
overflows base zero s = false
overflows base (suc w) [] = false
overflows base (suc w) (c ∷ s) =
    is_too_large
      (if c == b'-' || c == b'+' then magnitude base w s else magnitude base (suc w) (c ∷ s))

-- The same call converts a number that `unsigned long long` does not hold.
unfoldable pub sscanf_overflows : ℕ → List ℕ → Bool
sscanf_overflows base s = overflows base (length s) (skip_space s)

-- a character of the format that is not white space
unfoldable pub scan_literal : ℕ → List ℕ → Option (List ℕ)
scan_literal a [] = none
scan_literal a (c ∷ s) = if a == c then some s else none

unfoldable pub hex_digit : ℕ → ℕ
hex_digit d = if ltb d 10 then d + b'0' else d + 55

-- `%0wlX` before `s`: at least `w` digits, and at most `f` more
unfoldable pub put_hex : ℕ → ℕ → ℕ → List ℕ → List ℕ
put_hex (suc w) f n s = put_hex w f (n / 16) (hex_digit (n % 16) ∷ s)
put_hex zero zero n s = s
put_hex zero (suc f) n s =
    let more = put_hex zero f (n / 16) (hex_digit (n % 16) ∷ s) in if n == 0 then s else more
