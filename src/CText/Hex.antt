-- ===== src/CText/Hex.antt =====
-- Hexadecimal numbers: what is printed with a fixed width is scanned again.
use partman.Base.{
  ℕ, zero, suc, ◌+◌, ◌-◌, ◌*◌, ◌/◌, ◌%◌, ◌^◌, ◌≤◌, ◌<◌, ◌≡◌, ◌⊎◌, inl, inr, refl, ap, ◌∙◌, List, [],
  ◌∷◌, false, some, arith, length,
}
use mathlib.Core.Path.{subst}
use native.Mathlib.Nat.{pow-succ', zero-add, mul_left_comm, pow-le-pow_right}
use partman.CText.{
  isspace, skip_space, digit_value, digits, starts_digit, number, has_prefix, magnitude,
  to_unsigned, signed_number, scan_number, hex_digit, put_hex,
}

hex_digit_value : (d : ℕ) → d < 16 → digit_value 16 (hex_digit d) ≡ some d
unfolding digit_value hex_digit
hex_digit_value d h = ground arith

abbrev IsHex : ℕ → Type 0
IsHex c = (b'0' ≤ c × c ≤ b'9') ⊎ (b'A' ≤ c × c ≤ b'F')

hex_digit-IsHex : (d : ℕ) → d < 16 → IsHex (hex_digit d)
unfolding hex_digit
hex_digit-IsHex d h = ground arith

-- The text starts with two digits.
abbrev TwoHex : List ℕ → Type 0
TwoHex [] = ⊥
TwoHex (c ∷ []) = ⊥
TwoHex (c ∷ d ∷ s) = IsHex c × IsHex d

digits-put_hex :
    (w f n a k : ℕ) (s : List ℕ)
    → n < 16 ^ w
    → digits 16 a (w + k) (put_hex w f n s) ≡ digits 16 (a * 16 ^ w + n) k s
unfolding put_hex digits
digits-put_hex zero zero n a k s h = rw (zero-add k) (ap (λ (x : ℕ). digits 16 x k s) (omega arith))
digits-put_hex zero (suc f) n a k s h =
    let e : n ≡ 0 = omega arith in
    rw e (rw (zero-add k) (ap (λ (x : ℕ). digits 16 x k s) (omega arith)))
digits-put_hex (suc w) f n a k s h =
    let e : suc w + k ≡ w + suc k = omega arith in
    let below : n / 16 < 16 ^ w = omega (arith, pow-succ' 16 w) in
    let last = hex_digit_value (n % 16) (omega arith) in
    let value : (a * 16 ^ w + n / 16) * 16 + n % 16 ≡ a * 16 ^ suc w + n =
      rw (pow-succ' 16 w, mul_left_comm a 16 (16 ^ w)) (omega arith) in
    rw e (
      digits-put_hex w f (n / 16) a (suc k) (hex_digit (n % 16) ∷ s) below
      ∙ step (a * 16 ^ w + n / 16) (hex_digit (n % 16)) last
      ∙ ap (λ (x : ℕ). digits 16 x k s) value)
  where
    step :
        (b c : ℕ) {d : ℕ}
        → digit_value 16 c ≡ some d
        → digits 16 b (suc k) (c ∷ s) ≡ digits 16 (b * 16 + d) k s
    step b c e = rw (e, digits) refl

put_hex-TwoHex : (w f n : ℕ) (s : List ℕ) → n < 16 ^ w → TwoHex s → TwoHex (put_hex w f n s)
unfolding put_hex
put_hex-TwoHex zero zero n s h t = t
put_hex-TwoHex zero (suc f) n s h t = let e : n ≡ 0 = omega arith in rw e t
put_hex-TwoHex (suc w) f n [] h t = absurd t
put_hex-TwoHex (suc w) f n (c ∷ s) h t =
    put_hex-TwoHex w f (n / 16) (hex_digit (n % 16) ∷ c ∷ s) (omega (arith, pow-succ' 16 w))
      (hex_digit-IsHex (n % 16) (omega arith), head s t)
  where
    head : (s : List ℕ) → TwoHex (c ∷ s) → IsHex c
    head [] t = absurd t
    head (d ∷ s) t = t.0

IsHex-value : (c : ℕ) → IsHex c → (d : ℕ) × (digit_value 16 c ≡ some d)
unfolding digit_value
IsHex-value c (inl h) = (c - 48, ground arith)
IsHex-value c (inr h) = (c - 55, ground arith)

-- Before two digits there is neither white space, nor a sign, nor a prefix.
scan_number_plain :
    (w : ℕ) (s : List ℕ)
    → 1 ≤ w
    → TwoHex s
    → scan_number 16 w s ≡ some (to_unsigned false (digits 16 0 w s).0, (digits 16 0 w s).1)
unfolding scan_number skip_space isspace signed_number magnitude has_prefix number starts_digit
scan_number_plain w [] h t = absurd t
scan_number_plain w (c ∷ []) h t = absurd t
scan_number_plain zero (c ∷ d ∷ s) h t = absurd (omega arith)
scan_number_plain (suc w) (c ∷ d ∷ s) h t = ground (arith, (IsHex-value c t.0).1)

digits-zero : (a : ℕ) (s : List ℕ) → digits 16 a 0 s ≡ (a, s)
unfolding digits
digits-zero a s = refl

put_hex2-TwoHex : (w f n : ℕ) (s : List ℕ) → n < 16 ^ (w + 2) → TwoHex (put_hex (suc (suc w)) f n s)
unfolding put_hex
put_hex2-TwoHex w f n s h =
    put_hex-TwoHex w f (n / 16 / 16) (hex_digit (n / 16 % 16) ∷ hex_digit (n % 16) ∷ s)
      (omega (arith, pow-succ' 16 w, pow-succ' 16 (suc w), ap (λ (x : ℕ). 16 ^ x) two))
      (hex_digit-IsHex (n / 16 % 16) (omega arith), hex_digit-IsHex (n % 16) (omega arith))
  where
    two : w + 2 ≡ suc (suc w)
    two = omega arith

-- A number of at most `w` hexadecimal digits, from 2 to 15, that `%0wlX` prints before `s` is what
-- `%wlX` scans there, and `s` is left.
pub scan_number-put_hex :
    (w f n : ℕ) (s : List ℕ)
    → 2 ≤ w
    → w < 16
    → n < 16 ^ w
    → scan_number 16 w (put_hex w f n s) ≡ some (n, s)
unfolding to_unsigned
scan_number-put_hex zero f n s low high h = absurd (omega arith)
scan_number-put_hex (suc zero) f n s low high h = absurd (omega arith)
scan_number-put_hex (suc (suc w)) f n s low high h =
    scan_number_plain (suc (suc w)) (put_hex (suc (suc w)) f n s) (omega arith)
      (put_hex2-TwoHex w f n s (subst (λ (x : ℕ). n < 16 ^ x) two h))
    ∙ rw scanned (ground (arith, small))
  where
    two : suc (suc w) ≡ w + 2
    two = omega arith

    scanned : digits 16 0 (suc (suc w)) (put_hex (suc (suc w)) f n s) ≡ (n, s)
    scanned =
        ap (λ (x : ℕ). digits 16 0 x (put_hex (suc (suc w)) f n s)) (omega arith)
        ∙ digits-put_hex (suc (suc w)) f n 0 0 s h
        ∙ ap (λ (x : ℕ). digits 16 x 0 s) (omega arith)
        ∙ digits-zero n s

    small : n < 2 ^ 64
    small =
        omega
          (arith, pow-le-pow_right {n = 16} (omega arith) {i = suc (suc w)} {j = 16} (omega arith))

pub length-put_hex : (w f n : ℕ) (s : List ℕ) → n < 16 ^ w → length (put_hex w f n s) ≡ w + length s
unfolding put_hex
length-put_hex zero zero n s h = omega arith
length-put_hex zero (suc f) n s h = let e : n ≡ 0 = omega arith in rw e (omega arith)
length-put_hex (suc w) f n s h =
    omega
      (arith, length-put_hex w f (n / 16) (hex_digit (n % 16) ∷ s) (omega (arith, pow-succ' 16 w)))
