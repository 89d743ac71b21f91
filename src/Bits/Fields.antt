-- ===== src/Bits/Fields.antt =====
-- `x & mask` with a low mask is a remainder, and `|` of fields that do not overlap is a sum.
use Prim.Native.Nat.{bit_or-bitwise}
use native.Mathlib.Nat.{
  pow-suc, one-le-pow, div-add-mod, mod-lt, mod-eq_of_lt, add-mul-mod_self_left,
}
use partman.Base.{
  ℕ, zero, suc, ◌+◌, ◌-◌, ◌*◌, ◌/◌, ◌%◌, ◌^◌, ◌≤◌, ◌<◌, bit_and, bit_or, ◌≡◌, refl, ap, ◌∙◌, arith,
}
use partman.Bits.Step.{bit_and_step, bit_or_step}

bit_and-zero_below : (n a : ℕ) → a ≤ n → bit_and a 0 ≡ 0
bit_and-zero_below n zero h = refl
bit_and-zero_below zero (suc a) h = absurd (omega arith)
bit_and-zero_below (suc n) (suc a) h =
    omega (arith, bit_and_step (suc a) 0, bit_and-zero_below n (suc a / 2) (omega arith))

bit_or-zero_below : (n a : ℕ) → a ≤ n → bit_or a 0 ≡ a
bit_or-zero_below n zero h = refl
bit_or-zero_below zero (suc a) h = absurd (omega arith)
bit_or-zero_below (suc n) (suc a) h =
    omega (arith, bit_or_step (suc a) 0, bit_or-zero_below n (suc a / 2) (omega arith))

pub bit_or-zero : (a : ℕ) → bit_or a 0 ≡ a
bit_or-zero a = bit_or-zero_below a a (omega arith)

pub zero-bit_or : (b : ℕ) → bit_or 0 b ≡ b
zero-bit_or b = bit_or-bitwise 0 b

-- One more power of two doubles a multiple.
pub double_pow : (q k : ℕ) → q * 2 ^ suc k ≡ 2 * (q * 2 ^ k)
double_pow q k = omega (arith, ap (λ (t : ℕ). q * t) (pow-suc 2 k))

double_mod : (k a : ℕ) → a % 2 ^ suc k ≡ a / 2 % 2 ^ k * 2 + a % 2
double_mod k a =
    ap (λ (t : ℕ). t % 2 ^ suc k) whole
    ∙ add-mul-mod_self_left low (2 ^ suc k) (a / 2 / 2 ^ k)
    ∙ mod-eq_of_lt (omega (arith, pow-suc 2 k, mod-lt (a / 2) (one-le-pow k 2 (omega arith))))
  where
    low : ℕ
    low = a / 2 % 2 ^ k * 2 + a % 2

    whole : a ≡ low + 2 ^ suc k * (a / 2 / 2 ^ k)
    whole =
        omega
          (arith, div-add-mod (a / 2) (2 ^ k), ap (λ (t : ℕ). t * (a / 2 / 2 ^ k)) (pow-suc 2 k))

-- A mask of `k` ones leaves the `k` low bits.
pub bit_and_low : (k a : ℕ) → bit_and a (2 ^ k - 1) ≡ a % 2 ^ k
bit_and_low zero a = omega (arith, bit_and-zero_below a a (omega arith))
bit_and_low (suc k) a = ground (
  arith,
  bit_and_step a (2 ^ suc k - 1),
  pow-suc 2 k,
  one-le-pow k 2,
  bit_and_low k (a / 2),
  double_mod k a,
)

-- A high field before a low one.
pub bit_or_high : (k q r : ℕ) → r < 2 ^ k → bit_or (q * 2 ^ k) r ≡ q * 2 ^ k + r
bit_or_high zero q r h = ground (arith, bit_or-zero q)
bit_or_high (suc k) q r h = ground (
  arith,
  bit_or_step (q * 2 ^ suc k) r,
  double_pow q k,
  bit_or_high k q (r / 2) (omega (arith, pow-suc 2 k)),
)

-- A low field before a high one.
pub bit_or_low : (k q r : ℕ) → r < 2 ^ k → bit_or r (q * 2 ^ k) ≡ r + q * 2 ^ k
bit_or_low zero q r h = ground (arith, zero-bit_or q)
bit_or_low (suc k) q r h = ground (
  arith,
  bit_or_step r (q * 2 ^ suc k),
  double_pow q k,
  bit_or_low k q (r / 2) (omega (arith, pow-suc 2 k)),
)

-- `|` is 0 only where both sides are.
pub bit_or-eq-zero : (n a b : ℕ) → a ≤ n → bit_or a b ≡ 0 → (a ≡ 0) × (b ≡ 0)
bit_or-eq-zero n zero b h e = (refl, omega (arith, zero-bit_or b))
bit_or-eq-zero zero (suc a) b h e = absurd (omega arith)
bit_or-eq-zero (suc n) (suc a) b h e = omega (
  arith,
  bit_or_step (suc a) b,
  bit_or-eq-zero n (suc a / 2) (b / 2) (omega arith) (omega (arith, bit_or_step (suc a) b)),
)

pub bit_or-lt : (k a b : ℕ) → a < 2 ^ k → b < 2 ^ k → bit_or a b < 2 ^ k
bit_or-lt zero a b p q = ground (arith, zero-bit_or b)
bit_or-lt (suc k) a b p q = omega (
  arith,
  pow-suc 2 k,
  bit_or_step a b,
  bit_or-lt k (a / 2) (b / 2) (omega (arith, pow-suc 2 k)) (omega (arith, pow-suc 2 k)),
)
