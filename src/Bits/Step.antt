-- ===== src/Bits/Step.antt =====
-- The native bit operations recur on binary digits with fuel; here each has an equation for its
-- lowest digit, with no fuel.
use native.Mathlib.Decide.{dec_le}
use Prim.Native.Nat.{digits, bitwise, differ, bit_and-bitwise, bit_or-bitwise, bit_xor-bitwise}
use partman.Base.{
  ℕ, zero, suc, ◌+◌, ◌*◌, ◌/◌, ◌%◌, ◌≤◌, ◌<◌, min, max, bit_and, bit_or, bit_xor, ◌≡◌, refl, ap,
  ◌∙◌, arith,
}

module _ (above : ℕ → ℕ) (digit : ℕ → ℕ → ℕ) where
  abbrev with_fuel : ℕ → ℕ → ℕ → ℕ
  with_fuel fuel x y = digits above digit fuel x y

  -- Where the fuel covers `x`, one unit more changes nothing,
  more_fuel : (fuel x y : ℕ) → x ≤ fuel → with_fuel (suc fuel) x y ≡ with_fuel fuel x y
  more_fuel zero zero y h = refl
  more_fuel (suc fuel) zero y h = refl
  more_fuel zero (suc x) y h = absurd (omega arith)
  more_fuel (suc fuel) (suc x) y h = rw (more_fuel fuel (suc x / 2) (y / 2) (omega arith)) refl

  -- so that `x` itself is as good as any fuel above it.
  least_fuel : (fuel x y : ℕ) → x ≤ fuel → with_fuel fuel x y ≡ with_fuel x x y
  least_fuel zero x y h = ap (λ n. with_fuel n x y) {x = 0} (omega arith)
  least_fuel (suc fuel) x y h = elim (dec_le x fuel) [
    | yes covered ↦ more_fuel fuel x y covered ∙ least_fuel fuel x y covered
    | no short ↦ ap (λ n. with_fuel n x y) {x = suc fuel} (omega arith)
  ]

  lowest :
      (x y : ℕ)
      → bitwise above digit (suc x) y
        ≡ bitwise above digit (suc x / 2) (y / 2) * 2 + digit (suc x % 2) (y % 2)
  lowest x y =
      ap (λ high. high * 2 + digit (suc x % 2) (y % 2))
        (least_fuel x (suc x / 2) (y / 2) (omega arith))

abbrev keep : ℕ → ℕ
keep y = y

abbrev drop : ℕ → ℕ
drop y = 0

pub bit_or_step : (x y : ℕ) → bit_or x y ≡ bit_or (x / 2) (y / 2) * 2 + max (x % 2) (y % 2)
bit_or_step (suc x) y = simp bit_or-bitwise (lowest keep max x y)
bit_or_step zero y = omega (arith, bit_or-bitwise 0 y, bit_or-bitwise 0 (y / 2))

-- On digits, `differ` is the sum without its carry.
differ-digits : (x y : ℕ) → x < 2 → y < 2 → differ x y ≡ (x + y) % 2
differ-digits zero y p q = omega arith
differ-digits (suc zero) zero p q = omega arith
differ-digits (suc zero) (suc y) p q = omega arith
differ-digits (suc (suc x)) y p q = absurd (omega arith)

pub bit_xor_step : (x y : ℕ) → bit_xor x y ≡ bit_xor (x / 2) (y / 2) * 2 + (x + y) % 2
bit_xor_step zero y = omega (arith, bit_xor-bitwise 0 y, bit_xor-bitwise 0 (y / 2))
bit_xor_step (suc x) y = simp bit_xor-bitwise (
    omega (
      arith,
      lowest keep differ x y,
      differ-digits (suc x % 2) (y % 2) (omega arith) (omega arith),
    ))

pub bit_and_step : (x y : ℕ) → bit_and x y ≡ bit_and (x / 2) (y / 2) * 2 + min (x % 2) (y % 2)
bit_and_step (suc x) y = simp bit_and-bitwise (lowest drop min x y)
bit_and_step zero y = simp bit_and-bitwise (omega arith)
