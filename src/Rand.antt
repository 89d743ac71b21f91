-- ===== src/Rand.antt =====
-- libs/libpartman/src/rand.c. The C library's `rand` is a sequence of values, of which `drawn` have
-- been taken; it documents that each lies in 0 to RAND_MAX.
use partman.Base.{ℕ, ◌+◌, ◌*◌, ◌/◌, ◌^◌, ◌≤◌, ◌<◌, bit_or, ◌<<<◌, u8, ◌≡◌, arith}
use native.Mathlib.Nat.{mod-eq_of_lt, div-lt_iff_lt-mul}
use partman.Bits.Fields.{bit_or-lt}

pub record Rng : Type 0 where
  pub rand_max : ℕ
  pub sequence : ℕ → ℕ
  pub drawn : ℕ

-- What the C library documents of `rand`.
abbrev pub IsRng : Rng → Type 0
IsRng r = (k : ℕ) → r.sequence k ≤ r.rand_max

abbrev pub rand : Rng → ℕ × Rng
rand r = (r.sequence r.drawn, record r { drawn = r.drawn + 1 })

unfoldable pub rand_8 : Rng → ℕ × Rng
rand_8 r = let (v, r) = rand r in (u8 (v / (r.rand_max / 0x100 + 1)), r)

-- C leaves the order of the operands of `|` open; they are drawn from left to right.
unfoldable pub rand_16 : Rng → ℕ × Rng
rand_16 r = let (b0, r) = rand_8 r in let (b1, r) = rand_8 r in (bit_or (b0 <<< 0) (b1 <<< 8), r)

unfoldable pub rand_32 : Rng → ℕ × Rng
rand_32 r =
    let (b0, r) = rand_8 r in
    let (b1, r) = rand_8 r in
    let (b2, r) = rand_8 r in
    let (b3, r) = rand_8 r in
    (bit_or (bit_or (bit_or (b0 <<< 0) (b1 <<< 8)) (b2 <<< 16)) (b3 <<< 24), r)

pub rand_8-lt : (r : Rng) → (rand_8 r).0 < 2 ^ 8
unfolding rand_8
rand_8-lt r = omega arith

-- The scaling alone keeps the value in a byte: the cast to `pu8` cuts nothing off.
pub rand_8_scaled :
    (r : Rng) → IsRng r → (rand_8 r).0 ≡ r.sequence r.drawn / (r.rand_max / 0x100 + 1)
unfolding rand_8
rand_8_scaled r h = mod-eq_of_lt (
    (div-lt_iff_lt-mul {k = r.rand_max / 0x100 + 1} {y = 256} (omega arith)).1
      (omega (arith, h r.drawn)))

pub rand_16-lt : (r : Rng) → (rand_16 r).0 < 2 ^ 16
unfolding rand_16
rand_16-lt r =
    let r1 : Rng = (rand_8 r).1 in
    bit_or-lt 16 ((rand_8 r).0 * 2 ^ 0) ((rand_8 r1).0 * 2 ^ 8) (omega (arith, rand_8-lt r))
      (omega (arith, rand_8-lt r1))

pub rand_32-lt : (r : Rng) → (rand_32 r).0 < 2 ^ 32
unfolding rand_32
rand_32-lt r =
    let r1 : Rng = (rand_8 r).1 in
    let r2 : Rng = (rand_8 r1).1 in
    let r3 : Rng = (rand_8 r2).1 in
    bit_or-lt 32 _ ((rand_8 r3).0 * 2 ^ 24)
      (bit_or-lt 32 _ ((rand_8 r2).0 * 2 ^ 16)
        (bit_or-lt 32 ((rand_8 r).0 * 2 ^ 0) ((rand_8 r1).0 * 2 ^ 8) (omega (arith, rand_8-lt r))
          (omega (arith, rand_8-lt r1)))
        (omega (arith, rand_8-lt r2)))
      (omega (arith, rand_8-lt r3))
