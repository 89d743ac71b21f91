-- ===== src/Bits/Xor.antt =====
-- `^` is associative, commutative and its own inverse, and shifts pass through it.
use Prim.Native.Nat.{bit_xor-bitwise}
use native.Mathlib.Nat.{pow-suc}
use partman.Bits.Fields.{double_pow}
use partman.Base.{ℕ, zero, suc, ◌+◌, ◌*◌, ◌/◌, ◌%◌, ◌^◌, ◌≤◌, ◌<◌, bit_xor, ◌≡◌, refl, arith}
use partman.Bits.Step.{bit_xor_step}

pub zero-bit_xor : (b : ℕ) → bit_xor 0 b ≡ b
zero-bit_xor b = bit_xor-bitwise 0 b

-- Induction on a bound `n` of all the values, which halve.
xor_self_below : (n a : ℕ) → a ≤ n → bit_xor a a ≡ 0
xor_self_below n zero h = refl
xor_self_below zero (suc a) h = absurd (omega arith)
xor_self_below (suc n) (suc a) h =
    omega (arith, bit_xor_step (suc a) (suc a), xor_self_below n (suc a / 2) (omega arith))

xor_comm_below : (n a b : ℕ) → a ≤ n → b ≤ n → bit_xor a b ≡ bit_xor b a
xor_comm_below zero zero zero p q = refl
xor_comm_below zero (suc a) b p q = absurd (omega arith)
xor_comm_below zero zero (suc b) p q = absurd (omega arith)
xor_comm_below (suc n) a b p q = omega (
  arith,
  bit_xor_step a b,
  bit_xor_step b a,
  xor_comm_below n (a / 2) (b / 2) (omega arith) (omega arith),
)

-- The upper digits and the lowest digit.
pub xor_half : (a b : ℕ) → bit_xor a b / 2 ≡ bit_xor (a / 2) (b / 2)
xor_half a b = omega (arith, bit_xor_step a b)

pub xor_parity : (a b : ℕ) → bit_xor a b % 2 ≡ (a + b) % 2
xor_parity a b = omega (arith, bit_xor_step a b)

xor_assoc_below :
    (n a b c : ℕ) → a ≤ n → b ≤ n → c ≤ n → bit_xor (bit_xor a b) c ≡ bit_xor a (bit_xor b c)
xor_assoc_below zero zero b c p q r = rw zero-bit_xor (rw zero-bit_xor refl)
xor_assoc_below zero (suc a) b c p q r = absurd (omega arith)
xor_assoc_below (suc n) a b c p q r =
    rw
      (
        bit_xor_step (bit_xor a b) c,
        bit_xor_step a (bit_xor b c),
        xor_half a b,
        xor_half b c,
        xor_assoc_below n (a / 2) (b / 2) (c / 2) (omega arith) (omega arith) (omega arith),
      )
      (omega (arith, xor_parity a b, xor_parity b c))

pub bit_xor_self : (a : ℕ) → bit_xor a a ≡ 0
bit_xor_self a = xor_self_below a a (omega arith)

pub bit_xor_comm : (a b : ℕ) → bit_xor a b ≡ bit_xor b a
bit_xor_comm a b = xor_comm_below (a + b) a b (omega arith) (omega arith)

pub bit_xor_assoc : (a b c : ℕ) → bit_xor (bit_xor a b) c ≡ bit_xor a (bit_xor b c)
bit_xor_assoc a b c = xor_assoc_below (a + b + c) a b c (omega arith) (omega arith) (omega arith)

-- A value stays within `k` bits.
pub xor-lt : (k a b : ℕ) → a < 2 ^ k → b < 2 ^ k → bit_xor a b < 2 ^ k
xor-lt zero a b p q = ground (arith, zero-bit_xor b)
xor-lt (suc k) a b p q = omega (
  arith,
  pow-suc 2 k,
  bit_xor_step a b,
  xor-lt k (a / 2) (b / 2) (omega (arith, pow-suc 2 k)) (omega (arith, pow-suc 2 k)),
)

-- Disjoint fields are joined by `^` as by `+`.
pub xor_fields : (k q r : ℕ) → r < 2 ^ k → bit_xor (q * 2 ^ k) r ≡ q * 2 ^ k + r
xor_fields zero q r h = ground (arith, bit_xor_comm q 0, zero-bit_xor q)
xor_fields (suc k) q r h = ground (
  arith,
  bit_xor_step (q * 2 ^ suc k) r,
  double_pow q k,
  xor_fields k q (r / 2) (omega (arith, pow-suc 2 k)),
)
