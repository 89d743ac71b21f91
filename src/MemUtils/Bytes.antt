-- ===== src/MemUtils/Bytes.antt =====
-- The width-independent description of memutils.c: `n` bytes, the lowest first.
use native.Mathlib.Nat.{
  pow-suc, one-le-pow, div-add-mod, mod-lt, mod-eq_of_lt, add-mul-mod_self_left,
}
use partman.Base.{
  ℕ, zero, suc, ◌+◌, ◌*◌, ◌/◌, ◌%◌, ◌^◌, ◌≤◌, ◌<◌, bit_and, bit_or, ◌≡◌, refl, ap, ◌∙◌, fun_ext,
  arith,
}
use partman.Bits.Fields.{bit_and_low, bit_or_low}
use partman.MemUtils.{
  Memory, IsBytes, store, write_pu8, write_pu16, write_pu24, write_pu32, write_pu64, read_pu8,
  read_pu16, read_pu24, read_pu32, read_pu64,
}

unfoldable pub write_le : ℕ → ℕ → ℕ → Memory → Memory
write_le zero p i m = m
write_le (suc n) p i m = write_le n (p + 1) (i / 256) (store p (i % 256) m)

unfoldable pub read_le : ℕ → ℕ → Memory → ℕ
read_le zero p m = 0
read_le (suc n) p m = m p + 256 * read_le n (p + 1) m

-- Nothing is written outside `[p, p + n)`.
pub write_le-below : (n p i : ℕ) (m : Memory) (q : ℕ) → q < p → write_le n p i m q ≡ m q
unfolding write_le
write_le-below zero p i m q h = refl
write_le-below (suc n) p i m q h =
    ground (arith, write_le-below n (p + 1) (i / 256) (store p (i % 256) m) q (omega arith))

pub write_le-above : (n p i : ℕ) (m : Memory) (q : ℕ) → p + n ≤ q → write_le n p i m q ≡ m q
unfolding write_le
write_le-above zero p i m q h = refl
write_le-above (suc n) p i m q h =
    ground (arith, write_le-above n (p + 1) (i / 256) (store p (i % 256) m) q (omega arith))

pub write_le-IsBytes : (n p i : ℕ) (m : Memory) → IsBytes m → IsBytes (write_le n p i m)
unfolding write_le
write_le-IsBytes zero p i m h = h
write_le-IsBytes (suc n) p i m h =
    write_le-IsBytes n (p + 1) (i / 256) (store p (i % 256) m) (λ q. ground (arith, h q))

-- Reading depends on the bytes of `[p, p + n)` only.
pub read_le_congr :
    (n p : ℕ) (m m' : Memory)
    → ((q : ℕ) → p ≤ q → q < p + n → m q ≡ m' q)
    → read_le n p m ≡ read_le n p m'
unfolding read_le
read_le_congr zero p m m' h = refl
read_le_congr (suc n) p m m' h = omega (
  arith,
  h p (omega arith) (omega arith),
  read_le_congr n (p + 1) m m' (λ q a b. h q (omega arith) (omega arith)),
)

pub mod_digit : (c a : ℕ) → 0 < c → a % (256 * c) ≡ a % 256 + 256 * (a / 256 % c)
mod_digit c a pos =
    ap (λ (t : ℕ). t % (256 * c)) whole
    ∙ add-mul-mod_self_left low (256 * c) (a / 256 / c)
    ∙ mod-eq_of_lt (omega (arith, mod-lt (a / 256) pos))
  where
    low : ℕ
    low = a % 256 + 256 * (a / 256 % c)

    whole : a ≡ low + 256 * c * (a / 256 / c)
    whole = omega (arith, div-add-mod (a / 256) c)

-- What is read back is what was written, cut to `n` bytes.
pub read_le-write_le : (n p i : ℕ) (m : Memory) → read_le n p (write_le n p i m) ≡ i % 256 ^ n
unfolding read_le write_le
read_le-write_le zero p i m = omega arith
read_le-write_le (suc n) p i m = omega (
  arith,
  write_le-below n (p + 1) (i / 256) (store p (i % 256) m) p (omega arith),
  read_le-write_le n (p + 1) (i / 256) (store p (i % 256) m),
  mod_digit (256 ^ n) i (one-le-pow n 256 (omega arith)),
  ap (λ (t : ℕ). i % t) (pow_digit n),
  first,
)
  where
    first : store p (i % 256) m p ≡ i % 256
    first = ground arith

    pow_digit : (n : ℕ) → 256 ^ suc n ≡ 256 * 256 ^ n
    pow_digit n = omega (arith, pow-suc 256 n)

-- The mask of a byte.
byte : (i : ℕ) → bit_and i 0xff ≡ i % 256
byte i = bit_and_low 8 i

-- The C functions are the cases n = 1, 2, 3, 4 and 8.
pub write_pu8-eq : (p i : ℕ) (m : Memory) → write_pu8 p i m ≡ write_le 1 p i m
unfolding write_pu8 write_le
write_pu8-eq p i m = fun_ext λ q. ground (arith, byte i)

pub write_pu16-eq : (p i : ℕ) (m : Memory) → write_pu16 p i m ≡ write_le 2 p i m
unfolding write_pu16 write_le
write_pu16-eq p i m = fun_ext λ q. ground (arith, byte i, byte (i / 2 ^ 0), byte (i / 2 ^ 8))

pub write_pu24-eq : (p i : ℕ) (m : Memory) → write_pu24 p i m ≡ write_le 3 p i m
unfolding write_pu24 write_le
write_pu24-eq p i m =
    fun_ext λ q. ground (arith, byte (i / 2 ^ 0), byte (i / 2 ^ 8), byte (i / 2 ^ 16))

pub write_pu32-eq : (p i : ℕ) (m : Memory) → write_pu32 p i m ≡ write_le 4 p i m
unfolding write_pu32 write_le
write_pu32-eq p i m =
    fun_ext
      λ q. ground (arith, byte (i / 2 ^ 0), byte (i / 2 ^ 8), byte (i / 2 ^ 16), byte (i / 2 ^ 24))

pub write_pu64-eq : (p i : ℕ) (m : Memory) → write_pu64 p i m ≡ write_le 8 p i m
unfolding write_pu64 write_le
write_pu64-eq p i m = fun_ext λ q. ground (
  arith,
  byte (i / 2 ^ 0),
  byte (i / 2 ^ 8),
  byte (i / 2 ^ 16),
  byte (i / 2 ^ 24),
  byte (i / 2 ^ 32),
  byte (i / 2 ^ 40),
  byte (i / 2 ^ 48),
  byte (i / 2 ^ 56),
)

-- `low | b << k` for bytes below and at `k`.
join : (k low b : ℕ) → low < 2 ^ k → bit_or low (b * 2 ^ k) ≡ low + b * 2 ^ k
join k low b h = bit_or_low k b low h

module _ (p : ℕ) (m : Memory) (bytes : IsBytes m) where
  pub read_pu8-eq : read_pu8 p m ≡ read_le 1 p m
  unfolding read_pu8 read_le
  read_pu8-eq = omega arith

  two_bytes : bit_or (m p * 2 ^ 0) (m (p + 1) * 2 ^ 8) ≡ m p + m (p + 1) * 2 ^ 8
  two_bytes = omega (arith, join 8 (m p * 2 ^ 0) (m (p + 1)) (omega (arith, bytes p)))

  pub read_pu16-eq : read_pu16 p m ≡ read_le 2 p m
  unfolding read_pu16 read_le
  read_pu16-eq = omega (arith, two_bytes)

  three_bytes : read_pu24 p m ≡ m p + m (p + 1) * 2 ^ 8 + m (p + 2) * 2 ^ 16
  unfolding read_pu24
  three_bytes =
      rw two_bytes
        (join 16 (m p + m (p + 1) * 2 ^ 8) (m (p + 2)) (omega (arith, bytes p, bytes (p + 1))))

  pub read_pu24-eq : read_pu24 p m ≡ read_le 3 p m
  unfolding read_le
  read_pu24-eq = rw three_bytes (ground arith)

  four_bytes : read_pu32 p m ≡ m p + m (p + 1) * 2 ^ 8 + m (p + 2) * 2 ^ 16 + m (p + 3) * 2 ^ 24
  unfolding read_pu32 read_pu24
  four_bytes = rw three_bytes (
      join 24 (m p + m (p + 1) * 2 ^ 8 + m (p + 2) * 2 ^ 16) (m (p + 3))
        (omega (arith, bytes p, bytes (p + 1), bytes (p + 2))))

  pub read_pu32-eq : read_pu32 p m ≡ read_le 4 p m
  unfolding read_le
  read_pu32-eq = rw four_bytes (ground arith)

  high_bytes :
      (low : ℕ)
      → low < 2 ^ 32
      → bit_or
          (bit_or
            (bit_or (bit_or low (m (p + 4) * 2 ^ 32)) (m (p + 5) * 2 ^ 40))
            (m (p + 6) * 2 ^ 48))
          (m (p + 7) * 2 ^ 56)
        ≡ low + m (p + 4) * 2 ^ 32 + m (p + 5) * 2 ^ 40 + m (p + 6) * 2 ^ 48 + m (p + 7) * 2 ^ 56
  high_bytes low h =
      rw
        (
          join 32 low b4 h,
          join 40 (low + b4 * 2 ^ 32) b5 (omega (arith, bytes (p + 4))),
          join 48 (low + b4 * 2 ^ 32 + b5 * 2 ^ 40) b6
              (omega (arith, bytes (p + 4), bytes (p + 5))),
          join 56 (low + b4 * 2 ^ 32 + b5 * 2 ^ 40 + b6 * 2 ^ 48) b7
              (omega (arith, bytes (p + 4), bytes (p + 5), bytes (p + 6))),
        )
        refl
    where
      b4 : ℕ
      b4 = m (p + 4)

      b5 : ℕ
      b5 = m (p + 5)

      b6 : ℕ
      b6 = m (p + 6)

      b7 : ℕ
      b7 = m (p + 7)

  pub read_pu64-eq : read_pu64 p m ≡ read_le 8 p m
  unfolding read_pu64 read_pu32 read_le
  read_pu64-eq = rw four_bytes (
      high_bytes low (omega (arith, bytes p, bytes (p + 1), bytes (p + 2), bytes (p + 3)))
      ∙ ground arith)
    where
      low : ℕ
      low = m p + m (p + 1) * 2 ^ 8 + m (p + 2) * 2 ^ 16 + m (p + 3) * 2 ^ 24
