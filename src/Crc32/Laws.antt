-- ===== src/Crc32/Laws.antt =====
-- The table-driven code computes the CRC-32 of the bytes that it is fed, in the order in which
-- memutils.c writes them, whether or not the static table was filled in before.
use partman.Base.{ℕ, ◌/◌, ◌%◌, ◌^◌, bit_and, bit_xor, List, [], ◌∷◌, ◌++◌, ◌≡◌, refl, inr, arith}
use partman.Bits.Fields.{bit_and_low}
use partman.Crc32.{
  Crc, crc32_init, crc32_finalize, crc32_compute8, crc32_compute16, crc32_compute32,
  crc32_compute64,
}
use partman.MemUtils.Region.{le_bytes}
use partman.Crc32.Reference.{shift_byte, next_byte, remainder, remainder-append, checksum}
use partman.Crc32.Table.{full_table, get_or-full_table, IsTable, ready-eq}

-- One byte through the code.
pub compute8-eq :
    (i : ℕ) (c : Crc)
    → IsTable c.table
    → crc32_compute8 i c ≡ record { table = full_table; crc32 = next_byte c.crc32 i }
unfolding crc32_compute8 next_byte
compute8-eq i c t =
    cc
      (ready-eq c.table t, bit_and_low 8 v, get_or-full_table (v % 256) (omega arith), shift_byte v)
  where
    v : ℕ
    v = bit_xor c.crc32 i

-- `Feeds f bytes`: on a usable table, `f` advances the remainder by exactly `bytes`.
abbrev pub Feeds : (Crc → Crc) → List ℕ → Type 0
Feeds f bytes =
    (c : Crc)
    → IsTable c.table
    → f c ≡ record { table = full_table; crc32 = remainder c.crc32 bytes }

pub Feeds-8 : (i : ℕ) → Feeds (crc32_compute8 i) (i ∷ [])
unfolding remainder
Feeds-8 i c t = compute8-eq i c t

pub Feeds-then :
    (f g : Crc → Crc) (xs ys : List ℕ) → Feeds f xs → Feeds g ys → Feeds (λ c. g (f c)) (xs ++ ys)
Feeds-then f g xs ys hf hg c t = rw (hf c t, remainder-append c.crc32 xs ys) (hg _ (inr refl))

-- Bytes fed one by one.
abbrev pub feed : List ℕ → Crc → Crc
feed [] c = c
feed (b ∷ bytes) c = feed bytes (crc32_compute8 b c)

feed-Feeds : (b : ℕ) (bytes : List ℕ) → Feeds (feed (b ∷ bytes)) (b ∷ bytes)
unfolding remainder
feed-Feeds b [] c t = compute8-eq b c t
feed-Feeds b (b' ∷ bytes) c t = rw (compute8-eq b c t) (feed-Feeds b' bytes _ (inr refl))

abbrev low : ℕ → ℕ
low i = bit_and i 0xff

bytes_16 : (i : ℕ) → low (i / 2 ^ 0) ∷ low (i / 2 ^ 8) ∷ [] ≡ le_bytes 2 i
unfolding le_bytes
bytes_16 i = ground (arith, bit_and_low 8 (i / 2 ^ 0), bit_and_low 8 (i / 2 ^ 8))

pub Feeds-16 : (i : ℕ) → Feeds (crc32_compute16 i) (le_bytes 2 i)
unfolding crc32_compute16
Feeds-16 i = rw (← bytes_16 i) (feed-Feeds (low (i / 2 ^ 0)) _)

bytes_32 :
    (i : ℕ)
    → low (i / 2 ^ 0) ∷ low (i / 2 ^ 8) ∷ low (i / 2 ^ 16) ∷ low (i / 2 ^ 24) ∷ [] ≡ le_bytes 4 i
unfolding le_bytes
bytes_32 i = ground (
  arith,
  bit_and_low 8 (i / 2 ^ 0),
  bit_and_low 8 (i / 2 ^ 8),
  bit_and_low 8 (i / 2 ^ 16),
  bit_and_low 8 (i / 2 ^ 24),
)

pub Feeds-32 : (i : ℕ) → Feeds (crc32_compute32 i) (le_bytes 4 i)
unfolding crc32_compute32
Feeds-32 i = rw (← bytes_32 i) (feed-Feeds (low (i / 2 ^ 0)) _)

bytes_64 :
    (i : ℕ)
    → low (i / 2 ^ 0)
        ∷ low (i / 2 ^ 8)
        ∷ low (i / 2 ^ 16)
        ∷ low (i / 2 ^ 24)
        ∷ low (i / 2 ^ 32)
        ∷ low (i / 2 ^ 40)
        ∷ low (i / 2 ^ 48)
        ∷ low (i / 2 ^ 56)
        ∷ []
      ≡ le_bytes 8 i
unfolding le_bytes
bytes_64 i = ground (
  arith,
  bit_and_low 8 (i / 2 ^ 0),
  bit_and_low 8 (i / 2 ^ 8),
  bit_and_low 8 (i / 2 ^ 16),
  bit_and_low 8 (i / 2 ^ 24),
  bit_and_low 8 (i / 2 ^ 32),
  bit_and_low 8 (i / 2 ^ 40),
  bit_and_low 8 (i / 2 ^ 48),
  bit_and_low 8 (i / 2 ^ 56),
)

pub Feeds-64 : (i : ℕ) → Feeds (crc32_compute64 i) (le_bytes 8 i)
unfolding crc32_compute64
Feeds-64 i = rw (← bytes_64 i) (feed-Feeds (low (i / 2 ^ 0)) _)

-- `crc32_init`, a computation that feeds `bytes`, and `crc32_finalize`.
pub checksum-Feeds :
    (f : Crc → Crc) (bytes table : List ℕ)
    → Feeds f bytes
    → IsTable table
    → let c : Crc = f (record { table = table; crc32 = crc32_init }) in
      (crc32_finalize c.crc32 ≡ checksum bytes) × IsTable c.table
unfolding crc32_finalize checksum
checksum-Feeds f bytes table h t =
    rw (h (record { table = table; crc32 = crc32_init }) t) (refl, inr refl)

-- A non-empty sequence of bytes that is fed one by one, between `crc32_init` and `crc32_finalize`,
-- gives its CRC-32, whether the static table is untouched or filled in; it stays usable.
pub crc32_compute8_lem :
    (b : ℕ) (bytes table : List ℕ)
    → IsTable table
    → let c : Crc = feed (b ∷ bytes) (record { table = table; crc32 = crc32_init }) in
      (crc32_finalize c.crc32 ≡ checksum (b ∷ bytes)) × IsTable c.table
crc32_compute8_lem b bytes table t =
    checksum-Feeds (feed (b ∷ bytes)) (b ∷ bytes) table (feed-Feeds b bytes) t

-- The wider functions feed a value's bytes in the order in which memutils.c stores them, lowest first: the
-- checksum after `crc32_compute16`, `crc32_compute32` and `crc32_compute64` of one value each is the
-- CRC-32 of the fourteen bytes.
pub crc32_compute_wide_lem :
    (a b d : ℕ) (table : List ℕ)
    → IsTable table
    → let c : Crc = record { table = table; crc32 = crc32_init } in
      let c : Crc = crc32_compute64 d (crc32_compute32 b (crc32_compute16 a c)) in
      crc32_finalize c.crc32 ≡ checksum (le_bytes 2 a ++ (le_bytes 4 b ++ le_bytes 8 d))
crc32_compute_wide_lem a b d table t =
    (checksum-Feeds _ _ table
      (Feeds-then (crc32_compute16 a) (λ c. crc32_compute64 d (crc32_compute32 b c)) _ _
        (Feeds-16 a)
        (Feeds-then (crc32_compute32 b) (crc32_compute64 d) _ _ (Feeds-32 b) (Feeds-64 d)))
      t).0
