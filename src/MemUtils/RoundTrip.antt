-- ===== src/MemUtils/RoundTrip.antt =====
-- What the pairs of functions of memutils.c promise each other.
use partman.Base.{ℕ, ◌+◌, ◌%◌, ◌^◌, ◌≤◌, ◌<◌, ◌≡◌, ◌⊎◌, inl, inr, ◌∙◌}
use partman.MemUtils.{
  Memory, IsBytes, write_pu8, write_pu16, write_pu24, write_pu32, write_pu64, read_pu8, read_pu16,
  read_pu24, read_pu32, read_pu64,
}
use partman.MemUtils.Bytes.{
  write_le, write_le-below, write_le-above, write_le-IsBytes, read_le-write_le, write_pu8-eq,
  write_pu16-eq, write_pu24-eq, write_pu32-eq, write_pu64-eq, read_pu8-eq, read_pu16-eq,
  read_pu24-eq, read_pu32-eq, read_pu64-eq,
}

-- In a memory of bytes, each `read_puN` after `write_puN` at the same address returns the written
-- value cut to N bits, for N = 8, 16, 24, 32 and 64.
pub read-write :
    (p i : ℕ) (m : Memory)
    → IsBytes m
    → (read_pu8 p (write_pu8 p i m) ≡ i % 2 ^ 8)
      × (read_pu16 p (write_pu16 p i m) ≡ i % 2 ^ 16)
      × (read_pu24 p (write_pu24 p i m) ≡ i % 2 ^ 24)
      × (read_pu32 p (write_pu32 p i m) ≡ i % 2 ^ 32)
      × (read_pu64 p (write_pu64 p i m) ≡ i % 2 ^ 64)
read-write p i m b = (
  rw write_pu8-eq (read_pu8-eq p (write_le 1 p i m) (kept 1) ∙ read_le-write_le 1 p i m),
  rw write_pu16-eq (read_pu16-eq p (write_le 2 p i m) (kept 2) ∙ read_le-write_le 2 p i m),
  rw write_pu24-eq (read_pu24-eq p (write_le 3 p i m) (kept 3) ∙ read_le-write_le 3 p i m),
  rw write_pu32-eq (read_pu32-eq p (write_le 4 p i m) (kept 4) ∙ read_le-write_le 4 p i m),
  rw write_pu64-eq (read_pu64-eq p (write_le 8 p i m) (kept 8) ∙ read_le-write_le 8 p i m),
)
  where
    kept : (n : ℕ) → IsBytes (write_le n p i m)
    kept n = write_le-IsBytes n p i m b

outside : (n p i : ℕ) (m : Memory) (q : ℕ) → (q < p) ⊎ (p + n ≤ q) → write_le n p i m q ≡ m q
outside n p i m q (inl h) = write_le-below n p i m q h
outside n p i m q (inr h) = write_le-above n p i m q h

-- `write_puN` changes no byte outside the N / 8 bytes at its address.
pub write_outside :
    (p i : ℕ) (m : Memory) (q : ℕ)
    → ((q < p) ⊎ (p + 1 ≤ q) → write_pu8 p i m q ≡ m q)
      × ((q < p) ⊎ (p + 2 ≤ q) → write_pu16 p i m q ≡ m q)
      × ((q < p) ⊎ (p + 3 ≤ q) → write_pu24 p i m q ≡ m q)
      × ((q < p) ⊎ (p + 4 ≤ q) → write_pu32 p i m q ≡ m q)
      × ((q < p) ⊎ (p + 8 ≤ q) → write_pu64 p i m q ≡ m q)
write_outside p i m q = (
  λ h. rw write_pu8-eq (outside 1 p i m q h),
  λ h. rw write_pu16-eq (outside 2 p i m q h),
  λ h. rw write_pu24-eq (outside 3 p i m q h),
  λ h. rw write_pu32-eq (outside 4 p i m q h),
  λ h. rw write_pu64-eq (outside 8 p i m q h),
)
