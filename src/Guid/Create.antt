-- ===== src/Guid/Create.antt =====
-- `guid_create` makes random GUIDs of version 4 and variant 2.
use partman.Base.{
  ℕ, zero, suc, ◌+◌, ◌*◌, ◌/◌, ◌%◌, ◌^◌, bit_and, bit_or, length, ◌≡◌, refl, ap, false, arith, inl,
  inr, Bool-cases,
}
use partman.Bits.Fields.{bit_and_low, bit_or_low}
use partman.Rand.{Rng, rand_8, rand_16, rand_32, rand_8-lt, rand_16-lt, rand_32-lt}
use partman.Guid.{Guid, IsGuid, AllBytes, node_cnt, guid_create, guid_is_zero, rand_nodes}
use partman.Guid.Zero.{guid_is_zero_iff}

-- The low 12 bits are random, the version is written above them.
version_bits : (x : ℕ) → bit_or (bit_and x 0x0fff) (4 * 2 ^ 12) ≡ x % 2 ^ 12 + 4 * 2 ^ 12
version_bits x = rw (bit_and_low 12 x) (bit_or_low 12 4 (x % 2 ^ 12) (omega arith))

variant_bits : (x : ℕ) → bit_or (bit_and x 0x1f) (6 * 2 ^ 5) ≡ x % 2 ^ 5 + 6 * 2 ^ 5
variant_bits x = rw (bit_and_low 5 x) (bit_or_low 5 6 (x % 2 ^ 5) (omega arith))

length-rand_nodes : (n : ℕ) (r : Rng) → length (rand_nodes n r).0 ≡ n
unfolding rand_nodes
length-rand_nodes zero r = refl
length-rand_nodes (suc n) r = ap suc (length-rand_nodes n (rand_8 r).1)

rand_nodes-AllBytes : (n : ℕ) (r : Rng) → AllBytes (rand_nodes n r).0
unfolding rand_nodes
rand_nodes-AllBytes zero r = tt
rand_nodes-AllBytes (suc n) r = (rand_8-lt r, rand_nodes-AllBytes n (rand_8 r).1)

module _ (r : Rng) where
  abbrev r1 : Rng
  r1 = (rand_32 r).1

  abbrev r2 : Rng
  r2 = (rand_16 r1).1

  abbrev r3 : Rng
  r3 = (rand_16 r2).1

  abbrev r4 : Rng
  r4 = (rand_8 r3).1

  abbrev r5 : Rng
  r5 = (rand_8 r4).1

  version : (guid_create r).0.time_hi_ver ≡ (rand_16 r2).0 % 2 ^ 12 + 4 * 2 ^ 12
  unfolding guid_create
  version = version_bits (rand_16 r2).0

  variant : (guid_create r).0.cl_seq_hi_res ≡ (rand_8 r3).0 % 2 ^ 5 + 6 * 2 ^ 5
  unfolding guid_create
  variant = variant_bits (rand_8 r3).0

  pub guid_create-IsGuid : IsGuid (guid_create r).0
  guid_create-IsGuid = record {
    time_lo = unfold guid_create in rand_32-lt r;
    time_mid = unfold guid_create in rand_16-lt r1;
    time_hi_ver = omega (arith, version);
    cl_seq_hi_res = omega (arith, variant);
    cl_seq_lo = unfold guid_create in rand_8-lt r4;
    node_count = unfold guid_create in length-rand_nodes node_cnt r5;
    node_bytes = unfold guid_create in rand_nodes-AllBytes node_cnt r5;
  }

-- Every created GUID has version 4 in the top four bits of `time_hi_ver` and the variant bits 110 at
-- the top of `cl_seq_hi_res`, fits its fields, and is not the zero GUID that marks an unused entry.
pub guid_create_version :
    (r : Rng)
    → ((guid_create r).0.time_hi_ver / 2 ^ 12 ≡ 4)
      × ((guid_create r).0.cl_seq_hi_res / 2 ^ 5 ≡ 6)
      × IsGuid (guid_create r).0
      × (guid_is_zero (guid_create r).0 ≡ false)
guid_create_version r = (
  omega (arith, version r),
  omega (arith, variant r),
  guid_create-IsGuid r,
  elim (Bool-cases (guid_is_zero (guid_create r).0)) [
    | inl e ↦ absurd (
        omega (
          arith,
          version r,
          ap (λ (g : Guid). g.time_hi_ver)
              ((guid_is_zero_iff (guid_create r).0 (guid_create-IsGuid r)).0 e),
        ))
    | inr e ↦ e
  ],
)
