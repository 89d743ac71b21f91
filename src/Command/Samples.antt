-- ===== src/Command/Samples.antt =====
-- The small MBR scheme of the tests is sound.
use partman.Base.{ℕ, zero, suc, ◌≡◌, ◌⊎◌, inl, inr, some, arith}
use partman.Schem.{part_is_used, schem_part_is_used_mbr}
use partman.Examples.{disk, two_parts}
use partman.Command.Layout.{layout}
use partman.Command.Refine.Sound.{IsSound}

-- The entries that are in use.
held :
    (i a b : ℕ)
    → layout two_parts i ≡ some (a, b)
    → ((i ≡ 0) × (a ≡ 1) × (b ≡ 4095)) ⊎ ((i ≡ 1) × (a ≡ 6144) × (b ≡ 8191))
unfolding part_is_used schem_part_is_used_mbr
held zero a b h = inl (ground arith)
held (suc zero) a b h = inr (ground arith)
held (suc (suc zero)) a b h = absurd (ground arith)
held (suc (suc (suc zero))) a b h = absurd (ground arith)
held (suc (suc (suc (suc i)))) a b h = absurd (ground arith)

pub two_parts-IsSound : IsSound two_parts disk
two_parts-IsSound = record {
  mapped = λ e. ground (arith, e);
  fits = omega arith;
  room = omega arith;
  align_pos = omega arith;
  aligns = omega arith;
  entries = record {
    within = λ i a b h. omega (arith, held i a b h);
    apart = λ i j a b c d ne h k. ground (arith, held i a b h, held j c d k);
  };
}
