-- ===== src/Command/Layout.antt =====
-- The abstract view of a scheme: which sectors each entry holds. What a command does to it is one
-- step: nothing, an entry that is freed, or an entry that is given free sectors.
use partman.Base.{
  ℕ, ◌≤◌, ◌<◌, ◌≡◌, ◌≢◌, ◌⊎◌, inl, inr, ◌∙◌, sym, Bool, Option, none, some, get_or, ltb, ◌==◌,
  if◌then◌else◌, Bool-cases, arith,
}
use partman.Schem.{SchemPart, Schem, zero_part, part_is_used}

-- An entry that is in use has a first and a last sector.
abbrev pub Layout : Type 0
Layout = ℕ → Option (ℕ × ℕ)

abbrev pub extent : (SchemPart → Bool) → SchemPart → Option (ℕ × ℕ)
extent used part = if used part then some (part.start_lba, part.end_lba) else none

abbrev pub layout : Schem → Layout
layout s i =
    if ltb i s.part_cnt then extent (part_is_used s.funcs) (get_or s.table i zero_part) else none

-- No entry but `i` holds a sector from `a` to `b`.
abbrev pub IsFree : Layout → ℕ → ℕ → ℕ → Type 0
IsFree l i a b = (j c d : ℕ) → j ≢ i → l j ≡ some (c, d) → (b < c) ⊎ (d < a)

-- One step, within the sectors from `lo` to `hi`.
pub data LayoutStep (lo hi : ℕ) (l l' : Layout) : Type 0 where
  keep : ((j : ℕ) → l' j ≡ l j) → LayoutStep lo hi l l'
  free : (i : ℕ) → ((j : ℕ) → l' j ≡ (if j == i then none else l j)) → LayoutStep lo hi l l'
  place :
      (i a b : ℕ)
      → lo ≤ a
      → a ≤ b
      → b ≤ hi
      → IsFree l i a b
      → ((j : ℕ) → l' j ≡ (if j == i then some (a, b) else l j))
      → LayoutStep lo hi l l'

-- Every entry in use has at least one sector, within the range, and no two share one.
pub record IsApart (lo hi : ℕ) (l : Layout) : Type 0 where
  pub within : (i a b : ℕ) → l i ≡ some (a, b) → (lo ≤ a) × (a ≤ b) × (b ≤ hi)
  pub apart : (i j a b c d : ℕ) → i ≢ j → l i ≡ some (a, b) → l j ≡ some (c, d) → (b < c) ⊎ (d < a)

-- A step keeps the entries apart.
pub LayoutStep-IsApart :
    (lo hi : ℕ) (l l' : Layout) → LayoutStep lo hi l l' → IsApart lo hi l → IsApart lo hi l'
LayoutStep-IsApart lo hi l l' (keep same) h = record {
  within = λ i a b e. h.within i a b (sym (same i) ∙ e);
  apart = λ i j a b c d ne e f. h.apart i j a b c d ne (sym (same i) ∙ e) (sym (same j) ∙ f);
}
LayoutStep-IsApart lo hi l l' (free k upd) h = record {
  within = λ i a b e. h.within i a b (ground (arith, upd i));
  apart =
      λ i j a b c d ne e f. h.apart i j a b c d ne (ground (arith, upd i)) (ground (arith, upd j));
}
LayoutStep-IsApart lo hi l l' (place k x y low ord high clear upd) h = record {
  within = λ i a b e. elim (Bool-cases (i == k)) [
    | inl at ↦ ground (arith, upd i)
    | inr off ↦ h.within i a b (ground (arith, upd i))
  ];
  apart = λ i j a b c d ne e f. elim (Bool-cases (i == k)) [
    | inl at ↦ ground (arith, upd i, upd j, clear j c d)
    | inr off ↦ elim (Bool-cases (j == k)) [
      | inl at ↦ ground (arith, upd i, upd j, clear i a b)
      | inr off' ↦ h.apart i j a b c d ne (ground (arith, upd i)) (ground (arith, upd j))
    ]
  ];
}
