-- ===== src/Find/Clear.antt =====
-- What the searches look for, said independently of the code: a stretch of sectors that no used
-- partition meets.
use partman.Base.{
  ℕ, ◌+◌, ◌≤◌, ◌<◌, ◌≡◌, ◌≢◌, ◌⊎◌, List, [], ◌∷◌, Bool, true, arith, zero, suc, some, get_elem?,
}
use partman.Schem.{SchemPart, Schem, parts, part_is_used}

-- The partition has no sector from `s` to `e`.
abbrev pub Misses : ℕ → ℕ → SchemPart → Type 0
Misses s e part = (e < part.start_lba) ⊎ (part.end_lba < s)

module _ (used : SchemPart → Bool) (part_ign : ℕ) where
  -- No used partition but the ignored one, from index `i` on, has a sector from `s` to `e`.
  abbrev pub ClearFrom : ℕ → ℕ → ℕ → List SchemPart → Type 0
  ClearFrom s e i [] = Unit
  ClearFrom s e i (part ∷ rest) =
      (i ≢ part_ign → used part ≡ true → Misses s e part) × ClearFrom s e (i + 1) rest

-- No used partition ends more than one sector before its start. (An MBR entry of no sectors ends just
-- before its start.)
abbrev pub AllOrdered : (SchemPart → Bool) → List SchemPart → Type 0
AllOrdered used [] = Unit
AllOrdered used (part ∷ rest) =
    (used part ≡ true → part.start_lba ≤ part.end_lba + 1) × AllOrdered used rest

pub AllOrdered-get :
    (used : SchemPart → Bool) (ps : List SchemPart) (k : ℕ) (part : SchemPart)
    → AllOrdered used ps
    → get_elem? ps k ≡ some part
    → used part ≡ true
    → part.start_lba ≤ part.end_lba + 1
AllOrdered-get used [] k part o g u = cc
AllOrdered-get used (p ∷ rest) zero part o g u = ground (arith, o.0)
AllOrdered-get used (p ∷ rest) (suc k) part o g u = AllOrdered-get used rest k part o.1 g u

abbrev pub IsOrdered : Schem → Type 0
IsOrdered schem = AllOrdered (part_is_used schem.funcs) (parts schem)

abbrev pub IsClear : Schem → ℕ → ℕ → ℕ → Type 0
IsClear schem part_ign s e = ClearFrom (part_is_used schem.funcs) part_ign s e 0 (parts schem)
