-- ===== src/Find/Last.antt =====
-- `schem_find_last_sector` returns the end of a clear stretch.
use partman.Base.{
  ℕ, suc, ◌+◌, ◌^◌, ◌≤◌, ◌<◌, ◌≡◌, ◌≢◌, ◌⊎◌, ◌∙◌, refl, get_elem?, List, [], ◌∷◌, some, Bool, true,
  ◌&&◌, leb, arith, inl, inr, Bool-cases,
}
use native.Mathlib.Decide.{ℕ_discrete}
use partman.ImgCtx.{ImgCtx}
use partman.ImgCtx.Sectors.{lba_align_down}
use partman.Schem.{SchemPart, Schem, parts, part_is_used}
use partman.Find.{
  lower_bound, bound_from, test_end, schem_find_overlap, schem_find_last_sector, is_none,
}
use partman.Find.Overlap.{overlap_from-none}
use partman.Find.Clear.{Misses, ClearFrom, IsClear}

module _ (used : SchemPart → Bool) (f ign : ℕ) where
  lower_bound-le :
      (b i : ℕ) (part : SchemPart)
      → f ≤ b
      → (f ≤ lower_bound used f ign b i part) × (lower_bound used f ign b i part ≤ b)
  unfolding lower_bound
  lower_bound-le b i part h = ground arith

  pub bound_from-le :
      (ps : List SchemPart) (b i : ℕ)
      → f ≤ b
      → (f ≤ bound_from used f ign b i ps) × (bound_from used f ign b i ps ≤ b)
  unfolding bound_from
  bound_from-le [] b i h = (h, omega arith)
  bound_from-le (part ∷ rest) b i h =
      let now = lower_bound-le b i part h in
      let later = bound_from-le rest (lower_bound used f ign b i part) (i + 1) now.0 in
      (later.0, omega arith)

  -- Every used partition ends before `f` or starts at `e` or later.
  abbrev Reaches : ℕ → ℕ → List SchemPart → Type 0
  Reaches e i [] = Unit
  Reaches e i (part ∷ rest) =
      (i ≢ ign → used part ≡ true → (e ≤ part.start_lba) ⊎ (part.end_lba < f))
      × Reaches e (i + 1) rest

  lower_bound-Misses :
      (b i : ℕ) (part : SchemPart)
      → f ≤ b
      → (i ≢ ign → used part ≡ true → Misses f f part)
      → i ≢ ign
      → used part ≡ true
      → (lower_bound used f ign b i part ≤ part.start_lba) ⊎ (part.end_lba < f)
  unfolding lower_bound
  lower_bound-Misses b i part h c ne u = ground (arith, c ne u)

  bound_from-Reaches :
      (ps : List SchemPart) (b i : ℕ)
      → f ≤ b
      → ClearFrom used ign f f i ps
      → Reaches (bound_from used f ign b i ps) i ps
  unfolding bound_from
  bound_from-Reaches [] b i h c = tt
  bound_from-Reaches (part ∷ rest) b i h c =
      let now = lower_bound-le b i part h in
      let later = bound_from-le rest (lower_bound used f ign b i part) (i + 1) now.0 in
      (
        λ ne u. ground (arith, lower_bound-Misses b i part h c.0 ne u),
        bound_from-Reaches rest (lower_bound used f ign b i part) (i + 1) now.0 c.1,
      )

  -- No used partition starts behind `f` and at `x` at the latest.
  abbrev pub NoneStarts : ℕ → ℕ → List SchemPart → Type 0
  NoneStarts x i [] = Unit
  NoneStarts x i (part ∷ rest) =
      (i ≢ ign → used part ≡ true → (part.start_lba ≤ f) ⊎ (x < part.start_lba))
      × NoneStarts x (i + 1) rest

  -- The bound is not before a stretch in which none starts.
  bound_from_max :
      (ps : List SchemPart) (b i x : ℕ)
      → x ≤ b
      → NoneStarts x i ps
      → x ≤ bound_from used f ign b i ps
  unfolding bound_from
  bound_from_max [] b i x k c = k
  bound_from_max (part ∷ rest) b i x k c =
      bound_from_max rest (lower_bound used f ign b i part) (i + 1) x
        (unfold lower_bound in ground (arith, c.0)) c.1

  -- A stretch that stops before `e` is clear.
  Reaches-clear :
      (ps : List SchemPart) (i e x : ℕ) → x < e → Reaches e i ps → ClearFrom used ign f x i ps
  Reaches-clear [] i e x h r = tt
  Reaches-clear (part ∷ rest) i e x h r =
      (λ ne u. ground (arith, r.0 ne u), Reaches-clear rest (i + 1) e x h r.1)

  -- One that stops at `e` is clear unless a used partition starts there.
  Reaches-cases :
      (ps : List SchemPart) (i e : ℕ)
      → Reaches e i ps
      → ClearFrom used ign f e i ps
        ⊎ ((k : ℕ) × (part : SchemPart) × (get_elem? ps k ≡ some part)
            × (used part ≡ true)
            × (part.start_lba ≡ e))
  Reaches-cases [] i e r = inl tt
  Reaches-cases (part ∷ rest) i e r = elim (Reaches-cases rest (i + 1) e r.1) [
    | inr (k, p, g, u, s) ↦ inr (suc k, p, g, u, s)
    | inl c ↦ elim (Bool-cases (used part)) [
      | inr unused ↦ inl (λ ne u. ground arith, c)
      | inl u ↦ elim (ℕ_discrete part.start_lba e) [
        | yes s ↦ inr (0, part, refl, u, s)
        | no s ↦ inl (λ ne u'. ground (arith, r.0 ne u), c)
      ]
    ]
  ]

  -- One round of the loop keeps the bound, or puts it just before a used partition.
  lower_bound-from :
      (b i : ℕ) (part : SchemPart)
      → (lower_bound used f ign b i part ≡ b)
        ⊎ ((i ≢ ign) × (used part ≡ true) × (lower_bound used f ign b i part + 1 ≡ part.start_lba))
  unfolding lower_bound
  lower_bound-from b i part = ground arith

  bound_from-from :
      (ps : List SchemPart) (b i : ℕ)
      → (bound_from used f ign b i ps ≡ b)
        ⊎ ((k : ℕ) × (part : SchemPart) × (get_elem? ps k ≡ some part)
            × (i + k ≢ ign)
            × (used part ≡ true)
            × (bound_from used f ign b i ps + 1 ≡ part.start_lba))
  unfolding bound_from
  bound_from-from [] b i = inl refl
  bound_from-from (part ∷ rest) b i =
      elim (bound_from-from rest (lower_bound used f ign b i part) (i + 1)) [
        | inr (k, p, g, ne, u, s) ↦ inr (suc k, p, g, (λ e. ne (omega arith)), u, s)
        | inl same ↦ elim (lower_bound-from b i part) [
          | inl kept ↦ inl (same ∙ kept)
          | inr (ne, u, s) ↦ inr (0, part, refl, (λ e. ne (omega arith)), u, omega (arith, same))
        ]
      ]

-- At most one stretch of alignment is given up.
test_end-near : (ctx : ImgCtx) (b : ℕ) → 0 < ctx.align → b < 2 ^ 64 → b ≤ test_end ctx b + ctx.align
unfolding test_end
test_end-near ctx b pos h = ground (arith, lba_align_down ctx b pos h)

pub test_end-le : (ctx : ImgCtx) (b : ℕ) → 0 < ctx.align → b < 2 ^ 64 → test_end ctx b ≤ b
unfolding test_end
test_end-le ctx b pos h = ground (arith, lba_align_down ctx b pos h)

-- From a free first sector within the usable space there is always a result `e`, between the first
-- sector and the last usable one. Every shorter stretch from the first sector is clear, and the one
-- to `e` is clear too, or else a used partition starts exactly at `e`, and `e` is the last usable
-- sector or just before the start of a used partition other than the one that is left out. Where no
-- used partition but that one starts behind the first sector and at a usable sector `x` at the
-- latest, `x` is at most one alignment behind `e`.
pub schem_find_last_sector_lem :
    (schem : Schem) (ctx : ImgCtx) (ign f : ℕ)
    → 0 < ctx.align
    → schem.last_usable_lba < 2 ^ 64
    → f ≤ schem.last_usable_lba
    → IsClear schem ign f f
    → (e : ℕ) × (schem_find_last_sector schem ctx ign f ≡ some e)
      × (f ≤ e)
      × (e ≤ schem.last_usable_lba)
      × ((x : ℕ) → x < e → IsClear schem ign f x)
      × ((x : ℕ)
          → x ≤ schem.last_usable_lba
          → NoneStarts (part_is_used schem.funcs) f ign x 0 (parts schem)
          → x ≤ e + ctx.align)
      × (IsClear schem ign f e
          ⊎ ((k : ℕ) × (part : SchemPart) × (get_elem? (parts schem) k ≡ some part)
              × (part_is_used schem.funcs part ≡ true)
              × (part.start_lba ≡ e)
              × ((e ≡ schem.last_usable_lba)
                  ⊎ ((k' : ℕ) × (next : SchemPart) × (get_elem? (parts schem) k' ≡ some next)
                      × (k' ≢ ign)
                      × (part_is_used schem.funcs next ≡ true)
                      × (e + 1 ≡ next.start_lba)))))
schem_find_last_sector_lem schem ctx ign f pos small le clear =
    elim (Bool-cases (leb f t && is_none (schem_find_overlap schem f t ign))) [
      | inl trim ↦ (
        t,
        unfold schem_find_last_sector in ground (arith, within),
        ground arith,
        omega (arith, t_le, within),
        λ x h. Reaches-clear used f ign ps 0 b x (omega (arith, t_le)) reach,
        λ x h c. omega (arith, greatest x h c, test_end-near ctx b pos (omega (arith, within))),
        inl (
            overlap_from-none used f t ign (ground arith) 0 ps
              (unfold schem_find_overlap in ground arith)),
      )
      | inr keep ↦ (
        b,
        unfold schem_find_last_sector in ground (arith, within),
        within.0,
        within.1,
        λ x h. Reaches-clear used f ign ps 0 b x h reach,
        λ x h c. omega (arith, greatest x h c),
        elim (Reaches-cases used f ign ps 0 b reach) [
          | inl c ↦ inl c
          | inr (k, part, g, u, at) ↦ inr (k, part, g, u, at, origin)
        ],
      )
    ]
  where
    used : SchemPart → Bool
    used = part_is_used schem.funcs

    ps : List SchemPart
    ps = parts schem

    b : ℕ
    b = bound_from used f ign schem.last_usable_lba 0 ps

    t : ℕ
    t = test_end ctx b

    within : (f ≤ b) × (b ≤ schem.last_usable_lba)
    within = bound_from-le used f ign ps schem.last_usable_lba 0 le

    t_le : t ≤ b
    t_le = test_end-le ctx b pos (omega (arith, within))

    reach : Reaches used f ign b 0 ps
    reach = bound_from-Reaches used f ign ps schem.last_usable_lba 0 le clear

    greatest : (x : ℕ) → x ≤ schem.last_usable_lba → NoneStarts used f ign x 0 ps → x ≤ b
    greatest x h c = bound_from_max used f ign ps schem.last_usable_lba 0 x h c

    origin :
        (b ≡ schem.last_usable_lba)
        ⊎ ((k : ℕ) × (part : SchemPart) × (get_elem? ps k ≡ some part)
            × (k ≢ ign)
            × (used part ≡ true)
            × (b + 1 ≡ part.start_lba))
    origin = elim (bound_from-from used f ign ps schem.last_usable_lba 0) [
      | inl e ↦ inl e
      | inr (k, part, g, ne, u, at) ↦ inr (k, part, g, (λ e. ne (omega arith)), u, at)
    ]
