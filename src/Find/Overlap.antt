-- ===== src/Find/Overlap.antt =====
-- `schem_find_overlap` decides whether a stretch of sectors is clear.
use partman.Base.{
  ℕ, suc, ◌+◌, ◌≤◌, ◌≡◌, ◌≢◌, ◌↔◌, ◌⊎◌, refl, List, [], ◌∷◌, get_elem?, none, some, Bool, true,
  arith, inl, inr,
}
use partman.Schem.{SchemPart, Schem, parts, part_is_used}
use partman.Find.{overlap_from, schem_find_overlap}
use partman.Find.Clear.{ClearFrom, IsClear, AllOrdered, IsOrdered, AllOrdered-get}

module _ (used : SchemPart → Bool) (s e ign : ℕ) (ordered : s ≤ e) where
  pub overlap_from-none :
      (i : ℕ) (ps : List SchemPart)
      → overlap_from used s e ign i ps ≡ none
      → ClearFrom used ign s e i ps
  unfolding overlap_from
  overlap_from-none i [] h = tt
  overlap_from-none i (part ∷ rest) h =
      (λ ne u. ground arith, overlap_from-none (i + 1) rest (ground arith))

  pub overlap_from-clear :
      (i : ℕ) (ps : List SchemPart)
      → AllOrdered used ps
      → ClearFrom used ign s e i ps
      → overlap_from used s e ign i ps ≡ none
  unfolding overlap_from
  overlap_from-clear i [] o c = refl
  overlap_from-clear i (part ∷ rest) o c =
      ground (arith, overlap_from-clear (i + 1) rest o.1 c.1, c.0, o.0)

  -- The entry at a reported index, which is `k` places on.
  abbrev Hit : ℕ → List SchemPart → ℕ → Type 0
  Hit i ps j =
      (k : ℕ) × (part : SchemPart) × (j ≡ i + k)
      × (get_elem? ps k ≡ some part)
      × (j ≢ ign)
      × (used part ≡ true)
      × (part.start_lba ≤ part.end_lba + 1 → part.start_lba ≤ e)
      × (part.start_lba ≤ part.end_lba + 1 → s ≤ part.end_lba)

  overlap_from_head :
      (i : ℕ) (part : SchemPart) (rest : List SchemPart) (j : ℕ)
      → overlap_from used s e ign i (part ∷ rest) ≡ some j
      → (overlap_from used s e ign (i + 1) rest ≡ some j)
        ⊎ ((j ≡ i)
            × (j ≢ ign)
            × (used part ≡ true)
            × (part.start_lba ≤ part.end_lba + 1 → part.start_lba ≤ e)
            × (part.start_lba ≤ part.end_lba + 1 → s ≤ part.end_lba))
  unfolding overlap_from
  overlap_from_head i part rest j h = ground arith

  pub overlap_from-some :
      (i : ℕ) (ps : List SchemPart) (j : ℕ) → overlap_from used s e ign i ps ≡ some j → Hit i ps j
  overlap_from-some i [] j h = absurd (unfold overlap_from in ground arith)
  overlap_from-some i (part ∷ rest) j h = elim (overlap_from_head i part rest j h) [
    | inl later ↦
        let (k, p, at, get, ne, u, a, b) = overlap_from-some (i + 1) rest j later in
        (suc k, p, omega arith, get, ne, u, a, b)
    | inr (at, ne, u, a, b) ↦ (0, part, omega arith, refl, ne, u, a, b)
  ]

-- Over partitions that are ordered, `schem_find_overlap` returns -1 exactly when no used partition
-- but the ignored one has a sector from `s` to `e`; an index that it returns is that of a used
-- partition, not the ignored one, that has such a sector.
pub schem_find_overlap_lem :
    (schem : Schem) (s e ign : ℕ)
    → s ≤ e
    → IsOrdered schem
    → ((schem_find_overlap schem s e ign ≡ none) ↔ IsClear schem ign s e)
      × ((j : ℕ)
          → schem_find_overlap schem s e ign ≡ some j
          → (part : SchemPart) × (get_elem? (parts schem) j ≡ some part)
            × (j ≢ ign)
            × (part_is_used schem.funcs part ≡ true)
            × (part.start_lba ≤ e)
            × (s ≤ part.end_lba))
unfolding schem_find_overlap
schem_find_overlap_lem schem s e ign h o = (
  (
    overlap_from-none (part_is_used schem.funcs) s e ign h 0 (parts schem),
    overlap_from-clear (part_is_used schem.funcs) s e ign h 0 (parts schem) o,
  ),
  λ j r.
      let (k, p, at, get, ne, u, a, b) =
        overlap_from-some (part_is_used schem.funcs) s e ign h 0 (parts schem) j r in
      let at : j ≡ k = omega arith in
      let ord = AllOrdered-get (part_is_used schem.funcs) (parts schem) k p o get u in
      (p, rw at get, ne, u, a ord, b ord),
)
