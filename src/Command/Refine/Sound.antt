-- ===== src/Command/Refine/Sound.antt =====
-- What holds of a scheme between two commands, and what the searches return then.
use partman.Base.{
  ℕ, zero, suc, ◌+◌, ◌^◌, ◌≤◌, ◌<◌, ◌≡◌, ◌≢◌, ◌⊎◌, ap, List, [], ◌∷◌, Bool, true, false, none, some,
  length, take, get_elem?, get_or, get_or-take, inl, inr, arith,
}
use partman.ImgCtx.{ImgCtx}
use partman.Schem.{SchemType, Schem, SchemPart, zero_part, parts, part_is_used}
use partman.Find.{occupant_from, bound_from, schem_find_overlap, schem_find_last_sector}
use partman.Find.Clear.{Misses, ClearFrom}
use partman.Find.Overlap.{overlap_from-none}
use partman.Find.Start.{IsBounded}
use partman.Find.Last.{bound_from-le, test_end-le}
use partman.Command.Layout.{layout, IsFree, IsApart}
use partman.Command.Prompt.{take_get}
use partman.Command.Refine.Edits.{zero-unused}

-- The scheme is of one of the two types, its table is as long as it says, its usable space is not
-- empty and far enough from the end of the 64-bit sectors, and its used entries are apart.
pub record IsSound (s : Schem) (ctx : ImgCtx) : Type 0 where
  pub mapped : s.funcs ≢ SchemType.schem_cnt
  pub fits : s.part_cnt ≤ length s.table
  pub room : s.first_usable_lba ≤ s.last_usable_lba
  pub align_pos : 0 < ctx.align
  pub aligns : s.last_usable_lba + ctx.align < 2 ^ 64
  pub entries : IsApart s.first_usable_lba s.last_usable_lba (layout s)

entry_of_get :
    (n k : ℕ) (ps : List SchemPart) {p : SchemPart}
    → get_elem? (take n ps) k ≡ some p
    → get_or ps k zero_part ≡ p
entry_of_get zero k ps h = absurd (ground arith)
entry_of_get (suc n) k [] h = absurd (ground arith)
entry_of_get (suc n) zero (p ∷ ps) h = ground arith
entry_of_get (suc n) (suc k) (p ∷ ps) h = entry_of_get n k ps h

module _ (used : SchemPart → Bool) (x ign : ℕ) where
  occupant_head :
      (i : ℕ) (part p : SchemPart) (rest : List SchemPart)
      → occupant_from used x ign i (part ∷ rest) ≡ some p
      → (occupant_from used x ign (i + 1) rest ≡ some p) ⊎ ((part ≡ p) × (used part ≡ true))
  unfolding occupant_from
  occupant_head i part p rest h = ground arith

  occupant_from-used :
      (i : ℕ) (ps : List SchemPart) (p : SchemPart)
      → occupant_from used x ign i ps ≡ some p
      → (k : ℕ) × (get_elem? ps k ≡ some p) × (used p ≡ true)
  occupant_from-used i [] p h = absurd (unfold occupant_from in ground arith)
  occupant_from-used i (part ∷ rest) p h = elim (occupant_head i part p rest h) [
    | inl later ↦ let (k, get, u) = occupant_from-used (i + 1) rest p later in (suc k, get, u)
    | inr (at, u) ↦ (0, ap some at, ground arith)
  ]

module _ (s : Schem) (ctx : ImgCtx) (sound : IsSound s ctx) where
  pub IsSound-IsBounded : IsBounded s ctx
  IsSound-IsBounded = record {
    ends = λ part x ign h.
        let (k, get, u) = occupant_from-used (part_is_used s.funcs) x ign 0 (parts s) part h in
        let below = take_get s.part_cnt k s.table get in
        let at = entry_of_get s.part_cnt k s.table get in
        let held : layout s k ≡ some (part.start_lba, part.end_lba) =
          ground (arith, below, at, u) in
        omega (
          arith,
          (sound.entries.within k part.start_lba part.end_lba held).2,
          sound.aligns,
          sound.align_pos,
        );
    align_pos = sound.align_pos;
    aligns = sound.aligns;
  }

  -- A last sector that is found lies between the first one and the end of the usable space, also
  -- where the first one is taken.
  pub find_last_bounds :
      (ign f e : ℕ)
      → f ≤ s.last_usable_lba
      → schem_find_last_sector s ctx ign f ≡ some e
      → (f ≤ e) × (e ≤ s.last_usable_lba)
  unfolding schem_find_last_sector
  find_last_bounds ign f e le h =
      let b : ℕ = bound_from (part_is_used s.funcs) f ign s.last_usable_lba 0 (parts s) in
      let inside = bound_from-le (part_is_used s.funcs) f ign (parts s) s.last_usable_lba 0 le in
      let below =
        test_end-le ctx b sound.align_pos (omega (arith, inside, sound.aligns, sound.align_pos)) in
      ground (arith, inside, below)

clear_get :
    (used : SchemPart → Bool) (ign a b i : ℕ) (ps : List SchemPart) (k : ℕ)
    → used zero_part ≡ false
    → ClearFrom used ign a b i ps
    → i + k ≢ ign
    → used (get_or ps k zero_part) ≡ true
    → Misses a b (get_or ps k zero_part)
clear_get used ign a b i [] k z c ne u = absurd (ground arith)
clear_get used ign a b i (p ∷ ps) zero z c ne u = c.0 (λ e. ne (omega arith)) u
clear_get used ign a b i (p ∷ ps) (suc k) z c ne u =
    clear_get used ign a b (i + 1) ps k z c.1 (λ e. ne (omega arith)) u

-- Where no overlap is found, the sectors are free.
pub schem_find_overlap-IsFree :
    (s : Schem) (a b ign : ℕ)
    → a ≤ b
    → schem_find_overlap s a b ign ≡ none
    → IsFree (layout s) ign a b
unfolding schem_find_overlap
schem_find_overlap-IsFree s a b ign ord h j c d ne held =
    let clear = overlap_from-none (part_is_used s.funcs) a b ign ord 0 (parts s) h in
    let below : j < s.part_cnt = ground arith in
    let same = get_or-take s.part_cnt j s.table zero_part below in
    let miss =
      clear_get (part_is_used s.funcs) ign a b 0 (parts s) j (zero-unused s.funcs) clear
        (λ e. ne (omega arith)) (rw same (ground arith)) in
    let miss' : Misses a b (get_or s.table j zero_part) = rw same at miss in ground (arith, miss')
