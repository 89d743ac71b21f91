-- ===== src/Print/Numbers.antt =====
-- Which numbers a listing shows.
use partman.Base.{
  ℕ, zero, suc, ◌+◌, ◌<◌, ◌≡◌, ◌≢◌, refl, ◌∙◌, ap, List, [], ◌∷◌, ◌++◌, Bool, true, none, some,
  get_or, get_or-take, length, length-take, ltb, Bool-cases, inl, inr, arith,
}
use partman.ImgCtx.{ImgCtx}
use partman.Schem.{SchemType, SchemPart, Schem, zero_part, parts, part_is_used}
use partman.Command.Layout.{Layout, layout, extent}
use partman.Command.Refine.Sound.{IsSound}
use partman.Print.{
  Line, print_mbr_part, print_gpt_part, print_parts, pm_print_mbr, pm_print_gpt, print_as,
  pm_print_common, print_rest, pm_print_scheme,
}
use partman.Print.View.{numbers}

-- The numbers, from 1, of those of the `left` entries from `i` on that hold sectors.
abbrev pub used_numbers : Layout → ℕ → ℕ → List ℕ
used_numbers l i zero = []
used_numbers l i (suc left) =
    let rest = used_numbers l (i + 1) left in elim (l i) [ none ↦ rest | some ab ↦ (i + 1) ∷ rest ]

module _ (used : SchemPart → Bool) (print_part : ℕ → SchemPart → List Line)
    (one : (i : ℕ) (p : SchemPart) (rest : List Line)
      → numbers (print_part i p ++ rest) ≡ (i + 1) ∷ numbers rest)
    (l : Layout) where
  numbers-print_parts :
      (i : ℕ) (ps : List SchemPart)
      → ((k : ℕ) → k < length ps → l (i + k) ≡ extent used (get_or ps k zero_part))
      → numbers (print_parts used print_part i ps) ≡ used_numbers l i (length ps)
  unfolding print_parts
  numbers-print_parts i [] same = refl
  numbers-print_parts i (p ∷ ps) same =
      let here : l i ≡ extent used p = ap l {y = i + 0} (omega arith) ∙ same 0 (omega arith) in
      let later : numbers (print_parts used print_part (i + 1) ps)
          ≡ used_numbers l (i + 1) (length ps) =
        numbers-print_parts (i + 1) ps
          (λ k h. ap l {y = i + suc k} (omega arith) ∙ same (suc k) (omega arith)) in
      elim (Bool-cases (used p)) [
        | inr e ↦ rw (here, e) later
        | inl e ↦ rw (here, e, one) (ap (λ (t : List ℕ). (i + 1) ∷ t) later)
      ]

module _ (s : Schem) (ctx : ImgCtx) (sound : IsSound s ctx) where
  entries :
      (k : ℕ)
      → k < length (parts s)
      → layout s (0 + k) ≡ extent (part_is_used s.funcs) (get_or (parts s) k zero_part)
  entries k h =
      let size = length-take s.part_cnt s.table sound.fits in
      let within : ltb k s.part_cnt ≡ true = ground (arith, size) in
      ap (layout s) {x = 0 + k} {y = k} (omega arith)
      ∙ rw (within, get_or-take s.part_cnt k s.table zero_part (omega (arith, h, size))) refl

  abbrev of_layout : List ℕ
  of_layout = used_numbers (layout s) 0 s.part_cnt

  sized : used_numbers (layout s) 0 (length (parts s)) ≡ of_layout
  sized = ap (used_numbers (layout s) 0) (length-take s.part_cnt s.table sound.fits)

  mbr_numbers : numbers (pm_print_mbr s ctx) ≡ of_layout
  unfolding pm_print_mbr print_mbr_part
  mbr_numbers =
      numbers-print_parts (part_is_used s.funcs) (print_mbr_part ctx) (λ i p rest. refl) (layout s)
        0 (parts s) entries
      ∙ sized

  gpt_numbers : numbers (pm_print_gpt s ctx) ≡ of_layout
  unfolding pm_print_gpt print_gpt_part
  gpt_numbers =
      numbers-print_parts (part_is_used s.funcs) (print_gpt_part ctx) (λ i p rest. refl) (layout s)
        0 (parts s) entries
      ∙ sized

  as_numbers : (t : SchemType) → t ≢ SchemType.schem_cnt → numbers (print_as t s ctx) ≡ of_layout
  unfolding print_as
  as_numbers SchemType.schem_type_mbr h = mbr_numbers
  as_numbers SchemType.schem_type_gpt h = gpt_numbers
  as_numbers SchemType.schem_cnt h = absurd (h refl)

  -- The listing of a sound scheme numbers the entries that hold sectors, each once and in order.
  pub numbers-pm_print_scheme :
      s.type ≢ SchemType.schem_cnt → numbers (pm_print_scheme (some s) ctx) ≡ of_layout
  unfolding pm_print_scheme pm_print_common print_rest
  numbers-pm_print_scheme h = as_numbers s.type h
