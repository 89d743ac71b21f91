-- ===== src/Command/Prompt.antt =====
-- What the prompt for a partition returns.
use partman.Base.{
  ℕ, zero, suc, ◌+◌, ◌-◌, ◌≤◌, ◌<◌, ◌≡◌, refl, List, [], ◌∷◌, Bool, true, false, Option, none, some,
  get_elem?, take, Bool-cases, inl, inr, arith,
}
use partman.Stdio.{Stream}
use partman.Scan.{ScanRes, Scanned, prompt_range}
use partman.Scan.Bounds.{prompt_range_bounds}
use partman.Scan.Lines.{left, prompt_range-le}
use partman.Schem.{Schem, SchemPart, parts, part_is_used}
use partman.Find.{schem_find_part_index}
use partman.Find.Index.{IndexOutcome, schem_find_part_index-IndexOutcome}
use partman.Command.{is_ok, get_part, chosen, prompted, prompt_from, pm_part_prompt}

pub is_ok→ok : (r : ScanRes) → is_ok r ≡ true → r ≡ ScanRes.scan_ok
is_ok→ok ScanRes.scan_ok h = refl
is_ok→ok ScanRes.scan_empty h = absurd (ground arith)
is_ok→ok ScanRes.scan_eof h = absurd (ground arith)
is_ok→ok ScanRes.scan_fail h = absurd (ground arith)

-- The index is within the table and its entry is as wanted.
abbrev pub IsChosen : Schem → Bool → ℕ → Type 0
IsChosen schem find_used i =
    (i < schem.part_cnt) × (part_is_used schem.funcs (get_part schem i) ≡ find_used)

chosen-eq :
    (schem : Schem) (find_used : Bool) (i j : ℕ)
    → chosen schem find_used i ≡ some j
    → (j ≡ i) × (part_is_used schem.funcs (get_part schem i) ≡ find_used)
unfolding chosen
chosen-eq schem true i j h = (ground arith, ground arith)
chosen-eq schem false i j h = (ground arith, ground arith)

pub take_get :
    (n k : ℕ) (ps : List SchemPart) {p : SchemPart} → get_elem? (take n ps) k ≡ some p → k < n
take_get zero k ps h = absurd (ground arith)
take_get (suc n) k [] h = absurd (ground arith)
take_get (suc n) zero (p ∷ ps) h = omega arith
take_get (suc n) (suc k) (p ∷ ps) h = omega (arith, take_get n k ps h)

index_below :
    (schem : Schem) (find_used : Bool) (o : Option ℕ) (j : ℕ)
    → IndexOutcome (part_is_used schem.funcs) find_used 0 (parts schem) o
    → o ≡ some j
    → j < schem.part_cnt
index_below schem find_used none j h e = absurd (ground arith)
index_below schem find_used (some i) j (k, p, at, get, is, before) e =
    let lt = take_get schem.part_cnt k schem.table get in ground (arith, lt)

module _ (schem : Schem) (find_used : Bool) where
  prompted-IsChosen :
      (r : Scanned ℕ) (i : ℕ)
      → (r.res ≡ ScanRes.scan_ok → (1 ≤ r.value) × (r.value ≤ schem.part_cnt))
      → (prompted schem find_used r).0 ≡ some i
      → IsChosen schem find_used i
  unfolding prompted
  prompted-IsChosen r i within h = elim (Bool-cases (is_ok r.res)) [
    | inr e ↦ absurd (ground arith)
    | inl e ↦
        let (low, high) = within (is_ok→ok r.res e) in
        let (at, used) = chosen-eq schem find_used (r.value - 1) i (ground arith) in
        rw at (omega arith, used)
  ]

  prompt_from-IsChosen :
      (o : Option ℕ) (st : Stream) (i : ℕ)
      → ((j : ℕ) → o ≡ some j → j < schem.part_cnt)
      → (prompt_from schem find_used o st).0 ≡ some i
      → IsChosen schem find_used i
  unfolding prompt_from
  prompt_from-IsChosen none st i below h = absurd (ground arith)
  prompt_from-IsChosen (some j) st i below h =
      prompted-IsChosen (prompt_range 1 schem.part_cnt (j + 1) st) i
        (λ e.
          prompt_range_bounds 1 schem.part_cnt (j + 1) st (omega arith)
            (omega (arith, below j refl)) e)
        h

  pub pm_part_prompt-IsChosen :
      (st : Stream) (i : ℕ)
      → (pm_part_prompt schem find_used st).0 ≡ some i
      → IsChosen schem find_used i
  unfolding pm_part_prompt
  pm_part_prompt-IsChosen st i h =
      prompt_from-IsChosen (schem_find_part_index schem find_used) st i
        (λ j e.
          index_below schem find_used (schem_find_part_index schem find_used) j
            (schem_find_part_index-IndexOutcome schem find_used) e)
        h

  pub prompted-stdin : (r : Scanned ℕ) → (prompted schem find_used r).1 ≡ r.stdin
  unfolding prompted
  prompted-stdin r = ground arith

  prompt_from-le :
      (o : Option ℕ) (st : Stream) → left (prompt_from schem find_used o st).1 ≤ left st
  unfolding prompt_from
  prompt_from-le none st = omega arith
  prompt_from-le (some j) st =
      rw (prompted-stdin (prompt_range 1 schem.part_cnt (j + 1) st))
        (prompt_range-le 1 schem.part_cnt (j + 1) st)

  pub pm_part_prompt-le : (st : Stream) → left (pm_part_prompt schem find_used st).1 ≤ left st
  unfolding pm_part_prompt
  pm_part_prompt-le st = prompt_from-le (schem_find_part_index schem find_used) st
