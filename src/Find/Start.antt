-- ===== src/Find/Start.antt =====
-- `schem_find_start_sector` ends, and finds a free sector whenever there is one.
use native.Mathlib.Nat.{mod-eq_of_lt}
use partman.Base.{
  ℕ, zero, suc, ◌+◌, ◌-◌, ◌*◌, ◌^◌, ◌≤◌, ◌<◌, ◌≡◌, ◌≢◌, List, [], ◌∷◌, none, some, Bool, true, not,
  ltb, ◌==◌, if◌then◌else◌, arith, inl, inr, ==_ne, Bool-cases, Option-cases, u64, sym,
}
use mathlib.Core.Path.{subst}
use native.Mathlib.Decide.{dec_lt}
use partman.ImgCtx.{ImgCtx, lba_align}
use partman.ImgCtx.Sectors.{lba_align_up, lba_align-zero}
use partman.Schem.{SchemPart, Schem, parts, part_is_used}
use partman.Find.{
  occupant_from, Search, found, not_found, out_of_fuel, start_loop, start_fuel,
  schem_find_start_sector,
}
use partman.Find.Clear.{ClearFrom, IsClear}

module _ (used : SchemPart → Bool) (ign x : ℕ) where
  pub occupant_from-none :
      (i : ℕ) (ps : List SchemPart)
      → occupant_from used x ign i ps ≡ none
      → ClearFrom used ign x x i ps
  unfolding occupant_from
  occupant_from-none i [] h = tt
  occupant_from-none i (part ∷ rest) h =
      (λ ne u. ground arith, occupant_from-none (i + 1) rest (ground arith))

  -- The partition that is found holds `x`, and every sector of it is taken.
  pub occupant_from-some :
      (i : ℕ) (ps : List SchemPart) (part : SchemPart)
      → occupant_from used x ign i ps ≡ some part
      → (part.start_lba ≤ x)
        × (x ≤ part.end_lba)
        × ((y : ℕ) → part.start_lba ≤ y → y ≤ part.end_lba → ¬ ClearFrom used ign y y i ps)
  unfolding occupant_from
  occupant_from-some i [] part h = absurd (ground arith)
  occupant_from-some i (first ∷ rest) part h =
      let ih = occupant_from-some (i + 1) rest part in
      (
        ground (arith, λ (g : occupant_from used x ign (i + 1) rest ≡ some part). (ih g).0),
        ground (arith, λ (g : occupant_from used x ign (i + 1) rest ≡ some part). (ih g).1),
        λ y a b c. ground (
          arith,
          λ (g : occupant_from used x ign (i + 1) rest ≡ some part). (ih g).2 y,
          c.0,
          c.1,
        ),
      )

-- The partitions end before the last 64-bit sector, and aligning within the usable space cannot wrap.
pub record IsBounded (schem : Schem) (ctx : ImgCtx) : Type 0 where
  pub ends :
      (part : SchemPart) (x ign : ℕ)
      → occupant_from (part_is_used schem.funcs) x ign 0 (parts schem) ≡ some part
      → part.end_lba + 1 < 2 ^ 64
  pub align_pos : 0 < ctx.align
  pub aligns : schem.last_usable_lba + ctx.align < 2 ^ 64

module _ (schem : Schem) (ctx : ImgCtx) (ign : ℕ) (bounded : IsBounded schem ctx) where
  -- What a result of the search says of the sectors from the first usable one on.
  abbrev pub Outcome : Search → Type 0
  Outcome (found l) =
      (schem.first_usable_lba ≤ l)
      × (schem.first_usable_lba ≤ schem.last_usable_lba → l ≤ schem.last_usable_lba)
      × IsClear schem ign l l
  Outcome not_found =
      (x : ℕ) → schem.first_usable_lba ≤ x → x ≤ schem.last_usable_lba → ¬ IsClear schem ign x x
  Outcome out_of_fuel = ⊥

  -- The sector from which on nothing has been tried.
  abbrev frontier : ℕ → ℕ → ℕ
  frontier lba no_align = if no_align == 0 then lba else no_align

  record Inv (lba no_align : ℕ) : Type 0 where
    after : schem.first_usable_lba ≤ frontier lba no_align
    ahead : frontier lba no_align ≤ lba
    within : schem.first_usable_lba ≤ schem.last_usable_lba → lba ≤ schem.last_usable_lba
    taken :
        (x : ℕ) → schem.first_usable_lba ≤ x → x < frontier lba no_align → ¬ IsClear schem ign x x

  -- falls in each round
  abbrev measure : ℕ → ℕ → ℕ
  measure lba no_align =
      2 * (schem.last_usable_lba + 1 - frontier lba no_align) + (if no_align == 0 then 0 else 1)

  start_loop-free :
      (fuel lba no_align : ℕ)
      → occupant_from (part_is_used schem.funcs) lba ign 0 (parts schem) ≡ none
      → start_loop schem ctx ign (suc fuel) lba no_align ≡ found lba
  unfolding start_loop
  start_loop-free fuel lba no_align e = ground arith

  start_loop-taken :
      (fuel lba no_align : ℕ) (part : SchemPart)
      → occupant_from (part_is_used schem.funcs) lba ign 0 (parts schem) ≡ some part
      → let next = u64 (part.end_lba + 1) in
        let aligned = lba_align ctx next true in
        start_loop schem ctx ign (suc fuel) lba no_align ≡ (
          if not (no_align == 0)
          then start_loop schem ctx ign fuel no_align 0
          else if ltb schem.last_usable_lba next
          then not_found
          else if ltb schem.last_usable_lba aligned
          then start_loop schem ctx ign fuel next 0
          else start_loop schem ctx ign fuel aligned next)
  unfolding start_loop
  start_loop-taken fuel lba no_align part e = ground arith

  -- The three ways to go on, and the end of the usable space.
  module _ (lba : ℕ) (part : SchemPart)
      (at : occupant_from (part_is_used schem.funcs) lba ign 0 (parts schem) ≡ some part) where
    holds :
        (part.start_lba ≤ lba)
        × (lba ≤ part.end_lba)
        × ((y : ℕ) → part.start_lba ≤ y → y ≤ part.end_lba → ¬ IsClear schem ign y y)
    holds = occupant_from-some (part_is_used schem.funcs) ign lba 0 (parts schem) part at

    next-eq : u64 (part.end_lba + 1) ≡ part.end_lba + 1
    next-eq = mod-eq_of_lt (bounded.ends part lba ign at)

    -- Everything up to the end of the partition is taken.
    taken_to_end :
        Inv lba 0
        → (x : ℕ) → schem.first_usable_lba ≤ x
        → x < part.end_lba + 1
        → ¬ IsClear schem ign x x
    taken_to_end inv x a b = elim (dec_lt x lba) [
      | yes lt ↦ inv.taken x a lt
      | no ge ↦ holds.2 x (omega (arith, holds.0)) (omega arith)
    ]

    Inv-retry : (no_align : ℕ) → no_align ≢ 0 → Inv lba no_align → Inv no_align 0
    Inv-retry no_align ne inv = record {
      after = ground (arith, inv.after);
      ahead = omega arith;
      within = λ h. ground (arith, inv.within h, inv.ahead);
      taken = λ x a b. inv.taken x a (ground arith);
    }

    Inv-next : Inv lba 0 → part.end_lba + 1 ≤ schem.last_usable_lba → Inv (part.end_lba + 1) 0
    Inv-next inv le = record {
      after = omega (arith, inv.after, holds.1);
      ahead = omega arith;
      within = λ h. le;
      taken = taken_to_end inv;
    }

    Inv-aligned :
        Inv lba 0
        → lba_align ctx (part.end_lba + 1) true ≤ schem.last_usable_lba
        → part.end_lba + 1 ≤ lba_align ctx (part.end_lba + 1) true
        → Inv (lba_align ctx (part.end_lba + 1) true) (part.end_lba + 1)
    Inv-aligned inv le up = record {
      after = ground (arith, inv.after, holds.1);
      ahead = ground arith;
      within = λ h. le;
      taken = λ x a b. taken_to_end inv x a (ground arith);
    }

  start_loop-Outcome :
      (fuel lba no_align : ℕ)
      → measure lba no_align < fuel
      → Inv lba no_align
      → Outcome (start_loop schem ctx ign fuel lba no_align)
  start_loop-Outcome zero lba no_align m inv = absurd (omega arith)
  start_loop-Outcome (suc fuel) lba zero m inv =
      elim (Option-cases (occupant_from (part_is_used schem.funcs) lba ign 0 (parts schem))) [
        | inl free ↦ subst Outcome (sym (start_loop-free fuel lba 0 free)) (
          inv.after,
          inv.within,
          occupant_from-none (part_is_used schem.funcs) ign lba 0 (parts schem) free,
        )
        | inr (part, at) ↦ subst Outcome (sym (start_loop-taken fuel lba 0 part at)) (
            rw (next-eq lba part at)
              (elim (Bool-cases (ltb schem.last_usable_lba (part.end_lba + 1))) [
                | inl past ↦ rw past (λ x a b. taken_to_end lba part at inv x a (ground arith))
                | inr inside ↦
                    rw inside
                      (elim (Bool-cases
                        (ltb schem.last_usable_lba (lba_align ctx (part.end_lba + 1) true))) [
                          | inl far ↦ rw far (
                              start_loop-Outcome fuel (part.end_lba + 1) 0
                                (ground (arith, holds lba part at))
                                (Inv-next lba part at inv (ground arith)))
                          | inr near ↦ rw near (
                              start_loop-Outcome fuel (lba_align ctx (part.end_lba + 1) true)
                                (part.end_lba + 1) (ground (arith, holds lba part at))
                                (Inv-aligned lba part at inv (ground arith)
                                  (lba_align_up ctx (part.end_lba + 1) bounded.align_pos
                                    (ground (arith, bounded.aligns))).1))
                        ])
              ]))
      ]
  start_loop-Outcome (suc fuel) lba (suc n) m inv =
      elim (Option-cases (occupant_from (part_is_used schem.funcs) lba ign 0 (parts schem))) [
        | inl free ↦ subst Outcome (sym (start_loop-free fuel lba (suc n) free)) (
          omega (arith, inv.after, inv.ahead),
          inv.within,
          occupant_from-none (part_is_used schem.funcs) ign lba 0 (parts schem) free,
        )
        | inr (part, at) ↦ subst Outcome (sym (start_loop-taken fuel lba (suc n) part at)) (
            rw (==_ne (suc n) 0 (omega arith)) (
              start_loop-Outcome fuel (suc n) 0 (ground arith)
                (Inv-retry lba part at (suc n) (omega arith) inv)))
      ]

  start_Inv_aligned :
      lba_align ctx schem.first_usable_lba true ≤ schem.last_usable_lba
      → schem.first_usable_lba ≤ lba_align ctx schem.first_usable_lba true
      → Inv (lba_align ctx schem.first_usable_lba true) schem.first_usable_lba
  start_Inv_aligned le up = record {
    after = ground arith;
    ahead = ground arith;
    within = λ h. le;
    taken = λ x a b. absurd (ground (arith, lba_align-zero ctx schem.first_usable_lba));
  }

  start_Inv : Inv schem.first_usable_lba 0
  start_Inv = record {
    after = omega arith;
    ahead = omega arith;
    within = λ h. h;
    taken = λ x a b. absurd (omega arith);
  }

-- The search always ends. A sector that it returns lies in the usable space (where that is not empty)
-- and no used partition but the ignored one holds it; it returns -1 only where every usable sector is
-- held by one. The partitions that are met must end before the last 64-bit sector, and aligning within
-- the usable space must not wrap.
pub schem_find_start_sector-Outcome :
    (schem : Schem) (ctx : ImgCtx) (ign : ℕ) (bounded : IsBounded schem ctx)
    → schem.first_usable_lba + ctx.align ≤ 2 ^ 64
    → Outcome schem ctx ign bounded (schem_find_start_sector schem ctx ign)
unfolding schem_find_start_sector
schem_find_start_sector-Outcome schem ctx ign bounded h =
    elim (Bool-cases (ltb schem.last_usable_lba (lba_align ctx schem.first_usable_lba true))) [
      | inl past ↦ rw past (
          start_loop-Outcome schem ctx ign bounded (start_fuel schem ctx ign) schem.first_usable_lba
            0 (ground arith) (start_Inv schem ctx ign bounded))
      | inr inside ↦ rw inside (
          start_loop-Outcome schem ctx ign bounded (start_fuel schem ctx ign)
            (lba_align ctx schem.first_usable_lba true) schem.first_usable_lba (ground arith)
            (start_Inv_aligned schem ctx ign bounded (ground arith)
              (lba_align_up ctx schem.first_usable_lba bounded.align_pos h).1))
    ]
