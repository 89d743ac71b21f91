-- ===== src/Command/Refine/Edits.antt =====
-- Deleting, the bootable flag and the type.
use partman.Base.{
  ℕ, ◌-◌, ◌^◌, bit_and, ◌≤◌, ◌<◌, ◌≡◌, refl, ap, true, false, none, length, length-set,
  get_or-set_self, get_or-set_ne, ltb, ◌==◌, if◌then◌else◌, Bool-cases, Option-cases, inl, inr,
  arith, u8,
}
use partman.Stdio.{Stream}
use partman.Guid.{Guid, guid_is_zero}
use partman.Scan.{Scanned, scan_int, scan_guid}
use partman.World.{World}
use partman.Schem.{
  SchemType, Schem, SchemPart, zero_part, part_is_used, schem_part_is_used_mbr,
  schem_part_is_used_gpt,
}
use partman.Command.{
  get_part, put_part, is_ok, pm_part_prompt, schem_part_delete, pm_part_delete, toggle_boot, is_mbr,
  pm_part_toggle_boot, set_type_mbr, pm_part_change_type_mbr, set_type_gpt, pm_part_change_type_gpt,
  change_type_of, pm_part_change_type,
}
use partman.Command.Layout.{layout, extent, LayoutStep, keep, free}
use partman.Command.Prompt.{IsChosen, pm_part_prompt-IsChosen}

-- What an edit leaves as it is, and that it is a step of the layout.
pub record Refines (s s' : Schem) : Type 0 where
  pub type : s'.type ≡ s.type
  pub funcs : s'.funcs ≡ s.funcs
  pub first : s'.first_usable_lba ≡ s.first_usable_lba
  pub last : s'.last_usable_lba ≡ s.last_usable_lba
  pub part_cnt : s'.part_cnt ≡ s.part_cnt
  pub table : length s'.table ≡ length s.table
  pub step : LayoutStep s.first_usable_lba s.last_usable_lba (layout s) (layout s')

pub Refines-refl : (s : Schem) → Refines s s
Refines-refl s = record {
  type = refl;
  funcs = refl;
  first = refl;
  last = refl;
  part_cnt = refl;
  table = refl;
  step = keep (λ j. refl);
}

module _ (s : Schem) (fits : s.part_cnt ≤ length s.table) where
  pub layout-put_part :
      (i : ℕ) (p : SchemPart) (j : ℕ)
      → i < s.part_cnt
      → layout (put_part s i p) j ≡ (if j == i then extent (part_is_used s.funcs) p else layout s j)
  layout-put_part i p j h = elim (Bool-cases (j == i)) [
    | inl e ↦
        let at : j ≡ i = ground arith in
        rw at (ground (arith, get_or-set_self s.table i p zero_part (omega arith)))
    | inr e ↦ rw e (
        ap (λ q. if ltb j s.part_cnt then extent (part_is_used s.funcs) q else none)
          (get_or-set_ne s.table i j p zero_part (ground arith)))
  ]

  pub Refines-put_part :
      (i : ℕ) (p : SchemPart)
      → LayoutStep s.first_usable_lba s.last_usable_lba (layout s) (layout (put_part s i p))
      → Refines s (put_part s i p)
  Refines-put_part i p st = record {
    type = refl;
    funcs = refl;
    first = refl;
    last = refl;
    part_cnt = refl;
    table = length-set s.table i p;
    step = st;
  }

  module _ (i : ℕ) (p : SchemPart) (h : i < s.part_cnt) where
    pub freed :
        part_is_used s.funcs p ≡ false
        → LayoutStep s.first_usable_lba s.last_usable_lba (layout s) (layout (put_part s i p))
    freed unused = free i (λ j. rw (layout-put_part i p j h, unused) refl)

    kept :
        extent (part_is_used s.funcs) p ≡ layout s i
        → LayoutStep s.first_usable_lba s.last_usable_lba (layout s) (layout (put_part s i p))
    kept same = keep (λ j. rw (layout-put_part i p j h) (ground (arith, same)))

    -- The sectors of a used entry are not changed; it may become unused.
    pub Refines-retype :
        part_is_used s.funcs (get_part s i) ≡ true
        → p.start_lba ≡ (get_part s i).start_lba
        → p.end_lba ≡ (get_part s i).end_lba
        → Refines s (put_part s i p)
    Refines-retype u a b = elim (Bool-cases (part_is_used s.funcs p)) [
      | inr e ↦ Refines-put_part i p (freed e)
      | inl e ↦ Refines-put_part i p (kept (ground (arith, a, b, u, e, h)))
    ]

pub zero-unused : (t : SchemType) → part_is_used t zero_part ≡ false
unfolding part_is_used schem_part_is_used_mbr schem_part_is_used_gpt guid_is_zero
zero-unused SchemType.schem_type_mbr = refl
zero-unused SchemType.schem_type_gpt = refl
zero-unused SchemType.schem_cnt = refl

module _ (s : Schem) (fits : s.part_cnt ≤ length s.table) (w : World) (st : Stream) where
  -- `d`: deleting the chosen entry frees its sectors.
  pub pm_part_delete-Refines : Refines s (pm_part_delete s w st).schem
  unfolding pm_part_delete schem_part_delete
  pm_part_delete-Refines = elim (Option-cases (pm_part_prompt s true st).0) [
    | inl e ↦ rw (e, pm_part_delete) (Refines-refl s)
    | inr (i, e) ↦
        let c = pm_part_prompt-IsChosen s true st i e in
        rw (e, pm_part_delete)
          (Refines-put_part s fits i zero_part
            (freed s fits i zero_part (c.0) (zero-unused s.funcs)))
  ]

  used_toggle : (t : SchemType) (p : SchemPart) → part_is_used t (toggle_boot p) ≡ part_is_used t p
  unfolding part_is_used schem_part_is_used_mbr schem_part_is_used_gpt toggle_boot
  used_toggle SchemType.schem_type_mbr p = refl
  used_toggle SchemType.schem_type_gpt p = refl
  used_toggle SchemType.schem_cnt p = refl

  -- `a`: the bootable flag.
  pub pm_part_toggle_boot-Refines : Refines s (pm_part_toggle_boot s w st).schem
  unfolding pm_part_toggle_boot toggle_boot
  pm_part_toggle_boot-Refines = elim (Bool-cases (is_mbr s.type)) [
    | inr e ↦ rw e (Refines-refl s)
    | inl e ↦ elim (Option-cases (pm_part_prompt s true st).0) [
      | inl e' ↦ rw (e, e') (Refines-refl s)
      | inr (i, e') ↦
          let c = pm_part_prompt-IsChosen s true st i e' in
          rw (e, e') (Refines-retype s fits i (toggle_boot (get_part s i)) (c.0) (c.1) refl refl)
    ]
  ]

  module _ (i : ℕ) (c : IsChosen s true i) where
    set_type_mbr-Refines : (r : Scanned ℕ) → Refines s (set_type_mbr s i r)
    unfolding set_type_mbr
    set_type_mbr-Refines r = elim (Bool-cases (is_ok r.res)) [
      | inr e ↦ rw e (Refines-refl s)
      | inl e ↦ elim (Bool-cases (bit_and r.value (2 ^ 64 - 1 - 0xff) == 0)) [
        | inr e' ↦ rw (e, e') (Refines-refl s)
        | inl e' ↦
            rw (e, e')
              (Refines-retype s fits i (record (get_part s i) { type_i = u8 r.value }) (c.0) (c.1)
                refl refl)
      ]
    ]

    set_type_gpt-Refines : (r : Scanned Guid) → Refines s (set_type_gpt s i r)
    unfolding set_type_gpt
    set_type_gpt-Refines r = elim (Bool-cases (is_ok r.res)) [
      | inr e ↦ rw e (Refines-refl s)
      | inl e ↦ rw e (
          Refines-retype s fits i (record (get_part s i) { type_guid = r.value }) (c.0) (c.1) refl
            refl)
    ]

    change_type_of-Refines :
        (t : SchemType) (st : Stream) → Refines s (change_type_of t s i w st).schem
    unfolding change_type_of pm_part_change_type_mbr pm_part_change_type_gpt
    change_type_of-Refines SchemType.schem_type_mbr st = set_type_mbr-Refines (scan_int 16 st)
    change_type_of-Refines SchemType.schem_type_gpt st = set_type_gpt-Refines (scan_guid st)
    change_type_of-Refines SchemType.schem_cnt st = Refines-refl s

  -- `t`: a partition of a new type keeps its sectors, and frees them where the type is the zero one.
  pub pm_part_change_type-Refines : Refines s (pm_part_change_type s w st).schem
  unfolding pm_part_change_type
  pm_part_change_type-Refines = elim (Option-cases (pm_part_prompt s true st).0) [
    | inl e ↦ rw (e, pm_part_change_type) (Refines-refl s)
    | inr (i, e) ↦
        rw (e, pm_part_change_type)
          (change_type_of-Refines i (pm_part_prompt-IsChosen s true st i e) s.type
            (pm_part_prompt s true st).1)
  ]
