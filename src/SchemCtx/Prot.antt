-- ===== src/SchemCtx/Prot.antt =====
-- A GPT is always protected: whenever a context holds one, its MBR is a protective one.
use partman.Base.{
  ◌+◌, ◌≤◌, length, replicate, ◌≡◌, refl, ap, ◌∙◌, sym, arith, Bool, true, false, Option, none,
  some, Bool-cases, inl, inr, ◌⊎◌,
}
use mathlib.Core.Path.{subst}
use partman.ImgCtx.{ImgCtx}
use partman.World.{World}
use partman.Schem.{SchemType, SchemLoadRes, Schem, zero_part}
use partman.Mbr.{schem_init_mbr, schem_mbr_is_prot}
use partman.SchemCtx.{
  SchemCtx, set_prot, set_scheme, set_in_img, schem_new, call_init, call_load,
  schem_ctx_schem_alloc, schem_ctx_reset, keep_loaded, load_one, check_prot, schem_ctx_load,
  schem_get_max_part_cnt, zero_schem,
}
use partman.Mbr.Prot.{set_prot-is_prot, length-schem_load_mbr, length-schem_init_mbr}

-- An MBR in memory has the array that is allocated for it.
abbrev HasTable : Option Schem → Type 0
HasTable none = Unit
HasTable (some s) = 1 ≤ length s.table

-- One that is there has it.
abbrev pub Ready : Option Schem → Type 0
Ready none = ⊥
Ready (some s) = 1 ≤ length s.table

pub alloc-Ready :
    (sc : SchemCtx) (ctx : ImgCtx) (w : World)
    → (schem_ctx_schem_alloc sc ctx SchemType.schem_type_mbr true w).0 ≡ true
    → Ready (schem_ctx_schem_alloc sc ctx SchemType.schem_type_mbr true w).1.mbr
unfolding schem_ctx_schem_alloc schem_new call_init set_scheme schem_get_max_part_cnt
alloc-Ready sc ctx w h = elim (Bool-cases (w.succeeds w.calls)) [
  | inr e ↦ absurd (ground arith)
  | inl e ↦ elim (Bool-cases (w.succeeds (w.calls + 1))) [
    | inr e' ↦ absurd (ground arith)
    | inl e' ↦
        rw (e, e')
          (omega (arith, length-schem_init_mbr new ctx (record w { calls = w.calls + 1 + 1 })))
  ]
]
  where
    new : Schem
    new = record zero_schem { table = replicate 4 zero_part; funcs = SchemType.schem_type_mbr }

-- Whether a GPT comes with a protective MBR.
abbrev protects : Option Schem → Option Schem → Bool
protects none mbr = true
protects (some gpt) none = false
protects (some gpt) (some mbr) = schem_mbr_is_prot mbr

-- What protection means: a GPT in memory comes with a protective MBR.
abbrev pub IsProtected : SchemCtx → Type 0
IsProtected sc = protects sc.gpt sc.mbr ≡ true

protects-none : (o : Option Schem) → o ≡ none → (m : Option Schem) → protects o m ≡ true
protects-none none e m = refl
protects-none (some g) e m = absurd (ground arith)

protecting :
    (g m : Option Schem) (a b : Bool)
    → Ready m
    → IsProtected (set_prot (record { mbr = m; gpt = g; mbr_in_img = a; gpt_in_img = b }))
unfolding set_prot
protecting g none a b r = absurd r
protecting none (some m) a b r = refl
protecting (some g) (some m) a b r = set_prot-is_prot m r

set_prot-IsProtected : (sc : SchemCtx) → Ready sc.mbr → IsProtected (set_prot sc)
set_prot-IsProtected sc r = protecting sc.gpt sc.mbr sc.mbr_in_img sc.gpt_in_img r

check_prot-IsProtected :
    (g m : Option Schem) (sc : SchemCtx) (ctx : ImgCtx) (w : World)
    → g ≡ sc.gpt
    → m ≡ sc.mbr
    → HasTable m
    → (check_prot g m sc ctx w).0 ≡ true
    → IsProtected (check_prot g m sc ctx w).1
unfolding check_prot
check_prot-IsProtected none m sc ctx w e e' t h = protects-none sc.gpt (sym e) sc.mbr
check_prot-IsProtected (some g) none sc ctx w e e' t h =
    elim (Bool-cases (schem_ctx_schem_alloc sc ctx SchemType.schem_type_mbr true w).0) [
      | inl ok ↦ rw ok (
          set_prot-IsProtected (schem_ctx_schem_alloc sc ctx SchemType.schem_type_mbr true w).1
            (alloc-Ready sc ctx w ok))
      | inr failed ↦ absurd (ground arith)
    ]
check_prot-IsProtected (some g) (some m) sc ctx w e e' t h =
    elim (Bool-cases (schem_mbr_is_prot m)) [
      | inl p ↦ rw p (ap (λ o. protects o sc.mbr) (sym e) ∙ ap (protects (some g)) (sym e') ∙ p)
      | inr p ↦ rw p (
          set_prot-IsProtected (record sc { mbr = some (schem_init_mbr m ctx w).0 })
            (omega (arith, length-schem_init_mbr m ctx w)))
    ]

keep_mbr-HasTable :
    (r : SchemLoadRes) (s : Schem) (sc : SchemCtx) (w : World)
    → HasTable sc.mbr
    → 1 ≤ length s.table
    → HasTable (keep_loaded SchemType.schem_type_mbr sc (r, s, w)).1.mbr
unfolding keep_loaded set_in_img set_scheme
keep_mbr-HasTable SchemLoadRes.schem_load_fatal s sc w t l = t
keep_mbr-HasTable SchemLoadRes.schem_load_not_found s sc w t l = t
keep_mbr-HasTable SchemLoadRes.schem_load_ok s sc w t l = elim (Bool-cases (w.succeeds w.calls)) [
  | inl e ↦ rw e l
  | inr e ↦ rw e tt
]

load_mbr-HasTable :
    (sc : SchemCtx) (ctx : ImgCtx) (w : World)
    → HasTable sc.mbr
    → HasTable (load_one SchemType.schem_type_mbr sc ctx w).1.mbr
unfolding load_one schem_new call_load schem_get_max_part_cnt
load_mbr-HasTable sc ctx w t = elim (Bool-cases (w.succeeds w.calls)) [
  | inr e ↦ rw e t
  | inl e ↦ rw e (
      keep_mbr-HasTable _ _ sc _ t (
        omega (
          arith,
          length-schem_load_mbr
              (record zero_schem {
                table = replicate 4 zero_part;
                funcs = SchemType.schem_type_mbr;
              })
              ctx (record w { calls = w.calls + 1 }),
        )))
]

keep_gpt-mbr :
    (r : SchemLoadRes) (s : Schem) (sc : SchemCtx) (w : World)
    → (keep_loaded SchemType.schem_type_gpt sc (r, s, w)).1.mbr ≡ sc.mbr
unfolding keep_loaded set_in_img set_scheme
keep_gpt-mbr SchemLoadRes.schem_load_fatal s sc w = refl
keep_gpt-mbr SchemLoadRes.schem_load_not_found s sc w = refl
keep_gpt-mbr SchemLoadRes.schem_load_ok s sc w = elim (Bool-cases (w.succeeds w.calls)) [
  | inl e ↦ rw e refl
  | inr e ↦ rw e refl
]

load_gpt-mbr :
    (sc : SchemCtx) (ctx : ImgCtx) (w : World)
    → (load_one SchemType.schem_type_gpt sc ctx w).1.mbr ≡ sc.mbr
unfolding load_one
load_gpt-mbr sc ctx w = elim (Bool-cases (schem_new ctx SchemType.schem_type_gpt false w).0) [
  | inl e ↦ rw e (keep_gpt-mbr _ _ sc _)
  | inr e ↦ rw e refl
]

-- The context before the loop, after its rounds, and the world then.
module _ (sc : SchemCtx) (ctx : ImgCtx) (w : World) where
  abbrev first : Bool × SchemCtx × World
  first =
      load_one SchemType.schem_type_mbr
        (record { mbr = none; gpt = none; mbr_in_img = false; gpt_in_img = false }) ctx w

  abbrev second : Bool × SchemCtx × World
  second = load_one SchemType.schem_type_gpt first.1 ctx first.2

  load-eq :
      first.0 ≡ true
      → second.0 ≡ true
      → schem_ctx_load sc ctx w ≡ check_prot second.1.gpt second.1.mbr second.1 ctx second.2
  unfolding schem_ctx_load schem_ctx_reset
  load-eq e e' = rw (e, e') refl

  load_fails : (first.0 ≡ false) ⊎ (second.0 ≡ false) → (schem_ctx_load sc ctx w).0 ≡ false
  unfolding schem_ctx_load schem_ctx_reset
  load_fails (inl e) = rw e refl
  load_fails (inr e) = elim (Bool-cases first.0) [ inl e' ↦ rw (e', e) refl | inr e' ↦ rw e' refl ]

-- After a load that reports success, a GPT in memory comes with a protective MBR, whatever the image
-- holds and whatever was in memory before.
pub schem_ctx_load-IsProtected :
    (sc : SchemCtx) (ctx : ImgCtx) (w : World)
    → (schem_ctx_load sc ctx w).0 ≡ true
    → IsProtected (schem_ctx_load sc ctx w).1
schem_ctx_load-IsProtected sc ctx w h = elim (Bool-cases (first sc ctx w).0) [
  | inr e ↦ absurd (ground (arith, load_fails sc ctx w (inl e)))
  | inl e ↦ elim (Bool-cases (second sc ctx w).0) [
    | inr e' ↦ absurd (ground (arith, load_fails sc ctx w (inr e')))
    | inl e' ↦ rw (load-eq sc ctx w e e') (
        check_prot-IsProtected (second sc ctx w).1.gpt (second sc ctx w).1.mbr (second sc ctx w).1
          ctx (second sc ctx w).2 refl refl
          (subst HasTable (sym (load_gpt-mbr (first sc ctx w).1 ctx (first sc ctx w).2)) (
            load_mbr-HasTable
              (record { mbr = none; gpt = none; mbr_in_img = false; gpt_in_img = false }) ctx w tt))
          (sym (ap (λ (r : Bool × SchemCtx × World). r.0) (load-eq sc ctx w e e')) ∙ h))
  ]
]
