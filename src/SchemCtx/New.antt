-- ===== src/SchemCtx/New.antt =====
-- `schem_ctx_new`.
use partman.Base.{
  ◌+◌, ◌≤◌, length, ◌≡◌, refl, ap, ◌∙◌, sym, arith, Bool, true, none, some, Bool-cases, inl, inr,
}
use mathlib.Core.Path.{subst}
use partman.ImgCtx.{ImgCtx}
use partman.World.{World}
use partman.Schem.{SchemType, Schem}
use partman.SchemCtx.{
  SchemCtx, set_prot, set_scheme, schem_new, schem_ctx_schem_alloc, schem_ctx_new,
  schem_ctx_new_gpt, schem_ctx_reset, schem_ctx_get_type,
}
use partman.Mbr.Prot.{set_prot-is_prot}
use partman.SchemCtx.Prot.{IsProtected, Ready, alloc-Ready}

alloc-eq :
    (sc : SchemCtx) (ctx : ImgCtx) (type : SchemType) (w : World)
    → (schem_ctx_schem_alloc sc ctx type true w).0 ≡ true
    → (s : Schem) × ((schem_ctx_schem_alloc sc ctx type true w).1 ≡ set_scheme type (some s) sc)
unfolding schem_ctx_schem_alloc
alloc-eq sc ctx type w h = elim (Bool-cases (w.succeeds w.calls)) [
  | inl e ↦ ((schem_new ctx type true (record w { calls = w.calls + 1 })).1, rw e refl)
  | inr e ↦ absurd (ground arith)
]

-- What a new context promises.
abbrev IsNew : SchemType → SchemCtx → SchemCtx → Type 0
IsNew type sc sc' =
    (schem_ctx_get_type sc' ≡ type)
    × IsProtected sc'
    × (sc'.mbr_in_img ≡ sc.mbr_in_img)
    × (sc'.gpt_in_img ≡ sc.gpt_in_img)

both_set :
    (sc : SchemCtx) (g m : Schem)
    → 1 ≤ length m.table
    → IsNew SchemType.schem_type_gpt sc (
        set_prot (
          set_scheme SchemType.schem_type_mbr
            (some m)
            (set_scheme SchemType.schem_type_gpt (some g) sc)))
unfolding set_prot set_scheme schem_ctx_get_type
both_set sc g m r = (refl, set_prot-is_prot m r, refl, refl)

schem_ctx_new_gpt-IsNew :
    (sc : SchemCtx) (ctx : ImgCtx) (w : World)
    → (schem_ctx_new_gpt sc ctx w).0 ≡ true
    → IsNew SchemType.schem_type_gpt sc (schem_ctx_new_gpt sc ctx w).1
unfolding schem_ctx_new_gpt set_scheme
schem_ctx_new_gpt-IsNew sc ctx w h = elim (Bool-cases gpt.0) [
  | inr e ↦ absurd (ground arith)
  | inl e ↦ elim (Bool-cases mbr.0) [
    | inr e' ↦ absurd (ground arith)
    | inl e' ↦
        let (g, eg) = alloc-eq sc ctx SchemType.schem_type_gpt w e in
        let (m, em) = alloc-eq gpt.1 ctx SchemType.schem_type_mbr gpt.2 e' in
        rw (e, e')
          (subst (λ t. IsNew SchemType.schem_type_gpt sc (set_prot t))
            (sym (em ∙ ap (set_scheme SchemType.schem_type_mbr (some m)) eg))
            (both g m (subst (λ (t : SchemCtx). Ready t.mbr) em (alloc-Ready gpt.1 ctx gpt.2 e'))))
  ]
]
  where
    gpt : Bool × SchemCtx × World
    gpt = schem_ctx_schem_alloc sc ctx SchemType.schem_type_gpt true w

    mbr : Bool × SchemCtx × World
    mbr = schem_ctx_schem_alloc gpt.1 ctx SchemType.schem_type_mbr true gpt.2

    both :
        (g m : Schem)
        → Ready (set_scheme SchemType.schem_type_mbr (some m) gpt.1).mbr
        → IsNew SchemType.schem_type_gpt sc (
            set_prot (
              set_scheme SchemType.schem_type_mbr
                (some m)
                (set_scheme SchemType.schem_type_gpt (some g) sc)))
    both g m r = both_set sc g m r

-- A new scheme that is created with success is of the type asked for, the flags are kept, and a new GPT comes with a
-- protective MBR.
pub schem_ctx_new_lem :
    (sc : SchemCtx) (ctx : ImgCtx) (type : SchemType) (w : World)
    → (schem_ctx_new sc ctx type w).0 ≡ true
    → let sc' : SchemCtx = (schem_ctx_new sc ctx type w).1 in
      (schem_ctx_get_type sc' ≡ type)
      × IsProtected sc'
      × (sc'.mbr_in_img ≡ sc.mbr_in_img)
      × (sc'.gpt_in_img ≡ sc.gpt_in_img)
unfolding schem_ctx_new schem_ctx_get_type schem_ctx_reset schem_ctx_schem_alloc set_scheme
schem_ctx_new_lem sc ctx SchemType.schem_cnt w h = absurd (ground arith)
schem_ctx_new_lem sc ctx SchemType.schem_type_mbr w h = ground arith
schem_ctx_new_lem sc ctx SchemType.schem_type_gpt w h =
    schem_ctx_new_gpt-IsNew (record sc { mbr = none; gpt = none }) ctx w h
