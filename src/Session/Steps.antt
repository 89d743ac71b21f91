-- ===== src/Session/Steps.antt =====
-- What one command of the session does to the schemes in memory.
use mathlib.Core.Path.{subst}
use partman.Base.{
  ℕ, ◌≡◌, refl, ap, sym, Bool, true, false, Option, none, some, Option-cases, inl, inr, arith,
}
use partman.ImgCtx.{ImgCtx}
use partman.World.{World}
use partman.Schem.{SchemType, Schem}
use partman.SchemCtx.{SchemCtx, set_scheme, schem_ctx_save, remove_one, save_one, set_in_img}
use partman.Command.{
  Edited, pm_part_delete, pm_part_toggle_boot, pm_part_change_type, pm_part_alter,
}
use partman.Command.Refine.Edits.{
  Refines, Refines-refl, pm_part_delete-Refines, pm_part_toggle_boot-Refines,
  pm_part_change_type-Refines,
}
use partman.Command.Refine.Sound.{IsSound}
use partman.Command.Refine.Alter.{pm_part_alter-Altered, Altered-Refines}
use partman.Session.{
  ActionRes, Session, Action, get_scheme, edited, kept, on_scheme, with_res, to_main,
  enter_protective, act, action_of, action_handle,
}
use partman.Session.Init.{IsHeld}

-- A scheme that is in memory is held as its type.
abbrev pub Held : SchemType → ℕ → Option Schem → ImgCtx → Type 0
Held t cnt none ctx = Unit
Held t cnt (some s) ctx = IsHeld t cnt s ctx

abbrev pub AreHeld : SchemCtx → ImgCtx → Type 0
AreHeld sc ctx =
    Held SchemType.schem_type_mbr 4 sc.mbr ctx × Held SchemType.schem_type_gpt 128 sc.gpt ctx

-- A scheme stays absent, or stays there and makes a step.
pub data SchemStep (o o' : Option Schem) : Type 0 where
  absent : o ≡ none → o' ≡ none → SchemStep o o'
  present : (s s' : Schem) → o ≡ some s → o' ≡ some s' → Refines s s' → SchemStep o o'

abbrev pub BothStep : SchemCtx → SchemCtx → Type 0
BothStep sc sc' = SchemStep sc.mbr sc'.mbr × SchemStep sc.gpt sc'.gpt

SchemStep-refl : (o : Option Schem) → SchemStep o o
SchemStep-refl none = absent refl refl
SchemStep-refl (some s) = present s s refl refl (Refines-refl s)

BothStep-eq : (sc sc' : SchemCtx) → sc'.mbr ≡ sc.mbr → sc'.gpt ≡ sc.gpt → BothStep sc sc'
BothStep-eq sc sc' a b = (
  subst (SchemStep sc.mbr) (sym a) (SchemStep-refl sc.mbr),
  subst (SchemStep sc.gpt) (sym b) (SchemStep-refl sc.gpt),
)

pub Held-IsSound :
    (t : SchemType) (sc : SchemCtx) (ctx : ImgCtx) (s : Schem)
    → AreHeld sc ctx
    → get_scheme t sc ≡ some s
    → IsSound s ctx
unfolding get_scheme
Held-IsSound SchemType.schem_type_mbr sc ctx s h e =
    let held : IsHeld SchemType.schem_type_mbr 4 s ctx =
      subst (λ o. Held SchemType.schem_type_mbr 4 o ctx) e h.0 in
    held.sound
Held-IsSound SchemType.schem_type_gpt sc ctx s h e =
    let held : IsHeld SchemType.schem_type_gpt 128 s ctx =
      subst (λ o. Held SchemType.schem_type_gpt 128 o ctx) e h.1 in
    held.sound
Held-IsSound SchemType.schem_cnt sc ctx s h e = absurd (ground arith)

replaced :
    (t : SchemType) (sc : SchemCtx) (s s' : Schem)
    → get_scheme t sc ≡ some s
    → Refines s s'
    → BothStep sc (set_scheme t (some s') sc)
unfolding get_scheme set_scheme
replaced SchemType.schem_type_mbr sc s s' e r = (present s s' e refl r, SchemStep-refl sc.gpt)
replaced SchemType.schem_type_gpt sc s s' e r = (SchemStep-refl sc.mbr, present s s' e refl r)
replaced SchemType.schem_cnt sc s s' e r = absurd (ground arith)

module _ (ctx : ImgCtx) (s : Session) (h : AreHeld s.ctx ctx) where
  on_scheme-BothStep :
      (edit : Schem → Option Edited) (res : ActionRes) (s' : Session)
      → ((a : Schem) (e : Edited) → IsSound a ctx → edit a ≡ some e → Refines a e.schem)
      → on_scheme s edit ≡ some (res, s')
      → BothStep s.ctx s'.ctx
  unfolding on_scheme kept edited
  on_scheme-BothStep edit res s' each eq = elim (Option-cases (get_scheme s.cur s.ctx)) [
    | inl e ↦
        let same : s ≡ s' = ground (arith, e) in
        subst (λ (x : Session). BothStep s.ctx x.ctx) same (BothStep-eq s.ctx s.ctx refl refl)
    | inr (a, e) ↦ elim (Option-cases (edit a)) [
      | inl f ↦ absurd (ground (arith, e, f))
      | inr (d, f) ↦
          let same : edited s d ≡ s' = ground (arith, e, f) in
          subst (λ (x : Session). BothStep s.ctx x.ctx) same
            (replaced s.cur s.ctx a d.schem e (each a d (Held-IsSound s.cur s.ctx ctx a h e) f))
    ]
  ]

  some-Refines :
      (edit : Schem → Edited) (a : Schem) (e : Edited)
      → Refines a (edit a).schem
      → some (edit a) ≡ some e
      → Refines a e.schem
  some-Refines edit a e r eq =
      let same : edit a ≡ e = cc in subst (λ (x : Edited). Refines a x.schem) same r

  alter-Refines :
      (is_new : Bool) (a : Schem) (e : Edited)
      → IsSound a ctx
      → pm_part_alter a ctx is_new s.world s.stdin ≡ some e
      → Refines a e.schem
  alter-Refines is_new a e sound eq =
      Altered-Refines a e.schem is_new sound.fits
        (pm_part_alter-Altered a ctx is_new s.world s.stdin e sound eq)

-- The commands that put a new scheme into memory.
abbrev pub is_new_scheme : Action → Bool
is_new_scheme Action.new_mbr = true
is_new_scheme Action.new_gpt = true
is_new_scheme Action.reset_prot = true
is_new_scheme Action.exit = false
is_new_scheme Action.help = false
is_new_scheme Action.print = false
is_new_scheme Action.add = false
is_new_scheme Action.resize = false
is_new_scheme Action.change_type = false
is_new_scheme Action.toggle_boot = false
is_new_scheme Action.delete = false
is_new_scheme Action.save = false
is_new_scheme Action.enter_prot = false
is_new_scheme Action.leave = false
is_new_scheme Action.unknown = false

-- Saving changes no scheme, whether it succeeds or not.
save_schemes :
    (sc : SchemCtx) (ctx : ImgCtx) (w : World)
    → ((schem_ctx_save sc ctx w).1.mbr ≡ sc.mbr) × ((schem_ctx_save sc ctx w).1.gpt ≡ sc.gpt)
unfolding schem_ctx_save remove_one save_one set_in_img
save_schemes sc ctx w = ground arith

enter_schemes : (o : Option Schem) (s : Session) → (enter_protective o s).ctx ≡ s.ctx
unfolding enter_protective
enter_schemes none s = refl
enter_schemes (some m) s = ground arith

module _ (ctx : ImgCtx) (s : Session) (h : AreHeld s.ctx ctx) (res : ActionRes) (s' : Session) where
  unmoved :
      (x : Session)
      → x.ctx ≡ s.ctx
      → (r : ActionRes) → ◌≡◌ {A = Option (ActionRes × Session)} (some (r, x)) (some (res, s'))
      → BothStep s.ctx s'.ctx
  unmoved x e r eq =
      let same : x ≡ s' = cc in
      subst (λ (y : Session). BothStep s.ctx y.ctx) same
        (BothStep-eq s.ctx x.ctx (ap (λ (c : SchemCtx). c.mbr) e) (ap (λ (c : SchemCtx). c.gpt) e))

  pub act-BothStep :
      (a : Action) → is_new_scheme a ≡ false → act ctx s a ≡ some (res, s') → BothStep s.ctx s'.ctx
  unfolding act to_main with_res
  act-BothStep Action.exit k e = unmoved s refl _ e
  act-BothStep Action.help k e = unmoved s refl _ e
  act-BothStep Action.print k e = unmoved s refl _ e
  act-BothStep Action.unknown k e = unmoved s refl _ e
  act-BothStep Action.leave k e = unmoved (to_main s) refl _ e
  act-BothStep Action.enter_prot k e =
      unmoved (enter_protective s.ctx.mbr s) (enter_schemes s.ctx.mbr s) _ e
  act-BothStep Action.save k e =
      let r = schem_ctx_save s.ctx ctx s.world in
      let same : record s { ctx = r.1; world = r.2 } ≡ s' = ground (arith, e) in
      let (m, g) = save_schemes s.ctx ctx s.world in
      subst (λ (y : Session). BothStep s.ctx y.ctx) same (BothStep-eq s.ctx r.1 m g)
  act-BothStep Action.add k e =
      on_scheme-BothStep ctx s h _ res s' (λ a d sound eq. alter-Refines ctx s h true a d sound eq)
        e
  act-BothStep Action.resize k e =
      on_scheme-BothStep ctx s h _ res s' (λ a d sound eq. alter-Refines ctx s h false a d sound eq)
        e
  act-BothStep Action.change_type k e =
      on_scheme-BothStep ctx s h _ res s'
        (λ a d sound eq.
          some-Refines ctx s h (λ x. pm_part_change_type x s.world s.stdin) a d
            (pm_part_change_type-Refines a sound.fits s.world s.stdin) eq)
        e
  act-BothStep Action.toggle_boot k e =
      on_scheme-BothStep ctx s h _ res s'
        (λ a d sound eq.
          some-Refines ctx s h (λ x. pm_part_toggle_boot x s.world s.stdin) a d
            (pm_part_toggle_boot-Refines a sound.fits s.world s.stdin) eq)
        e
  act-BothStep Action.delete k e =
      on_scheme-BothStep ctx s h _ res s'
        (λ a d sound eq.
          some-Refines ctx s h (λ x. pm_part_delete x s.world s.stdin) a d
            (pm_part_delete-Refines a sound.fits s.world s.stdin) eq)
        e
  act-BothStep Action.new_mbr k e = absurd (ground arith)
  act-BothStep Action.new_gpt k e = absurd (ground arith)
  act-BothStep Action.reset_prot k e = absurd (ground arith)

-- A command whose result is defined, other than `o`, `g` and `h`, adds and removes no scheme, and
-- each scheme in memory, of its type and sound before, makes at most one step: an entry is freed, or
-- one is given sectors of the usable space that no other entry holds.
pub action_handle-BothStep :
    (ctx : ImgCtx) (s : Session) (sym : ℕ) (res : ActionRes) (s' : Session)
    → AreHeld s.ctx ctx
    → is_new_scheme (action_of sym) ≡ false
    → action_handle ctx s sym ≡ some (res, s')
    → BothStep s.ctx s'.ctx
unfolding action_handle
action_handle-BothStep ctx s sym res s' h k e = act-BothStep ctx s h res s' (action_of sym) k e
