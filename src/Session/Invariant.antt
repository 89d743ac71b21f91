-- ===== src/Session/Invariant.antt =====
-- The schemes in memory stay sound through a session.
use mathlib.Core.Path.{subst}
use partman.Base.{
  ℕ, ◌+◌, ◌≡◌, ◌≢◌, refl, ap, sym, ◌∙◌, Bool, true, false, Option, none, some, replicate,
  Bool-cases, inl, inr, arith,
}
use partman.ImgCtx.{ImgCtx}
use partman.World.{World}
use partman.Schem.{SchemType, Schem, zero_part}
use partman.Mbr.{schem_init_mbr, mbr_init_schem}
use partman.Gpt.Scheme.{schem_init_gpt}
use partman.SchemCtx.{
  SchemCtx, zero_schem, set_scheme, set_prot, schem_new, call_init, schem_get_max_part_cnt,
  schem_ctx_schem_alloc, schem_ctx_new, schem_ctx_new_gpt, schem_ctx_reset,
}
use partman.Command.Layout.{LayoutStep-IsApart, layout, IsApart}
use partman.Command.Refine.Edits.{Refines}
use partman.Scan.{scan_char}
use partman.Session.{
  ActionRes, Session, Action, with_res, to_main, created, reset_protective, act, action_of,
  action_handle, is_eof, command_char,
}
use partman.Session.Init.{
  IsRoomy, IsHeld, schem_init_mbr-IsHeld, schem_init_gpt-IsHeld, set_prot-IsHeld,
}
use partman.Session.Steps.{
  Held, AreHeld, SchemStep, absent, present, BothStep, is_new_scheme, act-BothStep,
}

Refines-IsHeld :
    (t : SchemType) (cnt : ℕ) (s s' : Schem) (ctx : ImgCtx)
    → IsHeld t cnt s ctx
    → Refines s s'
    → IsHeld t cnt s' ctx
Refines-IsHeld t cnt s s' ctx h r =
    let before : IsApart s.first_usable_lba s.last_usable_lba (layout s) = h.sound.entries in
    let after : IsApart s.first_usable_lba s.last_usable_lba (layout s') =
      LayoutStep-IsApart s.first_usable_lba s.last_usable_lba (layout s) (layout s') r.step
        before in
    record {
      sound = record {
        mapped = λ e. h.sound.mapped (sym r.funcs ∙ e);
        fits = omega (arith, h.sound.fits, r.part_cnt, r.table);
        room = omega (arith, h.sound.room, r.first, r.last);
        align_pos = h.sound.align_pos;
        aligns = omega (arith, h.sound.aligns, r.last);
        entries = rw (r.first, r.last) after;
      };
      funcs = r.funcs ∙ h.funcs;
      array = omega (arith, h.array, r.table);
    }

SchemStep-Held :
    (t : SchemType) (cnt : ℕ) (o o' : Option Schem) (ctx : ImgCtx)
    → Held t cnt o ctx
    → SchemStep o o'
    → Held t cnt o' ctx
SchemStep-Held t cnt o o' ctx h (absent a b) = subst (λ x. Held t cnt x ctx) (sym b) tt
SchemStep-Held t cnt o o' ctx h (present s s' a b r) =
    let held : IsHeld t cnt s ctx = subst (λ x. Held t cnt x ctx) a h in
    subst (λ x. Held t cnt x ctx) (sym b) (Refines-IsHeld t cnt s s' ctx held r)

BothStep-AreHeld :
    (sc sc' : SchemCtx) (ctx : ImgCtx) → AreHeld sc ctx → BothStep sc sc' → AreHeld sc' ctx
BothStep-AreHeld sc sc' ctx h b = (
  SchemStep-Held SchemType.schem_type_mbr 4 sc.mbr sc'.mbr ctx h.0 b.0,
  SchemStep-Held SchemType.schem_type_gpt 128 sc.gpt sc'.gpt ctx h.1 b.1,
)

module _ (ctx : ImgCtx) (roomy : IsRoomy ctx) where
  blank : SchemType → ℕ → Schem
  blank t n = record zero_schem { table = replicate n zero_part; funcs = t }

  new_mbr-Held :
      (sc : SchemCtx) (w : World)
      → (schem_ctx_schem_alloc sc ctx SchemType.schem_type_mbr true w).0 ≡ true
      → (s : Schem) × ((schem_ctx_schem_alloc sc ctx SchemType.schem_type_mbr true w).1
          ≡ record sc { mbr = some s })
        × IsHeld SchemType.schem_type_mbr 4 s ctx
        × (s.part_cnt ≡ 4)
  unfolding schem_ctx_schem_alloc schem_new call_init set_scheme schem_get_max_part_cnt blank
      schem_init_mbr mbr_init_schem
  new_mbr-Held sc w h = elim (Bool-cases (w.succeeds w.calls)) [
    | inr e ↦ absurd (ground arith)
    | inl e ↦ elim (Bool-cases (w.succeeds (w.calls + 1))) [
      | inr e' ↦ absurd (ground arith)
      | inl e' ↦
          let s = blank SchemType.schem_type_mbr 4 in
          let w' : World = record w { calls = w.calls + 1 + 1 } in
          (
            (schem_init_mbr s ctx w').0,
            rw (e, e') refl,
            schem_init_mbr-IsHeld s ctx w' roomy refl (omega arith),
            refl,
          )
    ]
  ]

  new_gpt-Held :
      (sc : SchemCtx) (w : World)
      → (schem_ctx_schem_alloc sc ctx SchemType.schem_type_gpt true w).0 ≡ true
      → (s : Schem) × ((schem_ctx_schem_alloc sc ctx SchemType.schem_type_gpt true w).1
          ≡ record sc { gpt = some s })
        × IsHeld SchemType.schem_type_gpt 128 s ctx
  unfolding schem_ctx_schem_alloc schem_new call_init set_scheme schem_get_max_part_cnt blank
  new_gpt-Held sc w h = elim (Bool-cases (w.succeeds w.calls)) [
    | inr e ↦ absurd (ground arith)
    | inl e ↦ elim (Bool-cases (w.succeeds (w.calls + 1))) [
      | inr e' ↦ absurd (ground arith)
      | inl e' ↦
          let s = blank SchemType.schem_type_gpt 128 in
          let w' : World = record w { calls = w.calls + 1 + 1 } in
          (
            (schem_init_gpt s ctx w').0,
            rw (e, e') refl,
            schem_init_gpt-IsHeld s ctx w' roomy refl (omega arith),
          )
    ]
  ]

  new_mbr-AreHeld :
      (sc : SchemCtx) (w : World)
      → (schem_ctx_new sc ctx SchemType.schem_type_mbr w).0 ≡ true
      → AreHeld (schem_ctx_new sc ctx SchemType.schem_type_mbr w).1 ctx
  unfolding schem_ctx_new schem_ctx_reset
  new_mbr-AreHeld sc w h =
      let (s, e, held, four) = new_mbr-Held (record sc { mbr = none; gpt = none }) w h in
      subst (λ (x : SchemCtx). AreHeld x ctx) (sym e) (held, tt)

  new_gpt-AreHeld :
      (sc : SchemCtx) (w : World)
      → (schem_ctx_new sc ctx SchemType.schem_type_gpt w).0 ≡ true
      → AreHeld (schem_ctx_new sc ctx SchemType.schem_type_gpt w).1 ctx
  unfolding schem_ctx_new schem_ctx_reset schem_ctx_new_gpt set_prot
  new_gpt-AreHeld sc w h = elim (Bool-cases first.0) [
    | inr e ↦ absurd (ground arith)
    | inl e ↦ elim (Bool-cases second.0) [
      | inr e' ↦ absurd (ground arith)
      | inl e' ↦
          let (g, eg, held_g) = new_gpt-Held none_held w e in
          let (m, em, held_m, four) = new_mbr-Held first.1 first.2 e' in
          rw (e, e')
            (subst (λ (x : SchemCtx). AreHeld (set_prot x) ctx)
              (sym (em ∙ ap (λ (x : SchemCtx). record x { mbr = some m }) eg))
              (set_prot-IsHeld m ctx held_m (omega arith), held_g))
    ]
  ]
    where
      none_held : SchemCtx
      none_held = record sc { mbr = none; gpt = none }

      first : Bool × SchemCtx × World
      first = schem_ctx_schem_alloc none_held ctx SchemType.schem_type_gpt true w

      second : Bool × SchemCtx × World
      second = schem_ctx_schem_alloc first.1 ctx SchemType.schem_type_mbr true first.2

  reset-AreHeld :
      (g m : Option Schem) (s : Session)
      → s.ctx.gpt ≡ g
      → s.ctx.mbr ≡ m
      → AreHeld s.ctx ctx
      → AreHeld (reset_protective g m ctx s).ctx ctx
  unfolding reset_protective schem_init_mbr mbr_init_schem
  reset-AreHeld none m s eg em h = h
  reset-AreHeld (some g) none s eg em h = h
  reset-AreHeld (some g) (some m) s eg em h =
      let held : IsHeld SchemType.schem_type_mbr 4 m ctx =
        subst (λ o. Held SchemType.schem_type_mbr 4 o ctx) em h.0 in
      (
        set_prot-IsHeld (schem_init_mbr m ctx s.world).0 ctx
            (schem_init_mbr-IsHeld m ctx s.world roomy held.funcs held.array) (omega arith),
        h.1,
      )

  module _ (s : Session) (res : ActionRes) (s' : Session)
      (alive : res ≢ ActionRes.action_exit_fatal) (h : AreHeld s.ctx ctx) where
    created-AreHeld :
        (r : Bool × SchemCtx × World)
        → (r.0 ≡ true → AreHeld r.1 ctx)
        → some (created s r) ≡ some (res, s')
        → AreHeld s'.ctx ctx
    unfolding created with_res to_main
    created-AreHeld (true, sc, w) new e =
        let same : (created s (true, sc, w)).1 ≡ s' = ground (arith, e) in
        subst (λ (x : Session). AreHeld x.ctx ctx) same (new refl)
    created-AreHeld (false, sc, w) new e = absurd (alive (ground (arith, e)))

    fresh :
        (a : Action) → is_new_scheme a ≡ true → act ctx s a ≡ some (res, s') → AreHeld s'.ctx ctx
    unfolding act
    fresh Action.new_mbr k e =
        created-AreHeld (schem_ctx_new s.ctx ctx SchemType.schem_type_mbr s.world)
          (λ n. new_mbr-AreHeld s.ctx s.world n) e
    fresh Action.new_gpt k e =
        created-AreHeld (schem_ctx_new s.ctx ctx SchemType.schem_type_gpt s.world)
          (λ n. new_gpt-AreHeld s.ctx s.world n) e
    fresh Action.reset_prot k e =
        let same : reset_protective s.ctx.gpt s.ctx.mbr ctx s ≡ s' = ground (arith, e) in
        subst (λ (x : Session). AreHeld x.ctx ctx) same
          (reset-AreHeld s.ctx.gpt s.ctx.mbr s refl refl h)
    fresh Action.exit k e = absurd (ground arith)
    fresh Action.help k e = absurd (ground arith)
    fresh Action.print k e = absurd (ground arith)
    fresh Action.add k e = absurd (ground arith)
    fresh Action.resize k e = absurd (ground arith)
    fresh Action.change_type k e = absurd (ground arith)
    fresh Action.toggle_boot k e = absurd (ground arith)
    fresh Action.delete k e = absurd (ground arith)
    fresh Action.save k e = absurd (ground arith)
    fresh Action.enter_prot k e = absurd (ground arith)
    fresh Action.leave k e = absurd (ground arith)
    fresh Action.unknown k e = absurd (ground arith)

    act-AreHeld : (a : Action) → act ctx s a ≡ some (res, s') → AreHeld s'.ctx ctx
    act-AreHeld a e = elim (Bool-cases (is_new_scheme a)) [
      | inr k ↦ BothStep-AreHeld s.ctx s'.ctx ctx h (act-BothStep ctx s h res s' a k e)
      | inl k ↦ fresh a k e
    ]

-- The states between the commands of a session: after any lines of input, one command for each.
pub data Reaches (ctx : ImgCtx) (s : Session) : Session → Type 0 where
  start : Reaches ctx s s
  command :
      {t u : Session}
      → Reaches ctx s t
      → is_eof (scan_char t.stdin).res ≡ false
      → action_handle ctx
          (record t { stdin = (scan_char t.stdin).stdin })
          (command_char (scan_char t.stdin))
        ≡ some (ActionRes.action_continue, u)
      → Reaches ctx s u

-- Throughout a session, whatever is typed: if the schemes in memory are of their types and sound at
-- the start, they are so between any two commands, the new ones included. In a sound scheme every
-- used entry has at least one sector, lies in the usable space, and shares no sector with another.
-- (The disk must have at least 70 whole sectors of at least 512 bytes, and aligning must not wrap.)
pub Reaches-AreHeld :
    (ctx : ImgCtx) (s : Session)
    → IsRoomy ctx
    → AreHeld s.ctx ctx
    → {t : Session} → Reaches ctx s t
    → AreHeld t.ctx ctx
unfolding action_handle
Reaches-AreHeld ctx s roomy h start = h
Reaches-AreHeld ctx s roomy h (command {t} {u} r going e) =
    act-AreHeld ctx roomy (record t { stdin = (scan_char t.stdin).stdin }) ActionRes.action_continue
      u (λ k. absurd (ground arith)) (Reaches-AreHeld ctx s roomy h r)
      (action_of (command_char (scan_char t.stdin))) e
