-- ===== src/Session.antt =====
-- src/main.c, `action_handle` and `routine_start`: the terminal session on the schemes in memory.
-- `m` and `p` only print: the listing of `p` is `pm_print_scheme` (Print) of the current scheme.
-- `none` is a result that C does not define, or a search that does not end.
pub mod Steps
pub mod Init
pub mod Invariant
pub mod Ends
pub mod Defined
mod Tests
use partman.Base.{ℕ, zero, suc, Bool, true, false, Option, none, some, ◌==◌, if◌then◌else◌}
use partman.CText.{◌>>=◌}
use partman.Stdio.{Stream}
use partman.Scan.{ScanRes, Scanned, scan_char}
use partman.ImgCtx.{ImgCtx}
use partman.World.{World}
use partman.Schem.{SchemType, Schem}
use partman.Mbr.{schem_init_mbr, schem_mbr_set_prot}
use partman.SchemCtx.{SchemCtx, set_scheme, schem_ctx_new, schem_ctx_save, schem_ctx_get_type}
use partman.Command.{
  Edited, is_ok, pm_part_delete, pm_part_toggle_boot, pm_part_change_type, pm_part_alter,
}

pub data ActionRes : Type 0 where
  action_continue action_exit_ok action_exit_fatal : ActionRes

-- `cur` is `*schem_cur_t`.
pub record Session : Type 0 where
  pub ctx : SchemCtx
  pub cur : SchemType
  pub world : World
  pub stdin : Stream

-- the labels of the `switch`
pub data Action : Type 0 where
  exit help print add resize change_type toggle_boot delete save : Action
  new_mbr new_gpt enter_prot reset_prot leave unknown : Action

unfoldable pub action_of : ℕ → Action
action_of sym =
    if sym == b'q'
    then exit
    else if sym == b'm'
    then help
    else if sym == b'p'
    then print
    else if sym == b'n'
    then add
    else if sym == b'e'
    then resize
    else if sym == b't'
    then change_type
    else if sym == b'a'
    then toggle_boot
    else if sym == b'd'
    then delete
    else if sym == b'w'
    then save
    else if sym == b'o'
    then new_mbr
    else if sym == b'g'
    then new_gpt
    else if sym == b'M'
    then enter_prot
    else if sym == b'h'
    then reset_prot
    else if sym == b'r'
    then leave
    else unknown

-- `schem_ctx->schemes[type]`
unfoldable pub get_scheme : SchemType → SchemCtx → Option Schem
get_scheme SchemType.schem_type_mbr sc = sc.mbr
get_scheme SchemType.schem_type_gpt sc = sc.gpt
get_scheme SchemType.schem_cnt sc = none

abbrev pub goes_on : Session → Option (ActionRes × Session)
goes_on s = some (ActionRes.action_continue, s)

unfoldable pub edited : Session → Edited → Session
edited s e = record s {
  ctx = set_scheme s.cur (some e.schem) s.ctx;
  world = e.world;
  stdin = e.stdin;
}

-- Behind a conversion that is undefined a command has no result.
unfoldable pub kept : Session → Edited → Option (ActionRes × Session)
kept s e = if e.stdin.overflowed then none else goes_on (edited s e)

-- A command on the current scheme, or the message that there is none.
unfoldable pub on_scheme : Session → (Schem → Option Edited) → Option (ActionRes × Session)
on_scheme s edit = elim (get_scheme s.cur s.ctx) [
  | none ↦ goes_on s
  | some schem ↦ edit schem >>= kept s
]

-- `res ? action_continue : action_exit_fatal`
unfoldable pub with_res : Session → Bool × SchemCtx × World → ActionRes × Session
with_res s (res, sc, w) = (
  (if res then ActionRes.action_continue else ActionRes.action_exit_fatal),
  record s { ctx = sc; world = w },
)

unfoldable pub to_main : Session → Session
to_main s = record s { cur = schem_ctx_get_type s.ctx }

unfoldable pub created : Session → Bool × SchemCtx × World → ActionRes × Session
created s r = let (res, s) = with_res s r in (res, to_main s)

unfoldable pub is_gpt : SchemType → Bool
is_gpt SchemType.schem_type_gpt = true
is_gpt SchemType.schem_type_mbr = false
is_gpt SchemType.schem_cnt = false

unfoldable pub enter_protective : Option Schem → Session → Session
enter_protective none s = s
enter_protective (some mbr) s =
    if is_gpt s.cur then record s { cur = SchemType.schem_type_mbr } else s

unfoldable pub reset_protective : Option Schem → Option Schem → ImgCtx → Session → Session
reset_protective none mbr img_ctx s = s
reset_protective (some gpt) none img_ctx s = s
reset_protective (some gpt) (some mbr) img_ctx s =
    let (mbr, w) = schem_init_mbr mbr img_ctx s.world in
    record s { ctx = record s.ctx { mbr = some (schem_mbr_set_prot mbr) }; world = w }

-- the cases of the `switch`
unfoldable pub act : ImgCtx → Session → Action → Option (ActionRes × Session)
act img_ctx s exit = some (ActionRes.action_exit_ok, s)
act img_ctx s help = goes_on s
act img_ctx s print = goes_on s
act img_ctx s add = on_scheme s (λ schem. pm_part_alter schem img_ctx true s.world s.stdin)
act img_ctx s resize = on_scheme s (λ schem. pm_part_alter schem img_ctx false s.world s.stdin)
act img_ctx s change_type = on_scheme s (λ schem. some (pm_part_change_type schem s.world s.stdin))
act img_ctx s toggle_boot = on_scheme s (λ schem. some (pm_part_toggle_boot schem s.world s.stdin))
act img_ctx s delete = on_scheme s (λ schem. some (pm_part_delete schem s.world s.stdin))
act img_ctx s save = some (with_res s (schem_ctx_save s.ctx img_ctx s.world))
act img_ctx s new_mbr =
    some (created s (schem_ctx_new s.ctx img_ctx SchemType.schem_type_mbr s.world))
act img_ctx s new_gpt =
    some (created s (schem_ctx_new s.ctx img_ctx SchemType.schem_type_gpt s.world))
act img_ctx s enter_prot = goes_on (enter_protective s.ctx.mbr s)
act img_ctx s reset_prot = goes_on (reset_protective s.ctx.gpt s.ctx.mbr img_ctx s)
act img_ctx s leave = goes_on (to_main s)
act img_ctx s unknown = goes_on s

unfoldable pub action_handle : ImgCtx → Session → ℕ → Option (ActionRes × Session)
action_handle img_ctx s sym = act img_ctx s (action_of sym)

-- How a session ends: with a result, or where C defines none; `running` is fuel that ran out.
pub data Ending : Type 0 where
  returned : Bool → Session → Ending
  undefined running : Ending

-- the end of one round of the loop, with the rounds that follow
unfoldable pub after_action : (Session → Ending) → Option (ActionRes × Session) → Ending
after_action next none = undefined
after_action next (some (ActionRes.action_continue, s)) = next s
after_action next (some (ActionRes.action_exit_ok, s)) = returned true s
after_action next (some (ActionRes.action_exit_fatal, s)) = returned false s

-- `c` is 0 where no character was scanned.
unfoldable pub command_char : Scanned ℕ → ℕ
command_char r = if is_ok r.res then r.value else 0

unfoldable pub is_eof : ScanRes → Bool
is_eof ScanRes.scan_eof = true
is_eof ScanRes.scan_ok = false
is_eof ScanRes.scan_empty = false
is_eof ScanRes.scan_fail = false

unfoldable pub ui_loop : ℕ → ImgCtx → Session → Ending
ui_loop zero img_ctx s = running
ui_loop (suc fuel) img_ctx s =
    let r = scan_char s.stdin in
    let s' = record s { stdin = r.stdin } in
    elim (is_eof r.res) [
      | true ↦ returned true s'
      | false ↦ after_action (ui_loop fuel img_ctx) (action_handle img_ctx s' (command_char r))
    ]

unfoldable pub routine_start : ℕ → ImgCtx → SchemCtx → World → Stream → Ending
routine_start fuel img_ctx sc w stdin =
    ui_loop fuel img_ctx
      (record { ctx = sc; cur = schem_ctx_get_type sc; world = w; stdin = stdin })
