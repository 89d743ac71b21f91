-- ===== src/Session/Ends.antt =====
-- A session takes its input in, and ends.
use partman.Base.{ℕ, ◌≡◌, Bool, false, none}
use partman.Scan.{scan_char}
use partman.ImgCtx.{ImgCtx}
use partman.World.{World}
use partman.Schem.{Schem}
use partman.SchemCtx.{SchemCtx}
use partman.Session.Invariant.{Reaches}
use partman.Session.{Session, action_handle, Ending, command_char, is_eof}

-- What the next command of a state is, and that it is one.
abbrev pub waits : Session → Session
waits t = record t { stdin = (scan_char t.stdin).stdin }

abbrev pub next_char : Session → ℕ
next_char t = command_char (scan_char t.stdin)

abbrev pub HasCommand : Session → Type 0
HasCommand t = is_eof (scan_char t.stdin).res ≡ false

module _ (ctx : ImgCtx) where
  -- The ways a session from `s` can end: with a result, or in a state that it reaches, whose next
  -- command has no result that C defines.
  pub data Ends (s : Session) : Ending → Type 0 where
    ended : (b : Bool) (s' : Session) → Ends s (Ending.returned b s')
    stuck :
        {t : Session}
        → Reaches ctx s t
        → HasCommand t
        → action_handle ctx (waits t) (next_char t) ≡ none
        → Ends s Ending.undefined
