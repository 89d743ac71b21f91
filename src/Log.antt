-- ===== src/Log.antt =====
-- libs/libpartman/src/log.c: the messages of the program. The formatted text of a message is a list
-- of characters; the two output streams are what has been written to them, the last first.
mod Tests
use partman.Base.{ℕ, ◌≤◌, ◌≡◌, refl, List, [], ◌∷◌, Bool, true, false, leb, if◌then◌else◌, arith}

pub data LogLevel : Type 0 where
  log_none log_error log_warn log_info log_debug : LogLevel

-- the values of the enumeration
abbrev pub rank : LogLevel → ℕ
rank LogLevel.log_none = 0
rank LogLevel.log_error = 1
rank LogLevel.log_warn = 2
rank LogLevel.log_info = 3
rank LogLevel.log_debug = 4

pub data Written : Type 0 where
  level : LogLevel → Written
  message : List ℕ → Written
  line_feed : Written

-- `cur_log_level`, and the streams
pub record Logger : Type 0 where
  pub cur_log_level : LogLevel
  pub stderr : List Written
  pub stdout : List Written

unfoldable pub plog_set_level : LogLevel → Logger → Logger
plog_set_level new g = record g { cur_log_level = new }

-- The line feed goes to the other stream.
unfoldable pub plog : LogLevel → List ℕ → Logger → Logger
plog prefix text g = record g {
  stderr = message text ∷ level prefix ∷ g.stderr;
  stdout = line_feed ∷ g.stdout;
}

unfoldable pub pprint : List ℕ → Logger → Logger
pprint text g = record g { stdout = message text ∷ g.stdout }

unfoldable pub plog_dbg : List ℕ → Logger → Logger
plog_dbg text g =
    if leb (rank LogLevel.log_debug) (rank g.cur_log_level)
    then plog LogLevel.log_debug text g
    else g

unfoldable pub plog_info : List ℕ → Logger → Logger
plog_info text g =
    if leb (rank LogLevel.log_info) (rank g.cur_log_level) then plog LogLevel.log_info text g else g

unfoldable pub plog_warn : List ℕ → Logger → Logger
plog_warn text g =
    if leb (rank LogLevel.log_warn) (rank g.cur_log_level) then plog LogLevel.log_warn text g else g

unfoldable pub plog_err : List ℕ → Logger → Logger
plog_err text g =
    if leb (rank LogLevel.log_error) (rank g.cur_log_level)
    then plog LogLevel.log_error text g
    else g

-- the function of each level
abbrev pub plog_at : LogLevel → List ℕ → Logger → Logger
plog_at LogLevel.log_none text g = g
plog_at LogLevel.log_error text g = plog_err text g
plog_at LogLevel.log_warn text g = plog_warn text g
plog_at LogLevel.log_info text g = plog_info text g
plog_at LogLevel.log_debug text g = plog_dbg text g

-- A message is written exactly when the level that is set is at least its own; then the standard
-- error stream gets the level's name and the text, with no line feed, which the standard output gets.
-- The level itself stays as it was set.
pub plog_at_lem :
    (set own : LogLevel) (text : List ℕ) (g : Logger)
    → 1 ≤ rank own
    → let g' : Logger = plog_at own text (plog_set_level set g) in
      (g'.cur_log_level ≡ set)
      × (g'.stderr
          ≡ (if leb (rank own) (rank set) then message text ∷ level own ∷ g.stderr else g.stderr))
      × (g'.stdout ≡ (if leb (rank own) (rank set) then line_feed ∷ g.stdout else g.stdout))
unfolding plog_set_level plog plog_err plog_warn plog_info plog_dbg
plog_at_lem set LogLevel.log_none text g h = absurd (omega arith)
plog_at_lem set LogLevel.log_error text g h = ground arith
plog_at_lem set LogLevel.log_warn text g h = ground arith
plog_at_lem set LogLevel.log_info text g h = ground arith
plog_at_lem set LogLevel.log_debug text g h = ground arith
