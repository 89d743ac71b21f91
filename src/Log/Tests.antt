-- ===== src/Log/Tests.antt =====
-- A warning while errors and warnings are shown.
use partman.Base.{[], ◌∷◌, ◌≡◌, arith}
use partman.Log.{LogLevel, Logger, message, level, line_feed, plog_at, plog_set_level, plog_at_lem}

abbrev silent : Logger
silent = record { cur_log_level = LogLevel.log_none; stderr = []; stdout = [] }

plog_at_lem_example :
    let g' : Logger =
      plog_at LogLevel.log_warn (b'x' ∷ []) (plog_set_level LogLevel.log_warn silent) in
    (g'.cur_log_level ≡ LogLevel.log_warn)
    × (g'.stderr ≡ message (b'x' ∷ []) ∷ level LogLevel.log_warn ∷ [])
    × (g'.stdout ≡ line_feed ∷ [])
plog_at_lem_example =
    plog_at_lem LogLevel.log_warn LogLevel.log_warn (b'x' ∷ []) silent (omega arith)
