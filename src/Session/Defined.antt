-- ===== src/Session/Defined.antt =====
-- Which commands of a session can be undefined.
use partman.Base.{ℕ, ◌≡◌, Bool, true, false, not, some, if◌then◌else◌}
use partman.ImgCtx.{ImgCtx}
use partman.Schem.{Schem}
use partman.Scan.Overflow.{IsTooLarge}
use partman.Scan.Undefined.{IsUndefined}
use partman.Command.{pm_part_prompt}
use partman.Command.Defined.{last_line}
use partman.Session.{Session, Action, get_scheme}

-- The commands that ask for the number of a partition.
abbrev pub asks_partition : Action → Bool
asks_partition Action.add = true
asks_partition Action.resize = true
asks_partition Action.change_type = true
asks_partition Action.toggle_boot = true
asks_partition Action.delete = true
asks_partition Action.exit = false
asks_partition Action.help = false
asks_partition Action.print = false
asks_partition Action.save = false
asks_partition Action.new_mbr = false
asks_partition Action.new_gpt = false
asks_partition Action.enter_prot = false
asks_partition Action.reset_prot = false
asks_partition Action.leave = false
asks_partition Action.unknown = false

-- A command on the current scheme reads a number of more than 64 bits: that of a partition, the first
-- sector of `n` and `e`, or the type of `t`; or the line for the last sector of `n` and `e` is one of
-- the undefined ones.
pub data Stuck (s : Session) (a : Action) : Type 0 where
  at_partition :
      (schem : Schem)
      → get_scheme s.cur s.ctx ≡ some schem
      → asks_partition a ≡ true
      → IsTooLarge 10 s.stdin
      → Stuck s a
  at_type :
      (schem : Schem)
      → get_scheme s.cur s.ctx ≡ some schem
      → a ≡ Action.change_type
      → IsTooLarge 16 (pm_part_prompt schem true s.stdin).1
      → Stuck s a
  at_first_sector :
      (schem : Schem) (is_new : Bool)
      → get_scheme s.cur s.ctx ≡ some schem
      → a ≡ (if is_new then Action.add else Action.resize)
      → IsTooLarge 10 (pm_part_prompt schem (not is_new) s.stdin).1
      → Stuck s a
  at_last_sector :
      (schem : Schem) (is_new : Bool) (def : ℕ)
      → get_scheme s.cur s.ctx ≡ some schem
      → a ≡ (if is_new then Action.add else Action.resize)
      → IsUndefined (last_line schem is_new def s.stdin)
      → Stuck s a
