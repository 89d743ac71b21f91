-- ===== src/World.antt =====
-- What the library reaches through the operating system and the C library: the bytes of the image
-- file, the random numbers, and calls that may fail.
-- `mmap`, `munmap`, `fsync`, `malloc` and `calloc` are outside the repository: `succeeds` is any
-- answer to the n-th such call, and `page_sz` is what `sysconf(_SC_PAGESIZE)` returns. A mapping is
-- shared with the file, so that a mapped address is an offset in it, and a store is seen at once.
use partman.Base.{ℕ, ◌+◌, Bool}
use partman.MemUtils.{Memory}
use partman.Rand.{Rng}

pub record World : Type 0 where
  pub image : Memory
  pub rng : Rng
  pub page_sz : ℕ
  pub succeeds : ℕ → Bool
  pub calls : ℕ

-- One call: whether it succeeds.
abbrev pub call : World → Bool × World
call w = (w.succeeds w.calls, record w { calls = w.calls + 1 })
