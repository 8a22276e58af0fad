-- ===== src/Process.antt =====
-- Child processes, as `src/wake.rs` and `src/lifecycle.rs` run them. The operating system and tokio
-- decide what a child does: whether it can be spawned, whether waiting for it ends within the
-- timeout, and with which status.
use roused.Base.{ℕ, Bool, Option, ◌==◌}

-- What `child.wait()` gives: an exit status, whose code is 0 for success, or an error of the wait.
pub data Wait : Type 0 where
  exited : ℕ → Wait
  wait_error : Wait

-- What `timeout(limit, child.wait())` gives: `Ok` of the wait, or `Err` when the limit passed.
pub data Timed : Type 0 where
  finished : Wait → Timed
  elapsed : Timed

-- What a bounded run of a command meets: `none` where the spawn fails.
abbrev pub Run : Type 0
Run = Option Timed

-- `ExitStatus::success`.
abbrev pub success : ℕ → Bool
success code = code == 0
