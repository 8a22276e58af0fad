-- ===== src/Lifecycle/Task.antt =====
-- src/lifecycle.rs, `run_stop_attempt` with `run_stop_check`, `start_stop_command` and
-- `finish_stop_command`: the task of one stop attempt. The task gives up control at two places, while
-- it waits for the check and while it waits for `launchctl`; between them it is one step, but for the
-- wake target, which has a lock of its own (`meanwhile`). A child
-- process is known by the command that it runs, and `E` is the list of the commands spawned, newest
-- first. Logging is left out.
pub mod Command
pub mod World
pub mod Safety
pub mod Bounded
pub mod Refinement
mod Tests
use roused.Base.{ℕ, Bool, true, false, Option, none, some, List, [], ◌∷◌, ◌>>=◌, if◌then◌else◌}
use roused.Lifecycle.{stop_check_timeout}
use roused.Lifecycle.Service.{ServiceLifecycle}
use roused.Lifecycle.Service.Attempt.{
  StopAttempt, StopStart, started, obsolete, StopCommandSpec, StopCheckSpec,
  start_allowed_attempt_at, finish_vetoed_attempt_at, stop_check_spec, stop_command_spec,
}
use roused.Wake.{WakeEvent}
use roused.Process.{Run, Timed, finished, elapsed, exited, wait_error, success}

pub data StopCheckOutcome : Type 0 where
  allowed vetoed failed timed_out : StopCheckOutcome

pub data StopCommandOutcome : Type 0 where
  succeeded failed timed_out : StopCommandOutcome

unfoldable pub run_stop_check : StopCheckSpec → Run → StopCheckOutcome
run_stop_check spec none = StopCheckOutcome.failed
run_stop_check spec (some (finished (exited code))) = if success code then allowed else vetoed
run_stop_check spec (some (finished wait_error)) = StopCheckOutcome.failed
run_stop_check spec (some elapsed) = StopCheckOutcome.timed_out

unfoldable pub finish_stop_command : Timed → StopCommandOutcome
finish_stop_command (finished (exited code)) =
    if success code then succeeded else StopCommandOutcome.failed
finish_stop_command (finished wait_error) = StopCommandOutcome.failed
finish_stop_command elapsed = StopCommandOutcome.timed_out

-- Whether the spawn succeeds is up to the system.
unfoldable pub start_stop_command :
    StopCommandSpec → Bool → List StopCommandSpec → Option StopCommandSpec × List StopCommandSpec
start_stop_command spec true commands = (some spec, spec ∷ commands)
start_stop_command spec false commands = (none, commands)

-- The first part of `run_stop_attempt`: the outcome of the check, which is allowed without one.
-- `none` is the panic on an empty command.
unfoldable pub check_outcome : StopAttempt → Run → Option StopCheckOutcome
unfolding stop_check_spec
check_outcome a run = elim a.can_stop_command [
  | some command ↦ do
    spec ← stop_check_spec command stop_check_timeout
    some (run_stop_check spec run)
  | none ↦ some allowed
]

-- The child that the task goes on to wait for.
abbrev pub child_of : StopStart StopCommandSpec → Option StopCommandSpec
child_of (started child) = some child
child_of obsolete = none
child_of StopStart.failed = none

-- The second part: the match on the outcome, up to the wait for `launchctl` or the end of the task.
unfoldable pub settle :
    ServiceLifecycle
    → StopAttempt
    → StopCheckOutcome
    → ℕ
    → List WakeEvent
    → Bool
    → List StopCommandSpec
    → ServiceLifecycle × Option StopCommandSpec × List StopCommandSpec
unfolding start_stop_command
settle s a allowed now meanwhile spawns commands =
    let (s', outcome, commands') =
      start_allowed_attempt_at s a now meanwhile (start_stop_command (stop_command_spec s) spawns)
        commands in
    (s', child_of outcome, commands')
settle s a _ now meanwhile spawns commands = (finish_vetoed_attempt_at s a now, none, commands)
