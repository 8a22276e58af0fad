-- ===== src/Wake.antt =====
-- src/wake.rs: the launch state of one target and the bounded `launchctl kickstart`. The mutex makes
-- each method one step, so a method is a function of the target, and callers that use two methods
-- leave a gap between them; `Instant::now()` is an argument.
-- Readiness (`is_ready`, a TCP connect under a timeout) is decided by the network and enters as the
-- outcome of that connect.
pub mod Dedup
mod Tests
use roused.Base.{
  ℕ, ◌+◌, Bool, true, false, Option, none, some, List, [], ◌∷◌, ◌++◌, ltb, if◌then◌else◌,
}
use roused.Base.Duration.{from_secs, from_millis}
use roused.Base.Text.{Text, codes, to_decimal}
use roused.Net.{SocketAddr}
use roused.Process.{Run, Timed, finished, elapsed, exited, wait_error, success}

abbrev pub launchctl_path : Text
launchctl_path = codes "/bin/launchctl"

abbrev pub readiness_timeout : ℕ
readiness_timeout = from_millis 100

abbrev pub launch_timeout : ℕ
launch_timeout = from_secs 5

abbrev pub retry_cooldown : ℕ
retry_cooldown = from_secs 5

pub data LaunchState : Type 0 where
  eligible launching : LaunchState
  cooling_down_until : ℕ → LaunchState

-- The launcher is not a field: `request_launch_at` says whether it starts it.
pub record WakeTarget : Type 0 where
  pub upstream : SocketAddr
  pub launchd_label : Text
  pub user_id : ℕ
  pub state : LaunchState

pub data LaunchOutcome : Type 0 where
  succeeded failed timed_out : LaunchOutcome

pub record CommandSpec : Type 0 where
  pub program : Text
  pub arguments : List Text
  pub timeout : ℕ

-- `format!("gui/{}/{}", user_id, launchd_label)`.
abbrev pub gui_target : ℕ → Text → Text
gui_target user label = codes "gui/" ++ (to_decimal user ++ (codes "/" ++ label))

-- The mapping of `run_bounded_command` from what the child did to the outcome.
unfoldable pub run_bounded_command : Run → LaunchOutcome
run_bounded_command none = failed
run_bounded_command (some (finished (exited code))) = if success code then succeeded else failed
run_bounded_command (some (finished wait_error)) = failed
run_bounded_command (some elapsed) = timed_out

-- The match of `request_launch_at`: the next state, and whether the launcher is started.
unfoldable pub next_launch : LaunchState → ℕ → LaunchState × Bool
next_launch eligible now = (launching, true)
next_launch launching now = (launching, false)
next_launch (cooling_down_until until) now =
    if ltb now until then (cooling_down_until until, false) else (launching, true)

-- What `timeout(READINESS_TIMEOUT, TcpStream::connect(upstream))` gives.
pub data Connect : Type 0 where
  connected refused too_late : Connect

unfoldable pub is_ready : Connect → Bool
is_ready connected = true
is_ready refused = false
is_ready too_late = false

abbrev pub is_launching : LaunchState → Bool
is_launching launching = true
is_launching _ = false

unfoldable pub with_launcher : SocketAddr → Text → ℕ → WakeTarget
with_launcher upstream label user = record {
  upstream = upstream;
  launchd_label = label;
  user_id = user;
  state = eligible;
}

unfoldable pub allow_launch_after_stop : WakeTarget → WakeTarget
allow_launch_after_stop t = record t { state = eligible }

unfoldable pub launch_in_progress : WakeTarget → Bool
launch_in_progress t = is_launching t.state

-- The new target, and whether `launcher.start` is called.
unfoldable pub request_launch_at : WakeTarget → ℕ → WakeTarget × Bool
unfolding next_launch
request_launch_at t now =
    let (s, start) = next_launch t.state now in (record t { state = s }, start)

unfoldable pub launch_finished_at : WakeTarget → ℕ → WakeTarget
launch_finished_at t now = record t { state = cooling_down_until (now + retry_cooldown) }

-- A request or the end of a launch, which take no lock but the target's own.
pub data WakeEvent : Type 0 where
  launch_requested launch_ended : ℕ → WakeEvent

abbrev on_event : WakeTarget → WakeEvent → WakeTarget
on_event t (launch_requested now) = (request_launch_at t now).0
on_event t (launch_ended now) = launch_finished_at t now

unfoldable pub after_events : WakeTarget → List WakeEvent → WakeTarget
unfolding request_launch_at launch_finished_at
after_events t [] = t
after_events t (event ∷ events) = after_events (on_event t event) events

unfoldable pub command_spec : WakeTarget → CommandSpec
command_spec t = record {
  program = launchctl_path;
  arguments = codes "kickstart" ∷ gui_target t.user_id t.launchd_label ∷ [];
  timeout = launch_timeout;
}

-- `LaunchctlLauncher::start`: the task that it spawns, from what the command meets and the time when it
-- ends. The target after it, and the outcome, which is only logged.
unfoldable pub start : WakeTarget → Run → ℕ → WakeTarget × LaunchOutcome
unfolding launch_finished_at run_bounded_command
start t run now = (launch_finished_at t now, run_bounded_command run)
