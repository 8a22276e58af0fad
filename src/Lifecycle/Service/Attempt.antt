-- ===== src/Lifecycle/Service/Attempt.antt =====
-- src/lifecycle.rs: the stop attempt of a service, from the decision to begin one to the start of
-- `launchctl kill`.
pub mod Decision
pub mod Activity
pub mod Once
use roused.Base.{
  ℕ, Bool, true, false, not, ◌&&◌, ◌||◌, Option, none, some, List, [], ◌∷◌, ltb, ◌==◌,
  if◌then◌else◌, is_some_and, is_some_of,
}
use roused.Base.Duration.{saturating_duration_since}
use roused.Base.Text.{Text, codes}
use roused.Lifecycle.{stop_check_retry, stop_command_timeout}
use roused.Lifecycle.Service.{LifecycleState, ServiceLifecycle}
use roused.Wake.{
  WakeTarget, gui_target, launchctl_path, launch_in_progress, allow_launch_after_stop, is_launching,
  WakeEvent, after_events,
}

pub record StopAttempt : Type 0 where
  pub generation : ℕ
  pub can_stop_command : Option (List Text)
  pub requires_idle_timeout : Bool

pub data ShutdownPreparation : Type 0 where
  cleanup_needed existing_attempt already_signalled : ShutdownPreparation

pub data ShutdownAttempt : Type 0 where
  ready : StopAttempt → ShutdownAttempt
  busy already_signalled : ShutdownAttempt

pub data StopStart {ℓ} (T : Type ℓ) : Type ℓ where
  started : T → StopStart T
  obsolete failed : StopStart T

pub record StopCommandSpec : Type 0 where
  pub program : Text
  pub arguments : List Text
  pub timeout : ℕ

pub record StopCheckSpec : Type 0 where
  pub program : Text
  pub arguments : List Text
  pub timeout : ℕ

-- `now.saturating_duration_since(state.idle_since) < self.idle_timeout`.
abbrev pub idle_too_short : ServiceLifecycle → ℕ → Bool
idle_too_short s now = ltb (saturating_duration_since now s.idle_since) s.idle_timeout

-- The long condition of `begin_stop_attempt_at`.
unfoldable pub not_due : ServiceLifecycle → ℕ → Bool
unfolding launch_in_progress
not_due s now =
    not (s.in_flight == 0)
    || (s.attempt_in_progress
        || (launch_in_progress s.wake_target
            || (idle_too_short s now
                || (is_some_of s.stop_attempted_generation s.generation
                    || is_some_and
                        (λ finished. ltb (saturating_duration_since now finished) stop_check_retry)
                        s.last_check_finished))))

abbrev pub set_attempt : ServiceLifecycle → Bool → ServiceLifecycle
set_attempt s b = record s { state = record (s.state) { attempt_in_progress = b } }

unfoldable pub begin_stop_attempt_at : ServiceLifecycle → ℕ → ServiceLifecycle × Option StopAttempt
unfolding not_due
begin_stop_attempt_at s now = if not_due s now then (s, none) else (
  set_attempt s true,
  some (record {
    generation = s.generation;
    can_stop_command = s.can_stop_command;
    requires_idle_timeout = true;
  }),
)

unfoldable pub prepare_shutdown : ServiceLifecycle → ShutdownPreparation
prepare_shutdown s =
    if s.attempt_in_progress
    then existing_attempt
    else if is_some_of s.stop_attempted_generation s.generation
    then ShutdownPreparation.already_signalled
    else cleanup_needed

unfoldable pub begin_shutdown_attempt : ServiceLifecycle → ServiceLifecycle × ShutdownAttempt
unfolding launch_in_progress
begin_shutdown_attempt s =
    if is_some_of s.stop_attempted_generation s.generation
    then (s, ShutdownAttempt.already_signalled)
    else if not (s.in_flight == 0) || (s.attempt_in_progress || launch_in_progress s.wake_target)
    then (s, busy)
    else (
      set_attempt s true,
      ready (record {
        generation = s.generation;
        can_stop_command = s.can_stop_command;
        requires_idle_timeout = false;
      }),
    )

unfoldable pub finish_vetoed_attempt_at : ServiceLifecycle → StopAttempt → ℕ → ServiceLifecycle
finish_vetoed_attempt_at s a now =
    let s' = set_attempt s false in
    if s.generation == a.generation && s.in_flight == 0
    then record s' { state = record (s'.state) { last_check_finished = some now } }
    else s'

-- The condition under which `start_allowed_attempt_at` discards the decision.
unfoldable pub is_obsolete : ServiceLifecycle → StopAttempt → ℕ → Bool
unfolding launch_in_progress
is_obsolete s a now =
    not (s.generation == a.generation)
    || (not (s.in_flight == 0)
        || (launch_in_progress s.wake_target || (a.requires_idle_timeout && idle_too_short s now)))

-- After `start_stop`, with what it returned.
unfoldable pub after_start {ℓ} :
    {T : Type ℓ} → ServiceLifecycle → ℕ → Option T → ServiceLifecycle × StopStart T
unfolding allow_launch_after_stop
after_start s now (some child) = (
  record s {
    wake_target = allow_launch_after_stop s.wake_target;
    state = record (s.state) { stop_attempted_generation = some s.generation };
  },
  started child,
)
after_start s now none = (
  record s {
    state = record (s.state) { attempt_in_progress = false; last_check_finished = some now };
  },
  failed,
)

-- The service when `start_stop` has returned. `launch_in_progress` and `allow_launch_after_stop` take
-- the lock of the wake target one after the other, and it is free while `start_stop` runs: `meanwhile`
-- has the requests and the ends of launches that get it in between.
abbrev pub with_events : ServiceLifecycle → List WakeEvent → ServiceLifecycle
with_events s meanwhile = record s { wake_target = after_events s.wake_target meanwhile }

-- `start_stop` acts on the surroundings `E`; the result holds the service, the outcome and `E`.
unfoldable pub start_allowed_attempt_at {ℓ κ} :
    {E : Type κ} {T : Type ℓ}
    → ServiceLifecycle
    → StopAttempt
    → ℕ
    → List WakeEvent
    → (E → Option T × E)
    → E
    → ServiceLifecycle × StopStart T × E
unfolding is_obsolete after_start
start_allowed_attempt_at {E} {T} s a now meanwhile start_stop e =
    let run : ServiceLifecycle × StopStart T × E =
      let (child, e') = start_stop e in
      let (s', outcome) = after_start (with_events s meanwhile) now child in (s', outcome, e') in
    if is_obsolete s a now then (set_attempt s false, obsolete, e) else run

unfoldable pub finish_started_stop_command : ServiceLifecycle → ServiceLifecycle
finish_started_stop_command s = set_attempt s false

-- `none` is the panic on an empty command, which validation excludes.
unfoldable pub stop_check_spec : List Text → ℕ → Option StopCheckSpec
stop_check_spec [] limit = none
stop_check_spec (program ∷ arguments) limit =
    some (record { program = program; arguments = arguments; timeout = limit })

unfoldable pub stop_command_spec : ServiceLifecycle → StopCommandSpec
stop_command_spec s = record {
  program = launchctl_path;
  arguments = codes "kill" ∷ codes "SIGTERM" ∷ gui_target s.user_id s.launchd_label ∷ [];
  timeout = stop_command_timeout;
}
