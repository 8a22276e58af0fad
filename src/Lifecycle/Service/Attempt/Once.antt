-- ===== src/Lifecycle/Service/Attempt/Once.antt =====
-- src/lifecycle.rs: one stop command for a generation, until new activity.
use roused.Base.{ℕ, ◌≡◌, ◌≢◌, Option, none, some, List, [], ◌∷◌, arith}
use roused.Lifecycle.Service.{ServiceLifecycle}
use roused.Lifecycle.Service.Attempt.{
  StopAttempt, ShutdownAttempt, ShutdownPreparation, started, begin_stop_attempt_at,
  begin_shutdown_attempt, prepare_shutdown, start_allowed_attempt_at, finish_started_stop_command,
  finish_vetoed_attempt_at,
}
use roused.Wake.{request_launch_at, launch_finished_at, WakeEvent}

-- What happens to a service without request activity: scans, the end of the stop command, a vetoed
-- attempt, shutdown attempts, and launches.
pub data Quiet : Type 0 where
  scans : ℕ → Quiet
  shuts_down : Quiet
  stop_ends : Quiet
  vetoes : StopAttempt → ℕ → Quiet
  launches : ℕ → Quiet
  launch_ends : ℕ → Quiet

pub step : ServiceLifecycle → Quiet → ServiceLifecycle
step s (scans now) = (begin_stop_attempt_at s now).0
step s shuts_down = (begin_shutdown_attempt s).0
step s stop_ends = finish_started_stop_command s
step s (vetoes a now) = finish_vetoed_attempt_at s a now
step s (launches now) = record s { wake_target = (request_launch_at s.wake_target now).0 }
step s (launch_ends now) = record s { wake_target = launch_finished_at s.wake_target now }

pub run : ServiceLifecycle → List Quiet → ServiceLifecycle
run s [] = s
run s (q ∷ qs) = run (step s q) qs

-- The generation of the service has had its stop.
abbrev pub IsSignalled : ServiceLifecycle → Type 0
IsSignalled s = s.stop_attempted_generation ≡ some s.generation

step-IsSignalled : (s : ServiceLifecycle) (q : Quiet) → IsSignalled s → IsSignalled (step s q)
unfolding step begin_stop_attempt_at begin_shutdown_attempt finish_started_stop_command
    finish_vetoed_attempt_at
step-IsSignalled s (scans now) h = ground arith
step-IsSignalled s shuts_down h = ground arith
step-IsSignalled s stop_ends h = ground arith
step-IsSignalled s (vetoes a now) h = ground arith
step-IsSignalled s (launches now) h = h
step-IsSignalled s (launch_ends now) h = h

pub run-IsSignalled :
    (s : ServiceLifecycle) (qs : List Quiet) → IsSignalled s → IsSignalled (run s qs)
unfolding run
run-IsSignalled s [] h = h
run-IsSignalled s (q ∷ qs) h = run-IsSignalled (step s q) qs (step-IsSignalled s q h)

signalled_begins_none :
    (s : ServiceLifecycle) (now : ℕ)
    → IsSignalled s
    → (begin_stop_attempt_at s now ≡ (s, none))
      × (begin_shutdown_attempt s ≡ (s, ShutdownAttempt.already_signalled))
      × (prepare_shutdown s ≢ ShutdownPreparation.cleanup_needed)
unfolding begin_stop_attempt_at begin_shutdown_attempt prepare_shutdown
signalled_begins_none s now h = (ground arith, ground arith, ground arith)

start-IsSignalled {ℓ κ} :
    {E : Type κ} {T : Type ℓ} (s : ServiceLifecycle) (a : StopAttempt) (now : ℕ)
    (meanwhile : List WakeEvent) (start_stop : E → Option T × E) (e : E) (c : T)
    → (start_allowed_attempt_at s a now meanwhile start_stop e).1 ≡ started c
    → IsSignalled (start_allowed_attempt_at s a now meanwhile start_stop e).0
unfolding start_allowed_attempt_at
start-IsSignalled s a now meanwhile start_stop e c h = ground arith

-- Once the stop command of a service has started, then whatever happens without request activity
-- (scans, the shutdown, the end of the command, launches), no idle scan and no shutdown begins
-- another attempt for the service.
pub stop_once {ℓ κ} :
    {E : Type κ} {T : Type ℓ} (s : ServiceLifecycle) (a : StopAttempt) (now : ℕ)
    (meanwhile : List WakeEvent) (start_stop : E → Option T × E) (e : E) (c : T) (qs : List Quiet)
    (later : ℕ)
    → (start_allowed_attempt_at s a now meanwhile start_stop e).1 ≡ started c
    → let s' = run (start_allowed_attempt_at s a now meanwhile start_stop e).0 qs in
      (begin_stop_attempt_at s' later ≡ (s', none))
      × (begin_shutdown_attempt s' ≡ (s', ShutdownAttempt.already_signalled))
      × (prepare_shutdown s' ≢ ShutdownPreparation.cleanup_needed)
stop_once s a now meanwhile start_stop e c qs later h =
    signalled_begins_none _ later
      (run-IsSignalled _ qs (start-IsSignalled s a now meanwhile start_stop e c h))
