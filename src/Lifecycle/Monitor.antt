-- ===== src/Lifecycle/Monitor.antt =====
-- src/lifecycle.rs, `IdleMonitor` and `cleanup_service_at_shutdown`. The tasks that it spawns are those
-- of `Task`; what it decides for each service is listed here. The clock, the other tasks and the
-- select of tokio are arguments: lists of what each round of a loop meets. `System` has them as
-- steps among all others, with the join of the tasks. Logging is left out.
pub mod Cleanup
pub mod Scan
mod Tests
use roused.Base.{
  ℕ, suc, ◌≤◌, Bool, true, false, Option, none, some, List, [], ◌∷◌, leb, if◌then◌else◌,
}
use roused.Lifecycle.Gate
use roused.Lifecycle.Gate.{RequestGate, Round, wait_for_drain_until}
use roused.Lifecycle.Service.{ServiceLifecycle}
use roused.Lifecycle.Service.Attempt.{
  StopAttempt, ShutdownAttempt, ready, busy, ShutdownPreparation, cleanup_needed, existing_attempt,
  begin_stop_attempt_at, begin_shutdown_attempt, prepare_shutdown,
}
use roused.Lifecycle.Shutdown
use roused.Lifecycle.Shutdown.{ShutdownCoordinator}

abbrev with_attempt : ℕ → Option StopAttempt → List (ℕ × StopAttempt) → List (ℕ × StopAttempt)
with_attempt i none spawned = spawned
with_attempt i (some a) spawned = (i, a) ∷ spawned

-- `scan_at` from the service at index `i` on: the services, and the attempts that it spawns tasks for.
unfoldable pub scan_from :
    ℕ → ℕ → List ServiceLifecycle → List ServiceLifecycle × List (ℕ × StopAttempt)
scan_from i now [] = ([], [])
scan_from i now (s ∷ services) =
    let (s', attempt) = begin_stop_attempt_at s now in
    let (services', spawned) = scan_from (suc i) now services in
    (s' ∷ services', with_attempt i attempt spawned)

unfoldable pub scan_at : ℕ → List ServiceLifecycle → List ServiceLifecycle × List (ℕ × StopAttempt)
unfolding scan_from
scan_at now services = scan_from 0 now services

-- How the cleanup of one service ends: with an attempt that it runs, on a stop that it need not
-- repeat, or past the deadline.
pub data CleanupEnd : Type 0 where
  runs : StopAttempt → CleanupEnd
  not_repeated left_running : CleanupEnd

-- One round of the loop: the service as the round finds it, and the time if the service is busy.
pub record Poll : Type 0 where
  pub seen : ServiceLifecycle
  pub now : ℕ

-- `none` means that the loop still sleeps between rounds.
unfoldable pub cleanup_service_at_shutdown : ℕ → List Poll → Option CleanupEnd
cleanup_service_at_shutdown deadline [] = none
cleanup_service_at_shutdown deadline (p ∷ ps) =
    let again = cleanup_service_at_shutdown deadline ps in
    let slept = if leb deadline p.now then some left_running else again in
    elim (begin_shutdown_attempt p.seen).1 [
      | ready attempt ↦ some (runs attempt)
      | ShutdownAttempt.already_signalled ↦ some not_repeated
      | busy ↦ slept
    ]

-- Whether `cleanup_at_shutdown` spawns the cleanup of a service.
unfoldable pub spawns_cleanup : ServiceLifecycle → Bool
spawns_cleanup s = elim (prepare_shutdown s) [
  | cleanup_needed ↦ true
  | existing_attempt ↦ false
  | ShutdownPreparation.already_signalled ↦ false
]

abbrev pub spawn_list : List ServiceLifecycle → List Bool
spawn_list [] = []
spawn_list (s ∷ services) = spawns_cleanup s ∷ spawn_list services

abbrev keep_running : List ServiceLifecycle → List Bool
keep_running [] = []
keep_running (s ∷ services) = false ∷ keep_running services

-- `cleanup_at_shutdown` up to the wait for its tasks, after the rounds of the wait for the drain: the
-- gate, and for each service whether its cleanup is spawned. `none` means that it still waits.
unfoldable pub cleanup_at_shutdown :
    RequestGate → ℕ → List Round → List ServiceLifecycle → Option (RequestGate × List Bool)
unfolding Gate.close
cleanup_at_shutdown gate deadline rounds services = elim (wait_for_drain_until deadline rounds) [
  | none ↦ none
  | some drained ↦
      some ((Gate.close gate).0, if drained then spawn_list services else keep_running services)
]

-- What wakes the loop of `start`.
pub data Awake : Type 0 where
  shutdown_requested shutdown_changed : Awake
  tick : ℕ → Awake

-- The loop of `start` over the services while nothing else acts on them, up to the shutdown: the
-- coordinator when the cleanup starts, the services, and the attempts spawned on the way, the last scan
-- first. `none` means that it still waits.
unfoldable pub start_loop :
    ShutdownCoordinator
    → List ServiceLifecycle
    → List (List (ℕ × StopAttempt))
    → List Awake
    → Option (ShutdownCoordinator × List ServiceLifecycle × List (List (ℕ × StopAttempt)))
unfolding scan_at
start_loop c services spawned [] = none
start_loop c services spawned (shutdown_requested ∷ rest) = some (c, services, spawned)
start_loop c services spawned (shutdown_changed ∷ rest) =
    some ((Shutdown.request c).0, services, spawned)
start_loop c services spawned (tick now ∷ rest) =
    let (services', attempts) = scan_at now services in
    start_loop c services' (attempts ∷ spawned) rest
