-- ===== src/Main/Shutdown.antt =====
-- src/main.rs, `GatewayShutdownSignals`, with `GatewayShutdownHandle` of src/proxy.rs: what a signal
-- starts. Times are nanoseconds; `seen` has what the polls of the wait find: the time and the phase.
use roused.Base.{
  All, ◌↔◌, ap, ℕ, ◌+◌, ◌≤◌, ◌<◌, ◌≡◌, ◌≢◌, refl, ◌⊎◌, inl, inr, Bool, true, false, Option, none,
  some, List, [], ◌∷◌, ◌++◌, leb, if◌then◌else◌, arith,
}
use roused.Base.Duration.{from_secs}
use roused.Lifecycle.Shutdown.{
  ShutdownCoordinator, ShutdownPhase, running, requested, completed, is_completed, request,
}

abbrev pub gateway_cleanup_wait_timeout_seconds : ℕ
gateway_cleanup_wait_timeout_seconds = 20

pub data UnixSignal : Type 0 where
  terminate interrupt quit : UnixSignal

pub data ShutdownSignal : Type 0 where
  graceful_terminate graceful_upgrade : ShutdownSignal

-- `wait_for_cleanup` over its polls: when it returns, and what. `timeout` polls the wait for the
-- completion first and its deadline then. `none` means that it still waits.
unfoldable pub wait_for_cleanup : ℕ → List (ℕ × ShutdownPhase) → Option (ℕ × Bool)
wait_for_cleanup deadline [] = none
wait_for_cleanup deadline ((now, phase) ∷ seen) =
    if is_completed phase
    then some (now, true)
    else if leb deadline now
    then some (now, false)
    else wait_for_cleanup deadline seen

-- `coordinate_cleanup` from the time of the signal: the coordinator, and when the shutdown is handed
-- over and whether the cleanup was finished.
unfoldable pub coordinate_cleanup :
    ℕ → ShutdownCoordinator → List (ℕ × ShutdownPhase) → ShutdownCoordinator × Option (ℕ × Bool)
unfolding request wait_for_cleanup
coordinate_cleanup now coordinator seen = (
  (request coordinator).0,
  wait_for_cleanup (now + from_secs gateway_cleanup_wait_timeout_seconds) seen,
)

abbrev shutdown_signal : UnixSignal → ShutdownSignal
shutdown_signal terminate = graceful_terminate
shutdown_signal interrupt = graceful_terminate
shutdown_signal quit = graceful_upgrade

phase_cases : (p : ShutdownPhase) → (p ≡ completed) ⊎ (is_completed p ≡ false)
phase_cases running = inr refl
phase_cases requested = inr refl
phase_cases completed = inl refl

signal_lem : (s : UnixSignal) → (shutdown_signal s ≡ graceful_upgrade) ↔ (s ≡ quit)
signal_lem terminate = (λ e. cc, λ e. cc)
signal_lem interrupt = (λ e. cc, λ e. cc)
signal_lem quit = (λ e. refl, λ e. refl)

unfoldable pub recv :
    ℕ
    → UnixSignal
    → ShutdownCoordinator
    → List (ℕ × ShutdownPhase)
    → ShutdownCoordinator × Option (ℕ × Bool) × ShutdownSignal
unfolding coordinate_cleanup
recv now signal coordinator seen =
    let (coordinator', ended) = coordinate_cleanup now coordinator seen in
    (coordinator', ended, shutdown_signal signal)

-- Before the deadline, and the cleanup is not finished.
abbrev pub Unfinished : ℕ → ℕ × ShutdownPhase → Type 0
Unfinished deadline (time, phase) = (time < deadline) × (phase ≢ completed)

is_completed-false : (p : ShutdownPhase) → is_completed p ≡ false → p ≢ completed
is_completed-false p h e = cc (h, ap is_completed e)

-- The wait ends at the first poll that finds the completion or the deadline over.
wait_for_cleanup_lem :
    (deadline : ℕ) (before after : List (ℕ × ShutdownPhase)) (now : ℕ) (phase : ShutdownPhase)
    → All (Unfinished deadline) before
    → ((phase ≡ completed)
        → wait_for_cleanup deadline (before ++ (now, phase) ∷ after) ≡ some (now, true))
      × ((phase ≢ completed)
          → deadline ≤ now
          → wait_for_cleanup deadline (before ++ (now, phase) ∷ after) ≡ some (now, false))
unfolding wait_for_cleanup
wait_for_cleanup_lem deadline [] after now phase h = elim (phase_cases phase) [
  | inl e ↦ (λ c. rw e refl, λ n l. absurd (n e))
  | inr e ↦ (λ c. absurd (is_completed-false phase e c), λ n l. ground arith)
]
wait_for_cleanup_lem deadline ((time, other) ∷ before) after now phase ((l, n), h) =
    elim (phase_cases other) [
      | inl e ↦ absurd (n e)
      | inr e ↦
          let (done, over) = wait_for_cleanup_lem deadline before after now phase h in
          (λ c. ground (arith, done c), λ m d. ground (arith, over m d))
    ]

-- After a signal the gateway admits no request. It hands the shutdown over at the first poll of its
-- wait that finds the cleanup completed, also when 20 seconds are over by then, or that finds 20 seconds
-- over since the signal and the cleanup not completed; with a completed cleanup in the first case, and
-- without in the second. SIGTERM and SIGINT end it as a termination, SIGQUIT as an upgrade.
pub recv_lem :
    (start : ℕ) (signal : UnixSignal) (coordinator : ShutdownCoordinator)
    (before after : List (ℕ × ShutdownPhase)) (now : ℕ) (phase : ShutdownPhase)
    → All (Unfinished (start + from_secs 20)) before
    → let (coordinator', ended, shutdown) =
        recv start signal coordinator (before ++ (now, phase) ∷ after) in
      (coordinator'.request_gate.accepting ≡ false)
      × ((phase ≡ completed) → ended ≡ some (now, true))
      × ((phase ≢ completed) → start + from_secs 20 ≤ now → ended ≡ some (now, false))
      × ((shutdown ≡ graceful_upgrade) ↔ (signal ≡ quit))
unfolding recv request
recv_lem start signal coordinator before after now phase h =
    let (done, over) = wait_for_cleanup_lem (start + from_secs 20) before after now phase h in
    (ground arith, done, over, signal_lem signal)
