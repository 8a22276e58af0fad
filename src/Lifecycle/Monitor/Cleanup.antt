-- ===== src/Lifecycle/Monitor/Cleanup.antt =====
-- src/lifecycle.rs: the shutdown cleanup is bounded and stops only what is quiet.
use roused.Base.{
  ℕ, ◌+◌, ◌*◌, ◌≤◌, ◌<◌, ◌≡◌, refl, ◌≢◌, ◌⊎◌, inl, inr, false, some, List, [], ◌∷◌, length, arith,
  leb, Bool-cases, ◌∙◌,
}
use roused.Lifecycle.{shutdown_poll_interval}
use roused.Lifecycle.Service.{ServiceLifecycle}
use roused.Lifecycle.Service.Attempt.{
  StopAttempt, ShutdownAttempt, ready, busy, begin_shutdown_attempt,
}
use roused.Lifecycle.Monitor.{
  CleanupEnd, runs, not_repeated, left_running, Poll, cleanup_service_at_shutdown,
}
use roused.Wake.{launching}

-- The polls of one loop, the first not before `from`, and each after a sleep of the poll interval.
abbrev pub Spaced : ℕ → List Poll → Type 0
Spaced from [] = Unit {0}
Spaced from (p ∷ ps) = (from ≤ p.now) × Spaced (p.now + shutdown_poll_interval) ps

pub attempt_cases :
    (r : ShutdownAttempt)
    → ((a : StopAttempt) × (r ≡ ready a)) ⊎ (r ≡ ShutdownAttempt.already_signalled) ⊎ (r ≡ busy)
attempt_cases (ready a) = inl (a, refl)
attempt_cases ShutdownAttempt.already_signalled = inr (inl refl)
attempt_cases busy = inr (inr refl)

-- One round: the loop ends there, or it is busy before the deadline and goes on.
poll_cases :
    (deadline : ℕ) (p : Poll) (ps : List Poll)
    → ((end : CleanupEnd) × (cleanup_service_at_shutdown deadline (p ∷ ps) ≡ some end))
      ⊎ ((cleanup_service_at_shutdown deadline (p ∷ ps) ≡ cleanup_service_at_shutdown deadline ps)
          × (p.now < deadline))
unfolding cleanup_service_at_shutdown
poll_cases deadline p ps = elim (attempt_cases (begin_shutdown_attempt p.seen).1) [
  | inl (a, e) ↦ inl (runs a, ground arith)
  | inr (inl e) ↦ inl (not_repeated, ground arith)
  | inr (inr e) ↦ elim (Bool-cases (leb deadline p.now)) [
    | inl late ↦ inl (left_running, ground arith)
    | inr early ↦ inr (ground arith, ground arith)
  ]
]

-- The cleanup of a service ends, whatever happens to the service meanwhile: when the polls are an
-- interval or more apart, and as many follow the first as there are intervals up to the deadline, it
-- has run its attempt, found the stop already made, or left the service running.
pub cleanup_ends :
    (deadline : ℕ) (p : Poll) (ps : List Poll)
    → Spaced (p.now + shutdown_poll_interval) ps
    → deadline ≤ p.now + length ps * shutdown_poll_interval
    → (end : CleanupEnd) × (cleanup_service_at_shutdown deadline (p ∷ ps) ≡ some end)
cleanup_ends deadline p [] s h = elim (poll_cases deadline p []) [
  | inl ends ↦ ends
  | inr (same, early) ↦ absurd (omega arith)
]
cleanup_ends deadline p (q ∷ qs) s h = elim (poll_cases deadline p (q ∷ qs)) [
  | inl ends ↦ ends
  | inr (same, early) ↦
      let (end, e) = cleanup_ends deadline q qs s.1 (omega (arith, s.0)) in (end, same ∙ e)
]

-- The service is quiet, and its generation has had no stop; how long it has been idle and when it was
-- last checked do not count.
pub record IsQuiet (s : ServiceLifecycle) : Type 0 where
  pub unused : s.in_flight ≡ 0
  pub no_attempt : s.attempt_in_progress ≡ false
  pub no_launch : s.wake_target.state ≢ launching
  pub not_stopped : s.stop_attempted_generation ≢ some s.generation

-- A poll finds the service quiet, after polls before the deadline that found it neither quiet nor
-- stopped, and the attempt is one of that service that asks for no idle interval.
pub data RunsAt (deadline : ℕ) (a : StopAttempt) : List Poll → Type 0 where
  at :
      (p : Poll) (ps : List Poll)
      → IsQuiet p.seen
      → a ≡ record {
        generation = p.seen.generation;
        can_stop_command = p.seen.can_stop_command;
        requires_idle_timeout = false;
      }
      → RunsAt deadline a (p ∷ ps)
  after :
      (p : Poll) (ps : List Poll)
      → ¬ IsQuiet p.seen
      → p.now < deadline
      → RunsAt deadline a ps
      → RunsAt deadline a (p ∷ ps)

ready-IsQuiet :
    (s : ServiceLifecycle) (a : StopAttempt)
    → (begin_shutdown_attempt s).1 ≡ ready a
    → IsQuiet s
      × (a ≡ record {
        generation = s.generation;
        can_stop_command = s.can_stop_command;
        requires_idle_timeout = false;
      })
unfolding begin_shutdown_attempt
ready-IsQuiet s a h = (
  record {
    unused = ground arith;
    no_attempt = ground arith;
    no_launch = ground arith;
    not_stopped = ground arith;
  },
  ground arith,
)

busy_unquiet : (s : ServiceLifecycle) → (begin_shutdown_attempt s).1 ≡ busy → ¬ IsQuiet s
unfolding begin_shutdown_attempt
busy_unquiet s h q = ground arith

-- If the cleanup of a service runs a stop attempt, then the first poll that finds the service quiet
-- begins it, and every poll before that one came before the deadline.
pub cleanup_runs_quiet :
    (deadline : ℕ) (a : StopAttempt) (ps : List Poll)
    → cleanup_service_at_shutdown deadline ps ≡ some (runs a)
    → RunsAt deadline a ps
unfolding cleanup_service_at_shutdown
cleanup_runs_quiet deadline a [] h = cc
cleanup_runs_quiet deadline a (p ∷ ps) h = elim (attempt_cases (begin_shutdown_attempt p.seen).1) [
  | inl (b, e) ↦ let (quiet, same) = ready-IsQuiet p.seen b e in at p ps quiet (ground arith)
  | inr (inl e) ↦ absurd (ground arith)
  | inr (inr e) ↦
      after p ps (busy_unquiet p.seen e) (ground arith)
        (cleanup_runs_quiet deadline a ps (ground arith))
]
