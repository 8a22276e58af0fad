-- ===== src/Lifecycle/Service/Attempt/Decision.antt =====
-- src/lifecycle.rs, `begin_stop_attempt_at`, `begin_shutdown_attempt`, `start_allowed_attempt_at`:
-- when an attempt begins and when it goes through.
use roused.Base.{
  ℕ, ◌+◌, ◌-◌, ◌≤◌, ◌<◌, ◌≡◌, refl, ◌≢◌, ◌⊎◌, true, false, Option, none, some, List, arith,
  Bool-cases, Option-cases, inl, inr,
}
use roused.Lifecycle.{stop_check_retry}
use roused.Lifecycle.Service.{ServiceLifecycle}
use roused.Lifecycle.Service.Attempt.{
  StopAttempt, started, obsolete, failed, not_due, set_attempt, begin_stop_attempt_at,
  finish_vetoed_attempt_at, start_allowed_attempt_at, is_obsolete, after_start,
}
use roused.Wake.{launching, WakeEvent}

-- The service is quiet at `now`: nothing is in flight, no attempt runs, no launch is in progress, the
-- idle interval has passed, this generation has had no stop, and the retry of the last check is over.
pub record IsDue (s : ServiceLifecycle) (now : ℕ) : Type 0 where
  pub unused : s.in_flight ≡ 0
  pub no_attempt : s.attempt_in_progress ≡ false
  pub no_launch : s.wake_target.state ≢ launching
  pub idle : s.idle_timeout ≤ now - s.idle_since
  pub not_stopped : s.stop_attempted_generation ≢ some s.generation
  pub retry : (f : ℕ) → s.last_check_finished ≡ some f → stop_check_retry ≤ now - f

pub IsDue-sound : (s : ServiceLifecycle) (now : ℕ) → not_due s now ≡ false → IsDue s now
unfolding not_due
IsDue-sound s now h = record {
  unused = ground arith;
  no_attempt = ground arith;
  no_launch = ground arith;
  idle = ground arith;
  not_stopped = ground arith;
  retry = λ f e. ground arith;
}

pub IsDue-complete : (s : ServiceLifecycle) (now : ℕ) → IsDue s now → not_due s now ≡ false
unfolding not_due
IsDue-complete s now d = elim (Option-cases s.last_check_finished) [
  | inl e ↦ ground arith
  | inr (f, e) ↦ ground (arith, d.retry f e)
]

-- An idle scan begins an attempt when the service is due: the attempt records the generation and sets
-- the flag, and nothing else changes. When the service is not due, the scan begins none and changes
-- nothing.
pub begin_stop_attempt_at-IsDue :
    (s : ServiceLifecycle) (now : ℕ)
    → (IsDue s now
        × (begin_stop_attempt_at s now ≡ (
          set_attempt s true,
          some (record {
            generation = s.generation;
            can_stop_command = s.can_stop_command;
            requires_idle_timeout = true;
          }),
        )))
      ⊎ ((¬ IsDue s now) × (begin_stop_attempt_at s now ≡ (s, none)))
unfolding begin_stop_attempt_at
begin_stop_attempt_at-IsDue s now = elim (Bool-cases (not_due s now)) [
  | inl b ↦ inr (λ d. cc (b, IsDue-complete s now d), rw b)
  | inr b ↦ inl (IsDue-sound s now b, rw b)
]

-- When the attempt looks again, nothing has happened since it began that forbids the stop.
pub record IsStill (s : ServiceLifecycle) (a : StopAttempt) (now : ℕ) : Type 0 where
  pub same_generation : s.generation ≡ a.generation
  pub unused : s.in_flight ≡ 0
  pub no_launch : s.wake_target.state ≢ launching
  pub idle : a.requires_idle_timeout ≡ true → s.idle_timeout ≤ now - s.idle_since

pub IsStill-sound :
    (s : ServiceLifecycle) (a : StopAttempt) (now : ℕ)
    → is_obsolete s a now ≡ false
    → IsStill s a now
unfolding is_obsolete
IsStill-sound s a now h = record {
  same_generation = ground arith;
  unused = ground arith;
  no_launch = ground arith;
  idle = λ r. ground arith;
}

pub IsStill-complete :
    (s : ServiceLifecycle) (a : StopAttempt) (now : ℕ)
    → IsStill s a now
    → is_obsolete s a now ≡ false
unfolding is_obsolete
IsStill-complete s a now d = ground arith

-- The start of the stop: if nothing has happened since, it calls `start_stop` once, in its
-- surroundings, and the outcome is the child, or a failure if the command could not be spawned.
-- Otherwise the command is not touched (the surroundings are as before) and the attempt is over.
pub start_outcome {ℓ κ} :
    {E : Type κ} {T : Type ℓ} (s : ServiceLifecycle) (a : StopAttempt) (now : ℕ)
    (meanwhile : List WakeEvent) (start_stop : E → Option T × E) (e : E)
    → (IsStill s a now
        × ((start_allowed_attempt_at s a now meanwhile start_stop e).2 ≡ (start_stop e).1)
        × (((c : T) × ((start_stop e).0 ≡ some c)
              × ((start_allowed_attempt_at s a now meanwhile start_stop e).1 ≡ started c))
            ⊎ (((start_stop e).0 ≡ none)
                × ((start_allowed_attempt_at s a now meanwhile start_stop e).1 ≡ failed))))
      ⊎ ((¬ IsStill s a now)
          × (start_allowed_attempt_at s a now meanwhile start_stop e
              ≡ (set_attempt s false, obsolete, e)))
unfolding start_allowed_attempt_at
start_outcome s a now meanwhile start_stop e = elim (Bool-cases (is_obsolete s a now)) [
  | inl b ↦ inr (λ d. cc (b, IsStill-complete s a now d), rw b)
  | inr b ↦ elim (Option-cases (start_stop e).0) [
    | inl n ↦ inl (IsStill-sound s a now b, rw b, inr (n, rw (b, n, after_start) refl))
    | inr (c, h) ↦ inl (IsStill-sound s a now b, rw b, inl (c, h, rw (b, h, after_start) refl))
  ]
]

pub obsolete_start {ℓ κ} :
    {E : Type κ} {T : Type ℓ} (s : ServiceLifecycle) (a : StopAttempt) (now : ℕ)
    (meanwhile : List WakeEvent) (start_stop : E → Option T × E) (e : E)
    → ¬ IsStill s a now
    → start_allowed_attempt_at s a now meanwhile start_stop e ≡ (set_attempt s false, obsolete, e)
obsolete_start s a now meanwhile start_stop e n =
    elim (start_outcome s a now meanwhile start_stop e) [
      | inl (d, m, o) ↦ absurd (n d)
      | inr (m, same) ↦ same
    ]

-- A vetoed, failed or timed-out check at `f`, with no activity since the attempt began, holds the
-- idle scans back until 30 seconds after `f`; from then on the service is due again if it has been
-- idle for long enough, no launch runs and its generation has had no stop.
pub veto_retry :
    (s : ServiceLifecycle) (a : StopAttempt) (f early late : ℕ)
    → s.generation ≡ a.generation
    → s.in_flight ≡ 0
    → s.wake_target.state ≢ launching
    → s.stop_attempted_generation ≢ some s.generation
    → s.idle_timeout ≤ late - s.idle_since
    → early < f + stop_check_retry
    → f + stop_check_retry ≤ late
    → (begin_stop_attempt_at (finish_vetoed_attempt_at s a f) early
        ≡ (finish_vetoed_attempt_at s a f, none))
      × ((begin_stop_attempt_at (finish_vetoed_attempt_at s a f) late).1
          ≡ some (record {
            generation = s.generation;
            can_stop_command = s.can_stop_command;
            requires_idle_timeout = true;
          }))
unfolding begin_stop_attempt_at finish_vetoed_attempt_at
veto_retry s a f early late g u l n i h k = (ground arith, ground arith)
