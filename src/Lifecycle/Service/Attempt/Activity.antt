-- ===== src/Lifecycle/Service/Attempt/Activity.antt =====
-- src/lifecycle.rs: request activity between the decision to stop and the start of the stop command.
use roused.Base.{
  ℕ, ◌+◌, ◌%◌, ◌<◌, ◌≡◌, false, Option, some, List, [], ◌∷◌, ◌>>=◌, arith, Option-cases, inl, inr,
  sym, ◌∙◌,
}
use roused.Base.Machine.{u64_mod, wrapping_ne}
use roused.Lifecycle.Service.{ServiceLifecycle, note_request_arrival_at, acquire_at, release_at}
use roused.Lifecycle.Service.Attempt.{
  StopAttempt, obsolete, set_attempt, begin_stop_attempt_at, begin_shutdown_attempt,
  start_allowed_attempt_at, ready,
}
use roused.Lifecycle.Service.Attempt.Decision.{obsolete_start}
use roused.Wake.{request_launch_at, launch_finished_at, WakeEvent}

-- What the proxy and the launcher do with a service while its stop attempt waits for the check.
pub data Event : Type 0 where
  arrives : ℕ → Event
  acquires : Event
  releases : ℕ → Event
  launches : ℕ → Event
  launch_ends : ℕ → Event

abbrev on_wake : ServiceLifecycle → Event → ServiceLifecycle
on_wake s (launches now) = record s { wake_target = (request_launch_at s.wake_target now).0 }
on_wake s (launch_ends now) = record s { wake_target = launch_finished_at s.wake_target now }
on_wake s _ = s

unfoldable pub step : ServiceLifecycle → Event → Option ServiceLifecycle
step s (arrives now) = some (note_request_arrival_at s now)
step s acquires = do (s', lease) ← acquire_at s; some s'
step s (releases now) = release_at s now
step s e = some (on_wake s e)

unfoldable pub run : ServiceLifecycle → List Event → Option ServiceLifecycle
run s [] = some s
run s (e ∷ es) = do s' ← step s e; run s' es

-- Whether the event is request activity.
abbrev activity : Event → ℕ
activity (launches now) = 0
activity (launch_ends now) = 0
activity _ = 1

abbrev pub activities : List Event → ℕ
activities [] = 0
activities (e ∷ es) = activity e + activities es

step-generation :
    (s s' : ServiceLifecycle) (e : Event)
    → step s e ≡ some s'
    → s.generation < u64_mod
    → (s'.generation ≡ (s.generation + activity e) % u64_mod) × (s'.generation < u64_mod)
unfolding step note_request_arrival_at acquire_at release_at
step-generation s s' (arrives now) h g = ground arith
step-generation s s' acquires h g = ground arith
step-generation s s' (releases now) h g = ground arith
step-generation s s' (launches now) h g = ground arith
step-generation s s' (launch_ends now) h g = ground arith

run-generation :
    (s s' : ServiceLifecycle) (es : List Event)
    → run s es ≡ some s'
    → s.generation < u64_mod
    → s'.generation ≡ (s.generation + activities es) % u64_mod
unfolding run
run-generation s s' [] h g = ground arith
run-generation s s' (e ∷ es) h g = elim (Option-cases (step s e)) [
  | inl n ↦ ground arith
  | inr (t, q) ↦
      let (m, l) = step-generation s t e q g in
      ground (arith, run-generation t s' es (ground arith) l)
]

-- If a request arrived, a lease was taken or a lease ended since the attempt began, which recorded the
-- generation of the service then, among any launch events and fewer than 2^64 such activities, then
-- the decision to stop is discarded: `start_stop` is not called, the surroundings are as before, and
-- the attempt is over.
pub activity_discards {ℓ κ} :
    {E : Type κ} {T : Type ℓ} (s s' : ServiceLifecycle) (a : StopAttempt) (es : List Event)
    (now : ℕ) (meanwhile : List WakeEvent) (start_stop : E → Option T × E) (e : E)
    → s.generation < u64_mod
    → a.generation ≡ s.generation
    → run s es ≡ some s'
    → 0 < activities es
    → activities es < u64_mod
    → start_allowed_attempt_at s' a now meanwhile start_stop e ≡ (set_attempt s' false, obsolete, e)
activity_discards s s' a es now meanwhile start_stop e g same h p q =
    obsolete_start s' a now meanwhile start_stop e λ still.
      wrapping_ne s.generation (activities es) g p q
        (sym (run-generation s s' es h g) ∙ (still.same_generation ∙ same))

-- Both ways to begin an attempt record the generation of the service at that time.
pub begin-generation :
    (s : ServiceLifecycle) (now : ℕ) (a : StopAttempt)
    → ((begin_stop_attempt_at s now).1 ≡ some a → a.generation ≡ s.generation)
      × ((begin_shutdown_attempt s).1 ≡ ready a → a.generation ≡ s.generation)
unfolding begin_stop_attempt_at begin_shutdown_attempt
begin-generation s now a = (λ h. ground arith, λ h. ground arith)
