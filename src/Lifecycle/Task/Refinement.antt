-- ===== src/Lifecycle/Task/Refinement.antt =====
-- src/lifecycle.rs: what a service among all that acts on it promises. The specification only knows the
-- number of its users, where its stop is, and how many stops were sent.
use roused.Base.{
  ℕ, suc, ◌+◌, ◌-◌, ◌<◌, ◌≡◌, refl, ap, sym, ◌∙◌, ◌⊎◌, inl, inr, true, false, none, some, List, [],
  ◌∷◌, ◌++◌, length, arith, Bool, Bool-cases,
}
use roused.Lifecycle.Service.{ServiceLifecycle}
use roused.Lifecycle.Service.Attempt.{
  StopAttempt, StopCommandSpec, begin_stop_attempt_at, begin_shutdown_attempt,
  start_allowed_attempt_at, is_obsolete, stop_command_spec,
}
use roused.Lifecycle.Service.Attempt.Decision.{IsStill-sound}
use roused.Lifecycle.Task.{StopCheckOutcome, allowed, vetoed, timed_out, settle}
use roused.Lifecycle.Task.Safety.{Inv, IsNew, flag_set, Reach-Inv, start-Inv}
use roused.Wake.{WakeEvent}
use roused.Lifecycle.Task.World.{
  StopTask, checking, stopping, World, Step, arrive, acquire, release, launch, launch_end, scan,
  shutdown, check_end, stop_end, Reach, here, next, start,
}

-- Where the stop of the service is: nowhere, in its check, or in the stop command.
pub data Phase : Type 0 where
  free checks stops : Phase

pub record Spec : Type 0 where
  pub users : ℕ
  pub phase : Phase
  pub sent : ℕ

abbrev pub initial : Spec
initial = record { users = 0; phase = free; sent = 0 }

-- A stop is only sent after its check, and never while there is a user.
pub data Moves (p q : Spec) : Type 0 where
  stays : q ≡ p → Moves p q
  enters : q ≡ record p { users = p.users + 1 } → Moves p q
  leaves : 0 < p.users → q ≡ record p { users = p.users - 1 } → Moves p q
  begins : p.phase ≡ free → q ≡ record p { phase = checks } → Moves p q
  gives_up : p.phase ≡ checks → q ≡ record p { phase = free } → Moves p q
  sends :
      p.phase ≡ checks → p.users ≡ 0 → q ≡ record p { phase = stops; sent = suc p.sent } → Moves p q
  settles : p.phase ≡ stops → q ≡ record p { phase = free } → Moves p q

pub data Runs (p : Spec) : Spec → Type 0 where
  rests : Runs p p
  goes : {q r : Spec} → Runs p q → Moves q r → Runs p r

abbrev pub phase_of : List StopTask → Phase
phase_of [] = free
phase_of (checking a ∷ tasks) = checks
phase_of (stopping child ∷ tasks) = stops

abbrev pub abstraction : World → Spec
abstraction w = record { users = w.leases; phase = phase_of w.tasks; sent = length w.commands }

nil_of_length : {A : Type 0} (xs : List A) → length xs ≡ 0 → xs ≡ []
nil_of_length [] h = refl
nil_of_length (x ∷ xs) h = absurd (omega arith)

-- A task that is there is the only one.
only_task :
    (w : World) (before after : List StopTask) (t : StopTask)
    → Inv w
    → w.tasks ≡ before ++ t ∷ after
    → (before ≡ []) × (after ≡ [])
only_task w [] after t v e = (refl, nil_of_length after (flag_set w [] after t v e).1)
only_task w (x ∷ before) after t v e =
    absurd (omega (arith, (flag_set w (x ∷ before) after t v e).1))

phase_there :
    (w : World) (before after : List StopTask) (t : StopTask)
    → w.tasks ≡ before ++ t ∷ after
    → before ≡ []
    → phase_of w.tasks ≡ phase_of (t ∷ after)
phase_there w before after t e b = ap phase_of (e ∙ ap (λ l. l ++ t ∷ after) b)

no_task : (w : World) → Inv w → w.service.attempt_in_progress ≡ false → w.tasks ≡ []
no_task w v h = nil_of_length w.tasks (ground (arith, v.flagged))

-- The end of a check sends nothing and ends the task, or sends a stop that the task waits for.
settle_cases :
    (s : ServiceLifecycle) (a : StopAttempt) (o : StopCheckOutcome) (now : ℕ)
    (meanwhile : List WakeEvent) (spawns : Bool) (commands : List StopCommandSpec)
    → (((settle s a o now meanwhile spawns commands).1 ≡ none)
        × ((settle s a o now meanwhile spawns commands).2 ≡ commands))
      ⊎ ((s.in_flight ≡ 0)
          × ((settle s a o now meanwhile spawns commands).1 ≡ some (stop_command_spec s))
          × ((settle s a o now meanwhile spawns commands).2 ≡ stop_command_spec s ∷ commands))
unfolding settle start_allowed_attempt_at
settle_cases s a allowed now meanwhile true commands = elim (Bool-cases (is_obsolete s a now)) [
  | inl b ↦ inl (ground arith, ground arith)
  | inr b ↦ inr ((IsStill-sound s a now b).unused, ground arith, ground arith)
]
settle_cases s a allowed now meanwhile false commands = inl (ground arith, ground arith)
settle_cases s a vetoed now meanwhile spawns commands = inl (refl, refl)
settle_cases s a StopCheckOutcome.failed now meanwhile spawns commands = inl (refl, refl)
settle_cases s a timed_out now meanwhile spawns commands = inl (refl, refl)

step-Moves : {w u : World} → Inv w → Step w u → Moves (abstraction w) (abstraction u)
unfolding begin_stop_attempt_at begin_shutdown_attempt
step-Moves v (arrive now e) = stays (ap abstraction e)
step-Moves v (acquire s l h e) = enters (ap abstraction e)
step-Moves v (release now s p h e) = leaves p (ap abstraction e)
step-Moves v (launch now e) = stays (ap abstraction e)
step-Moves v (launch_end now e) = stays (ap abstraction e)
step-Moves {w} v (scan now s a h e) =
    begins (ap phase_of (no_task w v (ground arith))) (ap abstraction e)
step-Moves {w} v (shutdown s a h e) =
    begins (ap phase_of (no_task w v (ground arith))) (ap abstraction e)
step-Moves {w} v (check_end before after a run o now meanwhile spawns t h e) =
    let (b, c) = only_task w before after (checking a) v t in
    elim (settle_cases w.service a o now meanwhile spawns w.commands) [
      | inl (n, k) ↦
          gives_up (phase_there w before after (checking a) t b)
            (ap abstraction e ∙ rw (b, c, n, k) refl)
      | inr (z, n, k) ↦
          sends (phase_there w before after (checking a) t b) (sym v.counted ∙ z)
            (ap abstraction e ∙ rw (b, c, n, k) refl)
    ]
step-Moves {w} v (stop_end before after child t e) =
    let (b, c) = only_task w before after (stopping child) v t in
    settles (phase_there w before after (stopping child) t b) (ap abstraction e ∙ rw (b, c) refl)

reach-Runs :
    (s : ServiceLifecycle) {w : World} → IsNew s → Reach (start s) w → Runs initial (abstraction w)
unfolding start
reach-Runs s h here = rests
reach-Runs s h (next r step) =
    goes (reach-Runs s h r) (step-Moves (Reach-Inv r (start-Inv s h)) step)

-- A service refines the specification: what is reached from a new service, in every interleaving, is a
-- state that the specification reaches, and each further step is one of its moves or changes nothing of
-- it. Its moves send a stop only at the end of a check and without users, and end it before another check
-- begins.
pub service_refines :
    {w u : World} (s : ServiceLifecycle)
    → IsNew s
    → Reach (start s) w
    → Step w u
    → Runs initial (abstraction w) × Moves (abstraction w) (abstraction u)
service_refines s h r step = (reach-Runs s h r, step-Moves (Reach-Inv r (start-Inv s h)) step)
