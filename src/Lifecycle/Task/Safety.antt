-- ===== src/Lifecycle/Task/Safety.antt =====
-- src/lifecycle.rs: what holds of a service in every interleaving.
use roused.Base.{
  ℕ, ◌+◌, ◌≤◌, ◌≡◌, refl, ◌⊎◌, inl, inr, ap, Bool, true, false, Option, none, some, List, ◌∷◌, ◌++◌,
  length, length-middle, arith, if◌then◌else◌, Bool-cases, ◌↔◌, ◌==◌,
}
use roused.Base.Text.{Text}
use roused.Lifecycle.Service.Lease.{ended}
use roused.Lifecycle.Service.Attempt.Decision.{IsStill, IsStill-sound}
use roused.Wake.{WakeTarget, WakeEvent}
use roused.Lifecycle.Service.{
  ServiceLifecycle, new_at, note_request_arrival_at, acquire_at, release_at,
}
use roused.Lifecycle.Service.Attempt.{
  StopAttempt, StopCommandSpec, begin_stop_attempt_at, begin_shutdown_attempt,
  finish_started_stop_command, finish_vetoed_attempt_at, start_allowed_attempt_at, is_obsolete,
  stop_command_spec,
}
use roused.Lifecycle.Task.{StopCheckOutcome, allowed, vetoed, timed_out, settle}
use roused.Lifecycle.Task.World.{
  StopTask, checking, stopping, World, waiting_for, Step, arrive, acquire, release, launch,
  launch_end, scan, shutdown, check_end, stop_end, Reach, here, next, start,
}

abbrev pub count_of : Bool → ℕ
count_of b = if b then 1 else 0

abbrev count_some : Option StopCommandSpec → ℕ
count_some none = 0
count_some (some c) = 1

-- The count of the service is that of the leases, and the flag counts the tasks.
pub record Inv (w : World) : Type 0 where
  pub counted : w.service.in_flight ≡ w.leases
  pub flagged : length w.tasks ≡ count_of w.service.attempt_in_progress

-- While an attempt runs, its check ends in a wait for the stop command, with the flag set, or in the
-- end of the task, with the flag cleared; no lease is touched.
settle_flag :
    (s : ServiceLifecycle) (a : StopAttempt) (o : StopCheckOutcome) (now : ℕ)
    (meanwhile : List WakeEvent) (spawns : Bool) (commands : List StopCommandSpec)
    → s.attempt_in_progress ≡ true
    → (count_of (settle s a o now meanwhile spawns commands).0.attempt_in_progress
        ≡ count_some (settle s a o now meanwhile spawns commands).1)
      × ((settle s a o now meanwhile spawns commands).0.in_flight ≡ s.in_flight)
unfolding settle start_allowed_attempt_at finish_vetoed_attempt_at
settle_flag s a allowed now meanwhile true commands h = ground arith
settle_flag s a allowed now meanwhile false commands h = ground arith
settle_flag s a vetoed now meanwhile spawns commands h = ground arith
settle_flag s a StopCheckOutcome.failed now meanwhile spawns commands h = ground arith
settle_flag s a timed_out now meanwhile spawns commands h = ground arith

length-waiting_for :
    (before : List StopTask) (c : Option StopCommandSpec) (after : List StopTask)
    → length (before ++ waiting_for c after) ≡ length (before ++ after) + count_some c
length-waiting_for before none after = omega arith
length-waiting_for before (some c) after = length-middle before (stopping c) after

-- A task that is there shows in the flag.
pub flag_set :
    (w : World) (before after : List StopTask) (t : StopTask)
    → Inv w
    → w.tasks ≡ before ++ t ∷ after
    → (w.service.attempt_in_progress ≡ true) × (length (before ++ after) ≡ 0)
flag_set w before after t v e =
    let m = length-middle before t after in
    let l : length w.tasks ≡ length (before ++ t ∷ after) = ap length e in ground (arith, v.flagged)

Step-Inv : {w u : World} → Step w u → Inv w → Inv u
unfolding note_request_arrival_at acquire_at release_at begin_stop_attempt_at begin_shutdown_attempt
    finish_started_stop_command
Step-Inv (arrive now e) v = ground arith
Step-Inv (acquire s l h e) v = ground arith
Step-Inv (release now s p h e) v = ground arith
Step-Inv (launch now e) v = ground arith
Step-Inv (launch_end now e) v = ground arith
Step-Inv (scan now s a h e) v = ground arith
Step-Inv (shutdown s a h e) v = ground arith
Step-Inv {w} (check_end before after a run o now meanwhile spawns t h e) v =
    let (set, none_else) = flag_set w before after (checking a) v t in
    let (flag, kept) = settle_flag w.service a o now meanwhile spawns w.commands set in
    ground (
      arith,
      length-waiting_for before (settle w.service a o now meanwhile spawns w.commands).1 after,
    )
Step-Inv {w} (stop_end before after child t e) v =
    ground (arith, flag_set w before after (stopping child) v t)

pub Reach-Inv : {w u : World} → Reach w u → Inv w → Inv u
Reach-Inv here v = v
Reach-Inv (next r st) v = Step-Inv st (Reach-Inv r v)

-- A service as the gateway makes it, with nothing in flight and no attempt.
abbrev pub IsNew : ServiceLifecycle → Type 0
IsNew s = (s.in_flight ≡ 0) × (s.attempt_in_progress ≡ false) × (s.stop_attempted_generation ≡ none)

pub new_at-IsNew :
    (label : Text) (user idle : ℕ) (command : Option (List Text)) (wake : WakeTarget) (now : ℕ)
    → IsNew (new_at label user idle command wake now)
unfolding new_at
new_at-IsNew label user idle command wake now = (refl, refl, refl)

pub start-Inv : (s : ServiceLifecycle) → IsNew s → Inv (start s)
unfolding start
start-Inv s h = ground arith

-- From a new service, in every interleaving of requests, launches, scans, shutdown and stop tasks: the
-- in-flight count is the number of leases that are out, at most one stop attempt runs, its flag is set
-- exactly while one does, and the release of a lease that is out does not panic.
pub service_accounting :
    {w : World} (s : ServiceLifecycle) (now : ℕ)
    → IsNew s
    → Reach (start s) w
    → (w.service.in_flight ≡ w.leases)
      × (length w.tasks ≤ 1)
      × ((w.service.attempt_in_progress ≡ true) ↔ (length w.tasks ≡ 1))
      × ((w.leases ≡ 0) ⊎ ((t : ServiceLifecycle) × (release_at w.service now ≡ some t)))
unfolding release_at
service_accounting {w} s now h r =
    let v = Reach-Inv r (start-Inv s h) in
    (
      v.counted,
      ground (arith, v.flagged),
      ground (arith, v.flagged),
      elim (Bool-cases (w.leases == 0)) [
        | inl z ↦ inl (ground arith)
        | inr p ↦ inr (ended w.service now, ground (arith, v.counted))
      ],
    )

-- The step from `w` to `u` sends a stop: its attempt had begun, nothing has happened until it looks
-- again that forbids it, and the command is the fixed one for the service's own label.
pub record SendsStop (w u : World) : Type 0 where
  pub attempt : StopAttempt
  pub now : ℕ
  pub before : List StopTask
  pub after : List StopTask
  pub begun : w.tasks ≡ before ++ checking attempt ∷ after
  pub still : IsStill w.service attempt now
  pub sent : u.commands ≡ stop_command_spec w.service ∷ w.commands

settle_sends :
    (s : ServiceLifecycle) (a : StopAttempt) (o : StopCheckOutcome) (now : ℕ)
    (meanwhile : List WakeEvent) (spawns : Bool) (commands : List StopCommandSpec)
    → ((settle s a o now meanwhile spawns commands).2 ≡ commands)
      ⊎ (IsStill s a now
          × ((settle s a o now meanwhile spawns commands).2 ≡ stop_command_spec s ∷ commands))
unfolding settle start_allowed_attempt_at
settle_sends s a allowed now meanwhile true commands = elim (Bool-cases (is_obsolete s a now)) [
  | inl b ↦ inl (ground arith)
  | inr b ↦ inr (IsStill-sound s a now b, ground arith)
]
settle_sends s a allowed now meanwhile false commands = inl (ground arith)
settle_sends s a vetoed now meanwhile spawns commands = inl refl
settle_sends s a StopCheckOutcome.failed now meanwhile spawns commands = inl refl
settle_sends s a timed_out now meanwhile spawns commands = inl refl

Step-commands : {w u : World} → Step w u → (u.commands ≡ w.commands) ⊎ SendsStop w u
Step-commands (arrive now e) = inl (ground arith)
Step-commands (acquire s l h e) = inl (ground arith)
Step-commands (release now s p h e) = inl (ground arith)
Step-commands (launch now e) = inl (ground arith)
Step-commands (launch_end now e) = inl (ground arith)
Step-commands (scan now s a h e) = inl (ground arith)
Step-commands (shutdown s a h e) = inl (ground arith)
Step-commands {w} (check_end before after a run o now meanwhile spawns t h e) =
    elim (settle_sends w.service a o now meanwhile spawns w.commands) [
      | inl same ↦ inl (ground arith)
      | inr (still, sent) ↦ inr (record {
        attempt = a;
        now = now;
        before = before;
        after = after;
        begun = t;
        still = still;
        sent = ground arith;
      })
    ]
Step-commands (stop_end before after child t e) = inl (ground arith)

-- In every interleaving from a new service, a step spawns no stop command, or it spawns the one of the
-- service's own label; it does so only for an attempt that had begun, at a time when no lease is out,
-- the generation is that of the attempt and, for an attempt of the idle scan, the idle interval has
-- passed, and after it has found no launch in progress (one may start while the command is spawned).
pub stop_only_when_quiet :
    {w u : World} (s : ServiceLifecycle)
    → IsNew s
    → Reach (start s) w
    → Step w u
    → (u.commands ≡ w.commands) ⊎ (SendsStop w u × (w.leases ≡ 0))
stop_only_when_quiet {w} s h r st = elim (Step-commands st) [
  | inl same ↦ inl same
  | inr sends ↦
      let v = Reach-Inv r (start-Inv s h) in
      inr (sends, omega (arith, v.counted, sends.still.unused))
]
