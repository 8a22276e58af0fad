-- ===== src/Lifecycle/Task/Command.antt =====
-- src/lifecycle.rs: the check command of an attempt is that of its service, so that one which
-- validation accepts never makes `run_stop_attempt` panic.
use roused.Base.{
  ℕ, ◌≡◌, refl, Bool, true, false, Option, none, some, List, [], ◌∷◌, ◌++◌, All, Option-cases, inl,
  inr, arith,
}
use roused.Base.Text.{Text}
use roused.Lifecycle.{stop_check_timeout}
use roused.Lifecycle.Service.{ServiceLifecycle, note_request_arrival_at, acquire_at, release_at}
use roused.Lifecycle.Service.Attempt.{
  StopAttempt, StopCommandSpec, begin_stop_attempt_at, begin_shutdown_attempt,
  finish_started_stop_command, finish_vetoed_attempt_at, start_allowed_attempt_at, stop_check_spec,
  StopCheckSpec,
}
use roused.Lifecycle.Task.{
  StopCheckOutcome, allowed, vetoed, timed_out, settle, check_outcome, run_stop_check,
}
use roused.Wake.{WakeEvent}
use roused.Lifecycle.Task.World.{
  StopTask, checking, stopping, World, waiting_for, Step, arrive, acquire, release, launch,
  launch_end, scan, shutdown, check_end, stop_end, Reach, here, next, start,
}
use roused.Process.{Run}

abbrev IsFor : Option (List Text) → StopTask → Type 0
IsFor command (checking a) = a.can_stop_command ≡ command
IsFor command (stopping child) = Unit

record Inv (command : Option (List Text)) (w : World) : Type 0 where
  kept : w.service.can_stop_command ≡ command
  tasks : All (IsFor command) w.tasks

settle-command :
    (s : ServiceLifecycle) (a : StopAttempt) (o : StopCheckOutcome) (now : ℕ)
    (meanwhile : List WakeEvent) (spawns : Bool) (commands : List StopCommandSpec)
    → (settle s a o now meanwhile spawns commands).0.can_stop_command ≡ s.can_stop_command
unfolding settle start_allowed_attempt_at finish_vetoed_attempt_at
settle-command s a allowed now meanwhile true commands = ground arith
settle-command s a allowed now meanwhile false commands = ground arith
settle-command s a vetoed now meanwhile spawns commands = ground arith
settle-command s a StopCheckOutcome.failed now meanwhile spawns commands = ground arith
settle-command s a timed_out now meanwhile spawns commands = ground arith

All-replace :
    (command : Option (List Text)) (before : List StopTask) (t : StopTask)
    (c : Option StopCommandSpec) (after : List StopTask)
    → All (IsFor command) (before ++ t ∷ after)
    → All (IsFor command) (before ++ waiting_for c after)
All-replace command [] t none after h = h.1
All-replace command [] t (some child) after h = (tt, h.1)
All-replace command (x ∷ before) t c after h = (h.0, All-replace command before t c after h.1)

All-middle :
    (command : Option (List Text)) (before : List StopTask) (a : StopAttempt)
    (after : List StopTask)
    → All (IsFor command) (before ++ checking a ∷ after)
    → a.can_stop_command ≡ command
All-middle command [] a after h = h.0
All-middle command (x ∷ before) a after h = All-middle command before a after h.1

Step-Inv : {w u : World} (command : Option (List Text)) → Step w u → Inv command w → Inv command u
unfolding note_request_arrival_at acquire_at release_at begin_stop_attempt_at begin_shutdown_attempt
    finish_started_stop_command
Step-Inv command (arrive now e) v = rw e (record { kept = v.kept; tasks = v.tasks })
Step-Inv command (acquire s l f e) v =
    rw e (record { kept = ground (arith, v.kept); tasks = v.tasks })
Step-Inv command (release now s p f e) v =
    rw e (record { kept = ground (arith, v.kept); tasks = v.tasks })
Step-Inv command (launch now e) v = rw e (record { kept = v.kept; tasks = v.tasks })
Step-Inv command (launch_end now e) v = rw e (record { kept = v.kept; tasks = v.tasks })
Step-Inv command (scan now s a f e) v =
    rw e (record { kept = ground (arith, v.kept); tasks = (ground (arith, v.kept), v.tasks) })
Step-Inv command (shutdown s a f e) v =
    rw e (record { kept = ground (arith, v.kept); tasks = (ground (arith, v.kept), v.tasks) })
Step-Inv {w} command (check_end before after a run o now meanwhile spawns f c e) v = rw e (record {
  kept = rw (settle-command w.service a o now meanwhile spawns w.commands) v.kept;
  tasks = All-replace command before (checking a) _ after (rw f at v.tasks);
})
Step-Inv {w} command (stop_end before after child f e) v = rw e (record {
  kept = v.kept;
  tasks = All-replace command before (stopping child) none after (rw f at v.tasks);
})

Reach-Inv : (s : ServiceLifecycle) {w : World} → Reach (start s) w → Inv s.can_stop_command w
unfolding start
Reach-Inv s here = record { kept = refl; tasks = tt }
Reach-Inv s (next r st) = Step-Inv s.can_stop_command st (Reach-Inv s r)

-- A command that `validate_command` accepts is not empty.
abbrev pub HasProgram : Option (List Text) → Type 0
HasProgram none = Unit
HasProgram (some []) = ⊥
HasProgram (some (program ∷ arguments)) = Unit

outcome_of :
    (a : StopAttempt) (run : Run)
    → HasProgram a.can_stop_command
    → (outcome : StopCheckOutcome) × (check_outcome a run ≡ some outcome)
unfolding check_outcome stop_check_spec
outcome_of a run c = elim (Option-cases a.can_stop_command) [
  | inl e ↦ (allowed, ground arith)
  | inr ([], e) ↦ absurd (rw e at c)
  | inr (program ∷ arguments, e) ↦
      let spec : StopCheckSpec = record {
        program = program;
        arguments = arguments;
        timeout = stop_check_timeout;
      } in
      (run_stop_check spec run, ground arith)
]

-- From a service whose check command is not empty, in every interleaving, the check of an attempt has
-- an outcome, whatever the child process does: `run_stop_attempt` does not panic.
pub check_never_panics :
    {w : World} (s : ServiceLifecycle) (before after : List StopTask) (a : StopAttempt) (run : Run)
    → HasProgram s.can_stop_command
    → Reach (start s) w
    → w.tasks ≡ before ++ checking a ∷ after
    → (outcome : StopCheckOutcome) × (check_outcome a run ≡ some outcome)
check_never_panics s before after a run c r e =
    let v = Reach-Inv s r in
    let same = All-middle s.can_stop_command before a after (rw e at v.tasks) in
    outcome_of a run (rw same c)
