-- ===== src/Lifecycle/Task/World.antt =====
-- src/lifecycle.rs: one service among everything that acts on it, as a step relation. Its surroundings
-- are the requests (arrivals, leases), the launcher, the idle scan, the shutdown cleanup, and the tasks
-- of the stop attempts, in any interleaving.
use roused.Base.{ℕ, ◌+◌, ◌-◌, ◌<◌, ◌≡◌, Bool, Option, none, some, List, [], ◌∷◌, ◌++◌}
use roused.Lifecycle.Service.{
  ServiceLifecycle, ServiceLease, note_request_arrival_at, acquire_at, release_at,
}
use roused.Lifecycle.Service.Attempt.{
  StopAttempt, ready, StopCommandSpec, begin_stop_attempt_at, begin_shutdown_attempt,
  finish_started_stop_command,
}
use roused.Lifecycle.Task.{StopCheckOutcome, check_outcome, settle}
use roused.Process.{Run}
use roused.Wake.{request_launch_at, launch_finished_at, WakeEvent}

-- Where the task of an attempt waits: for the check, or for the stop command.
pub data StopTask : Type 0 where
  checking : StopAttempt → StopTask
  stopping : StopCommandSpec → StopTask

-- A service, the leases on it that are not released, the tasks of its attempts, and the stop commands
-- that were spawned, newest first.
pub record World : Type 0 where
  pub service : ServiceLifecycle
  pub leases : ℕ
  pub tasks : List StopTask
  pub commands : List StopCommandSpec

abbrev pub waiting_for : Option StopCommandSpec → List StopTask → List StopTask
waiting_for none ts = ts
waiting_for (some child) ts = stopping child ∷ ts

pub data Step (w u : World) : Type 0 where
  arrive : (now : ℕ) → u ≡ record w { service = note_request_arrival_at w.service now } → Step w u
  acquire :
      (s : ServiceLifecycle) (l : ServiceLease)
      → acquire_at w.service ≡ some (s, l)
      → u ≡ record w { service = s; leases = w.leases + 1 }
      → Step w u
  release :
      (now : ℕ) (s : ServiceLifecycle)
      → 0 < w.leases
      → release_at w.service now ≡ some s
      → u ≡ record w { service = s; leases = w.leases - 1 }
      → Step w u
  launch :
      (now : ℕ)
      → u ≡ record w {
        service = record (w.service) {
          wake_target = (request_launch_at w.service.wake_target now).0;
        };
      }
      → Step w u
  launch_end :
      (now : ℕ)
      → u ≡ record w {
        service = record (w.service) { wake_target = launch_finished_at w.service.wake_target now };
      }
      → Step w u
  scan :
      (now : ℕ) (s : ServiceLifecycle) (a : StopAttempt)
      → begin_stop_attempt_at w.service now ≡ (s, some a)
      → u ≡ record w { service = s; tasks = checking a ∷ w.tasks }
      → Step w u
  shutdown :
      (s : ServiceLifecycle) (a : StopAttempt)
      → begin_shutdown_attempt w.service ≡ (s, ready a)
      → u ≡ record w { service = s; tasks = checking a ∷ w.tasks }
      → Step w u
  check_end :
      (before after : List StopTask) (a : StopAttempt) (run : Run) (outcome : StopCheckOutcome)
      (now : ℕ) (meanwhile : List WakeEvent) (spawns : Bool)
      → w.tasks ≡ before ++ checking a ∷ after
      → check_outcome a run ≡ some outcome
      → u ≡ record w {
        service = (settle w.service a outcome now meanwhile spawns w.commands).0;
        tasks =
            before
            ++ waiting_for (settle w.service a outcome now meanwhile spawns w.commands).1 after;
        commands = (settle w.service a outcome now meanwhile spawns w.commands).2;
      }
      → Step w u
  stop_end :
      (before after : List StopTask) (child : StopCommandSpec)
      → w.tasks ≡ before ++ stopping child ∷ after
      → u ≡ record w { service = finish_started_stop_command w.service; tasks = before ++ after }
      → Step w u

pub data Reach (w : World) : World → Type 0 where
  here : Reach w w
  next : {u v : World} → Reach w u → Step u v → Reach w v

-- A service at the start of the gateway.
unfoldable pub start : ServiceLifecycle → World
start s = record { service = s; leases = 0; tasks = []; commands = [] }
