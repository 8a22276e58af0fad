-- ===== src/Lifecycle/System.antt =====
-- src/lifecycle.rs: the idle monitor, the tasks that it spawns and all services, while requests, the
-- gate and the shutdown go on, as a step relation. `scan_at` and the first loop of
-- `cleanup_at_shutdown` go over the services one by one, and anything may happen between two of them.
-- The set of tasks is kept by service. A task that panics is left out.
pub mod Completed
pub mod Joined
pub mod OneDecision
pub mod Progress
pub mod Completes
pub mod Members
pub mod Work
mod Tests
use roused.Base.{
  ℕ, suc, ◌+◌, ◌≤◌, ◌≡◌, ◌==◌, Bool, true, false, Option, none, some, List, [], ◌∷◌, ◌++◌, All, map,
  get_elem?, set, if◌then◌else◌,
}
use roused.Lifecycle.{shutdown_drain_timeout}
use roused.Lifecycle.Gate
use roused.Lifecycle.Gate.{RequestGate, RequestAdmission}
use roused.Lifecycle.Monitor.{
  CleanupEnd, runs, not_repeated, left_running, cleanup_service_at_shutdown, spawns_cleanup,
}
use roused.Lifecycle.Service.{ServiceLifecycle}
use roused.Lifecycle.Service.Attempt.{StopAttempt, begin_stop_attempt_at, begin_shutdown_attempt}
use roused.Lifecycle.Shutdown
use roused.Lifecycle.Shutdown.{ShutdownCoordinator, is_running}
use roused.Lifecycle.Task.World
use roused.Lifecycle.Task.World.{StopTask, checking, scan, shutdown}

-- A service with its stop tasks, and the deadlines of its tasks `cleanup_service_at_shutdown` that
-- still poll.
pub record Member : Type 0 where
  pub world : World.World
  pub cleanups : List ℕ

-- Where the task of `start` is: at its `select!`, in `scan_at` of a time before the service at a
-- position, in the wait for the drain up to a deadline, before the cleanup of the service at a position,
-- at the join of its tasks, or at its end.
pub data MonitorPhase : Type 0 where
  waiting joining finished : MonitorPhase
  scanning : ℕ → ℕ → MonitorPhase
  draining : ℕ → MonitorPhase
  preparing : ℕ → ℕ → MonitorPhase

pub record System : Type 0 where
  pub shutdown : ShutdownCoordinator
  pub monitor : MonitorPhase
  pub members : List Member

abbrev pub gate : System → RequestGate
gate w = w.shutdown.request_gate

abbrev pub with_gate : System → RequestGate → System
with_gate w g = record w { shutdown = record (w.shutdown) { request_gate = g } }

abbrev pub spawned : Option StopAttempt → List StopTask → List StopTask
spawned none tasks = tasks
spawned (some a) tasks = checking a ∷ tasks

-- One round of the loop of `scan_at`.
unfoldable pub scan_member : ℕ → Member → Member
scan_member now m =
    let (s, attempt) = begin_stop_attempt_at m.world.service now in
    record m { world = record (m.world) { service = s; tasks = spawned attempt m.world.tasks } }

-- One round of the first loop of `cleanup_at_shutdown`.
unfoldable pub prepare_member : ℕ → Member → Member
prepare_member deadline m =
    if spawns_cleanup m.world.service then record m { cleanups = deadline ∷ m.cleanups } else m

abbrev pub attempt_of : CleanupEnd → Option StopAttempt
attempt_of (runs a) = some a
attempt_of not_repeated = none
attempt_of left_running = none

-- A task `cleanup_service_at_shutdown` ends its loop: it goes on with its attempt, or ends.
unfoldable pub end_cleanup : CleanupEnd → List ℕ → Member → Member
end_cleanup end others m = record {
  world = record (m.world) {
    service = (begin_shutdown_attempt m.world.service).0;
    tasks = spawned (attempt_of end) m.world.tasks;
  };
  cleanups = others;
}

-- `cleanup_at_shutdown` up to the wait for the drain.
unfoldable pub begin_cleanup : System → ℕ → System
unfolding Gate.close
begin_cleanup w now = record (with_gate w (Gate.close (gate w)).0) {
  monitor = draining (now + shutdown_drain_timeout);
}

-- Whether a step of one service is a decision of the monitor or of its cleanup.
abbrev pub by_monitor : {w u : World.World} → World.Step w u → Bool
by_monitor (scan now s a h e) = true
by_monitor (shutdown s a h e) = true
by_monitor _ = false

abbrev pub IsJoined : Member → Type 0
IsJoined m = (m.world.tasks ≡ []) × (m.cleanups ≡ [])

pub data Step (w u : System) : Type 0 where
  acts :
      (i : ℕ) (m : Member) (v : World.World) (st : World.Step m.world v)
      → get_elem? w.members i ≡ some m
      → by_monitor st ≡ false
      → u ≡ record w { members = set w.members i (record m { world = v }) }
      → Step w u
  admits :
      (g : RequestGate) (a : Option RequestAdmission)
      → Gate.admit (gate w) ≡ some (g, a)
      → u ≡ with_gate w g
      → Step w u
  leaves :
      (g : RequestGate) (notified : Bool)
      → Gate.release (gate w) ≡ some (g, notified)
      → u ≡ with_gate w g
      → Step w u
  requests : u ≡ record w { shutdown = (Shutdown.request w.shutdown).0 } → Step w u
  ticks : (now : ℕ) → w.monitor ≡ waiting → u ≡ record w { monitor = scanning now 0 } → Step w u
  scans :
      (now i : ℕ) (m : Member)
      → w.monitor ≡ scanning now i
      → get_elem? w.members i ≡ some m
      → u
        ≡ record w { monitor = scanning now (suc i); members = set w.members i (scan_member now m) }
      → Step w u
  scan_ends :
      (now i : ℕ)
      → w.monitor ≡ scanning now i
      → get_elem? w.members i ≡ none
      → u ≡ record w { monitor = waiting }
      → Step w u
  sees_request :
      (now : ℕ)
      → w.monitor ≡ waiting
      → is_running w.shutdown.phase ≡ false
      → u ≡ begin_cleanup w now
      → Step w u
  sees_shutdown :
      (now : ℕ)
      → w.monitor ≡ waiting
      → u ≡ begin_cleanup (record w { shutdown = (Shutdown.request w.shutdown).0 }) now
      → Step w u
  drains :
      (deadline : ℕ)
      → w.monitor ≡ draining deadline
      → (gate w).admitted ≡ 0
      → u ≡ record w { monitor = preparing deadline 0 }
      → Step w u
  gives_up :
      (deadline now : ℕ)
      → w.monitor ≡ draining deadline
      → deadline ≤ now
      → ((gate w).admitted == 0) ≡ false
      → u ≡ record w { monitor = joining }
      → Step w u
  prepares :
      (deadline i : ℕ) (m : Member)
      → w.monitor ≡ preparing deadline i
      → get_elem? w.members i ≡ some m
      → u ≡ record w {
        monitor = preparing deadline (suc i);
        members = set w.members i (prepare_member deadline m);
      }
      → Step w u
  prepare_ends :
      (deadline i : ℕ)
      → w.monitor ≡ preparing deadline i
      → get_elem? w.members i ≡ none
      → u ≡ record w { monitor = joining }
      → Step w u
  polls :
      (i : ℕ) (m : Member) (before after : List ℕ) (deadline now : ℕ) (end : CleanupEnd)
      → get_elem? w.members i ≡ some m
      → m.cleanups ≡ before ++ deadline ∷ after
      → cleanup_service_at_shutdown deadline (record { seen = m.world.service; now = now } ∷ [])
        ≡ some end
      → u ≡ record w { members = set w.members i (end_cleanup end (before ++ after) m) }
      → Step w u
  completes :
      w.monitor ≡ joining
      → All IsJoined w.members
      → u ≡ record w { shutdown = (Shutdown.complete w.shutdown).0; monitor = finished }
      → Step w u

pub data Reach (w : System) : System → Type 0 where
  here : Reach w w
  next : {u v : System} → Reach w u → Step u v → Reach w v

abbrev pub member_of : ServiceLifecycle → Member
member_of s = record { world = World.start s; cleanups = [] }

-- The system of `IdleMonitor::new`, with the coordinator of the gate.
unfoldable pub new : List ServiceLifecycle → RequestGate → System
unfolding Shutdown.new
new services g = record {
  shutdown = Shutdown.new g;
  monitor = waiting;
  members = map member_of services;
}
