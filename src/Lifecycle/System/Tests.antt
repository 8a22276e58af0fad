-- ===== src/Lifecycle/System/Tests.antt =====
-- src/lifecycle.rs: a system with one service, from the start over a scan to the end of its shutdown.
use roused.Base.{◌+◌, ◌≤◌, ◌≡◌, refl, true, false, none, some, [], ◌∷◌, All}
use roused.Base.Text.{codes}
use roused.Lifecycle.Gate
use roused.Lifecycle.Service.{ServiceLifecycle}
use roused.Lifecycle.Service.Attempt.{
  StopAttempt, begin_shutdown_attempt, begin_stop_attempt_at, prepare_shutdown, set_attempt,
  not_due, stop_check_spec, finish_vetoed_attempt_at,
}
use roused.Lifecycle.Shutdown
use roused.Lifecycle.System.OneDecision.{cleanups, decisions, one_decision}
use roused.Lifecycle.Shutdown.{ShutdownCoordinator, completed, requested}
use roused.Lifecycle.Monitor.{runs, cleanup_service_at_shutdown, spawns_cleanup}
use roused.Lifecycle.System.{
  System, Member, scanning, joining, finished, Step, Reach, here, next, new, acts, ticks, scans,
  scan_ends, sees_shutdown, drains, prepares, prepare_ends, completes, IsJoined, gate,
  begin_cleanup, scan_member, prepare_member, end_cleanup, polls,
}
use roused.Lifecycle.System.Completed.{sent, shutdown_completed}
use roused.Lifecycle.System.Work.{is_joining, ends, total, join_bounded}
use roused.Lifecycle.Task.{check_outcome, vetoed, settle, run_stop_check}
use roused.Lifecycle.Task.World
use roused.Net.{v4}
use roused.Process.{exited}
use roused.Process
use roused.Wake.{eligible, launch_in_progress}

-- A new service that may be stopped at once.
abbrev service : ServiceLifecycle
service = record {
  launchd_label = codes "dev.local.api";
  user_id = 501;
  idle_timeout = 0;
  can_stop_command = some (codes "/bin/check" ∷ []);
  wake_target = record {
    upstream = record { ip = v4 127 0 0 1; port = 8_080; scope_id = 0 };
    launchd_label = codes "dev.local.api";
    user_id = 501;
    state = eligible;
  };
  state = record {
    in_flight = 0;
    last_completed = 0;
    idle_since = 0;
    generation = 0;
    attempt_in_progress = false;
    last_check_finished = none;
    stop_attempted_generation = none;
  };
}

abbrev first : System
first = new (service ∷ []) Gate.new

-- The service as the scan leaves it, with a check that waits.
abbrev attempt : StopAttempt
attempt = record {
  generation = 0;
  can_stop_command = service.can_stop_command;
  requires_idle_timeout = true;
}

abbrev scanned : System
scanned = record {
  shutdown = Shutdown.new Gate.new;
  monitor = scanning 1 1;
  members =
      record {
        world = record {
          service = set_attempt service true;
          leases = 0;
          tasks = World.checking attempt ∷ [];
          commands = [];
        };
        cleanups = [];
      }
      ∷ [];
}

scanned_reach : Reach first scanned
unfolding new scan_member begin_stop_attempt_at not_due launch_in_progress World.start Shutdown.new
    Gate.new
scanned_reach = next (next here (ticks 1 refl refl)) (scans 1 0 _ refl refl refl)

-- A shutdown that finds the check still waiting leaves it its end, and joins it.
abbrev joins : System
joins = record scanned {
  shutdown = record {
    request_gate = record { accepting = false; admitted = 0 };
    phase = requested;
  };
  monitor = joining;
}

joins_reach : Reach first joins
unfolding begin_cleanup Shutdown.request Gate.close Shutdown.new Gate.new prepare_member
    spawns_cleanup prepare_shutdown
joins_reach =
    let r1 = next scanned_reach (scan_ends 1 1 refl refl refl) in
    let r2 = next r1 (sees_shutdown 2 refl refl) in
    let r3 = next r2 (drains 5_000_000_002 refl refl refl) in
    let r4 = next r3 (prepares 5_000_000_002 0 _ refl refl refl) in
    next r4 (prepare_ends 5_000_000_002 1 refl refl refl)

abbrev vetoed_service : ServiceLifecycle
vetoed_service = record service { state = record (service.state) { last_check_finished = some 3 } }

abbrev vetoes_member : Member
vetoes_member = record {
  world = record { service = vetoed_service; leases = 0; tasks = []; commands = [] };
  cleanups = [];
}

abbrev vetoes : System
vetoes = record joins { members = vetoes_member ∷ [] }

veto_step : Step joins vetoes
unfolding check_outcome stop_check_spec run_stop_check settle finish_vetoed_attempt_at
veto_step =
    acts 0 _ _
      (World.check_end [] [] attempt (some (Process.finished (exited 1))) vetoed 3 [] true refl refl
        refl)
      refl refl refl

abbrev ended : System
ended = record vetoes {
  shutdown = record {
    request_gate = record { accepting = false; admitted = 0 };
    phase = completed;
  };
  monitor = finished;
}

ended_reach : Reach first ended
unfolding Shutdown.complete
ended_reach = next (next joins_reach veto_step) (completes refl ((refl, refl), tt) refl)

shutdown_completed_example :
    All IsJoined ended.members
    × (sent ended ≡ sent ended)
    × (Gate.admit (gate ended) ≡ some (gate ended, none))
    × (ended.shutdown.phase ≡ completed)
shutdown_completed_example = shutdown_completed (service ∷ []) Gate.new ended_reach refl here

join_bounded_example :
    (is_joining vetoes.monitor ≡ true)
    × (ends (next here veto_step) + total vetoes.members ≤ total joins.members)
join_bounded_example = join_bounded (next here veto_step) refl

-- A shutdown that finds the service unused and cleans it up, with a check that vetoes.
abbrev down : ShutdownCoordinator
down = record { request_gate = record { accepting = false; admitted = 0 }; phase = requested }

abbrev cleaned : System
cleaned = record {
  shutdown = down;
  monitor = joining;
  members = record { world = World.start service; cleanups = 5_000_000_002 ∷ [] } ∷ [];
}

cleaned_reach : Reach first cleaned
unfolding new begin_cleanup Shutdown.request Gate.close Shutdown.new Gate.new prepare_member
    spawns_cleanup prepare_shutdown World.start
cleaned_reach =
    let r1 = next here (sees_shutdown 2 refl refl) in
    let r2 = next r1 (drains 5_000_000_002 refl refl refl) in
    let r3 = next r2 (prepares 5_000_000_002 0 _ refl refl refl) in
    next r3 (prepare_ends 5_000_000_002 1 refl refl refl)

abbrev final_attempt : StopAttempt
final_attempt = record attempt { requires_idle_timeout = false }

abbrev decided : System
decided = record cleaned {
  members =
      record {
        world = record {
          service = set_attempt service true;
          leases = 0;
          tasks = World.checking final_attempt ∷ [];
          commands = [];
        };
        cleanups = [];
      }
      ∷ [];
}

poll_step : Step cleaned decided
unfolding cleanup_service_at_shutdown begin_shutdown_attempt launch_in_progress end_cleanup
    World.start
poll_step = polls 0 _ [] [] 5_000_000_002 3 (runs final_attempt) refl refl refl refl

final_veto : Step decided (record decided { members = vetoes_member ∷ [] })
unfolding check_outcome stop_check_spec run_stop_check settle finish_vetoed_attempt_at
final_veto =
    acts 0 _ _
      (World.check_end [] [] final_attempt (some (Process.finished (exited 1))) vetoed 3 [] true
        refl refl refl)
      refl refl refl

decided_reach : Reach first ended
unfolding Shutdown.complete
decided_reach =
    next (next (next cleaned_reach poll_step) final_veto) (completes refl ((refl, refl), tt) refl)

one_decision_example :
    (cleanups 0 decided_reach ≤ 1) × (decisions 0 decided_reach ≡ cleanups 0 decided_reach)
one_decision_example = one_decision (service ∷ []) Gate.new 0 ended decided_reach refl
