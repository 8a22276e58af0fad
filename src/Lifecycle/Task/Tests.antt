-- ===== src/Lifecycle/Task/Tests.antt =====
-- src/lifecycle.rs: a service in its surroundings, from the start to its stop.
use roused.Base.{◌+◌, ◌≤◌, ◌≡◌, refl, true, false, none, some, [], ◌∷◌, length}
use roused.Base.Text.{codes}
use roused.Lifecycle.Service.{ServiceLifecycle}
use roused.Lifecycle.Service.Attempt.{
  StopAttempt, begin_stop_attempt_at, stop_command_spec, start_allowed_attempt_at,
}
use roused.Lifecycle.Task.{run_stop_check, check_outcome, allowed, vetoed, settle}
use roused.Lifecycle.Task.World.{
  World, Step, here, next, scan, check_end, start, checking, stopping,
}
use roused.Lifecycle.Task.Refinement.{Runs, Moves, initial, abstraction, service_refines}
use roused.Lifecycle.Task.Bounded.{stops_bounded, activities}
use roused.Net.{v4}
use roused.Process.{finished, exited}
use roused.Wake.{eligible}

-- A new service that may be stopped at once.
abbrev service : ServiceLifecycle
service = record {
  launchd_label = codes "dev.local.api";
  user_id = 501;
  idle_timeout = 0;
  can_stop_command = none;
  wake_target = record {
    upstream = record { ip = v4 127 0 0 1; port = 8_080; scope_id = 0 };
    launchd_label = codes "dev.local.api";
    user_id = 501;
    state = eligible;
  };
  state = record {
    in_flight = 0;
    last_completed = 0;
    idle_since = 0;
    generation = 0;
    attempt_in_progress = false;
    last_check_finished = none;
    stop_attempted_generation = none;
  };
}

abbrev attempt : StopAttempt
attempt = record { generation = 0; can_stop_command = none; requires_idle_timeout = true }

abbrev scanned : World
scanned = record {
  service = record service { state = record (service.state) { attempt_in_progress = true } };
  leases = 0;
  tasks = checking attempt ∷ [];
  commands = [];
}

scan_step : Step (start service) scanned
unfolding start begin_stop_attempt_at
scan_step = scan 1 scanned.service attempt refl refl

abbrev stopped : World
stopped = record {
  service = (settle scanned.service attempt allowed 2 [] true []).0;
  tasks = stopping (stop_command_spec scanned.service) ∷ [];
  leases = 0;
  commands = stop_command_spec scanned.service ∷ [];
}

stop_step : Step scanned stopped
unfolding check_outcome settle start_allowed_attempt_at
stop_step = check_end [] [] attempt none allowed 2 [] true refl refl refl

check_test :
    (check_outcome
        (record attempt { can_stop_command = some (codes "/bin/test" ∷ []) })
        (some (finished (exited 1)))
      ≡ some vetoed)
    × (check_outcome (record attempt { can_stop_command = some [] }) none ≡ none)
unfolding check_outcome run_stop_check
check_test = (refl, refl)

stops_bounded_example :
    length stopped.commands ≤ activities (next (next here scan_step) stop_step) + 1
stops_bounded_example =
    stops_bounded service (refl, refl, refl) (next (next here scan_step) stop_step)

service_refines_example :
    Runs initial (abstraction scanned) × Moves (abstraction scanned) (abstraction stopped)
service_refines_example = service_refines service (refl, refl, refl) (next here scan_step) stop_step
