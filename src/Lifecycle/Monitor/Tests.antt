-- ===== src/Lifecycle/Monitor/Tests.antt =====
-- src/lifecycle.rs: the shutdown cleanup and the scan on concrete services.
use roused.Base.{◌≡◌, refl, false, none, some, [], ◌∷◌, arith}
use roused.Base.Text.{codes}
use roused.Lifecycle.Service.{ServiceLifecycle}
use roused.Lifecycle.Service.Attempt.{StopAttempt, begin_shutdown_attempt}
use roused.Lifecycle.Monitor.{CleanupEnd, runs, left_running, Poll, cleanup_service_at_shutdown}
use roused.Lifecycle.Monitor.Cleanup.{cleanup_ends}
use roused.Net.{v4}
use roused.Wake.{eligible}

abbrev busy_service : ServiceLifecycle
busy_service = record {
  launchd_label = codes "dev.local.api";
  user_id = 501;
  idle_timeout = 0;
  can_stop_command = none;
  wake_target = record {
    upstream = record { ip = v4 127 0 0 1; port = 8_080; scope_id = 0 };
    launchd_label = codes "dev.local.api";
    user_id = 501;
    state = eligible;
  };
  state = record {
    in_flight = 1;
    last_completed = 0;
    idle_since = 0;
    generation = 0;
    attempt_in_progress = false;
    last_check_finished = none;
    stop_attempted_generation = none;
  };
}

abbrev quiet_service : ServiceLifecycle
quiet_service = record busy_service { state = record (busy_service.state) { in_flight = 0 } }

abbrev attempt : StopAttempt
attempt = record { generation = 0; can_stop_command = none; requires_idle_timeout = false }

abbrev first : Poll
first = record { seen = busy_service; now = 0 }

abbrev second : Poll
second = record { seen = quiet_service; now = 20_000_000 }

cleanup_ends_example :
    (end : CleanupEnd) × (cleanup_service_at_shutdown 20_000_000 (first ∷ second ∷ []) ≡ some end)
cleanup_ends_example = cleanup_ends 20_000_000 first (second ∷ []) (omega arith, tt) (omega arith)

ends_in_time : cleanup_service_at_shutdown 20_000_000 (first ∷ second ∷ []) ≡ some (runs attempt)
unfolding cleanup_service_at_shutdown begin_shutdown_attempt
ends_in_time = refl

left_running_test :
    cleanup_service_at_shutdown 20_000_000 (first ∷ record first { now = 20_000_000 } ∷ [])
    ≡ some left_running
unfolding cleanup_service_at_shutdown begin_shutdown_attempt
left_running_test = refl
