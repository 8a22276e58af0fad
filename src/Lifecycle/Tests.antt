-- ===== src/Lifecycle/Tests.antt =====
-- src/lifecycle.rs: the gate, the coordinator and the service on concrete states.
use roused.Base.{ℕ, ◌+◌, ◌≡◌, ◌≢◌, refl, inr, true, false, Option, none, some, List, [], ◌∷◌, arith}
use roused.Base.Duration.{from_secs}
use roused.Base.Text.{codes}
use roused.Lifecycle.Gate.{
  RequestGate, RequestAdmission, close, release, Round, wait_for_drain_until,
}
use roused.Lifecycle.Gate.Drain
use roused.Lifecycle.Gate.Drain.{notifies, closed_for_good, drain_notifies, drop_twice}
use roused.Lifecycle.Shutdown.{ShutdownCoordinator, running}
use roused.Lifecycle.Service.{ServiceLifecycle, acquire_at, note_request_arrival_at}
use roused.Lifecycle.Service.Attempt.{
  StopAttempt, ShutdownAttempt, ShutdownPreparation, started, obsolete, set_attempt,
  begin_stop_attempt_at, begin_shutdown_attempt, prepare_shutdown, start_allowed_attempt_at,
}
use roused.Lifecycle.Service.Attempt.Activity
use roused.Lifecycle.Service.Attempt.Activity.{activity_discards, arrives, acquires}
use roused.Lifecycle.Service.Attempt.Once
use roused.Lifecycle.Service.Attempt.Once.{stop_once, scans, shuts_down, stop_ends}
use roused.Net.{v4}
use roused.Wake.{WakeTarget, eligible}

abbrev two_admitted : RequestGate
two_admitted = record { accepting = true; admitted = 2 }

abbrev closed_two : RequestGate
closed_two = record { accepting = false; admitted = 2 }

abbrev closed_one : RequestGate
closed_one = record { accepting = false; admitted = 1 }

one_release : Drain.Step closed_two closed_one
unfolding release
one_release = Drain.releases false refl

after_close : Drain.Reach (close two_admitted).0 closed_one
unfolding close
after_close = Drain.next Drain.here one_release

abbrev drained : RequestGate
drained = record { accepting = false; admitted = 0 }

last_release : Drain.Step closed_one drained
unfolding release
last_release = Drain.releases true refl

abbrev guard : RequestAdmission
guard = record { released = false }

abbrev rounds : List Round
rounds =
    record { seen = closed_one; now = 3; notified = true; seen_late = closed_one }
    ∷ record { seen = drained; now = 4; notified = true; seen_late = drained }
    ∷ []

drain_notifies_example : notifies last_release ≡ true
drain_notifies_example =
    drain_notifies closed_one drained last_release (inr (omega arith)) refl refl

drained_test : wait_for_drain_until 5 rounds ≡ some true
unfolding wait_for_drain_until
drained_test = refl

abbrev coordinator : ShutdownCoordinator
coordinator = record { request_gate = two_admitted; phase = running }

abbrev wake : WakeTarget
wake = record {
  upstream = record { ip = v4 127 0 0 1; port = 8_080; scope_id = 0 };
  launchd_label = codes "dev.local.api";
  user_id = 501;
  state = eligible;
}

-- A service that has been idle since the start, and has not been stopped.
abbrev service : ServiceLifecycle
service = record {
  launchd_label = codes "dev.local.api";
  user_id = 501;
  idle_timeout = from_secs 60;
  can_stop_command = none;
  wake_target = wake;
  state = record {
    in_flight = 0;
    last_completed = 0;
    idle_since = 0;
    generation = 4;
    attempt_in_progress = false;
    last_check_finished = none;
    stop_attempted_generation = none;
  };
}

abbrev leased : ServiceLifecycle
leased = record service { state = record (service.state) { in_flight = 1; generation = 5 } }

takes_lease : acquire_at service ≡ some (leased, record { released = false })
unfolding acquire_at
takes_lease = refl

abbrev attempt : StopAttempt
attempt = record { generation = 4; can_stop_command = none; requires_idle_timeout = true }

abbrev a_minute : ℕ
a_minute = 60_000_000_000

-- The start of a stop command in surroundings that count the commands.
abbrev counts : ℕ → Option ℕ × ℕ
counts n = (some 77, n + 1)

abbrev in_time : ℕ
in_time = 89_000_000_000

abbrev in_a_while : ℕ
in_a_while = 90_000_000_000

abbrev after_activity : ServiceLifecycle
after_activity = record service {
  state = record (service.state) { in_flight = 1; idle_since = 8; generation = 6 };
}

happens : Activity.run service (arrives 8 ∷ acquires ∷ []) ≡ some after_activity
unfolding Activity.run Activity.step note_request_arrival_at acquire_at
happens = refl

activity_discards_example :
    start_allowed_attempt_at after_activity attempt a_minute [] counts 0
    ≡ (set_attempt after_activity false, obsolete, 0)
activity_discards_example =
    activity_discards service after_activity attempt (arrives 8 ∷ acquires ∷ []) a_minute [] counts
      0 (omega arith) refl happens (omega arith) (omega arith)

goes_through : (start_allowed_attempt_at service attempt a_minute [] counts 0).1 ≡ started 77
unfolding start_allowed_attempt_at
goes_through = refl

abbrev stopped : ServiceLifecycle
stopped =
    Once.run (start_allowed_attempt_at service attempt a_minute [] counts 0).0
      (stop_ends ∷ scans a_minute ∷ shuts_down ∷ [])

stop_once_example :
    (begin_stop_attempt_at stopped a_minute ≡ (stopped, none))
    × (begin_shutdown_attempt stopped ≡ (stopped, ShutdownAttempt.already_signalled))
    × (prepare_shutdown stopped ≢ ShutdownPreparation.cleanup_needed)
stop_once_example =
    stop_once service attempt a_minute [] counts 0 77 (stop_ends ∷ scans a_minute ∷ shuts_down ∷ [])
      a_minute goes_through
