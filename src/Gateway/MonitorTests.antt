-- ===== src/Gateway/MonitorTests.antt =====
-- src/proxy.rs: the idle monitor of a gateway with one service, up to the stop of the service.
use roused.Base.{◌≤◌, ◌≡◌, ◌⊎◌, refl, true, none, some, [], ◌∷◌, length, get_elem?}
use roused.Base.Text.{codes}
use roused.Gateway.OneService.{config, config-IsValid}
use roused.Gateway.{new, routes_for}
use roused.Gateway.Monitored.{idle_monitor, gateway_stops_quiet, gateway_can_complete}
use roused.Lifecycle.Gate
use roused.Lifecycle.Service.{ServiceLifecycle, new_at}
use roused.Lifecycle.Service.Attempt.{
  StopAttempt, begin_stop_attempt_at, not_due, set_attempt, start_allowed_attempt_at, after_start,
  is_obsolete, stop_command_spec,
}
use roused.Lifecycle.Shutdown
use roused.Lifecycle.Shutdown.{completed}
use roused.Lifecycle.System.{
  System, Member, Step, Reach, here, next, scanning, acts, ticks, scans, scan_member,
}
use roused.Lifecycle.Task.{check_outcome, allowed, settle, start_stop_command}
use roused.Lifecycle.Task.Safety.{SendsStop}
use roused.Lifecycle.Task.World
use roused.Net.{v4}
use roused.Wake.{with_launcher, launch_in_progress}

abbrev service : ServiceLifecycle
service =
    new_at (codes "dev.api") 501 60_000_000_000 none
      (with_launcher (record { ip = v4 127 0 0 1; port = 8_081; scope_id = 0 }) (codes "dev.api")
        501)
      0

-- After a minute the service is scanned, and its check waits.
abbrev attempt : StopAttempt
attempt = record { generation = 0; can_stop_command = none; requires_idle_timeout = true }

abbrev scanned_member : Member
scanned_member = record {
  world = record {
    service = set_attempt service true;
    leases = 0;
    tasks = World.checking attempt ∷ [];
    commands = [];
  };
  cleanups = [];
}

abbrev scanned : System
scanned = record {
  shutdown = Shutdown.new Gate.new;
  monitor = scanning 61_000_000_000 1;
  members = scanned_member ∷ [];
}

scanned_reach : Reach (idle_monitor (new config 501 0)) scanned
unfolding idle_monitor new routes_for new_at scan_member begin_stop_attempt_at not_due
    launch_in_progress with_launcher World.start Shutdown.new Gate.new
scanned_reach =
    next (next here (ticks 61_000_000_000 refl refl)) (scans 61_000_000_000 0 _ refl refl refl)

abbrev stopped_member : Member
stopped_member = record {
  world = record {
    service = (settle scanned_member.world.service attempt allowed 61_000_000_000 [] true []).0;
    leases = 0;
    tasks = World.stopping (stop_command_spec service) ∷ [];
    commands = stop_command_spec service ∷ [];
  };
  cleanups = [];
}

stop_step : Step scanned (record scanned { members = stopped_member ∷ [] })
unfolding check_outcome settle start_allowed_attempt_at after_start is_obsolete start_stop_command
    stop_command_spec new_at with_launcher launch_in_progress
stop_step =
    acts 0 scanned_member _
      (World.check_end [] [] attempt none allowed 61_000_000_000 [] true refl refl refl) refl refl
      refl

gateway_stops_quiet_example :
    (m : Member) × (get_elem? scanned.members 0 ≡ some m)
    × ((stopped_member.world.commands ≡ m.world.commands)
        ⊎ (SendsStop m.world stopped_member.world × (m.world.leases ≡ 0)))
    × (length m.world.tasks ≤ 1)
    × (m.world.service.in_flight ≡ m.world.leases)
gateway_stops_quiet_example =
    gateway_stops_quiet config 501 0 0 stopped_member scanned_reach stop_step refl

gateway_can_complete_example : (u : System) × Reach scanned u × (u.shutdown.phase ≡ completed)
gateway_can_complete_example =
    gateway_can_complete config 501 0 scanned config-IsValid scanned_reach
