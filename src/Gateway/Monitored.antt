-- ===== src/Gateway/Monitored.antt =====
-- src/proxy.rs, `RousedProxy::new`: the idle monitor over the services of a configuration, from the
-- gateway's start to the end of its shutdown.
use roused.Base.{
  ℕ, ◌≤◌, ◌≡◌, ◌⊎◌, Option, none, some, List, [], ◌∷◌, All, All-map, map, length, get_elem?,
}
use roused.Base.Text.{Text}
use roused.Config.{Config, ServiceConfig}
use roused.Config.Accepted.{IsValid}
use roused.Config.Valid.{IsCommand, IsService}
use roused.Gateway.{RousedProxy, new, routes_for}
use roused.Lifecycle.Gate
use roused.Lifecycle.Service.{ServiceLifecycle, new_at}
use roused.Lifecycle.Shutdown.{completed}
use roused.Lifecycle.System
use roused.Lifecycle.System.{System, Member, Step, Reach, waiting, member_of}
use roused.Lifecycle.System.Completes.{Checked, shutdown_can_complete}
use roused.Lifecycle.System.Members.{system_stops_quiet}
use roused.Lifecycle.Task.Command.{HasProgram}
use roused.Lifecycle.Task.Safety.{IsNew, SendsStop, new_at-IsNew}

abbrev services_of : List (Text × ServiceLifecycle) → List ServiceLifecycle
services_of [] = []
services_of ((host, s) ∷ routes) = s ∷ services_of routes

-- The monitor that `new` makes, with the gate and the coordinator of the gateway.
unfoldable pub idle_monitor : RousedProxy → System
idle_monitor p = record {
  shutdown = p.shutdown;
  monitor = waiting;
  members = map member_of (services_of p.routes);
}

services-IsNew :
    (user now : ℕ) (m : List (Text × ServiceConfig))
    → All IsNew (services_of (routes_for user now m))
unfolding routes_for
services-IsNew user now [] = tt
services-IsNew user now ((k, s) ∷ m) = (new_at-IsNew _ _ _ _ _ _, services-IsNew user now m)

command-HasProgram : (command : Option (List Text)) → IsCommand command → HasProgram command
command-HasProgram none h = tt
command-HasProgram (some []) h = h
command-HasProgram (some (executable ∷ arguments)) h = tt

services-Checked :
    (user now : ℕ) (m : List (Text × ServiceConfig))
    → All (λ e. IsService e.1) m
    → All Checked (services_of (routes_for user now m))
unfolding routes_for new_at
services-Checked user now [] h = tt
services-Checked user now ((k, s) ∷ m) h =
    (command-HasProgram s.can_stop_command h.0.command, services-Checked user now m h.1)

-- The gateway of a configuration, in every interleaving of its idle monitor with the stop tasks, the
-- requests, the gate and the shutdown: a step leaves the stop commands of the service at a position as
-- they are, or it sends the one for the service's own label, for an attempt that had begun, while the
-- service has no lease and its generation is that of the attempt, and after the attempt has found no
-- launch in progress. A request may start a launch from then on, while the command is spawned. At most
-- one stop task of the service runs, and the in-flight count is the number of its leases.
pub gateway_stops_quiet :
    {w u : System} (c : Config) (user now i : ℕ) (m' : Member)
    → Reach (idle_monitor (new c user now)) w
    → Step w u
    → get_elem? u.members i ≡ some m'
    → (m : Member) × (get_elem? w.members i ≡ some m)
      × ((m'.world.commands ≡ m.world.commands)
          ⊎ (SendsStop m.world m'.world × (m.world.leases ≡ 0)))
      × (length m.world.tasks ≤ 1)
      × (m.world.service.in_flight ≡ m.world.leases)
unfolding idle_monitor new System.new
gateway_stops_quiet c user now i m' r st h =
    system_stops_quiet (services_of (routes_for user now c.services)) Gate.new i m'
      (services-IsNew user now c.services) r st h

-- The shutdown of the gateway of a valid configuration is never stuck: from every state that is reached
-- from the start there is a way on to a state in which the shutdown is completed, whatever is in
-- flight, holds an admission, or waits for a child process.
pub gateway_can_complete :
    (c : Config) (user now : ℕ) (w : System)
    → IsValid c
    → Reach (idle_monitor (new c user now)) w
    → (u : System) × Reach w u × (u.shutdown.phase ≡ completed)
unfolding idle_monitor new System.new
gateway_can_complete c user now w v r =
    shutdown_can_complete (services_of (routes_for user now c.services)) Gate.new w
      (services-Checked user now c.services (All-map (λ e k. k.1) c.services v.services)) r
