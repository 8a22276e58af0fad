-- ===== src/Gateway.antt =====
-- src/proxy.rs: `RousedProxy`, with the context of a request from `new_ctx` to `logging`. A route is
-- known by its host, and its service, which has the wake target, stands in the map of the routes. The
-- callbacks come from pingora; where one waits (for the readiness of the service) it is two functions.
-- A function returns `none` where the source panics. Header maps are the functions that read them,
-- and `to_str` of their values is an argument.
pub mod Routes
pub mod World
pub mod Kept
pub mod Known
pub mod NoPanic
pub mod Routed
pub mod Accounting
pub mod Ordered
pub mod Refusal
pub mod Busy
pub mod Destination
pub mod Drained
pub mod Forwarded
pub mod Holding
pub mod Framing
pub mod Total
pub mod Transport
pub mod Monitored
mod OneService
mod MonitorTests
mod RouteTests
mod Tests
use roused.Base.{
  ℕ, Bool, true, false, not, ◌&&◌, Option, none, some, List, [], ◌∷◌, ◌>>=◌, any, is_some, ◌==◌,
  if◌then◌else◌,
}
use roused.Base.Duration.{from_secs}
use roused.Base.Text.{Text, codes, is_empty, text_eq, to_ascii_lowercase, split}
use roused.Config.{Config, ServiceConfig, get}
use roused.Http.{eq_ignore_ascii_case, header_contains_token}
use roused.Config.Host.{Authority, normalize_request_host}
use roused.Lifecycle.Gate
use roused.Lifecycle.Gate.{RequestGate, RequestAdmission, admit, drop_admission}
use roused.Lifecycle.Service.{
  ServiceLifecycle, ServiceLease, new_at, note_request_arrival_at, acquire_at, release_lease_at,
}
use roused.Lifecycle.Shutdown
use roused.Lifecycle.Shutdown.{ShutdownCoordinator}
use roused.Net.{IpAddr, SocketAddr}
use roused.Wake.{Connect, is_ready, request_launch_at, with_launcher}

pub record RousedProxy : Type 0 where
  pub plain_listener_port : ℕ
  pub routes : List (Text × ServiceLifecycle)
  pub shutdown : ShutdownCoordinator

-- A lease holds its service, known by its host.
pub record RequestContext : Type 0 where
  pub route : Option Text
  pub lease : Option (Text × ServiceLease)
  pub admission : Option RequestAdmission
  pub rejected_for_shutdown : Bool
  pub websocket : Bool
  pub listener_port : ℕ
  pub tls : Bool
  pub peer_ip : Option IpAddr

-- What the callbacks read of a request: `get_all` of its headers, by the name in lower case, and what
-- `request_transport` finds.
pub record Request : Type 0 where
  pub is_http_11 : Bool
  pub get_all : Text → List Text
  pub local_port : Option ℕ
  pub tls : Bool
  pub peer_ip : Option IpAddr

-- The responses of the gateway itself: `write_shutting_down`, `write_unknown_host` and
-- `write_loading_response`.
pub data Response : Type 0 where
  shutting_down unknown_host loading : Response

pub data Filtered : Type 0 where
  answers : Response → Filtered
  asks : Text → Filtered

pub data Upstream : Type 0 where
  route_missing lease_twice : Upstream
  proceeds : RousedProxy → RequestContext → Upstream

unfoldable pub is_valid_websocket_request : Request → Bool
is_valid_websocket_request r =
    r.is_http_11
    && (any (λ value. eq_ignore_ascii_case value (codes "websocket")) (r.get_all (codes "upgrade"))
        && header_contains_token (r.get_all (codes "connection")) (codes "upgrade"))

-- The service of a route becomes `s`.
unfoldable pub put :
    Text → ServiceLifecycle → List (Text × ServiceLifecycle) → List (Text × ServiceLifecycle)
put k s [] = []
put k s ((j, t) ∷ m) = if text_eq k j then (j, s) ∷ m else (j, t) ∷ put k s m

-- What `new` makes of one service of the configuration.
abbrev route_for : ℕ → ℕ → ServiceConfig → ServiceLifecycle
route_for user now s =
    new_at s.launchd_label user (from_secs s.idle_timeout_seconds) s.can_stop_command
      (with_launcher s.upstream s.launchd_label user) now

unfoldable pub routes_for : ℕ → ℕ → List (Text × ServiceConfig) → List (Text × ServiceLifecycle)
routes_for user now [] = []
routes_for user now ((k, s) ∷ m) = (s.host, route_for user now s) ∷ routes_for user now m

-- `RousedProxy::new`, by the user `user` at `now`.
unfoldable pub new : Config → ℕ → ℕ → RousedProxy
unfolding routes_for
new c user now = record {
  plain_listener_port = c.listen.port;
  routes = routes_for user now c.services;
  shutdown = Shutdown.new Gate.new;
}

abbrev pub with_gate : RousedProxy → RequestGate → RousedProxy
with_gate p g = record p { shutdown = record (p.shutdown) { request_gate = g } }

unfoldable pub new_ctx : RousedProxy → Option (RousedProxy × RequestContext)
new_ctx p = do
  (g, admission) ← admit p.shutdown.request_gate
  some (
    with_gate p g,
    record {
      route = none;
      lease = none;
      admission = admission;
      rejected_for_shutdown = not (is_some admission);
      websocket = false;
      listener_port = p.plain_listener_port;
      tls = false;
      peer_ip = none;
    },
  )

-- `drop(context.admission.take())`.
unfoldable pub end_admission : RousedProxy → RequestContext → Option (RousedProxy × RequestContext)
end_admission p x = elim x.admission [
  | none ↦ some (p, x)
  | some a ↦ do
    (g, a', notified) ← drop_admission p.shutdown.request_gate a
    some (with_gate p g, record x { admission = none })
]

-- `drop(context.lease.take())`. The service of a lease is always there.
unfoldable pub end_lease : RousedProxy → RequestContext → ℕ → Option (RousedProxy × RequestContext)
end_lease p x now = elim x.lease [
  | none ↦ some (p, x)
  | some (host, l) ↦ do
    s ← get host p.routes
    (s', l') ← release_lease_at s l now
    some (record p { routes = put host s' p.routes }, record x { lease = none })
]

-- The route of a request, by the values of its `Host`, the first of which counts.
unfoldable pub route_of :
    (Text → Option Authority)
    → (Text → Option Text)
    → RousedProxy
    → List Text
    → ℕ
    → Option (Text × ServiceLifecycle)
route_of parse_authority to_str p [] port = none
route_of parse_authority to_str p (value ∷ values) port = do
  host ← to_str value
  name ← normalize_request_host parse_authority host port
  s ← get name p.routes
  some (name, s)

abbrev port_or : Option ℕ → ℕ → ℕ
port_or none port = port
port_or (some local) port = local

-- What `request_filter` notes of the request.
unfoldable pub note_request : RousedProxy → RequestContext → Request → RequestContext
unfolding is_valid_websocket_request
note_request p x r = record x {
  websocket = is_valid_websocket_request r;
  listener_port = port_or r.local_port p.plain_listener_port;
  tls = r.tls;
  peer_ip = r.peer_ip;
}

-- `request_filter` up to the wait for the readiness.
unfoldable pub request_filter :
    (Text → Option Authority)
    → (Text → Option Text)
    → RousedProxy
    → RequestContext
    → Request
    → ℕ
    → Option (RousedProxy × RequestContext × Filtered)
request_filter parse_authority to_str p x r now =
    let noted = note_request p x r in
    let routed : Option (RousedProxy × RequestContext × Filtered) =
      elim (route_of parse_authority to_str p (r.get_all (codes "host")) noted.listener_port) [
        | none ↦ do (p', x') ← end_admission p noted; some (p', x', answers unknown_host)
        | some (name, s) ↦ some (
          record p { routes = put name (note_request_arrival_at s now) p.routes },
          noted,
          asks name,
        )
      ] in
    if x.rejected_for_shutdown then some (p, x, answers shutting_down) else routed

-- The rest of it, for the service of `host`: `none` in place of a response where the request goes on to
-- the service; and whether the launcher is started.
unfoldable pub request_filter_ready :
    RousedProxy
    → RequestContext
    → Text
    → Connect
    → ℕ
    → Option (RousedProxy × RequestContext × Option Response × Bool)
request_filter_ready p x host connect now =
    let cold : Option (RousedProxy × RequestContext × Option Response × Bool) = (do
      s ← get host p.routes
      let (target, starts) = request_launch_at s.wake_target now
      let p' = record p { routes = put host (record s { wake_target = target }) p.routes }
      (p'', x') ← end_admission p' x
      some (p'', x', some loading, starts)) in
    if is_ready connect then some (p, record x { route = some host }, none, false) else cold

unfoldable pub proxy_upstream_filter : RousedProxy → RequestContext → Option Upstream
proxy_upstream_filter p x = elim x.route [
  | none ↦ some route_missing
  | some host ↦ if is_some x.lease then some lease_twice else (do
    s ← get host p.routes
    (s', l) ← acquire_at s
    (p', x') ←
        end_admission (record p { routes = put host s' p.routes })
          (record x { lease = some (host, l) })
    some (proceeds p' x'))
]

-- The address of the route, `none` where the callback reports an error.
unfoldable pub upstream_peer : RousedProxy → RequestContext → Option SocketAddr
upstream_peer p x = do host ← x.route; s ← get host p.routes; some s.wake_target.upstream

unfoldable pub logging : RousedProxy → RequestContext → ℕ → Option (RousedProxy × RequestContext)
unfolding end_lease end_admission
logging p x now = do (p', x') ← end_lease p x now; end_admission p' x'
