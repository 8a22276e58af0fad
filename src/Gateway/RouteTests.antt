-- ===== src/Gateway/RouteTests.antt =====
-- src/proxy.rs: a request for a configured host at a new gateway, and one that comes when the gate is
-- closed.
use roused.Base.{
  All, ◌≡◌, ◌≢◌, ◌⊎◌, ◌>>=◌, refl, true, false, none, some, List, [], ◌∷◌, arith, if◌then◌else◌,
}
use roused.Base.Text.{Text, codes, text_eq}
use roused.Config.{ServiceConfig, get}
use roused.Config.Host.{normalize_request_host, host_code}
use roused.Config.Host.FirstColon.{read_authority, read_colon}
use roused.Gateway.{
  RousedProxy, RequestContext, Request, answers, asks, unknown_host, new, new_ctx, routes_for,
  request_filter, request_filter_ready, proxy_upstream_filter, logging, note_request,
  is_valid_websocket_request, upstream_peer, route_of, put,
}
use roused.Gateway.Destination.{requests_routed}
use roused.Gateway.Busy.{IsDrained, NotBusier}
use roused.Gateway.Drained.{IsPast, quiet_for_good}
use roused.Gateway.Ordered
use roused.Gateway.Ordered.{Ordered, Session}
use roused.Gateway.Refusal.{refused as turned_away}
use roused.Gateway.NoPanic.{callbacks_never_panic}
use roused.Gateway.OneService.{config, config-IsValid}
use roused.Gateway.World.{World, Reach, here, next, opens}
use roused.Http.{header_contains_token}
use roused.Lifecycle.Gate
use roused.Lifecycle.Service.{new_at, note_request_arrival_at}
use roused.Lifecycle.Shutdown
use roused.Net.{v4}
use roused.Wake.{refused, with_launcher}

abbrev opened : RequestContext
opened = record {
  route = none;
  lease = none;
  admission = some (record { released = false });
  rejected_for_shutdown = false;
  websocket = false;
  listener_port = 8_080;
  tls = false;
  peer_ip = none;
}

abbrev admitted : RousedProxy
admitted = record {
  plain_listener_port = 8_080;
  routes = routes_for 501 0 config.services;
  shutdown = record {
    request_gate = record { accepting = true; admitted = 1 };
    phase = Shutdown.running;
  };
}

abbrev start : World
start = record { proxy = new config 501 0; contexts = [] }

abbrev one : World
one = record { proxy = admitted; contexts = opened ∷ [] }

one_reach : Reach read_authority some start one
unfolding new new_ctx Gate.new Gate.admit Shutdown.new
one_reach = next here (opens admitted opened refl refl)

abbrev headers : Text → Text → List Text
headers host name = if text_eq name (codes "host") then host ∷ [] else []

abbrev request : Text → Request
request host = record {
  is_http_11 = true;
  get_all = headers host;
  local_port = none;
  tls = false;
  peer_ip = none;
}

abbrev ported : Request
ported = request (codes "API.local:8080")

abbrev arrived : RousedProxy
arrived = record admitted {
  routes =
      put (codes "api.local")
        (note_request_arrival_at
          (new_at (codes "dev.api") 501 60_000_000_000 none
            (with_launcher (record { ip = v4 127 0 0 1; port = 8_081; scope_id = 0 })
              (codes "dev.api") 501)
            0)
          7)
        admitted.routes;
}

filters :
    request_filter read_authority some admitted opened ported 7
    ≡ some (arrived, note_request admitted opened ported, asks (codes "api.local"))
unfolding request_filter route_of get text_eq read_authority read_colon host_code routes_for
    note_request put is_valid_websocket_request header_contains_token
filters = refl

reads_host : ported.get_all (codes "host") ≡ codes "API.local:8080" ∷ []
unfolding text_eq
reads_host = refl

requests_routed_example :
    ((name : Text) × (s : ServiceConfig) × (normalize_request_host read_authority
          (codes "API.local:8080")
          (note_request admitted opened ported).listener_port
        ≡ some name)
      × (get name config.services ≡ some s)
      × (asks (codes "api.local") ≡ asks name)
      × (upstream_peer arrived (record (note_request admitted opened ported) { route = some name })
          ≡ some s.upstream))
    ⊎ (((do
      name ←
          normalize_request_host read_authority
            (codes "API.local:8080")
            (note_request admitted opened ported).listener_port
      get name config.services)
          ≡ none)
        × (asks (codes "api.local") ≡ answers unknown_host))
requests_routed_example =
    requests_routed read_authority some config 501 0 one opened
      (note_request admitted opened ported) arrived ported 7 (asks (codes "api.local"))
      (codes "API.local:8080") [] (codes "API.local:8080") config-IsValid one_reach refl reads_host
      refl filters

has_route : get (codes "api.local") admitted.routes ≢ none
unfolding get text_eq routes_for
has_route e = cc

callbacks_never_panic_example :
    (new_ctx admitted ≢ none)
    × (request_filter read_authority some admitted opened ported 7 ≢ none)
    × (request_filter_ready admitted opened (codes "api.local") refused 7 ≢ none)
    × (proxy_upstream_filter admitted opened ≢ none)
    × (logging admitted opened 7 ≢ none)
callbacks_never_panic_example =
    callbacks_never_panic read_authority some config 501 0 one [] [] opened ported
      (codes "api.local") refused 7 one_reach refl (omega arith) has_route

-- A gateway that is closed before its first request.
abbrev closed : Ordered
closed = record {
  proxy = record admitted {
    shutdown = record {
      request_gate = record { accepting = false; admitted = 0 };
      phase = Shutdown.running;
    };
  };
  sessions = [];
}

closed_reach :
    Ordered.Reach read_authority some (record { proxy = new config 501 0; sessions = [] }) closed
unfolding new Gate.new Gate.close Shutdown.new
closed_reach = Ordered.next Ordered.here (Ordered.closes refl)

abbrev refused_session : Session
refused_session = record { stage = Ordered.opened; context = turned_away closed.proxy }

comes : Ordered.Step read_authority some closed (record closed { sessions = refused_session ∷ [] })
unfolding new_ctx Gate.admit
comes = Ordered.opens closed.proxy (turned_away closed.proxy) refl refl

quiet_for_good_example :
    IsDrained closed.proxy × All IsPast (refused_session ∷ []) × NotBusier closed.proxy closed.proxy
quiet_for_good_example =
    quiet_for_good read_authority some config 501 0 closed_reach
      (record { closed = refl; empty = refl }) (Ordered.next Ordered.here comes)
