-- ===== src/Gateway/Tests.antt =====
-- src/proxy.rs: one request to one service, and one after the gate has closed.
use roused.Base.{
  ℕ, ◌+◌, ◌≡◌, ◌≢◌, refl, true, false, Option, none, some, List, [], ◌∷◌, if◌then◌else◌,
}
use roused.Base.Text.{Text, codes, text_eq, split, to_ascii_lowercase, lower_char}
use roused.Config.{Config, get}
use roused.Config.Host.{Authority}
use roused.Gateway.{
  RousedProxy, RequestContext, Request, answers, shutting_down, route_missing, new, new_ctx, put,
  request_filter, request_filter_ready, proxy_upstream_filter, upstream_peer, logging,
  end_admission, routes_for, is_valid_websocket_request,
}
use roused.Gateway.Accounting.{requests_accounted, leased_not_stopped}
use roused.Gateway.Refusal.{refused, refused_after_close}
use roused.Gateway.World.{
  World, Step, Reach, here, next, opens, readies, proxies, admissions, leases_at,
}
use roused.Http.{header_contains_token, trim_ascii_whitespace}
use roused.Lifecycle.Gate
use roused.Lifecycle.Service.{ServiceLifecycle, new_at, acquire_at}
use roused.Lifecycle.Service.Attempt.{
  StopAttempt, obsolete, ready, begin_stop_attempt_at, begin_shutdown_attempt,
  start_allowed_attempt_at, set_attempt,
}
use roused.Lifecycle.Shutdown
use roused.Net.{v4}
use roused.Wake.{connected, is_ready, with_launcher}

abbrev config : Config
config = record {
  listen = record { ip = v4 127 0 0 1; port = 8_080; scope_id = 0 };
  tls = none;
  services =
      (
        codes "api",
        record {
          host = codes "api";
          upstream = record { ip = v4 127 0 0 1; port = 8_081; scope_id = 0 };
          launchd_label = codes "dev.api";
          idle_timeout_seconds = 60;
          can_stop_command = none;
        },
      )
      ∷ [];
}

-- The crates, as far as these runs use them.
abbrev no_authority : Text → Option Authority
no_authority t = some (record { host = t; port = none })

abbrev opened : RequestContext
opened = record {
  route = none;
  lease = none;
  admission = some (record { released = false });
  rejected_for_shutdown = false;
  websocket = false;
  listener_port = 8_080;
  tls = false;
  peer_ip = none;
}

abbrev api : ServiceLifecycle
api = record {
  launchd_label = codes "dev.api";
  user_id = 501;
  idle_timeout = 60_000_000_000;
  can_stop_command = none;
  wake_target =
      with_launcher (record { ip = v4 127 0 0 1; port = 8_081; scope_id = 0 }) (codes "dev.api")
        501;
  state = record {
    in_flight = 0;
    last_completed = 0;
    idle_since = 0;
    generation = 0;
    attempt_in_progress = false;
    last_check_finished = none;
    stop_attempted_generation = none;
  };
}

abbrev gateway : ℕ → ServiceLifecycle → RousedProxy
gateway n s = record {
  plain_listener_port = 8_080;
  routes = (codes "api", s) ∷ [];
  shutdown = record {
    request_gate = record { accepting = true; admitted = n };
    phase = Shutdown.running;
  };
}

abbrev routed : RequestContext
routed = record opened { route = some (codes "api") }

abbrev leased_api : ServiceLifecycle
leased_api = record api { state = record (api.state) { in_flight = 1; generation = 1 } }

abbrev leased : RequestContext
leased = record routed { lease = some (codes "api", record { released = false }); admission = none }

abbrev start : World
start = record { proxy = new config 501 0; contexts = [] }

abbrev proxied : World
proxied = record { proxy = gateway 0 leased_api; contexts = leased ∷ [] }

opens_step : Step no_authority some start (record { proxy = gateway 1 api; contexts = opened ∷ [] })
unfolding new routes_for new_at new_ctx Gate.new Gate.admit Shutdown.new
opens_step = opens (gateway 1 api) opened refl refl

ready_step :
    Step no_authority some
      (record { proxy = gateway 1 api; contexts = opened ∷ [] })
      (record { proxy = gateway 1 api; contexts = routed ∷ [] })
unfolding request_filter_ready is_ready get text_eq
ready_step =
    readies [] [] opened routed (gateway 1 api) (codes "api") api connected 5 none false refl refl
      refl refl

proxy_step :
    Step no_authority some (record { proxy = gateway 1 api; contexts = routed ∷ [] }) proxied
unfolding proxy_upstream_filter get put text_eq acquire_at end_admission Gate.drop_admission
proxy_step = proxies [] [] routed leased (gateway 0 leased_api) refl refl refl

run : Reach no_authority some start proxied
run = next (next (next here opens_step) ready_step) proxy_step

finds : get (codes "api") proxied.proxy.routes ≡ some leased_api
unfolding get text_eq
finds = refl

requests_accounted_example :
    (proxied.proxy.shutdown.request_gate.admitted ≡ admissions proxied.contexts)
    × (leased_api.in_flight ≡ leases_at (codes "api") proxied.contexts)
requests_accounted_example =
    requests_accounted no_authority some config 501 0 proxied (codes "api") leased_api run finds

abbrev attempt : StopAttempt
attempt = record { generation = 0; can_stop_command = none; requires_idle_timeout = false }

abbrev counts : ℕ → Option ℕ × ℕ
counts n = (some 77, n + 1)

leased_not_stopped_example :
    (begin_stop_attempt_at leased_api 5 ≡ (leased_api, none))
    × ((begin_shutdown_attempt leased_api).1 ≢ ready attempt)
    × (start_allowed_attempt_at leased_api attempt 5 [] counts 0
        ≡ (set_attempt leased_api false, obsolete, 0))
leased_not_stopped_example =
    leased_not_stopped no_authority some config 501 0 proxied (codes "api") leased_api [] [] leased
      (record { released = false }) attempt 5 [] counts 0 run finds refl refl refl

abbrev websocket_headers : Text → List Text
websocket_headers name =
    if text_eq name (codes "upgrade")
    then codes "WebSocket" ∷ []
    else if text_eq name (codes "connection")
    then codes "keep-alive, Upgrade " ∷ []
    else []

abbrev websocket_request : Request
websocket_request = record {
  is_http_11 = true;
  get_all = websocket_headers;
  local_port = none;
  tls = false;
  peer_ip = none;
}

abbrev closed_gateway : RousedProxy
closed_gateway = record (gateway 1 api) {
  shutdown = record {
    request_gate = record { accepting = false; admitted = 1 };
    phase = Shutdown.requested;
  };
}

refused_after_close_example :
    (new_ctx closed_gateway ≡ some (closed_gateway, refused closed_gateway))
    × (request_filter no_authority some closed_gateway (refused closed_gateway) websocket_request 3
        ≡ some (closed_gateway, refused closed_gateway, answers shutting_down))
    × (proxy_upstream_filter closed_gateway (refused closed_gateway) ≡ some route_missing)
    × (upstream_peer closed_gateway (refused closed_gateway) ≡ none)
    × (logging closed_gateway (refused closed_gateway) 4
        ≡ some (closed_gateway, refused closed_gateway))
refused_after_close_example =
    refused_after_close no_authority some closed_gateway websocket_request 3 4 refl

websocket_test : is_valid_websocket_request websocket_request ≡ true
unfolding is_valid_websocket_request header_contains_token trim_ascii_whitespace text_eq split
    to_ascii_lowercase lower_char
websocket_test = refl
