-- ===== src/Gateway/Refusal.antt =====
-- src/proxy.rs, `new_ctx`, `request_filter` and `logging` after the gate has closed.
use roused.Base.{ℕ, ◌≡◌, refl, true, false, Option, none, some, arith}
use roused.Base.Text.{Text}
use roused.Config.Host.{Authority}
use roused.Gateway.{
  RousedProxy, RequestContext, Request, answers, shutting_down, new_ctx, request_filter, logging,
  end_lease, end_admission, upstream_peer, proxy_upstream_filter, route_missing,
}
use roused.Lifecycle.Gate

-- The context of a request that comes when the gate is closed.
abbrev pub refused : RousedProxy → RequestContext
refused p = record {
  route = none;
  lease = none;
  admission = none;
  rejected_for_shutdown = true;
  websocket = false;
  listener_port = p.plain_listener_port;
  tls = false;
  peer_ip = none;
}

-- Once the gate has closed, every request is answered that the gateway is shutting down, whatever it
-- asks for; neither that nor its end panics or changes the gateway, so that it wakes no service and
-- delays no stop; and if pingora went on with it, it would get no service.
pub refused_after_close :
    (parse_authority : Text → Option Authority) (to_str : Text → Option Text) (p : RousedProxy)
    (r : Request) (now later : ℕ)
    → p.shutdown.request_gate.accepting ≡ false
    → (new_ctx p ≡ some (p, refused p))
      × (request_filter parse_authority to_str p (refused p) r now
          ≡ some (p, refused p, answers shutting_down))
      × (proxy_upstream_filter p (refused p) ≡ some route_missing)
      × (upstream_peer p (refused p) ≡ none)
      × (logging p (refused p) later ≡ some (p, refused p))
unfolding new_ctx Gate.admit request_filter proxy_upstream_filter upstream_peer logging end_lease
    end_admission
refused_after_close parse_authority to_str p r now later h = (ground arith, refl, refl, refl, refl)
