-- ===== src/Gateway/World.antt =====
-- src/proxy.rs: the gateway among its requests. The callbacks of all requests come in any order; the
-- idle monitor, the stop tasks and the launcher act on the services between them.
use roused.Base.{ℕ, ◌+◌, ◌≡◌, Bool, Option, none, some, List, [], ◌∷◌, ◌++◌, if◌then◌else◌}
use roused.Base.Text.{Text, text_eq}
use roused.Config.{get}
use roused.Config.Host.{Authority}
use roused.Gateway.{
  RousedProxy, RequestContext, Request, Response, Filtered, proceeds, put, with_gate, new_ctx,
  request_filter, request_filter_ready, proxy_upstream_filter, logging,
}
use roused.Lifecycle.Gate
use roused.Lifecycle.Gate.{RequestAdmission}
use roused.Lifecycle.Service.{ServiceLifecycle, ServiceLease}
use roused.Lifecycle.Shutdown
use roused.Wake.{Connect}

-- The gateway and the contexts of the requests that have not ended.
pub record World : Type 0 where
  pub proxy : RousedProxy
  pub contexts : List RequestContext

module _ (parse_authority : Text → Option Authority) (to_str : Text → Option Text) where
  pub data Step (w u : World) : Type 0 where
    opens :
        (p : RousedProxy) (x : RequestContext)
        → new_ctx w.proxy ≡ some (p, x)
        → u ≡ record { proxy = p; contexts = x ∷ w.contexts }
        → Step w u
    filters :
        (before after : List RequestContext) (x x' : RequestContext) (p : RousedProxy) (r : Request)
        (now : ℕ) (f : Filtered)
        → w.contexts ≡ before ++ x ∷ after
        → request_filter parse_authority to_str w.proxy x r now ≡ some (p, x', f)
        → u ≡ record { proxy = p; contexts = before ++ x' ∷ after }
        → Step w u
    readies :
        (before after : List RequestContext) (x x' : RequestContext) (p : RousedProxy) (host : Text)
        (s : ServiceLifecycle) (connect : Connect) (now : ℕ) (f : Option Response) (starts : Bool)
        → w.contexts ≡ before ++ x ∷ after
        → get host w.proxy.routes ≡ some s
        → request_filter_ready w.proxy x host connect now ≡ some (p, x', f, starts)
        → u ≡ record { proxy = p; contexts = before ++ x' ∷ after }
        → Step w u
    proxies :
        (before after : List RequestContext) (x x' : RequestContext) (p : RousedProxy)
        → w.contexts ≡ before ++ x ∷ after
        → proxy_upstream_filter w.proxy x ≡ some (proceeds p x')
        → u ≡ record { proxy = p; contexts = before ++ x' ∷ after }
        → Step w u
    logs :
        (before after : List RequestContext) (x x' : RequestContext) (p : RousedProxy) (now : ℕ)
        → w.contexts ≡ before ++ x ∷ after
        → logging w.proxy x now ≡ some (p, x')
        → u ≡ record { proxy = p; contexts = before ++ after }
        → Step w u
    closes :
        u ≡ record w { proxy = with_gate w.proxy (Gate.close w.proxy.shutdown.request_gate).0 }
        → Step w u
    shuts_down :
        u ≡ record w {
          proxy = record (w.proxy) { shutdown = (Shutdown.request w.proxy.shutdown).0 };
        }
        → Step w u
    works :
        (host : Text) (s s' : ServiceLifecycle)
        → get host w.proxy.routes ≡ some s
        → s'.in_flight ≡ s.in_flight
        → s'.wake_target.upstream ≡ s.wake_target.upstream
        → u ≡ record w { proxy = record (w.proxy) { routes = put host s' w.proxy.routes } }
        → Step w u

  pub data Reach (w : World) : World → Type 0 where
    here : Reach w w
    next : {u v : World} → Reach w u → Step u v → Reach w v

-- One for a guard that is held.
abbrev pub held : Option RequestAdmission → ℕ
held none = 0
held (some a) = if a.released then 0 else 1

abbrev pub held_at : Text → Option (Text × ServiceLease) → ℕ
held_at host none = 0
held_at host (some (h, l)) = if l.released then 0 else if text_eq host h then 1 else 0

abbrev pub admissions : List RequestContext → ℕ
admissions [] = 0
admissions (x ∷ xs) = held x.admission + admissions xs

abbrev pub leases_at : Text → List RequestContext → ℕ
leases_at host [] = 0
leases_at host (x ∷ xs) = held_at host x.lease + leases_at host xs
