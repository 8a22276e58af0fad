-- ===== src/Gateway/Ordered.antt =====
-- src/proxy.rs: the callbacks of each request in the order in which pingora calls them: `new_ctx`,
-- `request_filter`, for a known host the rest of it after the wait for the readiness, then
-- `proxy_upstream_filter`, and at any stage `logging`, which ends the request.
use roused.Base.{ℕ, ◌≡◌, refl, ap, ◌∙◌, Bool, Option, none, some, List, [], ◌∷◌, ◌++◌, map}
use roused.Base.Text.{Text}
use roused.Config.{get}
use roused.Config.Host.{Authority}
use roused.Gateway.{
  RousedProxy, RequestContext, Request, Response, Filtered, answers, asks, proceeds, put, with_gate,
  new_ctx, request_filter, request_filter_ready, proxy_upstream_filter, logging,
}
use roused.Gateway.World
use roused.Gateway.World.{held}
use roused.Lifecycle.Gate
use roused.Lifecycle.Service.{ServiceLifecycle}
use roused.Lifecycle.Shutdown
use roused.Wake.{Connect}

-- How far a request is: before `request_filter`, at the wait for the readiness of a host, before
-- `proxy_upstream_filter`, after it, or answered by the gateway itself.
pub data Stage : Type 0 where
  opened routed proxied answered : Stage
  asked : Text → Stage

pub record Session : Type 0 where
  pub stage : Stage
  pub context : RequestContext

pub record Ordered : Type 0 where
  pub proxy : RousedProxy
  pub sessions : List Session

abbrev pub after_filter : Filtered → Stage
after_filter (answers r) = answered
after_filter (asks host) = asked host

abbrev pub after_ready : Option Response → Stage
after_ready none = routed
after_ready (some r) = answered

abbrev pub at : Stage → RequestContext → Session
at stage x = record { stage = stage; context = x }

module _ (parse_authority : Text → Option Authority) (to_str : Text → Option Text) where
  pub data Step (w u : Ordered) : Type 0 where
    opens :
        (p : RousedProxy) (x : RequestContext)
        → new_ctx w.proxy ≡ some (p, x)
        → u ≡ record { proxy = p; sessions = at opened x ∷ w.sessions }
        → Step w u
    filters :
        (before after : List Session) (x x' : RequestContext) (p : RousedProxy) (r : Request)
        (now : ℕ) (f : Filtered)
        → w.sessions ≡ before ++ at opened x ∷ after
        → request_filter parse_authority to_str w.proxy x r now ≡ some (p, x', f)
        → u ≡ record { proxy = p; sessions = before ++ at (after_filter f) x' ∷ after }
        → Step w u
    readies :
        (before after : List Session) (x x' : RequestContext) (p : RousedProxy) (host : Text)
        (s : ServiceLifecycle) (probe : Connect) (now : ℕ) (f : Option Response) (starts : Bool)
        → w.sessions ≡ before ++ at (asked host) x ∷ after
        → get host w.proxy.routes ≡ some s
        → request_filter_ready w.proxy x host probe now ≡ some (p, x', f, starts)
        → u ≡ record { proxy = p; sessions = before ++ at (after_ready f) x' ∷ after }
        → Step w u
    proxies :
        (before after : List Session) (x x' : RequestContext) (p : RousedProxy)
        → w.sessions ≡ before ++ at routed x ∷ after
        → proxy_upstream_filter w.proxy x ≡ some (proceeds p x')
        → u ≡ record { proxy = p; sessions = before ++ at proxied x' ∷ after }
        → Step w u
    logs :
        (before after : List Session) (stage : Stage) (x x' : RequestContext) (p : RousedProxy)
        (now : ℕ)
        → w.sessions ≡ before ++ at stage x ∷ after
        → logging w.proxy x now ≡ some (p, x')
        → u ≡ record { proxy = p; sessions = before ++ after }
        → Step w u
    closes :
        u ≡ record w { proxy = with_gate w.proxy (Gate.close w.proxy.shutdown.request_gate).0 }
        → Step w u
    shuts_down :
        u ≡ record w {
          proxy = record (w.proxy) { shutdown = (Shutdown.request w.proxy.shutdown).0 };
        }
        → Step w u
    works :
        (host : Text) (s s' : ServiceLifecycle)
        → get host w.proxy.routes ≡ some s
        → s'.in_flight ≡ s.in_flight
        → s'.wake_target.upstream ≡ s.wake_target.upstream
        → u ≡ record w { proxy = record (w.proxy) { routes = put host s' w.proxy.routes } }
        → Step w u

  pub data Reach (w : Ordered) : Ordered → Type 0 where
    here : Reach w w
    next : {u v : Ordered} → Reach w u → Step u v → Reach w v

abbrev pub contexts_of : List Session → List RequestContext
contexts_of sessions = map (λ s. s.context) sessions

-- The gateway among its requests, whatever their order.
abbrev pub erase : Ordered → World.World
erase w = record { proxy = w.proxy; contexts = contexts_of w.sessions }

contexts-append : (xs ys : List Session) → contexts_of (xs ++ ys) ≡ contexts_of xs ++ contexts_of ys
contexts-append [] ys = refl
contexts-append (x ∷ xs) ys = ap (λ zs. x.context ∷ zs) (contexts-append xs ys)

pub erased :
    (xs before : List Session) (s : Session) (after : List Session)
    → xs ≡ before ++ s ∷ after
    → contexts_of xs ≡ contexts_of before ++ s.context ∷ contexts_of after
erased xs before s after e = ap contexts_of e ∙ contexts-append before (s ∷ after)

erased_to :
    (p : RousedProxy) (before : List Session) (s : Session) (after : List Session)
    → erase (record { proxy = p; sessions = before ++ s ∷ after })
      ≡ record { proxy = p; contexts = contexts_of before ++ s.context ∷ contexts_of after }
erased_to p before s after =
    ap (λ xs. record { proxy = p; contexts = xs }) (contexts-append before (s ∷ after))

module _ (parse_authority : Text → Option Authority) (to_str : Text → Option Text) where
  erase-Step :
      {w u : Ordered}
      → Step parse_authority to_str w u
      → World.Step parse_authority to_str (erase w) (erase u)
  erase-Step (opens p x h e) = World.opens p x h (ap erase e)
  erase-Step (filters before after x y p r now f c h e) =
      World.filters (contexts_of before) (contexts_of after) x y p r now f
        (erased _ before _ after c) h
        (ap erase e ∙ erased_to p before (at (after_filter f) y) after)
  erase-Step (readies before after x y p host s probe now f starts c g h e) =
      World.readies (contexts_of before) (contexts_of after) x y p host s probe now f starts
        (erased _ before _ after c) g h
        (ap erase e ∙ erased_to p before (at (after_ready f) y) after)
  erase-Step (proxies before after x y p c h e) =
      World.proxies (contexts_of before) (contexts_of after) x y p (erased _ before _ after c) h
        (ap erase e ∙ erased_to p before (at proxied y) after)
  erase-Step (logs before after stage x y p now c h e) =
      World.logs (contexts_of before) (contexts_of after) x y p now (erased _ before _ after c) h
        (ap erase e ∙ ap (λ xs. record { proxy = p; contexts = xs }) (contexts-append before after))
  erase-Step (closes e) = World.closes (ap erase e)
  erase-Step (shuts_down e) = World.shuts_down (ap erase e)
  erase-Step (works host s s' f same up e) = World.works host s s' f same up (ap erase e)

  pub erase-Reach :
      {w u : Ordered}
      → Reach parse_authority to_str w u
      → World.Reach parse_authority to_str (erase w) (erase u)
  erase-Reach here = World.here
  erase-Reach (next r st) = World.next (erase-Reach r) (erase-Step st)
