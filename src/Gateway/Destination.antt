-- ===== src/Gateway/Destination.antt =====
-- src/proxy.rs with src/config.rs: where a request goes, from its `Host` to the address of the service.
use roused.Base.{
  ℕ, ◌≡◌, refl, ◌∙◌, ◌⊎◌, inl, inr, false, Option, none, some, List, [], ◌∷◌, All, All-map, arith,
  Bool-cases, Option-cases, ◌>>=◌,
}
use roused.Base.Text.{Text, codes, text_eq}
use roused.Config.{get, Config, ServiceConfig}
use roused.Config.Accepted.{IsValid}
use roused.Config.Host.{Authority, normalize_request_host}
use roused.Gateway.{
  RousedProxy, RequestContext, Request, Filtered, answers, asks, unknown_host, new, routes_for,
  request_filter, note_request, route_of, upstream_peer,
}
use roused.Gateway.Known.{Reach-Inv, new-Inv}
use roused.Gateway.Routed.{upstream_at, request_filter-Routed}
use roused.Gateway.World.{World, Reach}
use roused.Lifecycle.Service.{ServiceLifecycle, new_at}
use roused.Net.{SocketAddr}
use roused.Wake.{with_launcher}

IsUnder : Text × ServiceConfig → Type 0
IsUnder e = e.0 ≡ e.1.host

-- The address that the configuration gives to a host.
configured : Text → Config → Option SocketAddr
configured host c = do s ← get host c.services; some s.upstream

routes_for-configured :
    (user now : ℕ) (m : List (Text × ServiceConfig)) (h : Text)
    → All IsUnder m
    → (do s ← get h (routes_for user now m); some s.wake_target.upstream)
      ≡ (do s ← get h m; some s.upstream)
unfolding routes_for get new_at with_launcher IsUnder
routes_for-configured user now [] h v = refl
routes_for-configured user now ((k, s) ∷ m) h v = elim (Bool-cases (text_eq h k)) [
  | inl b ↦ rw (← v.0, b) refl
  | inr b ↦ rw (← v.0, b) (routes_for-configured user now m h v.1)
]

new-configured :
    (c : Config) (user now : ℕ) (h : Text)
    → IsValid c
    → upstream_at h (new c user now) ≡ configured h c
unfolding upstream_at new configured IsUnder
new-configured c user now h v =
    routes_for-configured user now c.services h (All-map (λ e k. k.0) c.services v.services)

-- A host has a route just if the configuration names it.
route-found :
    (c : Config) (p : RousedProxy) (h : Text) (s : ServiceConfig)
    → upstream_at h p ≡ configured h c
    → get h c.services ≡ some s
    → (l : ServiceLifecycle) × (get h p.routes ≡ some l) × (l.wake_target.upstream ≡ s.upstream)
unfolding upstream_at configured
route-found c p h s u e = elim (Option-cases (get h p.routes)) [
  | inl f ↦ absurd (ground arith)
  | inr (l, f) ↦ (l, f, ground arith)
]

route-missing :
    (c : Config) (p : RousedProxy) (h : Text)
    → upstream_at h p ≡ configured h c
    → get h c.services ≡ none
    → get h p.routes ≡ none
unfolding upstream_at configured
route-missing c p h u e = elim (Option-cases (get h p.routes)) [
  | inl f ↦ f
  | inr (l, f) ↦ absurd (ground arith)
]

configured-found :
    (c : Config) (h : Text) (s : ServiceConfig)
    → get h c.services ≡ some s
    → configured h c ≡ some s.upstream
unfolding configured
configured-found c h s e = rw e refl

peer :
    (p : RousedProxy) (x : RequestContext) (name : Text) (a : SocketAddr)
    → upstream_at name p ≡ some a
    → upstream_peer p (record x { route = some name }) ≡ some a
unfolding upstream_at upstream_peer
peer p x name a e = e

module _ (parse_authority : Text → Option Authority) (to_str : Text → Option Text) where
  -- The route of a request whose first `Host` value is read, by what its host and port name.
  no_name :
      (p : RousedProxy) (value : Text) (values : List Text) (host : Text) (port : ℕ)
      → to_str value ≡ some host
      → normalize_request_host parse_authority host port ≡ none
      → route_of parse_authority to_str p (value ∷ values) port ≡ none
  unfolding route_of
  no_name p value values host port g n = rw (g, n) refl

  no_route :
      (p : RousedProxy) (value : Text) (values : List Text) (host : Text) (port : ℕ) (name : Text)
      → to_str value ≡ some host
      → normalize_request_host parse_authority host port ≡ some name
      → get name p.routes ≡ none
      → route_of parse_authority to_str p (value ∷ values) port ≡ none
  unfolding route_of
  no_route p value values host port name g n e = rw (g, n, e) refl

  a_route :
      (p : RousedProxy) (value : Text) (values : List Text) (host : Text) (port : ℕ) (name : Text)
      (l : ServiceLifecycle)
      → to_str value ≡ some host
      → normalize_request_host parse_authority host port ≡ some name
      → get name p.routes ≡ some l
      → route_of parse_authority to_str p (value ∷ values) port ≡ some (name, l)
  unfolding route_of
  a_route p value values host port name l g n e = rw (g, n, e) refl

  unknown :
      (p : RousedProxy) (x : RequestContext) (r : Request) (now : ℕ) (q : RousedProxy)
      (y : RequestContext) (f : Filtered)
      → x.rejected_for_shutdown ≡ false
      → route_of parse_authority to_str p
          (r.get_all (codes "host"))
          (note_request p x r).listener_port
        ≡ none
      → request_filter parse_authority to_str p x r now ≡ some (q, y, f)
      → f ≡ answers unknown_host
  unfolding request_filter
  unknown p x r now q y f admitted e h = ground arith

  asked :
      (p : RousedProxy) (x : RequestContext) (r : Request) (now : ℕ) (q : RousedProxy)
      (y : RequestContext) (f : Filtered)
      → x.rejected_for_shutdown ≡ false
      → (name : Text) (l : ServiceLifecycle)
      → route_of parse_authority to_str p
          (r.get_all (codes "host"))
          (note_request p x r).listener_port
        ≡ some (name, l)
      → request_filter parse_authority to_str p x r now ≡ some (q, y, f)
      → f ≡ asks name
  unfolding request_filter
  asked p x r now q y f admitted name l e h = ground arith

  -- From a new gateway of a valid configuration, in every interleaving: what `request_filter` makes of
  -- a request that the gate admitted and whose first `Host` value reads as `host`, when it returns, is
  -- one of two. The host is that of a configured service, the request asks that service, and the
  -- address of its upstream is the one of the configuration; or no service is configured for the host,
  -- and the answer is that the host is unknown.
  pub requests_routed :
      (c : Config) (user start : ℕ) (w : World) (x y : RequestContext) (q : RousedProxy)
      (r : Request) (now : ℕ) (f : Filtered) (value : Text) (values : List Text) (host : Text)
      → IsValid c
      → Reach parse_authority to_str (record { proxy = new c user start; contexts = [] }) w
      → x.rejected_for_shutdown ≡ false
      → r.get_all (codes "host") ≡ value ∷ values
      → to_str value ≡ some host
      → request_filter parse_authority to_str w.proxy x r now ≡ some (q, y, f)
      → ((name : Text) × (s : ServiceConfig) × (normalize_request_host parse_authority host
              (note_request w.proxy x r).listener_port
            ≡ some name)
          × (get name c.services ≡ some s)
          × (f ≡ asks name)
          × (upstream_peer q (record y { route = some name }) ≡ some s.upstream))
        ⊎ (((do
          name ←
              normalize_request_host parse_authority host (note_request w.proxy x r).listener_port
          get name c.services)
              ≡ none)
            × (f ≡ answers unknown_host))
  requests_routed c user start w x y q r now f value values host v reach admitted e g h =
      let inv = Reach-Inv parse_authority to_str (new c user start) reach (new-Inv c user start) in
      let port = (note_request w.proxy x r).listener_port in
      let at : (k : Text) → upstream_at k w.proxy ≡ configured k c =
        λ k. inv.same k ∙ new-configured c user start k v in
      elim (Option-cases (normalize_request_host parse_authority host port)) [
        | inl n ↦ inr (
          rw n refl,
          unknown w.proxy x r now q y f admitted (rw e (no_name w.proxy value values host port g n))
              h,
        )
        | inr (name, n) ↦ elim (Option-cases (get name c.services)) [
          | inl k ↦ inr (
            rw n k,
            unknown w.proxy x r now q y f admitted
                (rw e (
                  no_route w.proxy value values host port name g n
                    (route-missing c w.proxy name (at name) k)))
                h,
          )
          | inr (s, k) ↦
              let (l, found, up) = route-found c w.proxy name s (at name) k in
              let routed = request_filter-Routed parse_authority to_str w.proxy q x y r now f h in
              inl (
                name,
                s,
                n,
                k,
                asked w.proxy x r now q y f admitted name l
                    (rw e (a_route w.proxy value values host port name l g n found)) h,
                peer q y name s.upstream (routed.same name ∙ at name ∙ configured-found c name s k),
              )
        ]
      ]
