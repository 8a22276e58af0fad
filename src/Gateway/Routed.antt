-- ===== src/Gateway/Routed.antt =====
-- src/proxy.rs: the routes of the gateway keep their addresses, and every request goes where the
-- configuration sends its host.
use roused.Base.{
  ℕ, ◌≡◌, refl, sym, ◌∙◌, ◌⊎◌, inl, inr, Bool, true, Option, none, some, arith, Bool-cases,
  Option-cases, ◌>>=◌, is_some,
}
use roused.Base.Text.{Text, codes, text_eq}
use roused.Base.Text.Equality.{text_eq_sound}
use roused.Config.{get}
use roused.Config.Host.{Authority}
use roused.Gateway.{
  RousedProxy, RequestContext, Request, Response, Filtered, proceeds, put, request_filter,
  request_filter_ready, proxy_upstream_filter, logging, end_admission, end_lease, note_request,
  route_of,
}
use roused.Gateway.Kept.{route_of-get}
use roused.Gateway.Routes.{get-put_same, get-put_other}
use roused.Lifecycle.Service.{
  ServiceLifecycle, ServiceLease, note_request_arrival_at, acquire_at, release_at, release_lease_at,
}
use roused.Net.{SocketAddr}
use roused.Wake.{Connect, is_ready, request_launch_at}

-- The address of the route of a host.
unfoldable pub upstream_at : Text → RousedProxy → Option SocketAddr
upstream_at host p = do s ← get host p.routes; some s.wake_target.upstream

-- The hosts with a route and their addresses stay.
abbrev pub Same : RousedProxy → RousedProxy → Type 0
Same p q = (h : Text) → upstream_at h q ≡ upstream_at h p

abbrev pub IsKnown : RousedProxy → Text → Type 0
IsKnown p h = is_some (upstream_at h p) ≡ true

-- What a callback does to the routes, and to the hosts that its context names.
pub record Routed (p : RousedProxy) (x : RequestContext) (q : RousedProxy) (y : RequestContext)
    : Type 0 where
  pub same : Same p q
  pub route : (h : Text) → y.route ≡ some h → (x.route ≡ some h) ⊎ IsKnown p h
  pub lease :
      (h : Text) (l : ServiceLease) → y.lease ≡ some (h, l) → (x.lease ≡ some (h, l)) ⊎ IsKnown p h

pub put-Same :
    (p : RousedProxy) (host : Text) (s s' : ServiceLifecycle)
    → get host p.routes ≡ some s
    → s'.wake_target.upstream ≡ s.wake_target.upstream
    → Same p (record p { routes = put host s' p.routes })
unfolding upstream_at
put-Same p host s s' e u h = elim (Bool-cases (text_eq h host)) [
  | inl b ↦
      let same : h ≡ host = text_eq_sound h host b in
      rw (same, get-put_same host s' s p.routes e, e, u) refl
  | inr b ↦ rw (get-put_other h host s' p.routes b) refl
]

routes-Same : (p q : RousedProxy) → q.routes ≡ p.routes → Same p q
unfolding upstream_at
routes-Same p q e h = rw e refl

Routed-trans :
    {p q r : RousedProxy} {x y z : RequestContext}
    → Routed p x q y
    → Routed q y r z
    → Routed p x r z
Routed-trans {p} {q} k l = record {
  same = λ h. l.same h ∙ k.same h;
  route =
      λ h e. elim (l.route h e) [ inl f ↦ k.route h f | inr known ↦ inr (rw (k.same h) at known) ];
  lease = λ h m e. elim (l.lease h m e) [
    | inl f ↦ k.lease h m f
    | inr known ↦ inr (rw (k.same h) at known)
  ];
}

-- A callback that leaves what its context names.
keeps :
    {p q : RousedProxy} {x y : RequestContext}
    → Same p q
    → y.route ≡ x.route
    → y.lease ≡ x.lease
    → Routed p x q y
keeps s r l = record { same = s; route = λ h e. inl (sym r ∙ e); lease = λ h m e. inl (sym l ∙ e) }

end_admission-Routed :
    (p q : RousedProxy) (x y : RequestContext) → end_admission p x ≡ some (q, y) → Routed p x q y
unfolding end_admission
end_admission-Routed p q x y h =
    keeps (routes-Same p q (ground arith)) (ground arith) (ground arith)

released_upstream :
    (s s' : ServiceLifecycle) (l l' : ServiceLease) (now : ℕ)
    → release_lease_at s l now ≡ some (s', l')
    → s'.wake_target.upstream ≡ s.wake_target.upstream
unfolding release_lease_at release_at
released_upstream s s' l l' now h = ground arith

end_lease-Routed :
    (p q : RousedProxy) (x y : RequestContext) (now : ℕ)
    → end_lease p x now ≡ some (q, y)
    → Routed p x q y
unfolding end_lease
end_lease-Routed p q x y now h = elim (Option-cases x.lease) [
  | inl e ↦ keeps (routes-Same p q (ground arith)) (ground arith) (ground arith)
  | inr ((host, l), e) ↦ elim (Option-cases (get host p.routes)) [
    | inl f ↦ absurd (ground arith)
    | inr (s, f) ↦ elim (Option-cases (release_lease_at s l now)) [
      | inl g ↦ absurd (ground arith)
      | inr ((s', l'), g) ↦
          let is : q ≡ record p { routes = put host s' p.routes } = ground arith in
          let none_left : y.lease ≡ none = ground arith in
          record {
            same = rw is (put-Same p host s s' f (released_upstream s s' l l' now g));
            route = λ k m. inl (ground arith);
            lease = λ k n m. absurd (ground arith);
          }
    ]
  ]
]

pub logging-Routed :
    (p q : RousedProxy) (x y : RequestContext) (now : ℕ)
    → logging p x now ≡ some (q, y)
    → Routed p x q y
unfolding logging
logging-Routed p q x y now h = elim (Option-cases (end_lease p x now)) [
  | inl e ↦ absurd (ground arith)
  | inr ((p', x'), e) ↦
      Routed-trans (end_lease-Routed p p' x x' now e)
        (end_admission-Routed p' q x' y (ground arith))
]

module _ (parse_authority : Text → Option Authority) (to_str : Text → Option Text) where
  pub request_filter-Routed :
      (p q : RousedProxy) (x y : RequestContext) (r : Request) (now : ℕ) (f : Filtered)
      → request_filter parse_authority to_str p x r now ≡ some (q, y, f)
      → Routed p x q y
  unfolding request_filter note_request note_request_arrival_at
  request_filter-Routed p q x y r now f h = elim (Bool-cases x.rejected_for_shutdown) [
    | inl b ↦ keeps (routes-Same p q (ground arith)) (ground arith) (ground arith)
    | inr b ↦
        elim (Option-cases (
          route_of parse_authority to_str p (r.get_all (codes "host"))
            (note_request p x r).listener_port)) [
              | inl e ↦
                  Routed-trans {y = note_request p x r} (keeps (routes-Same p p refl) refl refl)
                    (end_admission-Routed p q (note_request p x r) y (ground arith))
              | inr ((name, s), e) ↦
                  let is : q
                      ≡ record p { routes = put name (note_request_arrival_at s now) p.routes } =
                    ground arith in
                  let found = route_of-get parse_authority to_str p _ _ name s e in
                  keeps (rw is (put-Same p name s _ found refl)) (ground arith) (ground arith)
            ]
  ]

found-IsKnown :
    (p : RousedProxy) (h : Text) (s : ServiceLifecycle) → get h p.routes ≡ some s → IsKnown p h
unfolding upstream_at
found-IsKnown p h s e = rw e refl

pub request_filter_ready-Routed :
    (p q : RousedProxy) (x y : RequestContext) (host : Text) (s : ServiceLifecycle)
    (probe : Connect) (now : ℕ) (f : Option Response) (starts : Bool)
    → get host p.routes ≡ some s
    → request_filter_ready p x host probe now ≡ some (q, y, f, starts)
    → Routed p x q y
unfolding request_filter_ready request_launch_at
request_filter_ready-Routed p q x y host s probe now f starts e h =
    elim (Bool-cases (is_ready probe)) [
      | inl b ↦ record {
        same = routes-Same p q (ground arith);
        route =
            λ k m. let is : host ≡ k = ground arith in inr (rw is at (found-IsKnown p host s e));
        lease = λ k n m. inl (ground arith);
      }
      | inr b ↦
          let s' = record s { wake_target = (request_launch_at s.wake_target now).0 } in
          let p' = record p { routes = put host s' p.routes } in
          Routed-trans {q = p'} {y = x} (keeps (put-Same p host s s' e refl) refl refl)
            (end_admission-Routed p' q x y (ground arith))
    ]

pub proxy_upstream_filter-Routed :
    (p q : RousedProxy) (x y : RequestContext)
    → proxy_upstream_filter p x ≡ some (proceeds q y)
    → Routed p x q y
unfolding proxy_upstream_filter acquire_at
proxy_upstream_filter-Routed p q x y h = elim (Option-cases x.route) [
  | inl e ↦ absurd (ground arith)
  | inr (host, e) ↦ elim (Option-cases x.lease) [
    | inr (held_one, k) ↦ absurd (ground arith)
    | inl k ↦ elim (Option-cases (get host p.routes)) [
      | inl f ↦ absurd (ground arith)
      | inr (s, f) ↦ elim (Option-cases (acquire_at s)) [
        | inl g ↦ absurd (ground arith)
        | inr ((s', l), g) ↦
            let p' = record p { routes = put host s' p.routes } in
            let x' = record x { lease = some (host, l) } in
            Routed-trans {q = p'} {y = x'}
              (record {
                same = put-Same p host s s' f (ground arith);
                route = λ m n. inl n;
                lease = λ m n o.
                    let is : host ≡ m = ground arith in inr (rw is at (found-IsKnown p host s f));
              })
              (end_admission-Routed p' q x' y (ground arith))
      ]
    ]
  ]
]
