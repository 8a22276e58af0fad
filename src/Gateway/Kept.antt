-- ===== src/Gateway/Kept.antt =====
-- src/proxy.rs: what each callback of a request does to the counts of the gate and of the services,
-- against what its context holds.
use roused.Base.{
  ℕ, ◌+◌, ◌≡◌, refl, sym, ◌∙◌, subst, Bool, false, Option, none, some, List, [], ◌∷◌, arith,
  Bool-cases, Option-cases, inl, inr,
}
use roused.Base.Text.{Text, codes, text_eq}
use roused.Base.Text.Equality.{text_eq_sound, text_eq_refl}
use roused.Config.{get}
use roused.Config.Host.{Authority}
use roused.Gateway.{
  RousedProxy, RequestContext, Request, Response, Filtered, proceeds, put, request_filter,
  request_filter_ready, proxy_upstream_filter, logging, end_admission, end_lease, note_request,
  route_of,
}
use roused.Gateway.Routes.{get-put_same, get-put_other}
use roused.Gateway.World.{held, held_at}
use roused.Lifecycle.Gate
use roused.Lifecycle.Gate.{RequestAdmission}
use roused.Lifecycle.Service.{
  ServiceLifecycle, note_request_arrival_at, acquire_at, release_at, release_lease_at,
}
use roused.Wake.{Connect, is_ready, request_launch_at}

-- What a callback changes: the gate counts what the context holds, and so does each service.
pub record Kept (p : RousedProxy) (x : RequestContext) (q : RousedProxy) (y : RequestContext)
    : Type 0 where
  pub gate :
      p.shutdown.request_gate.admitted + held y.admission
      ≡ q.shutdown.request_gate.admitted + held x.admission
  pub service :
      (h : Text) (t : ServiceLifecycle)
      → get h q.routes ≡ some t
      → (s : ServiceLifecycle) × (get h p.routes ≡ some s)
        × (s.in_flight + held_at h y.lease ≡ t.in_flight + held_at h x.lease)

Kept-trans :
    {p q r : RousedProxy} {x y z : RequestContext} → Kept p x q y → Kept q y r z → Kept p x r z
Kept-trans {p} {q} {r} {x} {y} {z} k l = record {
  gate = omega (arith, k.gate, l.gate);
  service = λ h t e.
      let (s, f, m) = l.service h t e in
      let (s', f', m') = k.service h s f in (s', f', omega (arith, m, m'));
}

-- A service is replaced by one with the count that the leases of the context ask for.
pub put-Kept :
    (p : RousedProxy) (x y : RequestContext) (host : Text) (s s' : ServiceLifecycle)
    → get host p.routes ≡ some s
    → x.admission ≡ y.admission
    → s.in_flight + held_at host y.lease ≡ s'.in_flight + held_at host x.lease
    → ((h : Text) → text_eq h host ≡ false → held_at h y.lease ≡ held_at h x.lease)
    → Kept p x (record p { routes = put host s' p.routes }) y
put-Kept p x y host s s' e a m other = record { gate = rw a refl; service = at }
  where
    at :
        (h : Text) (t : ServiceLifecycle)
        → get h (put host s' p.routes) ≡ some t
        → (u : ServiceLifecycle) × (get h p.routes ≡ some u)
          × (u.in_flight + held_at h y.lease ≡ t.in_flight + held_at h x.lease)
    at h t f = elim (Bool-cases (text_eq h host)) [
      | inl b ↦
          let same : host ≡ h = sym (text_eq_sound h host b) in
          subst
            (λ (k : Text).
              (u : ServiceLifecycle) × (get k p.routes ≡ some u)
              × (u.in_flight + held_at k y.lease ≡ t.in_flight + held_at k x.lease))
            same
            (let found : get host (put host s' p.routes) ≡ some t =
                subst (λ (k : Text). get k (put host s' p.routes) ≡ some t) (sym same) f in
              let is : s' ≡ t = ground (arith, get-put_same host s' s p.routes e) in
              (
                s,
                e,
                subst
                    (λ (v : ServiceLifecycle).
                      s.in_flight + held_at host y.lease ≡ v.in_flight + held_at host x.lease)
                    is m,
              ))
      | inr b ↦ (t, sym (get-put_other h host s' p.routes b) ∙ f, omega (arith, other h b))
    ]

pub same-Kept :
    (p q : RousedProxy) (x y : RequestContext)
    → q.routes ≡ p.routes
    → y.lease ≡ x.lease
    → p.shutdown.request_gate.admitted + held y.admission
      ≡ q.shutdown.request_gate.admitted + held x.admission
    → Kept p x q y
same-Kept p q x y r l g = record { gate = g; service = λ h t e. (t, rw (← r) e, rw l refl) }

end_admission-Kept :
    (p q : RousedProxy) (x y : RequestContext) → end_admission p x ≡ some (q, y) → Kept p x q y
unfolding end_admission Gate.drop_admission Gate.release
end_admission-Kept p q x y h = elim (Option-cases x.admission) [
  | inl e ↦ same-Kept p q x y (ground arith) (ground arith) (ground arith)
  | inr (a, e) ↦ same-Kept p q x y (ground arith) (ground arith) (ground arith)
]

route-Kept :
    (p : RousedProxy) (x : RequestContext) (r : Option Text) → Kept p x p (record x { route = r })
route-Kept p x r = same-Kept p p x _ refl refl refl

end_lease-Kept :
    (p q : RousedProxy) (x y : RequestContext) (now : ℕ)
    → end_lease p x now ≡ some (q, y)
    → Kept p x q y
unfolding end_lease release_lease_at release_at
end_lease-Kept p q x y now h = elim (Option-cases x.lease) [
  | inl e ↦ same-Kept p q x y (ground arith) (ground arith) (ground arith)
  | inr ((host, l), e) ↦ elim (Option-cases (get host p.routes)) [
    | inl f ↦ absurd (ground arith)
    | inr (s, f) ↦ elim (Option-cases (release_lease_at s l now)) [
      | inl g ↦ absurd (ground arith)
      | inr ((s', l'), g) ↦
          let is : (record p { routes = put host s' p.routes }, record x { lease = none })
              ≡ (q, y) =
            ground arith in
          subst (λ (r : RousedProxy × RequestContext). Kept p x r.0 r.1) is
            (put-Kept p x (record x { lease = none }) host s s' f refl
              (rw (e, text_eq_refl host) (ground arith)) (λ h b. rw (e, b) (ground arith)))
    ]
  ]
]

pub logging-Kept :
    (p q : RousedProxy) (x y : RequestContext) (now : ℕ)
    → logging p x now ≡ some (q, y)
    → Kept p x q y
unfolding logging
logging-Kept p q x y now h = elim (Option-cases (end_lease p x now)) [
  | inl e ↦ absurd (ground arith)
  | inr ((p', x'), e) ↦
      Kept-trans (end_lease-Kept p p' x x' now e) (end_admission-Kept p' q x' y (ground arith))
]

eq-Kept :
    {p q r : RousedProxy} {x y z : RequestContext} → q ≡ r → y ≡ z → Kept p x q y → Kept p x r z
eq-Kept {p} {q} {r} {x} {y} {z} e f k =
    subst (λ (u : RousedProxy). Kept p x u z) e (subst (λ (v : RequestContext). Kept p x q v) f k)

note_request-Kept :
    (p : RousedProxy) (x : RequestContext) (r : Request) → Kept p x p (note_request p x r)
unfolding note_request
note_request-Kept p x r = same-Kept p p x _ refl refl refl

arrival-Kept :
    (p : RousedProxy) (x : RequestContext) (r : Request) (name : Text) (s : ServiceLifecycle)
    (now : ℕ)
    → get name p.routes ≡ some s
    → Kept p x
        (record p { routes = put name (note_request_arrival_at s now) p.routes })
        (note_request p x r)
unfolding note_request note_request_arrival_at
arrival-Kept p x r name s now e = put-Kept p x _ name s _ e refl refl (λ h b. refl)

module _ (parse_authority : Text → Option Authority) (to_str : Text → Option Text) where
  pub route_of-get :
      (p : RousedProxy) (values : List Text) (port : ℕ) (name : Text) (s : ServiceLifecycle)
      → route_of parse_authority to_str p values port ≡ some (name, s)
      → get name p.routes ≡ some s
  unfolding route_of
  route_of-get p [] port name s h = cc
  route_of-get p (v ∷ values) port name s h = ground arith

  pub request_filter-Kept :
      (p q : RousedProxy) (x y : RequestContext) (r : Request) (now : ℕ) (f : Filtered)
      → request_filter parse_authority to_str p x r now ≡ some (q, y, f)
      → Kept p x q y
  unfolding request_filter
  request_filter-Kept p q x y r now f h = elim (Bool-cases x.rejected_for_shutdown) [
    | inl b ↦ eq-Kept (ground arith) (ground arith) (same-Kept p p x x refl refl refl)
    | inr b ↦
        elim (Option-cases (
          route_of parse_authority to_str p (r.get_all (codes "host"))
            (note_request p x r).listener_port)) [
              | inl e ↦
                  Kept-trans (note_request-Kept p x r)
                    (end_admission-Kept p q (note_request p x r) y (ground arith))
              | inr ((name, s), e) ↦
                  eq-Kept (ground arith) (ground arith)
                    (arrival-Kept p x r name s now (route_of-get p _ _ name s e))
            ]
  ]

pub request_filter_ready-Kept :
    (p q : RousedProxy) (x y : RequestContext) (host : Text) (probe : Connect) (now : ℕ)
    (f : Option Response) (starts : Bool)
    → request_filter_ready p x host probe now ≡ some (q, y, f, starts)
    → Kept p x q y
unfolding request_filter_ready
request_filter_ready-Kept p q x y host probe now f starts h = elim (Bool-cases (is_ready probe)) [
  | inl b ↦ eq-Kept (ground arith) (ground arith) (route-Kept p x (some host))
  | inr b ↦ elim (Option-cases (get host p.routes)) [
    | inl e ↦ absurd (ground arith)
    | inr (s, e) ↦
        let s' = record s { wake_target = (request_launch_at s.wake_target now).0 } in
        let p' = record p { routes = put host s' p.routes } in
        Kept-trans {q = p'} {y = x} (put-Kept p x x host s s' e refl refl (λ h b. refl))
          (end_admission-Kept p' q x y (ground arith))
  ]
]

pub proxy_upstream_filter-Kept :
    (p q : RousedProxy) (x y : RequestContext)
    → proxy_upstream_filter p x ≡ some (proceeds q y)
    → Kept p x q y
unfolding proxy_upstream_filter acquire_at
proxy_upstream_filter-Kept p q x y h = elim (Option-cases x.route) [
  | inl e ↦ absurd (ground arith)
  | inr (host, e) ↦ elim (Option-cases x.lease) [
    | inr (held_one, k) ↦ absurd (ground arith)
    | inl k ↦ elim (Option-cases (get host p.routes)) [
      | inl f ↦ absurd (ground arith)
      | inr (s, f) ↦ elim (Option-cases (acquire_at s)) [
        | inl g ↦ absurd (ground arith)
        | inr ((s', l), g) ↦
            let p' = record p { routes = put host s' p.routes } in
            let x' = record x { lease = some (host, l) } in
            Kept-trans {q = p'} {y = x'}
              (put-Kept p x x' host s s' f refl (rw (k, text_eq_refl host) (ground arith))
                (λ h b. rw (k, b) (ground arith)))
              (end_admission-Kept p' q x' y (ground arith))
      ]
    ]
  ]
]
