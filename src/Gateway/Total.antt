-- ===== src/Gateway/Total.antt =====
-- src/proxy.rs: no callback of the gateway panics.
use roused.Base.{
  ℕ, ◌+◌, ◌<◌, ◌≤◌, ◌^◌, ◌≡◌, ◌≢◌, refl, inl, inr, false, Option, none, some, arith, Bool-cases,
  Option-cases,
}
use roused.Base.Text.{Text, codes}
use roused.Config.{get}
use roused.Config.Host.{Authority}
use roused.Gateway.{
  RousedProxy, RequestContext, Request, put, request_filter, request_filter_ready, note_request,
  route_of, proxy_upstream_filter, logging, end_admission, end_lease,
}
use roused.Gateway.World.{held}
use roused.Lifecycle.Gate
use roused.Lifecycle.Service.{
  ServiceLifecycle, ServiceLease, acquire_at, release_at, release_lease_at,
}
use roused.Wake.{Connect, is_ready, request_launch_at}

end_admission_total :
    (p : RousedProxy) (x : RequestContext)
    → held x.admission ≤ p.shutdown.request_gate.admitted
    → end_admission p x ≢ none
unfolding end_admission Gate.drop_admission Gate.release
end_admission_total p x h n = elim (Option-cases x.admission) [
  | inl e ↦ ground arith
  | inr (a, e) ↦ elim (Bool-cases a.released) [ inl b ↦ ground arith | inr b ↦ ground arith ]
]

release_lease_total :
    (s : ServiceLifecycle) (l : ServiceLease) (now : ℕ)
    → (l.released ≡ false → 0 < s.in_flight)
    → release_lease_at s l now ≢ none
unfolding release_lease_at release_at
release_lease_total s l now h n = elim (Bool-cases l.released) [
  | inl b ↦ ground arith
  | inr b ↦ ground (arith, h b)
]

acquire_total : (s : ServiceLifecycle) → s.in_flight + 1 < 2 ^ 64 → acquire_at s ≢ none
unfolding acquire_at
acquire_total s h n = ground arith

-- What the callbacks of a request rely on: the gate and the services count what it holds, the hosts
-- that it names have routes, and the counters do not overflow.
pub record Sound (p : RousedProxy) (x : RequestContext) : Type 0 where
  pub gate : held x.admission ≤ p.shutdown.request_gate.admitted
  pub routed : (h : Text) → x.route ≡ some h → get h p.routes ≢ none
  pub leased : (h : Text) (l : ServiceLease) → x.lease ≡ some (h, l) → get h p.routes ≢ none
  pub counted :
      (h : Text) (l : ServiceLease) (s : ServiceLifecycle)
      → x.lease ≡ some (h, l)
      → get h p.routes ≡ some s
      → l.released ≡ false
      → 0 < s.in_flight
  pub bounded :
      (h : Text) (s : ServiceLifecycle) → get h p.routes ≡ some s → s.in_flight + 1 < 2 ^ 64

end_lease_total :
    (p : RousedProxy) (x : RequestContext) (now : ℕ) → Sound p x → end_lease p x now ≢ none
unfolding end_lease
end_lease_total p x now v n = elim (Option-cases x.lease) [
  | inl e ↦ ground arith
  | inr ((h, l), e) ↦ elim (Option-cases (get h p.routes)) [
    | inl f ↦ v.leased h l e f
    | inr (s, f) ↦ elim (Option-cases (release_lease_at s l now)) [
      | inl g ↦ release_lease_total s l now (v.counted h l s e f) g
      | inr ((s', l'), g) ↦ ground arith
    ]
  ]
]

-- The end of a lease touches neither the admission nor the gate.
end_lease_gate :
    (p q : RousedProxy) (x y : RequestContext) (now : ℕ)
    → end_lease p x now ≡ some (q, y)
    → (held y.admission ≡ held x.admission)
      × (q.shutdown.request_gate.admitted ≡ p.shutdown.request_gate.admitted)
unfolding end_lease
end_lease_gate p q x y now h = elim (Option-cases x.lease) [
  | inl e ↦ (ground arith, ground arith)
  | inr ((k, l), e) ↦ elim (Option-cases (get k p.routes)) [
    | inl f ↦ absurd (ground arith)
    | inr (s, f) ↦ elim (Option-cases (release_lease_at s l now)) [
      | inl g ↦ absurd (ground arith)
      | inr ((s', l'), g) ↦
          let gate : q.shutdown ≡ p.shutdown = ground arith in
          let kept : y.admission ≡ x.admission = ground arith in (rw kept refl, rw gate refl)
    ]
  ]
]

pub logging_total :
    (p : RousedProxy) (x : RequestContext) (now : ℕ) → Sound p x → logging p x now ≢ none
unfolding logging
logging_total p x now v n = elim (Option-cases (end_lease p x now)) [
  | inl e ↦ end_lease_total p x now v e
  | inr ((q, y), e) ↦
      let (kept, gate) = end_lease_gate p q x y now e in
      end_admission_total q y (omega (arith, v.gate, kept, gate)) (ground arith)
]

pub proxy_upstream_filter_total :
    (p : RousedProxy) (x : RequestContext) → Sound p x → proxy_upstream_filter p x ≢ none
unfolding proxy_upstream_filter
proxy_upstream_filter_total p x v n = elim (Option-cases x.route) [
  | inl e ↦ ground arith
  | inr (h, e) ↦ elim (Option-cases x.lease) [
    | inr (l, k) ↦ ground arith
    | inl k ↦ elim (Option-cases (get h p.routes)) [
      | inl f ↦ v.routed h e f
      | inr (s, f) ↦ elim (Option-cases (acquire_at s)) [
        | inl g ↦ acquire_total s (v.bounded h s f) g
        | inr ((s', l), g) ↦
            end_admission_total (record p { routes = put h s' p.routes })
              (record x { lease = some (h, l) }) v.gate (ground arith)
      ]
    ]
  ]
]

pub request_filter_ready_total :
    (p : RousedProxy) (x : RequestContext) (h : Text) (probe : Connect) (now : ℕ)
    → Sound p x
    → get h p.routes ≢ none
    → request_filter_ready p x h probe now ≢ none
unfolding request_filter_ready
request_filter_ready_total p x h probe now v known n = elim (Bool-cases (is_ready probe)) [
  | inl b ↦ ground arith
  | inr b ↦ elim (Option-cases (get h p.routes)) [
    | inl f ↦ known f
    | inr (s, f) ↦
        end_admission_total
          (record p {
            routes =
                put h (record s { wake_target = (request_launch_at s.wake_target now).0 }) p.routes;
          })
          x v.gate (ground arith)
  ]
]

module _ (parse_authority : Text → Option Authority) (to_str : Text → Option Text) where
  pub request_filter_total :
      (p : RousedProxy) (x : RequestContext) (r : Request) (now : ℕ)
      → Sound p x
      → request_filter parse_authority to_str p x r now ≢ none
  unfolding request_filter note_request
  request_filter_total p x r now v n = elim (Bool-cases x.rejected_for_shutdown) [
    | inl b ↦ ground arith
    | inr b ↦
        elim (Option-cases (
          route_of parse_authority to_str p (r.get_all (codes "host"))
            (note_request p x r).listener_port)) [
              | inl e ↦ end_admission_total p (note_request p x r) v.gate (ground arith)
              | inr ((name, s), e) ↦ ground arith
            ]
  ]
