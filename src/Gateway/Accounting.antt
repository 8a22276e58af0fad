-- ===== src/Gateway/Accounting.antt =====
-- src/proxy.rs: in every interleaving the gate counts the admissions of the requests, and each service
-- their leases.
use roused.Base.{
  ℕ, ◌+◌, ◌<◌, ◌≡◌, ◌≢◌, refl, ◌∙◌, false, Option, none, some, List, [], ◌∷◌, ◌++◌, arith,
  Bool-cases, Option-cases, inl, inr,
}
use roused.Base.Text.{Text, text_eq}
use roused.Base.Text.Equality.{text_eq_refl}
use roused.Config.{get, Config, ServiceConfig}
use roused.Config.Host.{Authority}
use roused.Gateway.{
  RousedProxy, RequestContext, put, new_ctx, logging, end_admission, end_lease, new, routes_for,
}
use roused.Gateway.Kept.{
  Kept, put-Kept, logging-Kept, request_filter-Kept, request_filter_ready-Kept,
  proxy_upstream_filter-Kept,
}
use roused.Gateway.World.{
  World, Step, Reach, here, next, opens, filters, readies, proxies, logs, closes, shuts_down, works,
  held, held_at, admissions, leases_at,
}
use roused.Wake.{WakeEvent}
use roused.Lifecycle.Gate
use roused.Lifecycle.Service.{ServiceLifecycle, ServiceLease, new_at}
use roused.Lifecycle.Service.Attempt.{
  StopAttempt, obsolete, ready, begin_stop_attempt_at, begin_shutdown_attempt,
  start_allowed_attempt_at, set_attempt,
}
use roused.Lifecycle.Shutdown

pub record Inv (w : World) : Type 0 where
  pub gate : w.proxy.shutdown.request_gate.admitted ≡ admissions w.contexts
  pub service :
      (h : Text) (s : ServiceLifecycle)
      → get h w.proxy.routes ≡ some s
      → s.in_flight ≡ leases_at h w.contexts

pub admissions-middle :
    (xs : List RequestContext) (x : RequestContext) (ys : List RequestContext)
    → admissions (xs ++ x ∷ ys) ≡ held x.admission + admissions (xs ++ ys)
admissions-middle [] x ys = refl
admissions-middle (z ∷ xs) x ys = omega (arith, admissions-middle xs x ys)

pub leases_at-middle :
    (h : Text) (xs : List RequestContext) (x : RequestContext) (ys : List RequestContext)
    → leases_at h (xs ++ x ∷ ys) ≡ held_at h x.lease + leases_at h (xs ++ ys)
leases_at-middle h [] x ys = refl
leases_at-middle h (z ∷ xs) x ys = omega (arith, leases_at-middle h xs x ys)

replace-Inv :
    (w : World) (before after : List RequestContext) (x y : RequestContext) (q : RousedProxy)
    → w.contexts ≡ before ++ x ∷ after
    → Kept w.proxy x q y
    → Inv w
    → Inv (record { proxy = q; contexts = before ++ y ∷ after })
replace-Inv w before after x y q e k v = record {
  gate =
      let total : admissions w.contexts ≡ held x.admission + admissions (before ++ after) =
        rw e (admissions-middle before x after) in
      omega (arith, total, k.gate, v.gate, admissions-middle before y after);
  service = λ h t f.
      let (s, g, m) = k.service h t f in
      let total : leases_at h w.contexts ≡ held_at h x.lease + leases_at h (before ++ after) =
        rw e (leases_at-middle h before x after) in
      omega (arith, total, m, v.service h s g, leases_at-middle h before y after);
}

drop-Inv :
    (w : World) (before after : List RequestContext) (y : RequestContext)
    → w.contexts ≡ before ++ y ∷ after
    → y.admission ≡ none
    → y.lease ≡ none
    → Inv w
    → Inv (record w { contexts = before ++ after })
drop-Inv w before after y e a l v = record {
  gate =
      let total : admissions w.contexts ≡ held y.admission + admissions (before ++ after) =
        rw e (admissions-middle before y after) in
      let nothing : held y.admission ≡ 0 = rw a refl in omega (arith, total, nothing, v.gate);
  service = λ h t f.
      let total : leases_at h w.contexts ≡ held_at h y.lease + leases_at h (before ++ after) =
        rw e (leases_at-middle h before y after) in
      let nothing : held_at h y.lease ≡ 0 = rw l refl in
      omega (arith, total, nothing, v.service h t f);
}

end_lease_ends :
    (p q : RousedProxy) (x y : RequestContext) (now : ℕ)
    → end_lease p x now ≡ some (q, y)
    → y.lease ≡ none
unfolding end_lease
end_lease_ends p q x y now h = ground arith

end_admission_ends :
    (p q : RousedProxy) (x y : RequestContext)
    → end_admission p x ≡ some (q, y)
    → (y.admission ≡ none) × (y.lease ≡ x.lease)
unfolding end_admission
end_admission_ends p q x y h = ground arith

pub logging_ends :
    (p q : RousedProxy) (x y : RequestContext) (now : ℕ)
    → logging p x now ≡ some (q, y)
    → (y.admission ≡ none) × (y.lease ≡ none)
unfolding logging
logging_ends p q x y now h = elim (Option-cases (end_lease p x now)) [
  | inl e ↦ absurd (ground arith)
  | inr ((p', x'), e) ↦
      let (a, same) = end_admission_ends p' q x' y (ground arith) in
      (a, same ∙ end_lease_ends p p' x x' now e)
]

opens-Inv :
    (w : World) (p : RousedProxy) (x : RequestContext)
    → new_ctx w.proxy ≡ some (p, x)
    → Inv w
    → Inv (record { proxy = p; contexts = x ∷ w.contexts })
unfolding new_ctx Gate.admit
opens-Inv w p x h v =
    let routes : p.routes ≡ w.proxy.routes = ground arith in
    let lease : x.lease ≡ none = ground arith in
    record {
      gate = ground (arith, v.gate);
      service = λ k s f.
          let found : get k w.proxy.routes ≡ some s = rw (← routes) f in
          let nothing : held_at k x.lease ≡ 0 = rw lease refl in
          omega (arith, nothing, v.service k s found);
    }

abbrev pub nobody : RequestContext
nobody = record {
  route = none;
  lease = none;
  admission = none;
  rejected_for_shutdown = false;
  websocket = false;
  listener_port = 0;
  tls = false;
  peer_ip = none;
}

works-Inv :
    (w : World) (host : Text) (s s' : ServiceLifecycle)
    → get host w.proxy.routes ≡ some s
    → s'.in_flight ≡ s.in_flight
    → Inv w
    → Inv (record w { proxy = record (w.proxy) { routes = put host s' w.proxy.routes } })
works-Inv w host s s' e same v =
    let k = put-Kept w.proxy nobody nobody host s s' e refl (omega (arith, same)) (λ h b. refl) in
    record {
      gate = v.gate;
      service = λ h t f. let (u, g, m) = k.service h t f in omega (arith, m, v.service h u g);
    }

module _ (parse_authority : Text → Option Authority) (to_str : Text → Option Text) where
  Step-Inv : {w u : World} → Step parse_authority to_str w u → Inv w → Inv u
  unfolding Gate.close Shutdown.request
  Step-Inv {w} (opens p x h e) v = rw e (opens-Inv w p x h v)
  Step-Inv {w} (filters before after x y p r now f c h e) v = rw e (
      replace-Inv w before after x y p c
        (request_filter-Kept parse_authority to_str _ p x y r now f h) v)
  Step-Inv {w} (readies before after x y p host s probe now f starts c g h e) v = rw e (
      replace-Inv w before after x y p c
        (request_filter_ready-Kept _ p x y host probe now f starts h) v)
  Step-Inv {w} (proxies before after x y p c h e) v =
      rw e (replace-Inv w before after x y p c (proxy_upstream_filter-Kept _ p x y h) v)
  Step-Inv {w} (logs before after x y p now c h e) v =
      let (a, l) = logging_ends _ p x y now h in
      rw e (
        drop-Inv (record { proxy = p; contexts = before ++ y ∷ after }) before after y refl a l
          (replace-Inv w before after x y p c (logging-Kept _ p x y now h) v))
  Step-Inv {w} (closes e) v = rw e (record { gate = v.gate; service = v.service })
  Step-Inv {w} (shuts_down e) v =
      rw e (record { gate = ground (arith, v.gate); service = v.service })
  Step-Inv {w} (works host s s' f same up e) v = rw e (works-Inv w host s s' f same v)

  pub Reach-Inv : {w u : World} → Reach parse_authority to_str w u → Inv w → Inv u
  Reach-Inv here v = v
  Reach-Inv (next r st) v = Step-Inv st (Reach-Inv r v)

routes_for-unused :
    (user now : ℕ) (m : List (Text × ServiceConfig)) (h : Text) (s : ServiceLifecycle)
    → get h (routes_for user now m) ≡ some s
    → s.in_flight ≡ 0
unfolding routes_for get new_at
routes_for-unused user now [] h s e = cc
routes_for-unused user now ((k, c) ∷ m) h s e = elim (Bool-cases (text_eq h c.host)) [
  | inl b ↦ ground arith
  | inr b ↦ ground (arith, routes_for-unused user now m h s)
]

pub new-Inv : (c : Config) (user now : ℕ) → Inv (record { proxy = new c user now; contexts = [] })
unfolding new Gate.new Shutdown.new
new-Inv c user now = record {
  gate = refl;
  service = λ h s e. routes_for-unused user now c.services h s e;
}

module _ (parse_authority : Text → Option Authority) (to_str : Text → Option Text) where
  -- From a new gateway, however the callbacks of the requests, the shutdown and the work on the
  -- services interleave: the gate counts the admissions that the requests hold, and the service of a
  -- host the leases that they hold on it.
  pub requests_accounted :
      (c : Config) (user now : ℕ) (w : World) (host : Text) (s : ServiceLifecycle)
      → Reach parse_authority to_str (record { proxy = new c user now; contexts = [] }) w
      → get host w.proxy.routes ≡ some s
      → (w.proxy.shutdown.request_gate.admitted ≡ admissions w.contexts)
        × (s.in_flight ≡ leases_at host w.contexts)
  requests_accounted c user now w host s r e =
      let v = Reach-Inv parse_authority to_str r (new-Inv c user now) in
      (v.gate, v.service host s e)

  -- While a request holds a lease on the service of a host, no scan and no shutdown begins an attempt
  -- to stop the service, and an attempt that waits for its check is discarded at its end, without a
  -- call of `start_stop`.
  pub leased_not_stopped {ℓ κ} :
      {E : Type κ} {T : Type ℓ} (c : Config) (user start : ℕ) (w : World) (host : Text)
      (s : ServiceLifecycle) (before after : List RequestContext) (x : RequestContext)
      (l : ServiceLease) (a : StopAttempt) (now : ℕ) (meanwhile : List WakeEvent)
      (start_stop : E → Option T × E) (e : E)
      → Reach parse_authority to_str (record { proxy = new c user start; contexts = [] }) w
      → get host w.proxy.routes ≡ some s
      → w.contexts ≡ before ++ x ∷ after
      → x.lease ≡ some (host, l)
      → l.released ≡ false
      → (begin_stop_attempt_at s now ≡ (s, none))
        × ((begin_shutdown_attempt s).1 ≢ ready a)
        × (start_allowed_attempt_at s a now meanwhile start_stop e
            ≡ (set_attempt s false, obsolete, e))
  unfolding begin_stop_attempt_at begin_shutdown_attempt start_allowed_attempt_at
  leased_not_stopped c user start w host s before after x l a now meanwhile start_stop e r f m k g =
      let (_, count) = requests_accounted c user start w host s r f in
      let total : leases_at host w.contexts
          ≡ held_at host x.lease + leases_at host (before ++ after) =
        rw m (leases_at-middle host before x after) in
      let one : held_at host x.lease ≡ 1 = rw (k, g, text_eq_refl host) refl in
      let used : 0 < s.in_flight = omega (arith, count, total, one) in
      (ground (arith, used), ground (arith, used), ground (arith, used))
