-- ===== src/Gateway/NoPanic.antt =====
-- src/proxy.rs: among all its requests, no callback of the gateway panics.
use roused.Base.{
  ℕ, ◌+◌, ◌<◌, ◌≤◌, ◌^◌, ◌≡◌, ◌≢◌, refl, Option, none, some, List, [], ◌∷◌, ◌++◌, All-middle,
  length, arith,
}
use roused.Base.Text.{Text}
use roused.Base.Text.Equality.{text_eq_refl}
use roused.Config.{get, Config}
use roused.Config.Host.{Authority}
use roused.Gateway.{
  RousedProxy, RequestContext, Request, new, new_ctx, request_filter, request_filter_ready,
  proxy_upstream_filter, logging,
}
use roused.Gateway.Accounting
use roused.Gateway.Accounting.{admissions-middle, leases_at-middle}
use roused.Gateway.Known
use roused.Gateway.Known.{Knows}
use roused.Gateway.Routed.{IsKnown, upstream_at}
use roused.Gateway.Total.{
  Sound, request_filter_total, request_filter_ready_total, proxy_upstream_filter_total,
  logging_total,
}
use roused.Gateway.World.{World, Reach, held, held_at, admissions, leases_at}
use roused.Lifecycle.Gate
use roused.Lifecycle.Gate.{RequestAdmission}
use roused.Lifecycle.Service.{ServiceLease}
use roused.Wake.{Connect}

held_bound : (a : Option RequestAdmission) → held a ≤ 1
held_bound none = omega arith
held_bound (some a) = ground arith

held_at_bound : (h : Text) (l : Option (Text × ServiceLease)) → held_at h l ≤ 1
held_at_bound h none = omega arith
held_at_bound h (some (k, l)) = ground arith

admissions_bound : (xs : List RequestContext) → admissions xs ≤ length xs
admissions_bound [] = omega arith
admissions_bound (x ∷ xs) = omega (arith, held_bound x.admission, admissions_bound xs)

leases_at_bound : (h : Text) (xs : List RequestContext) → leases_at h xs ≤ length xs
leases_at_bound h [] = omega arith
leases_at_bound h (x ∷ xs) = omega (arith, held_at_bound h x.lease, leases_at_bound h xs)

known-found : (p : RousedProxy) (h : Text) → IsKnown p h → get h p.routes ≢ none
unfolding upstream_at
known-found p h k n = ground arith

reached-Sound :
    (w : World) (start : RousedProxy) (before after : List RequestContext) (x : RequestContext)
    → Accounting.Inv w
    → Known.Inv start w
    → w.contexts ≡ before ++ x ∷ after
    → length w.contexts + 1 < 2 ^ 64
    → Sound w.proxy x
reached-Sound w start before after x v k e b =
    let (knows, others) = All-middle (Knows w.proxy) before x after (rw e at k.known) in
    record {
      gate =
          let total : admissions w.contexts ≡ held x.admission + admissions (before ++ after) =
            rw e (admissions-middle before x after) in
          omega (arith, total, v.gate);
      routed = λ h f. known-found w.proxy h (knows.route h f);
      leased = λ h l f. known-found w.proxy h (knows.lease h l f);
      counted = λ h l s f g o.
          let total : leases_at h w.contexts ≡ held_at h x.lease + leases_at h (before ++ after) =
            rw e (leases_at-middle h before x after) in
          let one : held_at h x.lease ≡ 1 = rw (f, o, text_eq_refl h) refl in
          omega (arith, total, one, v.service h s g);
      bounded = λ h s f. omega (arith, v.service h s f, leases_at_bound h w.contexts, b);
    }

new_ctx_total :
    (w : World) → Accounting.Inv w → length w.contexts + 1 < 2 ^ 64 → new_ctx w.proxy ≢ none
unfolding new_ctx Gate.admit
new_ctx_total w v b n =
    let few : w.proxy.shutdown.request_gate.admitted + 1 < 2 ^ 64 =
      omega (arith, v.gate, admissions_bound w.contexts, b) in
    ground (arith, few)

module _ (parse_authority : Text → Option Authority) (to_str : Text → Option Text) where
  -- From a new gateway, in every interleaving, with fewer than 2^64 - 1 requests at once: no callback of
  -- a request panics, neither `new_ctx`, nor `request_filter` before or (for a host that has a route)
  -- after the wait for the readiness, `proxy_upstream_filter` or `logging`; in particular no counter
  -- overflows and none goes below zero.
  pub callbacks_never_panic :
      (c : Config) (user start : ℕ) (w : World) (before after : List RequestContext)
      (x : RequestContext) (r : Request) (h : Text) (probe : Connect) (now : ℕ)
      → Reach parse_authority to_str (record { proxy = new c user start; contexts = [] }) w
      → w.contexts ≡ before ++ x ∷ after
      → length w.contexts + 1 < 2 ^ 64
      → get h w.proxy.routes ≢ none
      → (new_ctx w.proxy ≢ none)
        × (request_filter parse_authority to_str w.proxy x r now ≢ none)
        × (request_filter_ready w.proxy x h probe now ≢ none)
        × (proxy_upstream_filter w.proxy x ≢ none)
        × (logging w.proxy x now ≢ none)
  callbacks_never_panic c user start w before after x r h probe now reach e b known =
      let v = Accounting.Reach-Inv parse_authority to_str reach (Accounting.new-Inv c user start) in
      let k =
        Known.Reach-Inv parse_authority to_str (new c user start) reach
          (Known.new-Inv c user start) in
      let sound = reached-Sound w (new c user start) before after x v k e b in
      (
        new_ctx_total w v b,
        request_filter_total parse_authority to_str w.proxy x r now sound,
        request_filter_ready_total w.proxy x h probe now sound known,
        proxy_upstream_filter_total w.proxy x sound,
        logging_total w.proxy x now sound,
      )
