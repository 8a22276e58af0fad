-- ===== src/Gateway/Drained.antt =====
-- src/proxy.rs: once the gate is closed and drained, no request reaches a service any more.
use roused.Base.{ℕ, ◌≡◌, refl, inl, inr, true, Option, some, List, [], ◌∷◌, All, All-middle, arith}
use roused.Base.Text.{Text}
use roused.Config.{Config}
use roused.Config.Host.{Authority}
use roused.Gateway.{RousedProxy, RequestContext, Request, Filtered, new, request_filter}
use roused.Gateway.Accounting
use roused.Gateway.Accounting.{admissions-middle, logging_ends, nobody}
use roused.Gateway.Holding.{Holds, Reach-Holds}
use roused.Gateway.Ordered.{
  Stage, opened, asked, routed, proxied, answered, Session, Ordered, Step, Reach, here, next, opens,
  filters, readies, proxies, logs, closes, shuts_down, works, at, erase, erase-Reach, contexts_of,
}
use roused.Gateway.World.{held, admissions}
use roused.Lifecycle.Gate
use roused.Lifecycle.Shutdown
use roused.Gateway.Busy.{
  IsDrained, NotBusier, same-NotBusier, NotBusier-trans, none_held, logging-IsDrained,
  new_ctx-IsDrained, unchanged, works_NotBusier,
}

-- A request that reaches no service from here on: one that was rejected when it came, or one that has
-- its lease or its answer.
abbrev pub IsPast : Session → Type 0
IsPast s = elim s.stage as (λ x. Type 0) [
  | opened ↦ s.context.rejected_for_shutdown ≡ true
  | routed ↦ ⊥
  | proxied ↦ Unit {0}
  | answered ↦ Unit {0}
  | asked host ↦ ⊥
]

Holds-IsPast :
    (stage : Stage) (x : RequestContext)
    → Holds (at stage x)
    → held x.admission ≡ 0
    → IsPast (at stage x)
Holds-IsPast opened x (inl b) z = b
Holds-IsPast opened x (inr one) z = absurd (omega (arith, one, z))
Holds-IsPast routed x one z = absurd (omega (arith, one, z))
Holds-IsPast proxied x k z = tt
Holds-IsPast answered x k z = tt
Holds-IsPast (asked host) x one z = absurd (omega (arith, one, z))

All-IsPast :
    (sessions : List Session)
    → All Holds sessions
    → admissions (contexts_of sessions) ≡ 0
    → All IsPast sessions
All-IsPast [] k z = tt
All-IsPast (s ∷ sessions) k z = (
  Holds-IsPast s.stage s.context k.0 (omega (arith, z)),
  All-IsPast sessions k.1 (omega (arith, z)),
)

module _ (parse_authority : Text → Option Authority) (to_str : Text → Option Text) where
  rejected_filter :
      (p q : RousedProxy) (x y : RequestContext) (r : Request) (now : ℕ) (f : Filtered)
      → request_filter parse_authority to_str p x r now ≡ some (q, y, f)
      → Holds (at opened x)
      → held x.admission ≡ 0
      → q ≡ p
  unfolding request_filter
  rejected_filter p q x y r now f h k z = elim k [
    | inl b ↦ ground arith
    | inr one ↦ absurd (omega (arith, one, z))
  ]

  step-IsDrained :
      {w u : Ordered}
      → Step parse_authority to_str w u
      → Accounting.Inv (erase w)
      → All Holds w.sessions
      → IsDrained w.proxy
      → IsDrained u.proxy × NotBusier w.proxy u.proxy
  unfolding Gate.close Shutdown.request
  step-IsDrained {w} (opens p x h e) v k d =
      rw e (unchanged w.proxy p (new_ctx-IsDrained w.proxy p x h d) d)
  step-IsDrained {w} (filters before after x y p r now f c h e) v k d =
      let (holds, others) = All-middle Holds before (at opened x) after (rw c at k) in
      let free = none_held w before after (at opened x) v d c in
      rw e (unchanged w.proxy p (rejected_filter w.proxy p x y r now f h holds free) d)
  step-IsDrained {w} (readies before after x y p host s probe now f starts c g h e) v k d =
      let (holds, others) = All-middle Holds before (at (asked host) x) after (rw c at k) in
      absurd (omega (arith, holds, none_held w before after (at (asked host) x) v d c))
  step-IsDrained {w} (proxies before after x y p c h e) v k d =
      let (holds, others) = All-middle Holds before (at routed x) after (rw c at k) in
      absurd (omega (arith, holds, none_held w before after (at routed x) v d c))
  step-IsDrained {w} (logs before after stage x y p now c h e) v k d =
      rw e (logging-IsDrained w.proxy p x y now h d)
  step-IsDrained {w} (closes e) v k d =
      rw e (record { closed = refl; empty = d.empty }, λ h t f. (t, f, omega arith))
  step-IsDrained {w} (shuts_down e) v k d = rw e (
    record { closed = ground arith; empty = ground (arith, d.empty) },
    λ h t f. (t, f, omega arith),
  )
  step-IsDrained {w} (works host s s' f same up e) v k d =
      rw e (record { closed = d.closed; empty = d.empty }, works_NotBusier w.proxy host s s' f same)

  reach-IsDrained :
      {w u : Ordered}
      → Reach parse_authority to_str w u
      → Accounting.Inv (erase w)
      → All Holds w.sessions
      → IsDrained w.proxy
      → IsDrained u.proxy × NotBusier w.proxy u.proxy
  reach-IsDrained {w} here v k d = (d, same-NotBusier w.proxy w.proxy refl)
  reach-IsDrained {w} {u} (next {u = m} r st) v k d =
      let (d', before) = reach-IsDrained r v k d in
      let v' =
        Accounting.Reach-Inv parse_authority to_str (erase-Reach parse_authority to_str r) v in
      let (d'', after) = step-IsDrained st v' (Reach-Holds parse_authority to_str r k) d' in
      (d'', NotBusier-trans w.proxy m.proxy u.proxy before after)

  -- From a new gateway, with the callbacks of each request in their order and those of different
  -- requests in any: once the gate is closed and no admission is out, it stays so, however the requests
  -- that are left and those that come go on. Each request then was rejected when it came, or has its
  -- lease or its answer behind it, and the in-flight count of no service grows again.
  pub quiet_for_good :
      {w u : Ordered} (c : Config) (user now : ℕ)
      → Reach parse_authority to_str (record { proxy = new c user now; sessions = [] }) w
      → IsDrained w.proxy
      → Reach parse_authority to_str w u
      → IsDrained u.proxy × All IsPast u.sessions × NotBusier w.proxy u.proxy
  quiet_for_good {w} {u} c user now r d r' =
      let v =
        Accounting.Reach-Inv parse_authority to_str (erase-Reach parse_authority to_str r)
          (Accounting.new-Inv c user now) in
      let k = Reach-Holds parse_authority to_str r tt in
      let (d', quiet) = reach-IsDrained r' v k d in
      let v' =
        Accounting.Reach-Inv parse_authority to_str (erase-Reach parse_authority to_str r') v in
      let k' = Reach-Holds parse_authority to_str r' k in
      (d', All-IsPast u.sessions k' (omega (arith, v'.gate, d'.empty)), quiet)
