-- ===== src/Gateway/Busy.antt =====
-- src/proxy.rs: how busy the services are after a callback, and what a closed and drained gate does.
use roused.Base.{
  ℕ, ◌≤◌, ◌≡◌, refl, ap, ◌∙◌, inl, inr, false, some, List, ◌∷◌, ◌++◌, arith, Bool-cases,
  Option-cases,
}
use roused.Base.Text.{Text}
use roused.Config.{get}
use roused.Gateway.{RousedProxy, RequestContext, put, new_ctx, logging, end_admission, end_lease}
use roused.Gateway.Accounting
use roused.Gateway.Accounting.{admissions-middle, logging_ends, nobody}
use roused.Gateway.Kept.{put-Kept, logging-Kept}
use roused.Gateway.Ordered.{Session, Ordered, erase, contexts_of, erased}
use roused.Gateway.World.{held, held_at, admissions}
use roused.Lifecycle.Gate
use roused.Lifecycle.Service.{ServiceLifecycle, release_lease_at}

-- The gate is closed, and no admission is out.
pub record IsDrained (p : RousedProxy) : Type 0 where
  pub closed : p.shutdown.request_gate.accepting ≡ false
  pub empty : p.shutdown.request_gate.admitted ≡ 0

-- No service is used by more requests than before.
abbrev pub NotBusier : RousedProxy → RousedProxy → Type 0
NotBusier p q =
    (h : Text) (t : ServiceLifecycle)
    → get h q.routes ≡ some t
    → (s : ServiceLifecycle) × (get h p.routes ≡ some s) × (t.in_flight ≤ s.in_flight)

pub same-NotBusier : (p q : RousedProxy) → q.routes ≡ p.routes → NotBusier p q
same-NotBusier p q e h t f = (t, rw (← e) f, omega arith)

pub NotBusier-trans : (p q r : RousedProxy) → NotBusier p q → NotBusier q r → NotBusier p r
NotBusier-trans p q r k l h t e =
    let (s, f, m) = l h t e in let (s', f', m') = k h s f in (s', f', omega (arith, m, m'))

pub none_held :
    (w : Ordered) (before after : List Session) (s : Session)
    → Accounting.Inv (erase w)
    → IsDrained w.proxy
    → w.sessions ≡ before ++ s ∷ after
    → held s.context.admission ≡ 0
none_held w before after s v d e =
    let total = admissions-middle (contexts_of before) s.context (contexts_of after) in
    omega (arith, ap admissions (erased w.sessions before s after e), total, v.gate, d.empty)

end_admission_closed :
    (p q : RousedProxy) (x y : RequestContext)
    → end_admission p x ≡ some (q, y)
    → q.shutdown.request_gate.accepting ≡ p.shutdown.request_gate.accepting
unfolding end_admission Gate.drop_admission Gate.release
end_admission_closed p q x y h = elim (Option-cases x.admission) [
  | inl e ↦ ground arith
  | inr (a, e) ↦ elim (Bool-cases a.released) [ inl b ↦ ground arith | inr b ↦ ground arith ]
]

end_lease_shutdown :
    (p q : RousedProxy) (x y : RequestContext) (now : ℕ)
    → end_lease p x now ≡ some (q, y)
    → q.shutdown ≡ p.shutdown
unfolding end_lease
end_lease_shutdown p q x y now h = elim (Option-cases x.lease) [
  | inl e ↦ ground arith
  | inr ((k, l), e) ↦ elim (Option-cases (get k p.routes)) [
    | inl f ↦ absurd (ground arith)
    | inr (s, f) ↦ elim (Option-cases (release_lease_at s l now)) [
      | inl g ↦ absurd (ground arith)
      | inr ((s', l'), g) ↦ ground arith
    ]
  ]
]

logging_closed :
    (p q : RousedProxy) (x y : RequestContext) (now : ℕ)
    → logging p x now ≡ some (q, y)
    → q.shutdown.request_gate.accepting ≡ p.shutdown.request_gate.accepting
unfolding logging
logging_closed p q x y now h = elim (Option-cases (end_lease p x now)) [
  | inl e ↦ absurd (ground arith)
  | inr ((p', x'), e) ↦
      end_admission_closed p' q x' y (ground arith)
      ∙ ap (λ s. s.request_gate.accepting) (end_lease_shutdown p p' x x' now e)
]

-- The end of a request.
pub logging-IsDrained :
    (p q : RousedProxy) (x y : RequestContext) (now : ℕ)
    → logging p x now ≡ some (q, y)
    → IsDrained p
    → IsDrained q × NotBusier p q
logging-IsDrained p q x y now h d =
    let k = logging-Kept p q x y now h in
    let (no_admission, no_lease) = logging_ends p q x y now h in
    let freed : held y.admission ≡ 0 = rw no_admission refl in
    (
      record {
        closed = logging_closed p q x y now h ∙ d.closed;
        empty = omega (arith, k.gate, freed, d.empty);
      },
      λ m t e.
          let (s, f, n) = k.service m t e in
          let gone : held_at m y.lease ≡ 0 = rw no_lease refl in (s, f, omega (arith, n, gone)),
    )

pub new_ctx-IsDrained :
    (p q : RousedProxy) (x : RequestContext) → new_ctx p ≡ some (q, x) → IsDrained p → q ≡ p
unfolding new_ctx Gate.admit
new_ctx-IsDrained p q x h d = ground (arith, d.closed)

pub unchanged : (p q : RousedProxy) → q ≡ p → IsDrained p → IsDrained q × NotBusier p q
unchanged p q e d = rw e (d, same-NotBusier p p refl)

pub works_NotBusier :
    (p : RousedProxy) (host : Text) (s s' : ServiceLifecycle)
    → get host p.routes ≡ some s
    → s'.in_flight ≡ s.in_flight
    → NotBusier p (record p { routes = put host s' p.routes })
works_NotBusier p host s s' e same h t f =
    let k = put-Kept p nobody nobody host s s' e refl (omega (arith, same)) (λ h b. refl) in
    let (u, g, m) = k.service h t f in (u, g, omega (arith, m))
