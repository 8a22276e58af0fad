-- ===== src/Gateway/Holding.antt =====
-- src/proxy.rs: a request that may still reach a service holds an admission.
use roused.Base.{
  ℕ, ◌≡◌, ◌⊎◌, inl, inr, Bool, true, Option, none, some, List, ◌∷◌, ◌++◌, All, All-middle,
  All-insert, arith, Bool-cases, Option-cases,
}
use roused.Base.Text.{Text, codes}
use roused.Config.Host.{Authority}
use roused.Gateway.{
  RousedProxy, RequestContext, Request, Response, Filtered, answers, asks, new_ctx, request_filter,
  request_filter_ready, note_request, route_of,
}
use roused.Gateway.Ordered.{
  opened, asked, routed, proxied, answered, Session, Ordered, Step, Reach, here, next, opens,
  filters, readies, proxies, logs, closes, shuts_down, works, after_filter, after_ready, at,
}
use roused.Gateway.World.{held}
use roused.Lifecycle.Gate
use roused.Wake.{Connect, is_ready}

-- Before it has passed `proxy_upstream_filter` or is answered, a request holds an admission, or it was
-- rejected when it came.
abbrev pub Holds : Session → Type 0
Holds s = elim s.stage as (λ x. Type 0) [
  | opened ↦ (s.context.rejected_for_shutdown ≡ true) ⊎ (held s.context.admission ≡ 1)
  | routed ↦ held s.context.admission ≡ 1
  | proxied ↦ Unit {0}
  | answered ↦ Unit {0}
  | asked host ↦ held s.context.admission ≡ 1
]

opens-Holds :
    (p q : RousedProxy) (x : RequestContext) → new_ctx p ≡ some (q, x) → Holds (at opened x)
unfolding new_ctx Gate.admit
opens-Holds p q x h = elim (Bool-cases p.shutdown.request_gate.accepting) [
  | inl b ↦ inr (ground arith)
  | inr b ↦ inl (ground arith)
]

module _ (parse_authority : Text → Option Authority) (to_str : Text → Option Text) where
  filters-Holds :
      (p q : RousedProxy) (x y : RequestContext) (r : Request) (now : ℕ) (f : Filtered)
      → request_filter parse_authority to_str p x r now ≡ some (q, y, f)
      → Holds (at opened x)
      → Holds (at (after_filter f) y)
  unfolding request_filter note_request
  filters-Holds p q x y r now (answers a) h k = tt
  filters-Holds p q x y r now (asks host) h k = elim (Bool-cases x.rejected_for_shutdown) [
    | inl b ↦ absurd (ground arith)
    | inr b ↦
        elim (Option-cases (
          route_of parse_authority to_str p (r.get_all (codes "host"))
            (note_request p x r).listener_port)) [
              | inl e ↦ absurd (ground arith)
              | inr ((name, s), e) ↦
                  let same : y.admission ≡ x.admission = ground arith in
                  elim k [ inl b' ↦ absurd (ground arith) | inr one ↦ rw same one ]
            ]
  ]

readies-Holds :
    (p q : RousedProxy) (x y : RequestContext) (host : Text) (probe : Connect) (now : ℕ)
    (f : Option Response) (starts : Bool)
    → request_filter_ready p x host probe now ≡ some (q, y, f, starts)
    → held x.admission ≡ 1
    → Holds (at (after_ready f) y)
unfolding request_filter_ready
readies-Holds p q x y host probe now (some r) starts h k = tt
readies-Holds p q x y host probe now none starts h k = elim (Bool-cases (is_ready probe)) [
  | inl b ↦ let same : y.admission ≡ x.admission = ground arith in rw same k
  | inr b ↦ absurd (ground arith)
]

All-replace :
    (before : List Session) (s s' : Session) (after : List Session) (xs : List Session)
    → xs ≡ before ++ s ∷ after
    → (Holds s → Holds s')
    → All Holds xs
    → All Holds (before ++ s' ∷ after)
All-replace before s s' after xs e f h =
    let (one, others) = All-middle Holds before s after (rw e at h) in
    All-insert Holds before s' after (f one) others

module _ (parse_authority : Text → Option Authority) (to_str : Text → Option Text) where
  Step-Holds :
      {w u : Ordered}
      → Step parse_authority to_str w u
      → All Holds w.sessions
      → All Holds u.sessions
  Step-Holds {w} (opens p x h e) v = rw e (opens-Holds w.proxy p x h, v)
  Step-Holds {w} (filters before after x y p r now f c h e) v = rw e (
      All-replace before (at opened x) (at (after_filter f) y) after w.sessions c
        (filters-Holds parse_authority to_str w.proxy p x y r now f h) v)
  Step-Holds {w} (readies before after x y p host s probe now f starts c g h e) v = rw e (
      All-replace before (at (asked host) x) (at (after_ready f) y) after w.sessions c
        (readies-Holds w.proxy p x y host probe now f starts h) v)
  Step-Holds {w} (proxies before after x y p c h e) v =
      rw e (All-replace before (at routed x) (at proxied y) after w.sessions c (λ k. tt) v)
  Step-Holds {w} (logs before after stage x y p now c h e) v =
      rw e ((All-middle Holds before (at stage x) after (rw c at v)).1)
  Step-Holds (closes e) v = rw e v
  Step-Holds (shuts_down e) v = rw e v
  Step-Holds (works host s s' f same up e) v = rw e v

  pub Reach-Holds :
      {w u : Ordered}
      → Reach parse_authority to_str w u
      → All Holds w.sessions
      → All Holds u.sessions
  Reach-Holds here v = v
  Reach-Holds (next r st) v = Step-Holds st (Reach-Holds r v)
