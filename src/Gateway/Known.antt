-- ===== src/Gateway/Known.antt =====
-- src/proxy.rs: in every interleaving the routes stay those of the configuration, and each request
-- names hosts that have one.
use roused.Base.{
  ℕ, ◌≡◌, refl, ◌∙◌, inl, inr, Option, none, some, List, [], ◌∷◌, ◌++◌, All, All-middle, All-insert,
  All-map, arith,
}
use roused.Base.Text.{Text}
use roused.Config.{Config}
use roused.Config.Host.{Authority}
use roused.Gateway.{RousedProxy, RequestContext, new, new_ctx}
use roused.Gateway.Routed.{
  Routed, Same, IsKnown, upstream_at, put-Same, request_filter-Routed, request_filter_ready-Routed,
  proxy_upstream_filter-Routed, logging-Routed,
}
use roused.Gateway.World.{
  World, Step, Reach, here, next, opens, filters, readies, proxies, logs, closes, shuts_down, works,
}
use roused.Lifecycle.Gate
use roused.Lifecycle.Service.{ServiceLease}
use roused.Lifecycle.Shutdown

-- The hosts that a context names have routes.
pub record Knows (p : RousedProxy) (x : RequestContext) : Type 0 where
  pub route : (h : Text) → x.route ≡ some h → IsKnown p h
  pub lease : (h : Text) (l : ServiceLease) → x.lease ≡ some (h, l) → IsKnown p h

pub record Inv (start : RousedProxy) (w : World) : Type 0 where
  pub same : Same start w.proxy
  pub known : All (Knows w.proxy) w.contexts

Same-Knows : (p q : RousedProxy) → Same p q → (x : RequestContext) → Knows p x → Knows q x
Same-Knows p q s x k = record {
  route = λ h e. rw (s h) (k.route h e);
  lease = λ h l e. rw (s h) (k.lease h l e);
}

Routed-Knows : {p q : RousedProxy} {x y : RequestContext} → Routed p x q y → Knows p x → Knows q y
Routed-Knows {p} {q} {x} {y} r k = Same-Knows p q r.same y (record {
  route = λ h e. elim (r.route h e) [ inl f ↦ k.route h f | inr known ↦ known ];
  lease = λ h l e. elim (r.lease h l e) [ inl f ↦ k.lease h l f | inr known ↦ known ];
})

replace-Inv :
    (start : RousedProxy) (w : World) (before after : List RequestContext) (x y : RequestContext)
    (q : RousedProxy)
    → w.contexts ≡ before ++ x ∷ after
    → Routed w.proxy x q y
    → Inv start w
    → Inv start (record { proxy = q; contexts = before ++ y ∷ after })
replace-Inv start w before after x y q e r v =
    let (k, others) = All-middle (Knows w.proxy) before x after (rw e at v.known) in
    record {
      same = λ h. r.same h ∙ v.same h;
      known =
          All-insert (Knows q) before y after (Routed-Knows r k)
            (All-map (Same-Knows w.proxy q r.same) (before ++ after) others);
    }

opened-Inv :
    (start : RousedProxy) (w : World) (p : RousedProxy) (x : RequestContext)
    → new_ctx w.proxy ≡ some (p, x)
    → Inv start w
    → Inv start (record { proxy = p; contexts = x ∷ w.contexts })
unfolding new_ctx Gate.admit upstream_at
opened-Inv start w p x h v =
    let routes : p.routes ≡ w.proxy.routes = ground arith in
    let no_route : x.route ≡ none = ground arith in
    let no_lease : x.lease ≡ none = ground arith in
    record {
      same = λ k. rw routes (v.same k);
      known = (
        record { route = λ k e. absurd (ground arith); lease = λ k l e. absurd (ground arith) },
        All-map (Same-Knows w.proxy p (λ k. rw routes refl)) w.contexts v.known,
      );
    }

-- The proxy changes, and the addresses of its routes do not.
proxy-Inv :
    (start : RousedProxy) (w : World) (p : RousedProxy)
    → Same w.proxy p
    → Inv start w
    → Inv start (record w { proxy = p })
proxy-Inv start w p s v = record {
  same = λ h. s h ∙ v.same h;
  known = All-map (Same-Knows w.proxy p s) w.contexts v.known;
}

module _ (parse_authority : Text → Option Authority) (to_str : Text → Option Text) where
  Step-Inv :
      {w u : World} (start : RousedProxy)
      → Step parse_authority to_str w u
      → Inv start w
      → Inv start u
  unfolding Shutdown.request upstream_at
  Step-Inv {w} start (opens p x h e) v = rw e (opened-Inv start w p x h v)
  Step-Inv {w} start (filters before after x y p r now f c h e) v = rw e (
      replace-Inv start w before after x y p c
        (request_filter-Routed parse_authority to_str _ p x y r now f h) v)
  Step-Inv {w} start (readies before after x y p host s probe now f starts c g h e) v = rw e (
      replace-Inv start w before after x y p c
        (request_filter_ready-Routed _ p x y host s probe now f starts g h) v)
  Step-Inv {w} start (proxies before after x y p c h e) v =
      rw e (replace-Inv start w before after x y p c (proxy_upstream_filter-Routed _ p x y h) v)
  Step-Inv {w} start (logs before after x y p now c h e) v =
      let whole = replace-Inv start w before after x y p c (logging-Routed _ p x y now h) v in
      rw e
        (record { same = whole.same; known = (All-middle (Knows p) before y after whole.known).1 })
  Step-Inv {w} start (closes e) v = rw e (proxy-Inv start w _ (λ h. refl) v)
  Step-Inv {w} start (shuts_down e) v = rw e (proxy-Inv start w _ (λ h. refl) v)
  Step-Inv {w} start (works host s s' f same up e) v =
      rw e (proxy-Inv start w _ (put-Same w.proxy host s s' f up) v)

  pub Reach-Inv :
      {w u : World} (start : RousedProxy)
      → Reach parse_authority to_str w u
      → Inv start w
      → Inv start u
  Reach-Inv start here v = v
  Reach-Inv start (next r st) v = Step-Inv start st (Reach-Inv start r v)

pub new-Inv :
    (c : Config) (user now : ℕ)
    → Inv (new c user now) (record { proxy = new c user now; contexts = [] })
new-Inv c user now = record { same = λ h. refl; known = tt }
