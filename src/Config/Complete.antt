-- ===== src/Config/Complete.antt =====
-- src/config.rs, `from_toml`: it refuses nothing else than what its checks name.
use roused.Base.{
  ◌==◌, ltb, ◌&&◌, not, ℕ, suc, ◌≡◌, refl, sym, ap, ◌≢◌, inl, inr, true, false, Option, some, List,
  [], ◌∷◌, All, any, arith, Bool-cases,
}
use roused.Base.Text.{Text, codes, text_eq}
use roused.Base.Text.Equality.{text_eq_sound}
use roused.Config.{
  RawService, RawConfig, TlsConfig, ServiceConfig, Config, ok, insert, contains_key, ip_eq, addr_eq,
  text_lt, validate_listener, validate_optional_tls, Collected, collect, validate_services,
  from_raw, no_services,
}
use roused.Config.Distinct.{Distinct, Validated, over, more}
use roused.Config.Host.{Authority}
use roused.Config.Valid.{IsListener}
use roused.Net.{is_unspecified, IpAddr, v4, v6, SocketAddr}
use roused.Net.Parse.{parse_socket_addr}

-- No two of the services have the same host, label or upstream.
pub record Differ (ss : List ServiceConfig) : Type 0 where
  pub hosts : Distinct (λ (s : ServiceConfig). s.host) ss
  pub labels : Distinct (λ (s : ServiceConfig). s.launchd_label) ss
  pub upstreams : Distinct (λ (s : ServiceConfig). s.upstream) ss

-- The service repeats nothing that was collected.
record Fresh (c : Collected) (s : ServiceConfig) : Type 0 where
  host : contains_key s.host c.services ≡ false
  label : any (text_eq s.launchd_label) c.labels ≡ false
  upstream : any (addr_eq s.upstream) c.upstreams ≡ false

ip_eq_sound : (a b : IpAddr) → ip_eq a b ≡ true → a ≡ b
unfolding ip_eq
ip_eq_sound (v4 a b c d) (v4 a' b' c' d') h =
    let e1 : a ≡ a' = ground arith in
    let e2 : b ≡ b' = ground arith in
    let e3 : c ≡ c' = ground arith in let e4 : d ≡ d' = ground arith in cc
ip_eq_sound (v6 gs) (v6 hs) h = ap v6 (text_eq_sound gs hs h)
ip_eq_sound (v4 a b c d) (v6 hs) h = absurd (ground arith)
ip_eq_sound (v6 gs) (v4 a b c d) h = absurd (ground arith)

addr_eq_sound : (a b : SocketAddr) → addr_eq a b ≡ true → a ≡ b
unfolding addr_eq
addr_eq_sound a b h =
    let e1 = ip_eq_sound a.ip b.ip (ground arith) in
    let e2 : a.port ≡ b.port = ground arith in
    let e3 : a.scope_id ≡ b.scope_id = ground arith in
    λ i. record { ip = e1 i; port = e2 i; scope_id = e3 i }

text_eq_differs : (t u : Text) → t ≢ u → text_eq u t ≡ false
text_eq_differs t u h = elim (Bool-cases (text_eq u t)) [
  | inl e ↦ absurd (h (sym (text_eq_sound u t e)))
  | inr e ↦ e
]

addr_eq_differs : (a b : SocketAddr) → a ≢ b → addr_eq b a ≡ false
addr_eq_differs a b h = elim (Bool-cases (addr_eq b a)) [
  | inl e ↦ absurd (h (sym (addr_eq_sound b a e)))
  | inr e ↦ e
]

contains_key-insert :
    (k j : Text) (v : ServiceConfig) (m : List (Text × ServiceConfig))
    → text_eq k j ≡ false
    → contains_key k m ≡ false
    → contains_key k (insert j v m) ≡ false
unfolding contains_key insert
contains_key-insert k j v [] h g = ground arith
contains_key-insert k j v ((i, w) ∷ m) h g = elim (Bool-cases (text_lt j i)) [
  | inl b ↦ ground arith
  | inr b ↦ ground (arith, contains_key-insert k j v m h)
]

abbrev with_service : Collected → ServiceConfig → Collected
with_service c s = record {
  services = insert s.host s c.services;
  labels = s.launchd_label ∷ c.labels;
  upstreams = s.upstream ∷ c.upstreams;
}

All-Fresh :
    (c : Collected) (s : ServiceConfig) (ss : List ServiceConfig)
    → Differ (s ∷ ss)
    → All (Fresh c) ss
    → All (Fresh (with_service c s)) ss
All-Fresh c s [] d f = tt
All-Fresh c s (t ∷ ss) d f =
    let host = text_eq_differs s.host t.host d.hosts.0.0 in
    let label = text_eq_differs s.launchd_label t.launchd_label d.labels.0.0 in
    let upstream = addr_eq_differs s.upstream t.upstream d.upstreams.0.0 in
    (
      record {
        host = contains_key-insert t.host s.host s c.services host f.0.host;
        label = rw label f.0.label;
        upstream = rw upstream f.0.upstream;
      },
      All-Fresh c s ss
          (record {
            hosts = (d.hosts.0.1, d.hosts.1.1);
            labels = (d.labels.0.1, d.labels.1.1);
            upstreams = (d.upstreams.0.1, d.upstreams.1.1);
          })
          f.1,
    )

nothing-Fresh :
    (ss : List ServiceConfig)
    → All (Fresh (record { services = []; labels = []; upstreams = [] })) ss
unfolding contains_key
nothing-Fresh [] = tt
nothing-Fresh (s ∷ ss) = (record { host = refl; label = refl; upstream = refl }, nothing-Fresh ss)

has_services : (raws : List RawService) → raws ≢ [] → no_services raws ≡ false
has_services [] h = absurd (h refl)
has_services (raw ∷ raws) h = refl

module _ {E : Type 0} where
  collect-Fresh :
      (c : Collected) (number : ℕ) (s : ServiceConfig)
      → Fresh c s
      → collect {E = E} c number s ≡ ok (with_service c s)
  unfolding collect
  collect-Fresh c number s f = rw (f.host, f.label, f.upstream) refl

  loop_accepts :
      (parse_authority : Text → Option Authority) (number : ℕ) (c : Collected)
      (raws : List RawService) (ss : List ServiceConfig)
      → Validated E parse_authority number raws ss
      → All (Fresh c) ss
      → Differ ss
      → (c' : Collected) × (validate_services {E = E} parse_authority number c raws ≡ ok c')
  unfolding validate_services
  loop_accepts parse_authority number c [] [] (over n) f d = (c, refl)
  loop_accepts parse_authority number c [] (s ∷ ss) v f d = elim v [ ]
  loop_accepts parse_authority number c (raw ∷ raws) [] v f d = elim v [ ]
  loop_accepts parse_authority number c (raw ∷ raws) (s ∷ ss) (more n raw2 s2 raws2 ss2 p v) f d =
      let (c', h) =
        loop_accepts parse_authority (suc number) (with_service c s) raws ss v
          (All-Fresh c s ss d f.1)
          (record { hosts = d.hosts.1; labels = d.labels.1; upstreams = d.upstreams.1 }) in
      (c', rw (p, collect-Fresh c number s f.0) h)

  validate_listener-IsListener :
      (a : SocketAddr) (field : Text) → IsListener a → validate_listener {E = E} a field ≡ ok tt
  unfolding validate_listener
  validate_listener-IsListener a field l =
      let nonzero : (a.port == 0) ≡ false = ground (arith, l.fixed) in
      let allowed : (ltb a.port 1_024 && not (is_unspecified a.ip)) ≡ false = elim l.privileged [
        | inl p ↦ ground arith
        | inr u ↦ ground arith
      ] in
      rw (nonzero, allowed) refl

  -- A configuration is accepted when its address is read and is one to listen on, its TLS listener passes
  -- its checks, and it has services, each of which passes the checks on it by itself, no two with the
  -- same host, label or upstream: no check refuses anything else.
  pub from_raw_accepts :
      (parse_authority : Text → Option Authority) (raw : RawConfig) (a : SocketAddr)
      (tls : Option TlsConfig) (ss : List ServiceConfig)
      → parse_socket_addr raw.listen ≡ some a
      → IsListener a
      → validate_optional_tls {E = E} a raw.tls ≡ ok tls
      → raw.services ≢ []
      → Validated E parse_authority 1 raw.services ss
      → Differ ss
      → (c : Config) × (from_raw {E = E} parse_authority raw ≡ ok c)
        × (c.listen ≡ a)
        × (c.tls ≡ tls)
  unfolding from_raw
  from_raw_accepts parse_authority raw a tls ss read listener checked some_service v d =
      let (c, h) =
        loop_accepts parse_authority 1 (record { services = []; labels = []; upstreams = [] })
          raw.services ss v (nothing-Fresh ss) d in
      (
        record { listen = a; tls = tls; services = c.services },
        rw
            (
              read,
              validate_listener-IsListener a (codes "listen") listener,
              checked,
              has_services raw.services some_service,
              h,
            )
            refl,
        refl,
        refl,
      )
