-- ===== src/Config/Accepted.antt =====
-- src/config.rs, `from_toml` and `service_for_request_host`: what holds of an accepted configuration.
use mathlib.Core.List.{Memᴰ, Perm, append-nil}
use roused.Base.{
  ◌≡◌, refl, sym, subst, ◌≢◌, inl, inr, true, Option, none, some, List, [], ◌∷◌, All, All-at, arith,
  Bool-cases, Option-cases,
}
use roused.Base.Text.{Text, codes, text_eq}
use roused.Base.Text.Equality.{text_eq_refl, text_eq_sound}
use roused.Config.{
  RawTls, RawConfig, TlsConfig, ServiceConfig, Config, ok, is_absolute, get, validate_listener,
  validate_tls, validate_optional_tls, Collected, validate_services, from_raw,
  service_for_request_host,
}
use roused.Config.Distinct.{Distinct, Entry, entries_of, Inv, Validated, loop_adds}
use roused.Config.Host.{Authority}
use roused.Config.Host.Ports.{ReadsNames, Writes, with_port, request_accepts}
use roused.Config.Valid.{IsListener, IsService, IsListener-valid, Result-cases}
use roused.Net.{SocketAddr}
use roused.Net.Parse.{parse_socket_addr}
use roused.Net.Parse.Typed.{IsAddr, parse_socket_addr-IsAddr}

-- The TLS listener has its own port, and certificate and key stand at absolute paths.
pub record IsTls (listen : SocketAddr) (t : TlsConfig) : Type 0 where
  pub listener : IsListener t.listen
  pub typed : IsAddr t.listen
  pub own_port : t.listen.port ≢ listen.port
  pub cert : is_absolute t.cert ≡ true
  pub key : is_absolute t.key ≡ true

abbrev pub AllTls : SocketAddr → Option TlsConfig → Type 0
AllTls listen none = Unit {0}
AllTls listen (some t) = IsTls listen t

-- A valid configuration: fixed listeners, privileged only on a wildcard address; services that are
-- valid by themselves, under their hosts, no two with the same host, label or upstream.
pub record IsValid (c : Config) : Type 0 where
  pub listener : IsListener c.listen
  pub typed : IsAddr c.listen
  pub tls : AllTls c.listen c.tls
  pub services : All (λ (e : Entry). (e.0 ≡ e.1.host) × IsService e.1) c.services
  pub hosts : Distinct (λ (e : Entry). e.0) c.services
  pub labels : Distinct (λ (e : Entry). e.1.launchd_label) c.services
  pub upstreams : Distinct (λ (e : Entry). e.1.upstream) c.services

abbrev nothing : Collected
nothing = record { services = []; labels = []; upstreams = [] }

nothing-Inv : Inv (record { services = []; labels = []; upstreams = [] })
nothing-Inv = record {
  valid = tt;
  hosts = tt;
  labels = tt;
  upstreams = tt;
  labels_seen = tt;
  upstreams_seen = tt;
}

module _ {E : Type 0} where
  IsTls-valid :
      (listen : SocketAddr) (raw : RawTls) (t : TlsConfig)
      → validate_tls {E = E} listen raw ≡ ok t
      → IsTls listen t
  unfolding validate_tls
  IsTls-valid listen raw t h = elim (Option-cases (parse_socket_addr raw.listen)) [
    | inl e ↦ absurd (ground arith)
    | inr (a, e) ↦ elim (Result-cases (validate_listener {E = E} a (codes "tls.listen"))) [
      | inr (x, f) ↦ absurd (ground arith)
      | inl (u, f) ↦ record {
        listener = subst IsListener (ground arith) (IsListener-valid a (codes "tls.listen") f);
        typed = subst IsAddr (ground arith) (parse_socket_addr-IsAddr raw.listen a e);
        own_port = ground arith;
        cert = ground arith;
        key = ground arith;
      }
    ]
  ]

  optional_tls_valid :
      (listen : SocketAddr) (raw : Option RawTls) (t : Option TlsConfig)
      → validate_optional_tls {E = E} listen raw ≡ ok t
      → AllTls listen t
  unfolding validate_optional_tls
  optional_tls_valid listen none t h =
      let same : none ≡ t = ground arith in subst (AllTls listen) same tt
  optional_tls_valid listen (some raw) t h = elim (Result-cases (validate_tls {E = E} listen raw)) [
    | inr (x, f) ↦ absurd (ground arith)
    | inl (s, f) ↦
        let same : some s ≡ t = ground arith in
        subst (AllTls listen) same (IsTls-valid listen raw s f)
  ]

  -- A configuration that is accepted is valid, and its services are, in some order, exactly those of the
  -- input, each of which passed its checks; there is at least one.
  pub accepted-IsValid :
      (parse_authority : Text → Option Authority) (raw : RawConfig) (c : Config)
      → from_raw {E = E} parse_authority raw ≡ ok c
      → IsValid c
        × (raw.services ≢ [])
        × (ss : List ServiceConfig) × Validated E parse_authority 1 raw.services ss
        × Perm c.services (entries_of ss)
  unfolding from_raw
  accepted-IsValid parse_authority raw c h = elim (Option-cases (parse_socket_addr raw.listen)) [
    | inl e ↦ absurd (ground arith)
    | inr (a, e) ↦ elim (Result-cases (validate_listener {E = E} a (codes "listen"))) [
      | inr (x, f) ↦ absurd (ground arith)
      | inl (u, f) ↦ elim (Result-cases (validate_optional_tls {E = E} a raw.tls)) [
        | inr (x, g) ↦ absurd (ground arith)
        | inl (t, g) ↦
            elim (Result-cases (validate_services {E = E} parse_authority 1 nothing raw.services)) [
              | inr (x, k) ↦ absurd (ground arith)
              | inl (d, k) ↦
                  let same : c ≡ record { listen = a; tls = t; services = d.services } =
                    ground arith in
                  let added = loop_adds parse_authority 1 nothing raw.services d nothing-Inv k in
                  let some_service : raw.services ≢ [] = ground arith in
                  rw same (
                    record {
                      listener = IsListener-valid a (codes "listen") f;
                      typed = parse_socket_addr-IsAddr raw.listen a e;
                      tls = optional_tls_valid a raw.tls t g;
                      services = added.inv.valid;
                      hosts = added.inv.hosts;
                      labels = added.inv.labels;
                      upstreams = added.inv.upstreams;
                    },
                    some_service,
                    added.added,
                    added.validated,
                    subst (Perm d.services) (append-nil (entries_of added.added)) added.all,
                  )
            ]
      ]
    ]
  ]

get_past :
    (j : Text) (w : ServiceConfig) (m xs : List Entry)
    → All (λ (e : Entry). j ≢ e.0) xs
    → All (λ (e : Entry). get e.0 m ≡ some e.1) xs
    → All (λ (e : Entry). get e.0 ((j, w) ∷ m) ≡ some e.1) xs
unfolding get
get_past j w m [] new h = tt
get_past j w m (e ∷ xs) new h = (
  elim (Bool-cases (text_eq e.0 j)) [
    | inl b ↦ absurd (new.0 (sym (text_eq_sound e.0 j b)))
    | inr b ↦ rw b h.0
  ],
  get_past j w m xs new.1 h.1,
)

get_here : (j : Text) (w : ServiceConfig) (m : List Entry) → get j ((j, w) ∷ m) ≡ some w
unfolding get
get_here j w m = rw (text_eq_refl j) refl

get-All :
    (m : List Entry) → Distinct (λ (e : Entry). e.0) m → All (λ (e : Entry). get e.0 m ≡ some e.1) m
get-All [] h = tt
get-All ((j, w) ∷ m) h = (get_here j w m, get_past j w m m h.0 (get-All m h.1))

module _ {parse_authority : Text → Option Authority} (reads : ReadsNames parse_authority) where
  -- In a valid configuration every service is found by its host, in whatever case and with a terminal
  -- dot or not, alone or with the port of the listener, and it is the service found. (The http crate is
  -- taken to read names and ports as it documents.)
  pub every_service_found :
      (c : Config) (e : Entry) (host : Text)
      → IsValid c
      → Memᴰ e c.services
      → Writes host e.0
      → (service_for_request_host parse_authority c host ≡ some e.1)
        × (service_for_request_host parse_authority c (with_port host c.listen.port) ≡ some e.1)
  unfolding service_for_request_host
  every_service_found c e host v m w =
      let found =
        All-at (λ (e : Entry). get e.0 c.services ≡ some e.1) (get-All c.services v.hosts) m in
      let (alone, ported) = request_accepts reads host e.0 c.listen.port w v.typed.port in
      (rw (alone, service_for_request_host) found, rw (ported, service_for_request_host) found)
