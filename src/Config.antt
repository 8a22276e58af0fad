-- ===== src/Config.antt =====
-- src/config.rs: the configuration and its validation. `toml::from_str` with the derived
-- deserialization of `RawConfig` is the argument `from_str`, the http crate's authority parser the
-- argument `parse_authority`; the text of an error of theirs is `E`. Paths are their bytes.
pub mod Host
pub mod Label
pub mod Valid
pub mod Accepted
pub mod Distinct
pub mod Load
pub mod Starter
pub mod Complete
mod Tests
mod CompleteTests
use roused.Base.{
  ℕ, suc, Bool, true, false, not, ◌&&◌, ◌||◌, Option, none, some, List, [], ◌∷◌, ◌++◌, ◌==◌, ltb,
  any, if◌then◌else◌,
}
use roused.Base.Path.{PathBuf}
use roused.Base.Result.{Result as AnyResult, ◌>>=◌, map_err}
pub use roused.Base.Result.{ok, err}
use roused.Base.Text.{Text, codes, to_decimal, is_empty, starts_with, text_eq}
use roused.Net.{IpAddr, v4, v6, SocketAddr, is_loopback, is_unspecified}
use roused.Net.Parse.{parse_socket_addr}
use Host.{Authority, normalize_config_host, normalize_request_host, host_code}
use Label.{valid_launchd_label, is_control, is_whitespace}

abbrev pub default_idle_timeout_seconds : ℕ
default_idle_timeout_seconds = 1_800

pub record RawTls : Type 0 where
  pub listen : Text
  pub cert : Text
  pub key : Text

pub record RawService : Type 0 where
  pub host : Text
  pub upstream : Text
  pub launchd_label : Text
  pub idle_timeout_seconds : ℕ
  pub can_stop_command : Option (List Text)

pub record RawConfig : Type 0 where
  pub listen : Text
  pub tls : Option RawTls
  pub services : List RawService

pub record TlsConfig : Type 0 where
  pub listen : SocketAddr
  pub cert : Text
  pub key : Text

pub record ServiceConfig : Type 0 where
  pub host : Text
  pub upstream : SocketAddr
  pub launchd_label : Text
  pub idle_timeout_seconds : ℕ
  pub can_stop_command : Option (List Text)

-- The services by their host, in its order.
pub record Config : Type 0 where
  pub listen : SocketAddr
  pub tls : Option TlsConfig
  pub services : List (Text × ServiceConfig)

pub data ConfigError (E : Type 0) : Type 0 where
  read : PathBuf → E → ConfigError E
  parse : E → ConfigError E
  invalid : Text → ConfigError E

abbrev pub Result : Type 0 → Type 0 → Type 0
Result E A = AnyResult (ConfigError E) A

-- `ok_or_else` and `map_err` with a message.
abbrev pub or_invalid : {E A : Type 0} → Option A → Text → Result E A
or_invalid none message = err (invalid message)
or_invalid (some a) message = ok a

-- `if test { return Err(Invalid(message)) }`.
abbrev pub reject_if : {E : Type 0} → Bool → Text → Result E (Unit {0})
reject_if true message = err (invalid message)
reject_if false message = ok tt

-- `Path::is_absolute`.
abbrev pub is_absolute : Text → Bool
is_absolute = starts_with b'/'

abbrev message_of : ℕ → Text → Text
message_of number rest = codes "service " ++ (to_decimal number ++ rest)

-- The order of keys in a `BTreeMap`: that of the bytes, which is that of the code points.
unfoldable pub text_lt : Text → Text → Bool
text_lt t [] = false
text_lt [] (d ∷ u) = true
text_lt (c ∷ t) (d ∷ u) = ltb c d || (c == d && text_lt t u)

module _ {V : Type 0} where
  -- `BTreeMap::insert` of a key that is not there, `contains_key` and `get`.
  unfoldable pub insert : Text → V → List (Text × V) → List (Text × V)
  insert k v [] = (k, v) ∷ []
  insert k v ((j, w) ∷ m) = if text_lt k j then (k, v) ∷ (j, w) ∷ m else (j, w) ∷ insert k v m

  unfoldable pub get : Text → List (Text × V) → Option V
  get k [] = none
  get k ((j, w) ∷ m) = if text_eq k j then some w else get k m

  unfoldable pub contains_key : Text → List (Text × V) → Bool
  contains_key k [] = false
  contains_key k ((j, w) ∷ m) = text_eq k j || contains_key k m

unfoldable pub ip_eq : IpAddr → IpAddr → Bool
ip_eq (v4 a b c d) (v4 a' b' c' d') = a == a' && (b == b' && (c == c' && d == d'))
ip_eq (v6 gs) (v6 hs) = text_eq gs hs
ip_eq _ _ = false

unfoldable pub addr_eq : SocketAddr → SocketAddr → Bool
addr_eq a b = ip_eq a.ip b.ip && (a.port == b.port && a.scope_id == b.scope_id)

-- What the loop has collected: the map of the services, and the sets of labels and upstreams.
pub record Collected : Type 0 where
  pub services : List (Text × ServiceConfig)
  pub labels : List Text
  pub upstreams : List SocketAddr

abbrev no_services : List RawService → Bool
no_services [] = true
no_services (raw ∷ raws) = false

module _ {E : Type 0} where
  unfoldable pub validate_command : Option (List Text) → ℕ → Result E (Unit {0})
  validate_command none number = ok tt
  validate_command (some []) number =
      err (invalid (message_of number (codes " can_stop_command must not be empty")))
  validate_command (some (executable ∷ arguments)) number =
      reject_if (is_empty executable || not (is_absolute executable))
        (message_of number (codes " can_stop_command executable must be an absolute path"))

  unfoldable pub validate_listener : SocketAddr → Text → Result E (Unit {0})
  validate_listener address field = do
    u1 ← reject_if (address.port == 0) (field ++ codes " must use a fixed nonzero port")
    reject_if (ltb address.port 1_024 && not (is_unspecified address.ip))
        (field ++ codes " below 1024 requires a wildcard bind address (0.0.0.0 or ::) on macOS")

  unfoldable pub validate_tls : SocketAddr → RawTls → Result E TlsConfig
  validate_tls listen raw = do
    tls_listen ←
        or_invalid (parse_socket_addr raw.listen)
          (codes "tls.listen must be a literal IP socket address")
    u1 ← validate_listener tls_listen (codes "tls.listen")
    u2 ←
        reject_if (tls_listen.port == listen.port)
          (codes "tls.listen must use a different port from listen")
    u3 ← reject_if (not (is_absolute raw.cert)) (codes "tls.cert must be an absolute path")
    u4 ← reject_if (not (is_absolute raw.key)) (codes "tls.key must be an absolute path")
    ok (record { listen = tls_listen; cert = raw.cert; key = raw.key })

  -- `raw.tls.map(…).transpose()`.
  unfoldable pub validate_optional_tls : SocketAddr → Option RawTls → Result E (Option TlsConfig)
  validate_optional_tls listen none = ok none
  validate_optional_tls listen (some raw) = do tls ← validate_tls listen raw; ok (some tls)

  -- The first part of the body of the loop: the checks on one service by itself.
  unfoldable pub validate_service :
      (Text → Option Authority) → ℕ → RawService → Result E ServiceConfig
  validate_service parse_authority number raw = do
    host ←
        or_invalid (normalize_config_host parse_authority raw.host)
          (message_of number (codes " host must be an ASCII DNS hostname without a port"))
    upstream ←
        or_invalid (parse_socket_addr raw.upstream)
          (message_of number (codes " upstream must be a literal IP socket address"))
    u1 ←
        reject_if (not (is_loopback upstream.ip) || upstream.port == 0)
          (message_of number (codes " upstream must be a loopback address with a nonzero port"))
    u2 ←
        reject_if (not (valid_launchd_label raw.launchd_label))
          (message_of number (codes " launchd_label is invalid"))
    u3 ←
        reject_if (raw.idle_timeout_seconds == 0)
          (message_of number (codes " idle_timeout_seconds must be greater than zero"))
    u4 ← validate_command raw.can_stop_command number
    ok (record {
      host = host;
      upstream = upstream;
      launchd_label = raw.launchd_label;
      idle_timeout_seconds = raw.idle_timeout_seconds;
      can_stop_command = raw.can_stop_command;
    })

  -- The second part of the body: the checks for duplicates, and the insertion.
  unfoldable pub collect : Collected → ℕ → ServiceConfig → Result E Collected
  collect c number s = do
    u1 ←
        reject_if (contains_key s.host c.services)
          (message_of number (codes " duplicates normalized host " ++ s.host))
    u2 ←
        reject_if (any (text_eq s.launchd_label) c.labels)
          (message_of number (codes " duplicates a launchd_label"))
    u3 ←
        reject_if (any (addr_eq s.upstream) c.upstreams)
          (message_of number (codes " duplicates an upstream"))
    ok (record {
      services = insert s.host s c.services;
      labels = s.launchd_label ∷ c.labels;
      upstreams = s.upstream ∷ c.upstreams;
    })

  -- The loop from the service of the given number on.
  unfoldable pub validate_services :
      (Text → Option Authority) → ℕ → Collected → List RawService → Result E Collected
  validate_services parse_authority number c [] = ok c
  validate_services parse_authority number c (raw ∷ raws) = do
    s ← validate_service parse_authority number raw
    c' ← collect c number s
    validate_services parse_authority (suc number) c' raws

  unfoldable pub from_raw : (Text → Option Authority) → RawConfig → Result E Config
  from_raw parse_authority raw = do
    listen ←
        or_invalid (parse_socket_addr raw.listen)
          (codes "listen must be a literal IP socket address")
    u1 ← validate_listener listen (codes "listen")
    tls ← validate_optional_tls listen raw.tls
    u2 ← reject_if (no_services raw.services) (codes "at least one service must be configured")
    c ←
        validate_services parse_authority 1 (record { services = []; labels = []; upstreams = [] })
          raw.services
    ok (record { listen = listen; tls = tls; services = c.services })

  unfoldable pub from_toml :
      (Text → Option Authority) → (Text → AnyResult E RawConfig) → Text → Result E Config
  unfolding from_raw
  from_toml parse_authority from_str input = do
    raw ← map_err parse (from_str input)
    from_raw parse_authority raw

unfoldable pub service_for_request_host :
    (Text → Option Authority) → Config → Text → Option ServiceConfig
service_for_request_host parse_authority config host =
    elim (normalize_request_host parse_authority host config.listen.port) [
      | none ↦ none
      | some name ↦ get name config.services
    ]

-- The functions above, for the modules that run them: those of the listeners and of the map, and all.
unfoldable pub collect_code : Unit {0}
unfolding host_code is_loopback is_unspecified text_eq text_lt insert get contains_key ip_eq addr_eq
    validate_listener validate_tls validate_optional_tls collect
collect_code = tt

unfoldable pub config_code : Unit {0}
unfolding collect_code valid_launchd_label is_control is_whitespace validate_command
    validate_service validate_services from_raw from_toml service_for_request_host
config_code = tt
