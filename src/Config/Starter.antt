-- ===== src/Config/Starter.antt =====
-- src/config.rs: the starter configuration is one that the program accepts.
use roused.Base.{◌≡◌, refl, none, some, [], ◌∷◌, Option}
use roused.Base.Text.{Text, codes}
use roused.Config.{
  ServiceConfig, Config, ok, from_raw, validate_service, validate_services,
  default_idle_timeout_seconds, config_code, collect_code,
}
use roused.Config.Host.{Authority, normalize_config_host, host_code}
use roused.Config.Host.Ports.{ReadsNames, Writes, accepts_alone}
use roused.Config.Load.{starter, starter_first, starter_second}
use roused.Net.{v4, SocketAddr}

abbrev service : Text → SocketAddr → Text → ServiceConfig
service host upstream label = record {
  host = host;
  upstream = upstream;
  launchd_label = label;
  idle_timeout_seconds = default_idle_timeout_seconds;
  can_stop_command = none;
}

abbrev pub first : ServiceConfig
first =
    service (codes "first-service.apps.home.arpa")
      (record { ip = v4 127 0 0 1; port = 9_001; scope_id = 0 }) (codes "net.example.first-service")

abbrev pub second : ServiceConfig
second =
    service (codes "second-service.apps.home.arpa")
      (record { ip = v4 127 0 0 1; port = 9_002; scope_id = 0 })
      (codes "net.example.second-service")

-- All interfaces on port 8080, no TLS, and two services.
abbrev pub starter_config : Config
starter_config = record {
  listen = record { ip = v4 0 0 0 0; port = 8_080; scope_id = 0 };
  tls = none;
  services = (first.host, first) ∷ (second.host, second) ∷ [];
}

written_out :
    (host : Text)
    → Writes host host
    → (parse_authority : Text → Option Authority) → ReadsNames parse_authority
    → normalize_config_host parse_authority host ≡ some host
unfolding normalize_config_host
written_out host w parse_authority reads = accepts_alone reads host host none w

Writes-first : Writes first.host first.host
unfolding host_code
Writes-first = (λ e. cc, refl, refl)

Writes-second : Writes second.host second.host
unfolding host_code
Writes-second = (λ e. cc, refl, refl)

module _ {E : Type 0} (parse_authority : Text → Option Authority)
    (reads : ReadsNames parse_authority) where
  pub first_accepted : validate_service {E = E} parse_authority 1 starter_first ≡ ok first
  unfolding config_code
  first_accepted =
      rw (validate_service, written_out first.host Writes-first parse_authority reads) refl

  pub second_accepted : validate_service {E = E} parse_authority 2 starter_second ≡ ok second
  unfolding config_code
  second_accepted =
      rw (validate_service, written_out second.host Writes-second parse_authority reads) refl

  pub starter_accepted : from_raw {E = E} parse_authority starter ≡ ok starter_config
  unfolding from_raw validate_services collect_code
  starter_accepted = rw (first_accepted, second_accepted) refl
