-- ===== src/Config/Tests.antt =====
-- src/config.rs: a configuration with two services, read, and the requests for them. The authority
-- parser of these runs splits at the first colon.
use mathlib.Core.List.{Memᴰ, Perm}
use roused.Base.{◌≡◌, ◌≢◌, refl, false, none, some, List, [], ◌∷◌, arith}
use roused.Base.Text.{Text, codes, to_decimal, digits_onto, contains}
use roused.Config.{
  RawService, RawConfig, ServiceConfig, Config, ok, err, invalid, from_raw,
  service_for_request_host, config_code,
}
use roused.Config.Accepted.{IsValid, accepted-IsValid, every_service_found}
use roused.Config.Distinct.{Validated, entries_of}
use roused.Config.Host.{
  Authority, normalize_authority, normalize_dns_name, normalize_request_host, normalize_config_host,
  host_code,
}
use roused.Config.Host.Names.{IsHostname}
use roused.Config.Host.Ports.{Writes, with_port, HasPort, normalize_sound, host_ports}
use roused.Config.Host.FirstColon.{read_authority, read_colon, reads}
use roused.Net.{v4}

abbrev api : RawService
api = record {
  host = codes "API.local.";
  upstream = codes "127.0.0.1:8081";
  launchd_label = codes "dev.local.api";
  idle_timeout_seconds = 1_800;
  can_stop_command = some (codes "/bin/true" ∷ []);
}

abbrev web : RawService
web = record {
  host = codes "web.local";
  upstream = codes "127.0.0.1:8082";
  launchd_label = codes "dev.local.web";
  idle_timeout_seconds = 60;
  can_stop_command = none;
}

abbrev raw_config : RawConfig
raw_config = record { listen = codes "127.0.0.1:8080"; tls = none; services = web ∷ api ∷ [] }

abbrev api_service : ServiceConfig
api_service = record {
  host = codes "api.local";
  upstream = record { ip = v4 127 0 0 1; port = 8_081; scope_id = 0 };
  launchd_label = codes "dev.local.api";
  idle_timeout_seconds = 1_800;
  can_stop_command = some (codes "/bin/true" ∷ []);
}

abbrev web_service : ServiceConfig
web_service = record {
  host = codes "web.local";
  upstream = record { ip = v4 127 0 0 1; port = 8_082; scope_id = 0 };
  launchd_label = codes "dev.local.web";
  idle_timeout_seconds = 60;
  can_stop_command = none;
}

abbrev config : Config
config = record {
  listen = record { ip = v4 127 0 0 1; port = 8_080; scope_id = 0 };
  tls = none;
  services = (codes "api.local", api_service) ∷ (codes "web.local", web_service) ∷ [];
}

accepts : from_raw {E = Text} read_authority raw_config ≡ ok config
unfolding config_code read_authority read_colon
accepts = refl

refuses_duplicate_test :
    from_raw {E = Text} read_authority
      (record raw_config { services = web ∷ record web { host = codes "other.local" } ∷ [] })
    ≡ err (invalid (codes "service 2 duplicates a launchd_label"))
unfolding config_code read_authority read_colon to_decimal digits_onto
refuses_duplicate_test = refl

refuses_address_test :
    from_raw {E = Text} read_authority
      (record raw_config { services = record web { upstream = codes "10.0.0.1:80" } ∷ [] })
    ≡ err (invalid (codes "service 1 upstream must be a loopback address with a nonzero port"))
unfolding config_code read_authority read_colon to_decimal digits_onto
refuses_address_test = refl

accepted-IsValid_example :
    IsValid config
    × (raw_config.services ≢ [])
    × (ss : List ServiceConfig) × Validated Text read_authority 1 raw_config.services ss
    × Perm config.services (entries_of ss)
accepted-IsValid_example = accepted-IsValid read_authority raw_config config accepts

Writes-api : Writes (codes "API.local.") (codes "api.local")
unfolding host_code
Writes-api = (λ e. cc, refl, refl)

every_service_found_example :
    (service_for_request_host read_authority config (codes "API.local.") ≡ some api_service)
    × (service_for_request_host read_authority config (with_port (codes "API.local.") 8_080)
        ≡ some api_service)
every_service_found_example =
    every_service_found reads config (codes "api.local", api_service) (codes "API.local.")
      (accepted-IsValid read_authority raw_config config accepts).0 (Memᴰ.head refl) Writes-api

host_ports_example :
    (normalize_request_host read_authority (codes "API.local.") 8_080 ≡ some (codes "api.local"))
    × (normalize_request_host read_authority (with_port (codes "API.local.") 8_080) 8_080
        ≡ some (codes "api.local"))
    × (normalize_request_host read_authority (with_port (codes "API.local.") 9_090) 8_080 ≡ none)
    × (normalize_config_host read_authority (codes "API.local.") ≡ some (codes "api.local"))
    × (normalize_config_host read_authority (with_port (codes "API.local.") 8_080) ≡ none)
host_ports_example =
    host_ports reads (codes "API.local.") (codes "api.local") 8_080 9_090 Writes-api (omega arith)
      (omega arith) (omega arith)

request_for_api :
    normalize_authority read_authority (codes "API.local.:8080") (some 8_080)
    ≡ some (codes "api.local")
unfolding host_code read_authority read_colon
request_for_api = refl

normalize_sound_example :
    (a : Authority) × (read_authority (codes "API.local.:8080") ≡ some a)
    × (contains b'@' (codes "API.local.:8080") ≡ false)
    × HasPort a (some 8_080)
    × (normalize_dns_name a.host ≡ some (codes "api.local"))
    × IsHostname (codes "api.local")
normalize_sound_example =
    normalize_sound read_authority (codes "API.local.:8080") (codes "api.local") (some 8_080)
      request_for_api
