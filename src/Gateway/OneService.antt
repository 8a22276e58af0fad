-- ===== src/Gateway/OneService.antt =====
-- src/config.rs: a configuration with one service, for the runs of the gateway.
use roused.Base.{none, [], ◌∷◌, refl}
use roused.Base.Text.{Text, codes}
use roused.Config.{RawConfig, Config, config_code}
use roused.Config.Accepted.{IsValid, accepted-IsValid}
use roused.Config.Host.FirstColon.{read_authority, read_colon}
use roused.Net.{v4}

abbrev pub raw_config : RawConfig
raw_config = record {
  listen = codes "127.0.0.1:8080";
  tls = none;
  services =
      record {
        host = codes "api.local";
        upstream = codes "127.0.0.1:8081";
        launchd_label = codes "dev.api";
        idle_timeout_seconds = 60;
        can_stop_command = none;
      }
      ∷ [];
}

abbrev pub config : Config
config = record {
  listen = record { ip = v4 127 0 0 1; port = 8_080; scope_id = 0 };
  tls = none;
  services =
      (
        codes "api.local",
        record {
          host = codes "api.local";
          upstream = record { ip = v4 127 0 0 1; port = 8_081; scope_id = 0 };
          launchd_label = codes "dev.api";
          idle_timeout_seconds = 60;
          can_stop_command = none;
        },
      )
      ∷ [];
}

pub config-IsValid : IsValid config
unfolding config_code read_authority read_colon
config-IsValid = (accepted-IsValid {E = Text} read_authority raw_config config refl).0
