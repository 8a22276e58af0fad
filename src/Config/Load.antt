-- ===== src/Config/Load.antt =====
-- src/config.rs: `Config::load`, `Config::starter_toml` and the messages of `ConfigError`. The toml
-- crate's writer is the argument `to_string_pretty`, `fs::read_to_string` the argument
-- `read_to_string`, the message of an error of theirs the argument `show`.
use roused.Base.{none, some, [], ◌∷◌, ◌++◌, Option, List, ℕ}
use roused.Base.Path.{PathBuf, display}
use roused.Base.Result.{Result as AnyResult}
use roused.Base.Text.{Text, codes}
use roused.Config.{
  RawService, RawConfig, Config, ConfigError, read, parse, invalid, Result, ok, err, from_toml,
  default_idle_timeout_seconds,
}
use roused.Config.Host.{Authority}

abbrev pub starter_first : RawService
starter_first = record {
  host = codes "first-service.apps.home.arpa";
  upstream = codes "127.0.0.1:9001";
  launchd_label = codes "net.example.first-service";
  idle_timeout_seconds = default_idle_timeout_seconds;
  can_stop_command = none;
}

abbrev pub starter_second : RawService
starter_second = record {
  host = codes "second-service.apps.home.arpa";
  upstream = codes "127.0.0.1:9002";
  launchd_label = codes "net.example.second-service";
  idle_timeout_seconds = default_idle_timeout_seconds;
  can_stop_command = none;
}

abbrev pub starter : RawConfig
starter = record {
  listen = codes "0.0.0.0:8080";
  tls = none;
  services = starter_first ∷ starter_second ∷ [];
}

module _ {E : Type 0} where
  unfoldable pub starter_toml : (RawConfig → AnyResult E Text) → AnyResult E Text
  starter_toml to_string_pretty = to_string_pretty starter

  unfoldable pub load :
      (Text → Option Authority)
      → (Text → AnyResult E RawConfig)
      → (PathBuf → AnyResult E Text)
      → PathBuf
      → Result E Config
  unfolding from_toml
  load parse_authority from_str read_to_string path = elim (read_to_string path) [
    | err source ↦ err (read path source)
    | ok input ↦ from_toml parse_authority from_str input
  ]

  unfoldable pub config_message : (List ℕ → Text) → (E → Text) → ConfigError E → Text
  config_message lossy show (read path source) =
      codes "cannot read " ++ (display lossy path ++ (codes ": " ++ show source))
  config_message lossy show (parse source) = codes "invalid TOML configuration: " ++ show source
  config_message lossy show (invalid message) = codes "invalid configuration: " ++ message

  -- `Error::source`.
  abbrev pub config_source : ConfigError E → Option E
  config_source (read path source) = some source
  config_source (parse source) = some source
  config_source (invalid message) = none
