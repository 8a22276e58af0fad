-- ===== src/Main/Gateway.antt =====
-- src/main.rs, `run_gateway` up to `server.run`, and `validate_tls_material`: the server that is run.
-- `Tls` has what they use of rustls and pingora: the loading of the two files, the check that the key
-- fits the certificates, and the TLS listener.
use roused.Base.{ℕ, Option, none, some, List, [], ◌∷◌, ◌++◌}
use roused.Base.Path.{PathBuf, utf8, to_str}
use roused.Base.Result.{Result, ok, err, ◌>>=◌, map_err}
use roused.Base.Text.{Text, codes}
use roused.Config.{TlsConfig}
use roused.Gateway.{RousedProxy, new}
use roused.Main.{load_config}
use roused.Main.Store.{System, Files}
use roused.Net.{SocketAddr}

pub record Tls (E : Type 0) : Type 1 where
  pub Certs : Type 0
  pub Key : Type 0
  pub load_certs_and_key_files : Text → Text → Result E (Option (Certs × Key))
  pub with_single_cert : Certs → Key → Result E (Unit {0})
  pub add_tls : SocketAddr → Text → Text → Result E (Unit {0})

pub record ServerConf : Type 0 where
  pub max_retries : ℕ
  pub grace_period_seconds : Option ℕ
  pub graceful_shutdown_timeout_seconds : Option ℕ
  pub threads : ℕ

-- The services of the server: the plain listener, the TLS listener, and the idle monitor. The listeners
-- share the proxy.
pub data Service : Type 0 where
  plain_http : SocketAddr → Service
  tls_http : SocketAddr → Text → Text → Service
  idle_monitor : Service

pub record Server : Type 0 where
  pub conf : ServerConf
  pub proxy : RousedProxy
  pub services : List Service

abbrev pub server_conf : ServerConf
server_conf = record {
  max_retries = 1;
  grace_period_seconds = some 1;
  graceful_shutdown_timeout_seconds = some 0;
  threads = 1;
}

abbrev utf8_path : PathBuf → Text → Result Text Text
utf8_path path message = elim (to_str path) [ none ↦ err message | some t ↦ ok t ]

-- The two paths of the TLS material. They were made of strings.
abbrev cert_path : TlsConfig → Result Text Text
cert_path tls = utf8_path (utf8 tls.cert) (codes "tls.cert path must be valid UTF-8")

abbrev key_path : TlsConfig → Result Text Text
key_path tls = utf8_path (utf8 tls.key) (codes "tls.key path must be valid UTF-8")

module _ {E : Type 0} (system : System E) (tls : Tls E) where
  abbrev loaded_material : Option (tls.Certs × tls.Key) → Result Text (tls.Certs × tls.Key)
  loaded_material none = err (codes "TLS certificate or key file is empty or invalid")
  loaded_material (some material) = ok material

  unfoldable pub validate_tls_material : TlsConfig → Result Text (Unit {0})
  validate_tls_material config = do
    cert ← cert_path config
    key ← key_path config
    loaded ←
        map_err (λ e. codes "cannot load TLS certificate or key: " ++ system.show e)
          (tls.load_certs_and_key_files cert key)
    material ← loaded_material loaded
    map_err (λ e. codes "TLS certificate and key are invalid: " ++ system.show e)
        (tls.with_single_cert material.0 material.1)

  unfoldable pub validate_optional_material : Option TlsConfig → Result Text (Unit {0})
  unfolding validate_tls_material
  validate_optional_material none = ok tt
  validate_optional_material (some config) = validate_tls_material config

  unfoldable pub tls_services : Option TlsConfig → Result Text (List Service)
  tls_services none = ok []
  tls_services (some config) = do
    cert ← cert_path config
    key ← key_path config
    u ← map_err system.show (tls.add_tls config.listen cert key)
    ok (tls_http config.listen cert key ∷ [])

  -- By the user `user` at `now`.
  unfoldable pub run_gateway : ℕ → ℕ → Files → PathBuf → Result Text Server
  unfolding load_config validate_optional_material tls_services new
  run_gateway user now files config_path = do
    config ← load_config system files config_path
    u ← validate_optional_material config.tls
    listeners ← tls_services config.tls
    ok (record {
      conf = server_conf;
      proxy = new config user now;
      services = plain_http config.listen ∷ (listeners ++ idle_monitor ∷ []);
    })
