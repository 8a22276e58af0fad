-- ===== src/Main/Listeners.antt =====
-- src/main.rs, `run_gateway`: the services of the server that is run.
use roused.Base.{
  ℕ, ◌≡◌, ap, sym, ◌∙◌, inl, inr, Option, none, some, List, [], ◌∷◌, ◌++◌, arith, Option-cases,
}
use roused.Base.Path.{PathBuf}
use roused.Base.Result.{ok, result_cases, bind_ok, map_err, map_err_ok, ok_injective}
use roused.Config.{Config, TlsConfig, from_toml, from_raw, parse}
use roused.Config.Accepted.{IsValid, accepted-IsValid}
use roused.Config.Load.{load}
use roused.Gateway.{new}
use roused.Main.{load_config}
use roused.Main.Gateway.{
  Tls, Service, plain_http, tls_http, idle_monitor, Server, run_gateway, validate_tls_material,
  tls_services, validate_optional_material, server_conf,
}
use roused.Main.Store.{System, Files, read_to_string}

-- The server of a configuration: its proxy, the plain listener, the TLS listener if there is one, and one idle
-- monitor.
abbrev pub server_of : ℕ → ℕ → Config → Server
server_of user now c = record {
  conf = server_conf;
  proxy = new c user now;
  services =
      plain_http c.listen
      ∷ (elim c.tls [ none ↦ [] | some t ↦ tls_http t.listen t.cert t.key ∷ [] ]
          ++ idle_monitor ∷ []);
}

module _ {E : Type 0} (tls : Tls E) where
  -- The certificates and the key of the TLS listener load and fit.
  abbrev pub IsMaterial : Option TlsConfig → Type 0
  IsMaterial none = Unit {0}
  IsMaterial (some t) =
      (certs : tls.Certs) × (key : tls.Key) × (tls.load_certs_and_key_files t.cert t.key
        ≡ ok (some (certs, key)))
      × (tls.with_single_cert certs key ≡ ok tt)

module _ {E : Type 0} (system : System E) where
  pub load_config-IsValid :
      (files : Files) (path : PathBuf) (c : Config)
      → load_config system files path ≡ ok c
      → IsValid c
  unfolding load_config load from_toml
  load_config-IsValid files path c h = elim (result_cases (read_to_string system files path)) [
    | inr (e, f) ↦ absurd (ground arith)
    | inl (input, f) ↦
        let loaded : load system.parse_authority system.from_str (read_to_string system files) path
            ≡ ok c =
          map_err_ok _ _ c h in
        let parsed : from_toml system.parse_authority system.from_str input ≡ ok c = ground arith in
        let (raw, e, g) =
          bind_ok (map_err parse (system.from_str input)) (from_raw system.parse_authority) c
            parsed in
        (accepted-IsValid system.parse_authority raw c g).0
  ]

module _ {E : Type 0} (system : System E) (tls : Tls E) where
  material_lem :
      (t : TlsConfig) (u : Unit {0})
      → validate_tls_material system tls t ≡ ok u
      → IsMaterial tls (some t)
  unfolding validate_tls_material
  material_lem t u h = elim (result_cases (tls.load_certs_and_key_files t.cert t.key)) [
    | inr (e, f) ↦ absurd (ground arith)
    | inl (loaded, f) ↦ elim (Option-cases loaded) [
      | inl g ↦ absurd (ground arith)
      | inr ((certs, key), g) ↦ elim (result_cases (tls.with_single_cert certs key)) [
        | inr (e, k) ↦ absurd (ground arith)
        | inl (v, k) ↦ (certs, key, f ∙ ap ok g, k)
      ]
    ]
  ]

  optional_material_lem :
      (t : Option TlsConfig) (u : Unit {0})
      → validate_optional_material system tls t ≡ ok u
      → IsMaterial tls t
  unfolding validate_optional_material
  optional_material_lem none u h = tt
  optional_material_lem (some t) u h = material_lem t u h

  tls_services_lem :
      (t : Option TlsConfig) (services : List Service)
      → tls_services system tls t ≡ ok services
      → services ≡ elim t [ none ↦ [] | some t ↦ tls_http t.listen t.cert t.key ∷ [] ]
  unfolding tls_services
  tls_services_lem none services h = sym (ok_injective h)
  tls_services_lem (some t) services h = elim (result_cases (tls.add_tls t.listen t.cert t.key)) [
    | inr (e, f) ↦ absurd (ground arith)
    | inl (u, f) ↦ ground arith
  ]

  -- The gateway runs a server only for a valid configuration, whose listeners have fixed ports, the TLS
  -- listener its own, and with TLS material that loads and fits; and then the server has the proxy of
  -- this configuration, its listeners and one idle monitor.
  pub run_gateway_server :
      (user now : ℕ) (files : Files) (path : PathBuf) (server : Server)
      → run_gateway system tls user now files path ≡ ok server
      → (c : Config) × (load_config system files path ≡ ok c)
        × IsValid c
        × IsMaterial tls c.tls
        × (server ≡ server_of user now c)
  unfolding run_gateway
  run_gateway_server user now files path server h =
      let (c, e, h1) = bind_ok _ _ server h in
      let (u, f, h2) = bind_ok _ _ server h1 in
      let (services, g, h3) = bind_ok _ _ server h2 in
      let same = tls_services_lem c.tls services g in
      (
        c,
        e,
        load_config-IsValid system files path c e,
        optional_material_lem c.tls u f,
        sym (ok_injective h3)
            ∙ ap
                (λ (l : List Service). record {
                  conf = server_conf;
                  proxy = new c user now;
                  services = plain_http c.listen ∷ (l ++ idle_monitor ∷ []);
                })
                same,
      )
