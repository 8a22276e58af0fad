-- ===== src/Main/Tests.antt =====
-- src/main.rs: the commands on a small file system.
use roused.Base.{
  ℕ, ◌≡◌, ◌≢◌, ◌↔◌, ◌≤◌, ◌+◌, ◌++◌, refl, true, false, none, some, List, [], ◌∷◌, ◌==◌, length,
  arith, if◌then◌else◌,
}
use roused.Base.Duration.{from_secs}
use roused.Base.Path.{PathBuf, utf8, not_utf8, is_absolute}
use roused.Base.Result.{Result, ok, err}
use roused.Base.Text.{Text, codes, text_eq}
use roused.Base.Utf8.{as_bytes}
use roused.Config.{RawConfig, Config, config_code}
use roused.Config.Accepted.{IsValid}
use roused.Config.Host.FirstColon.{read_authority, read_colon, reads}
use roused.Config.Load.{starter, load}
use roused.Config.Starter.{starter_config}
use roused.Lifecycle.Shutdown.{ShutdownCoordinator, ShutdownPhase, running, requested, completed}
use roused.Net.{v4}
use roused.Main.{
  init_config, load_config, init_gateway_plist, or_else, current_program, default_log_dir,
  main_code,
}
use roused.Main.Cli
use roused.Main.Cli.{Cli, arguments, main}
use roused.Main.Created.{init_config-starter, init_gateway_plist_made}
use roused.Main.Gateway.{Tls, run_gateway}
use roused.Main.Kept.{Kept, main-Kept}
use roused.Main.Listeners.{server_of, IsMaterial, run_gateway_server}
use roused.Main.Shutdown.{quit, graceful_upgrade, recv, recv_lem}
use roused.Main.Store.{System, Files, World}
use roused.Setup.{gateway_plist_xml}

-- A path leads to the entry of its length; the entry 5 cannot be opened. The text `a` is the starter
-- configuration, and `b` the starter with a TLS listener.
unfoldable raw_of : Text → Result Text RawConfig
unfolding text_eq
raw_of t =
    if text_eq t (codes "a")
    then ok starter
    else if text_eq t (codes "b")
    then ok (record starter {
      tls = some (record { listen = codes "0.0.0.0:8443"; cert = codes "/c"; key = codes "/k" });
    })
    else err (codes "no TOML")

abbrev entry : PathBuf → ℕ
entry (utf8 t) = length t
entry (not_utf8 bytes) = length bytes

unfoldable system : System Text
unfolding raw_of read_authority
system = record {
  show = λ e. e;
  lossy = λ b. [];
  entry_of = entry;
  exists = codes "File exists";
  not_found = codes "No such file";
  invalid_data = codes "invalid UTF-8";
  open_error = λ p. if entry p == 5 then some (codes "Permission denied") else none;
  read_error = λ p. none;
  write_error = λ p bytes. none;
  metadata = λ p. ok true;
  current_exe = ok (utf8 (codes "/bin/roused"));
  home = some (utf8 (codes "/Users/me"));
  parse_authority = read_authority;
  from_str = raw_of;
  to_string_pretty = λ raw. ok (codes "a");
}

-- The files `/a` with the starter and `/tb` with TLS.
abbrev files : Files
files n = if n == 2 then some (codes "a") else if n == 3 then some (codes "b") else none

abbrev world : World
world = record { files = files; printed = [] }

abbrev tls : Tls Text
tls = record {
  Certs = ℕ;
  Key = ℕ;
  load_certs_and_key_files = λ cert key. ok (some (1, 2));
  with_single_cert = λ cert key. ok tt;
  add_tls = λ listen cert key. ok tt;
}

abbrev new_file : PathBuf
new_file = utf8 (codes "/new")

main-Kept_example :
    Kept system
      (some new_file)
      files
      (main system tls 501 7
        (arguments (record { config = none; command = some (Cli.init_config new_file) }))
        world).1.files
      4
main-Kept_example =
    main-Kept system tls 501 7
      (arguments (record { config = none; command = some (Cli.init_config new_file) })) world 4

init_config-starter_example :
    ((init_config system new_file world).0 ≡ ok tt)
    × (load_config system (init_config system new_file world).1.files new_file ≡ ok starter_config)
unfolding system
init_config-starter_example =
    init_config-starter system new_file (codes "a") world reads refl refl refl refl refl refl refl

abbrev tls_config : Config
tls_config = record starter_config {
  tls = some (record {
    listen = record { ip = v4 0 0 0 0; port = 8_443; scope_id = 0 };
    cert = codes "/c";
    key = codes "/k";
  });
}

runs : run_gateway system tls 501 7 files (utf8 (codes "/tb")) ≡ ok (server_of 501 7 tls_config)
unfolding run_gateway main_code config_code system read_colon load
runs = refl

run_gateway_server_example :
    (c : Config) × (load_config system files (utf8 (codes "/tb")) ≡ ok c)
    × IsValid c
    × IsMaterial tls c.tls
    × (server_of 501 7 tls_config ≡ server_of 501 7 c)
run_gateway_server_example =
    run_gateway_server system tls 501 7 files (utf8 (codes "/tb")) (server_of 501 7 tls_config) runs

makes_plist :
    (init_gateway_plist system
      (codes "net.example.roused")
      (utf8 (codes "/a"))
      new_file
      none
      none
      world).0
    ≡ ok tt
unfolding main_code config_code system read_colon load gateway_plist_xml
makes_plist = refl

init_gateway_plist_made_example :
    (is_absolute new_file ≡ true)
    × (files 4 ≡ none)
    × (config : Config) × (load_config system files (utf8 (codes "/a")) ≡ ok config)
    × (program_path : PathBuf) × (or_else system none (current_program system) ≡ ok program_path)
    × (log_path : PathBuf) × (or_else system none (default_log_dir system) ≡ ok log_path)
    × (xml : Text) × (gateway_plist_xml system.metadata
          (codes "net.example.roused")
          program_path
          (utf8 (codes "/a"))
          log_path
        ≡ ok xml)
    × ((init_gateway_plist system
            (codes "net.example.roused")
            (utf8 (codes "/a"))
            new_file
            none
            none
            world).1.files
          4
        ≡ some (as_bytes xml))
unfolding system
init_gateway_plist_made_example =
    init_gateway_plist_made system (codes "net.example.roused") (utf8 (codes "/a")) new_file none
      none world tt makes_plist

abbrev coordinator : ShutdownCoordinator
coordinator = record { request_gate = record { accepting = true; admitted = 0 }; phase = running }

abbrev polls : List (ℕ × ShutdownPhase)
polls = (0, requested) ∷ (3_000_000_000, running) ∷ []

recv_lem_example :
    let (coordinator', ended, shutdown) =
      recv 0 quit coordinator (polls ++ (21_000_000_000, completed) ∷ []) in
    (coordinator'.request_gate.accepting ≡ false)
    × ((completed ≡ completed) → ended ≡ some (21_000_000_000, true))
    × ((completed ≢ completed)
        → 0 + from_secs 20 ≤ 21_000_000_000
        → ended ≡ some (21_000_000_000, false))
    × ((shutdown ≡ graceful_upgrade) ↔ (quit ≡ quit))
recv_lem_example =
    recv_lem 0 quit coordinator polls [] 21_000_000_000 completed
      ((omega arith, λ e. cc), ((omega arith, λ e. cc), tt))
