-- ===== src/Main/Cli.antt =====
-- src/main.rs, `main` and `run`. What `Cli::try_parse` gives is the argument of `main`. A server that is
-- run is an outcome of its own: what it does is no part of the command line.
use roused.Base.{ℕ, Option, none, some, [], ◌∷◌, ◌++◌}
use roused.Base.Path.{PathBuf}
use roused.Base.Result.{Result, ok, err}
use roused.Base.Text.{Text, codes}
use roused.Main
use roused.Main.Gateway.{Tls, Server, run_gateway}
use roused.Main.Store.{System, World}

pub data CliCommand : Type 0 where
  init_config : PathBuf → CliCommand
  check_config : PathBuf → CliCommand
  init_gateway_plist : Text → PathBuf → PathBuf → Option PathBuf → Option PathBuf → CliCommand

pub record Cli : Type 0 where
  pub config : Option PathBuf
  pub command : Option CliCommand

-- The end of `run`: an `unreachable!`, a result, or the server that runs.
pub data Outcome : Type 0 where
  unreachable : Outcome
  finished : Result Text (Unit {0}) → Outcome
  serves : Server → Outcome

-- What `try_parse` gives: arguments, an error for the standard error, or help.
pub data Parsed : Type 0 where
  arguments : Cli → Parsed
  usage_error : Text → Parsed
  help : Text → Parsed

-- How the process ends: by a panic, with an exit code and what it wrote to the standard error, or with
-- the server.
pub data ProcessEnd : Type 0 where
  panics : ProcessEnd
  exits : ℕ → Text → ProcessEnd
  runs_server : Server → ProcessEnd

module _ {E : Type 0} (system : System E) where
  unfoldable pub run_command : CliCommand → World → Result Text (Unit {0}) × World
  unfolding Main.init_config Main.check_config Main.init_gateway_plist
  run_command (init_config output) w = Main.init_config system output w
  run_command (check_config config) w = Main.check_config system config w
  run_command (init_gateway_plist label config output log_dir program) w =
      Main.init_gateway_plist system label config output log_dir program w

-- The gateway is run by the user `user` at `now`.
module _ {E : Type 0} (system : System E) (tls : Tls E) (user now : ℕ) where
  abbrev served : Result Text Server → Outcome
  served (ok server) = serves server
  served (err message) = finished (err message)

  unfoldable pub run : Cli → World → Outcome × World
  unfolding run_gateway run_command
  run cli w = elim cli.config [
    | some config ↦ elim cli.command [
      | none ↦ (served (run_gateway system tls user now w.files config), w)
      | some command ↦ (unreachable, w)
    ]
    | none ↦ elim cli.command [
      | none ↦ (unreachable, w)
      | some command ↦ let (result, w') = run_command system command w in (finished result, w')
    ]
  ]

  abbrev ended : Outcome → ProcessEnd
  ended unreachable = panics
  ended (finished (ok u)) = exits 0 []
  ended (finished (err message)) = exits 2 (codes "roused: " ++ (message ++ codes "\n"))
  ended (serves server) = runs_server server

  unfoldable pub main : Parsed → World → ProcessEnd × World
  unfolding run
  main (arguments cli) w = let (outcome, w') = run cli w in (ended outcome, w')
  main (usage_error message) w = (exits 2 (codes "roused: " ++ message), w)
  main (help text) w = (exits 0 [], record w { printed = w.printed ++ text ∷ [] })
