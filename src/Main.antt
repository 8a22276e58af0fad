-- ===== src/Main.antt =====
-- src/main.rs: the commands that make and check files.
pub mod Store
pub mod Gateway
pub mod Cli
pub mod Shutdown
pub mod Kept
pub mod Created
pub mod Listeners
mod Tests
use roused.Base.{
  ℕ, Bool, true, false, not, ◌&&◌, ◌||◌, Option, none, some, List, [], ◌∷◌, ◌++◌, ◌==◌,
  if◌then◌else◌,
}
use roused.Base.Path.{PathBuf, utf8, is_absolute, join_path, display, is_empty_path}
use roused.Base.Result.{Result, ok, err, ◌>>=◌, map_err}
use roused.Base.Text.{Text, codes, text_eq}
use roused.Base.Utf8.{as_bytes, from_utf8}
use roused.Config.{RawConfig, Config, from_toml}
use roused.Config.Host.{Authority}
use roused.Config.Load.{starter_toml, load, config_message}
use roused.Setup.{
  SetupError, invalid_label, path_not_absolute, path_not_utf8, invalid_xml_character,
  log_directory_unavailable, log_directory_not_directory, gateway_plist_xml,
}
use roused.Base.Utf8.{as_bytes, from_utf8}
use Store.{System, World, Files, shown, put, create_new, write_new, read_to_string}
use roused.Setup.Messages.{setup_message}

module _ {E : Type 0} (system : System E) where
  unfoldable pub load_config : Files → PathBuf → Result Text Config
  unfolding load read_to_string config_message
  load_config files path =
      map_err (config_message system.lossy system.show)
        (load system.parse_authority system.from_str (read_to_string system files) path)

  -- The contents, written to a new file, and what is printed then.
  unfoldable pub write_contents :
      PathBuf → Result Text Text → List Text → World → Result Text (Unit {0}) × World
  unfolding write_new
  write_contents output contents lines w = elim contents [
    | err message ↦ (err message, w)
    | ok text ↦
        let (result, files) = write_new system output text w.files in
        elim result [
          | err message ↦ (err message, record w { files = files })
          | ok u ↦ (ok tt, record { files = files; printed = w.printed ++ lines })
        ]
  ]

  unfoldable pub starter_contents : Result Text Text
  unfolding starter_toml from_toml config_message
  starter_contents = do
    contents ←
        map_err (λ e. codes "cannot generate starter configuration: " ++ system.show e)
          (starter_toml system.to_string_pretty)
    u ←
        map_err
          (λ e.
            codes "generated starter configuration is invalid: "
            ++ config_message system.lossy system.show e)
          (from_toml system.parse_authority system.from_str contents)
    ok contents

  unfoldable pub init_config : PathBuf → World → Result Text (Unit {0}) × World
  unfolding starter_contents write_contents
  init_config output w =
      write_contents output starter_contents
        ((codes "created starter configuration at " ++ shown system output)
          ∷ (codes "Next: edit its [[services]] entries, then run `roused check-config "
              ++ (shown system output ++ codes "`."))
          ∷ [])
        w

  unfoldable pub check_config : PathBuf → World → Result Text (Unit {0}) × World
  unfolding load_config
  check_config config_path w = elim (load_config w.files config_path) [
    | err message ↦ (err message, w)
    | ok config ↦ (
      ok tt,
      record w {
        printed = w.printed ++ (codes "configuration is valid: " ++ shown system config_path) ∷ [];
      },
    )
  ]

  unfoldable pub default_log_dir : Result Text PathBuf
  default_log_dir = elim system.home [
    | none ↦
        err (
          codes
            "cannot determine the default log directory because HOME is not set; pass --log-dir")
    | some home ↦
        if is_empty_path home
        then err (
            codes
              "cannot determine the default log directory because HOME is not set; pass --log-dir")
        else if not (is_absolute home)
        then err (
            codes
              "cannot determine the default log directory because HOME is not absolute; pass --log-dir")
        else ok (join_path home (codes "Library/Logs"))
  ]

  abbrev pub current_program : Result Text PathBuf
  current_program =
      map_err (λ e. codes "cannot determine the current executable path: " ++ system.show e)
        system.current_exe

  abbrev pub or_else : Option PathBuf → Result Text PathBuf → Result Text PathBuf
  or_else (some path) default = ok path
  or_else none default = default

  -- The errors that another log directory may remedy.
  abbrev is_log_dir_error : SetupError E → Bool
  is_log_dir_error (log_directory_unavailable path source) = true
  is_log_dir_error (log_directory_not_directory path) = true
  is_log_dir_error (path_not_utf8 name path) = text_eq name (codes "log directory")
  is_log_dir_error (invalid_xml_character name character) = text_eq name (codes "log directory")
  is_log_dir_error invalid_label = false
  is_log_dir_error (path_not_absolute name path) = false

  abbrev is_none : Option PathBuf → Bool
  is_none none = true
  is_none (some path) = false

  unfoldable pub plist_error : Bool → SetupError E → Text
  unfolding text_eq setup_message
  plist_error uses_default_log_dir error =
      let message = setup_message system.lossy system.show error in
      if uses_default_log_dir && is_log_dir_error error
      then message ++ codes "; pass --log-dir to select another directory"
      else message

  abbrev pub checked_output : PathBuf → Result Text (Unit {0})
  checked_output output =
      if not (is_absolute output) then err (codes "--output must be an absolute path") else ok tt

  unfoldable pub plist_contents :
      Text → PathBuf → PathBuf → Option PathBuf → Option PathBuf → Files → Result Text Text
  unfolding default_log_dir load_config gateway_plist_xml plist_error
  plist_contents label config_path output log_dir program files = do
    u1 ← checked_output output
    program_path ← or_else program current_program
    log_path ← or_else log_dir default_log_dir
    config ← load_config files config_path
    map_err (plist_error (is_none log_dir))
        (gateway_plist_xml system.metadata label program_path config_path log_path)

  unfoldable pub init_gateway_plist :
      Text
      → PathBuf
      → PathBuf
      → Option PathBuf
      → Option PathBuf
      → World
      → Result Text (Unit {0}) × World
  unfolding plist_contents write_contents
  init_gateway_plist label config_path output log_dir program w =
      write_contents output (plist_contents label config_path output log_dir program w.files)
        ((codes "created gateway LaunchAgent plist at " ++ shown system output)
          ∷ (codes "Next: run `/usr/bin/plutil -lint "
              ++ (shown system output ++ codes "` before bootstrapping it."))
          ∷ [])
        w

-- The functions above, for the modules that run them.
unfoldable pub main_code : Unit {0}
unfolding load_config write_contents starter_contents init_config check_config default_log_dir
    plist_error plist_contents init_gateway_plist put create_new write_new read_to_string as_bytes
    from_utf8 config_message
main_code = tt
