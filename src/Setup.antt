-- ===== src/Setup.antt =====
-- src/setup.rs: the launchd property list of the gateway. A path is a text or bytes that are no UTF-8.
-- `fs::metadata` is the argument `metadata`: an I/O error, or whether the path is a directory.
pub mod PropertyList
pub mod Messages
pub mod Accepted
pub mod Written
mod Tests
use roused.Base.{
  ℕ, Bool, true, false, not, ◌&&◌, ◌||◌, Option, none, some, List, [], ◌∷◌, ◌++◌, ◌==◌, leb,
  if◌then◌else◌,
}
pub use roused.Base.Path.{PathBuf, utf8, not_utf8, is_absolute, to_str}
unfoldable pub use roused.Base.Path.{join}
use roused.Base.Result.{Result, ok, err, ◌>>=◌}
use roused.Base.Text.{Text, codes, is_empty, starts_with, ends_with}
use roused.Config.Label.{valid_launchd_label}
use PropertyList.{
  PropertyListValue, dictionary, array, string, bool, integer, nil, cons, end, entry, document,
}

pub data SetupError (Io : Type 0) : Type 0 where
  invalid_label : SetupError Io
  path_not_absolute : Text → PathBuf → SetupError Io
  path_not_utf8 : Text → PathBuf → SetupError Io
  invalid_xml_character : Text → ℕ → SetupError Io
  log_directory_unavailable : PathBuf → Io → SetupError Io
  log_directory_not_directory : PathBuf → SetupError Io

unfoldable pub is_xml_1_0_character : ℕ → Bool
is_xml_1_0_character c =
    c == 0x9
    || (c == 0xa
        || (c == 0xd
            || ((leb 0x20 c && leb c 0xd7ff)
                || ((leb 0xe000 c && leb c 0xfffd) || (leb 0x10000 c && leb c 0x10ffff)))))

-- `chars().find`.
unfoldable pub find : (ℕ → Bool) → Text → Option ℕ
find test [] = none
find test (c ∷ t) = if test c then some c else find test t

-- What `gateway_plist_xml` puts into the property list.
unfoldable pub gateway_plist : Text → Text → Text → Text → Text → PropertyListValue
gateway_plist label program config stdout_log stderr_log = dictionary (
    entry (codes "Label") (string label) (
      entry (codes "ProgramArguments") (array (cons (string program) (cons (string config) nil))) (
        entry (codes "RunAtLoad") (bool true) (
          entry (codes "KeepAlive") (bool true) (
            entry (codes "ExitTimeOut") (integer 30) (
              entry (codes "StandardOutPath") (string stdout_log)
                (entry (codes "StandardErrorPath") (string stderr_log) end)))))))

abbrev pub stdout_log_path : Text → Text → Text
stdout_log_path label log_dir = join log_dir (label ++ codes ".stdout.log")

abbrev pub stderr_log_path : Text → Text → Text
stderr_log_path label log_dir = join log_dir (label ++ codes ".stderr.log")

module _ {Io : Type 0} where
  unfoldable pub validate_xml_string : Text → Text → Result (SetupError Io) (Unit {0})
  unfolding find is_xml_1_0_character
  validate_xml_string name value = elim (find (λ c. not (is_xml_1_0_character c)) value) [
    | some character ↦ err (invalid_xml_character name character)
    | none ↦ ok tt
  ]

  unfoldable pub validated_path : Text → PathBuf → Result (SetupError Io) Text
  unfolding validate_xml_string
  validated_path name path =
      let checked : Result (SetupError Io) Text = elim (to_str path) [
        | none ↦ err (path_not_utf8 name path)
        | some value ↦ do u1 ← validate_xml_string name value; ok value
      ] in
      if not (is_absolute path) then err (path_not_absolute name path) else checked

  -- The checks of the log directory in the file system.
  unfoldable pub check_log_dir :
      (PathBuf → Result Io Bool) → PathBuf → Result (SetupError Io) (Unit {0})
  check_log_dir metadata log_dir = elim (metadata log_dir) [
    | err source ↦ err (log_directory_unavailable log_dir source)
    | ok is_dir ↦ if not is_dir then err (log_directory_not_directory log_dir) else ok tt
  ]

  abbrev pub checked_label : Text → Result (SetupError Io) (Unit {0})
  checked_label label = if not (valid_launchd_label label) then err invalid_label else ok tt

  -- What follows the checks of the arguments: the log files and the document.
  unfoldable pub plist_xml : Text → Text → Text → Text → Result (SetupError Io) Text
  unfolding validated_path document gateway_plist join
  plist_xml label program config log_dir = do
    stdout_log ← validated_path (codes "standard output log") (utf8 (stdout_log_path label log_dir))
    stderr_log ← validated_path (codes "standard error log") (utf8 (stderr_log_path label log_dir))
    ok (document (gateway_plist label program config stdout_log stderr_log))

  unfoldable pub gateway_plist_xml :
      (PathBuf → Result Io Bool) → Text → PathBuf → PathBuf → PathBuf → Result (SetupError Io) Text
  unfolding validated_path check_log_dir plist_xml
  gateway_plist_xml metadata label program_path config_path log_path = do
    u1 ← checked_label label
    u2 ← validate_xml_string (codes "launchd label") label
    program ← validated_path (codes "program") program_path
    config ← validated_path (codes "configuration") config_path
    log_dir ← validated_path (codes "log directory") log_path
    u3 ← check_log_dir metadata log_path
    plist_xml label program config log_dir
