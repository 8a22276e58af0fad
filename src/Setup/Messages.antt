-- ===== src/Setup/Messages.antt =====
-- src/setup.rs, the messages of `SetupError`. `Path::display` of bytes that are no UTF-8 is the argument
-- `lossy`, the message of an I/O error the argument `show`.
use roused.Base.{
  ℕ, zero, suc, Option, none, some, List, [], ◌∷◌, ◌++◌, if◌then◌else◌, ltb, ◌&&◌, ◌==◌, ◌+◌, ◌-◌,
  ◌/◌, ◌%◌,
}
use roused.Base.Path.{display}
use roused.Base.Text.{Text, codes}
use roused.Setup.{
  SetupError, invalid_label, path_not_absolute, path_not_utf8, invalid_xml_character,
  log_directory_unavailable, log_directory_not_directory,
}

abbrev hex_digit : ℕ → ℕ
hex_digit d = if ltb d 10 then b'0' + d else b'A' + (d - 10)

-- `{:04X}`: at least four digits.
unfoldable pub hex_onto : ℕ → ℕ → ℕ → Text → Text
hex_onto zero least n rest = rest
hex_onto (suc fuel) least n rest =
    let more = hex_onto fuel (least - 1) (n / 16) (hex_digit (n % 16) ∷ rest) in
    if n == 0 && least == 0 then rest else more

-- A character is below 16 ^ 6.
abbrev pub to_hex : ℕ → Text
to_hex n = hex_onto 6 4 n []

unfoldable pub setup_message : {Io : Type 0} → (List ℕ → Text) → (Io → Text) → SetupError Io → Text
unfolding hex_onto
setup_message lossy show invalid_label = codes "launchd label is invalid"
setup_message lossy show (path_not_absolute name path) =
    name ++ (codes " path must be absolute: " ++ display lossy path)
setup_message lossy show (path_not_utf8 name path) =
    name ++ (codes " path is not valid UTF-8: " ++ display lossy path)
setup_message lossy show (invalid_xml_character name character) =
    name
    ++ (codes " contains an XML 1.0-incompatible character (U+" ++ (to_hex character ++ codes ")"))
setup_message lossy show (log_directory_unavailable path source) =
    codes "cannot inspect log directory " ++ (display lossy path ++ (codes ": " ++ show source))
setup_message lossy show (log_directory_not_directory path) =
    codes "log directory path is not a directory: " ++ display lossy path

-- `Error::source`.
abbrev pub source : {Io : Type 0} → SetupError Io → Option Io
source (log_directory_unavailable path error) = some error
source invalid_label = none
source (path_not_absolute name path) = none
source (path_not_utf8 name path) = none
source (invalid_xml_character name character) = none
source (log_directory_not_directory path) = none
