-- ===== src/Main/Store.antt =====
-- src/main.rs, `write_new`, and what the commands use of the operating system and of the libraries, as
-- `System`: what opening, reading and writing may meet, the toml crate, the http crate's authority parser.
-- A path leads to an entry of the file system, and an entry may hold the bytes of a file.
use roused.Base.{ℕ, Bool, Option, none, some, List, ◌++◌, ◌==◌, if◌then◌else◌}
use roused.Base.Path.{PathBuf, display}
use roused.Base.Result.{Result, ok, err}
use roused.Base.Text.{Text, codes}
use roused.Base.Utf8.{as_bytes, from_utf8}
use roused.Config.{RawConfig}
use roused.Config.Host.{Authority}

abbrev pub Files : Type 0
Files = ℕ → Option (List ℕ)

pub record System (E : Type 0) : Type 0 where
  pub show : E → Text
  pub lossy : List ℕ → Text
  pub entry_of : PathBuf → ℕ
  pub exists : E
  pub not_found : E
  pub invalid_data : E
  -- What stops the creation of a path where nothing is, and the reading of a file that is there.
  pub open_error : PathBuf → Option E
  pub read_error : PathBuf → Option E
  -- What stops the writing of the bytes, and those written before.
  pub write_error : PathBuf → List ℕ → Option (List ℕ × E)
  pub metadata : PathBuf → Result E Bool
  pub current_exe : Result E PathBuf
  pub home : Option PathBuf
  pub parse_authority : Text → Option Authority
  pub from_str : Text → Result E RawConfig
  pub to_string_pretty : RawConfig → Result E Text

-- What a command changes: the files, and what is printed.
pub record World : Type 0 where
  pub files : Files
  pub printed : List Text

unfoldable pub put : ℕ → List ℕ → Files → Files
put entry bytes files other = if other == entry then some bytes else files other

module _ {E : Type 0} (system : System E) where
  -- `OpenOptions::create_new`, before anything is written.
  unfoldable pub create_new : PathBuf → Files → Result E (Unit {0})
  create_new path files = elim (files (system.entry_of path)) [
    | some bytes ↦ err system.exists
    | none ↦ elim (system.open_error path) [ some e ↦ err e | none ↦ ok tt ]
  ]

  abbrev pub shown : PathBuf → Text
  shown path = display system.lossy path

  unfoldable pub write_new : PathBuf → Text → Files → Result Text (Unit {0}) × Files
  unfolding create_new put as_bytes
  write_new path contents files = elim (create_new path files) [
    | err e ↦ (err (codes "cannot create " ++ (shown path ++ (codes ": " ++ system.show e))), files)
    | ok u ↦ elim (system.write_error path (as_bytes contents)) [
      | some (written, e) ↦ (
        err (codes "cannot write " ++ (shown path ++ (codes ": " ++ system.show e))),
        put (system.entry_of path) written files,
      )
      | none ↦ (ok tt, put (system.entry_of path) (as_bytes contents) files)
    ]
  ]

  unfoldable pub read_to_string : Files → PathBuf → Result E Text
  unfolding from_utf8
  read_to_string files path = elim (system.read_error path) [
    | some e ↦ err e
    | none ↦ elim (files (system.entry_of path)) [
      | none ↦ err system.not_found
      | some bytes ↦ elim (from_utf8 bytes) [ none ↦ err system.invalid_data | some t ↦ ok t ]
    ]
  ]
