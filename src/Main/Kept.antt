-- ===== src/Main/Kept.antt =====
-- src/main.rs: which files a run of the program changes.
use roused.Base.{
  ℕ, ◌≡◌, refl, ap, sym, subst, ◌⊎◌, inl, inr, Option, none, some, List, ◌==◌, arith, Bool-cases,
  Option-cases,
}
use roused.Base.Path.{PathBuf}
use roused.Base.Result.{Result, ok, err, result_cases}
use roused.Base.Text.{Text}
use roused.Base.Utf8.{as_bytes}
use roused.Main
use roused.Main.{write_contents, load_config}
use roused.Main.Cli.{
  CliCommand, init_config, check_config, init_gateway_plist, Parsed, arguments, usage_error, help,
  main, run, run_command,
}
use roused.Main.Gateway.{Tls}
use roused.Main.Store.{System, Files, World, put, create_new, write_new}

abbrev pub output_of : CliCommand → Option PathBuf
output_of (init_config output) = some output
output_of (check_config config) = none
output_of (init_gateway_plist label config output log_dir program) = some output

-- The file that the arguments ask for.
abbrev pub output_of_main : Parsed → Option PathBuf
output_of_main (arguments cli) = elim cli.command [ none ↦ none | some command ↦ output_of command ]
output_of_main (usage_error message) = none
output_of_main (help text) = none

module _ {E : Type 0} (system : System E) where
  -- The entry is as it was, or was empty and is that of the output.
  abbrev pub Kept : Option PathBuf → Files → Files → ℕ → Type 0
  Kept output before after entry =
      (after entry ≡ before entry)
      ⊎ ((before entry ≡ none)
          × ((path : PathBuf) × (output ≡ some path) × (entry ≡ system.entry_of path)))

  put-Kept :
      (path : PathBuf) (bytes : List ℕ) (files : Files) (entry : ℕ)
      → files (system.entry_of path) ≡ none
      → Kept (some path) files (put (system.entry_of path) bytes files) entry
  unfolding put
  put-Kept path bytes files entry h = elim (Bool-cases (entry == system.entry_of path)) [
    | inl e ↦
        let same : entry ≡ system.entry_of path = ground arith in
        inr (ground arith, (path, refl, same))
    | inr e ↦ inl (rw e refl)
  ]

  create_new_lem :
      (path : PathBuf) (files : Files) (u : Unit {0})
      → create_new system path files ≡ ok u
      → files (system.entry_of path) ≡ none
  unfolding create_new
  create_new_lem path files u h = elim (Option-cases (files (system.entry_of path))) [
    | inl e ↦ e
    | inr (bytes, e) ↦ absurd (ground arith)
  ]

  -- A write changes no file, or puts bytes where there was no file.
  write_new_cases :
      (path : PathBuf) (contents : Text) (files : Files)
      → ((write_new system path contents files).1 ≡ files)
        ⊎ ((files (system.entry_of path) ≡ none)
            × ((bytes : List ℕ) × ((write_new system path contents files).1
                  ≡ put (system.entry_of path) bytes files)))
  unfolding write_new
  write_new_cases path contents files = elim (result_cases (create_new system path files)) [
    | inr (e, f) ↦ inl (rw (write_new, f) refl)
    | inl (u, f) ↦ elim (Option-cases (system.write_error path (as_bytes contents))) [
      | inl g ↦ inr (create_new_lem path files u f, (as_bytes contents, rw (write_new, f, g) refl))
      | inr ((written, e), g) ↦
          inr (create_new_lem path files u f, (written, rw (write_new, f, g) refl))
    ]
  ]

  write_new-Kept :
      (path : PathBuf) (contents : Text) (files : Files) (entry : ℕ)
      → Kept (some path) files (write_new system path contents files).1 entry
  write_new-Kept path contents files entry = elim (write_new_cases path contents files) [
    | inl e ↦ inl (ap (λ f. f entry) e)
    | inr (free, (bytes, e)) ↦
        subst (λ f. Kept (some path) files f entry) (sym e) (put-Kept path bytes files entry free)
  ]

  write_contents_files :
      (path : PathBuf) (text : Text) (lines : List Text) (w : World)
      → (write_contents system path (ok text) lines w).1.files
        ≡ (write_new system path text w.files).1
  unfolding write_contents
  write_contents_files path text lines w =
      elim (result_cases (write_new system path text w.files).0) [
        | inl (u, f) ↦ rw (write_contents, f) refl
        | inr (e, f) ↦ rw (write_contents, f) refl
      ]

  write_contents-Kept :
      (path : PathBuf) (contents : Result Text Text) (lines : List Text) (w : World) (entry : ℕ)
      → Kept (some path) w.files (write_contents system path contents lines w).1.files entry
  unfolding write_contents
  write_contents-Kept path (err message) lines w entry = inl refl
  write_contents-Kept path (ok text) lines w entry =
      subst (λ f. Kept (some path) w.files f entry) (sym (write_contents_files path text lines w))
        (write_new-Kept path text w.files entry)

  run_command-Kept :
      (command : CliCommand) (w : World) (entry : ℕ)
      → Kept (output_of command) w.files (run_command system command w).1.files entry
  unfolding run_command Main.init_config Main.check_config Main.init_gateway_plist
  run_command-Kept (init_config output) w entry = write_contents-Kept output _ _ w entry
  run_command-Kept (check_config config) w entry =
      elim (result_cases (Main.load_config system w.files config)) [
        | inl (c, f) ↦ rw (Main.check_config, f) (inl refl)
        | inr (e, f) ↦ rw (Main.check_config, f) (inl refl)
      ]
  run_command-Kept (init_gateway_plist label config output log_dir program) w entry =
      write_contents-Kept output _ _ w entry

  run-Kept :
      (tls : Tls E) (user now : ℕ) (config : Option PathBuf) (command : Option CliCommand)
      (w : World) (entry : ℕ)
      → Kept
          (output_of_main (arguments (record { config = config; command = command })))
          w.files
          (run system tls user now (record { config = config; command = command }) w).1.files
          entry
  unfolding run
  run-Kept tls user now (some config) (some command) w entry = inl refl
  run-Kept tls user now (some config) none w entry = inl refl
  run-Kept tls user now none none w entry = inl refl
  run-Kept tls user now none (some command) w entry = run_command-Kept command w entry

  -- No run of the program changes a file that is there, whatever its arguments and however it ends. What
  -- it makes is the file of the output that the arguments name, and that only where none was.
  pub main-Kept :
      (tls : Tls E) (user now : ℕ) (parsed : Parsed) (w : World) (entry : ℕ)
      → Kept (output_of_main parsed) w.files (main system tls user now parsed w).1.files entry
  unfolding main run
  main-Kept tls user now (usage_error message) w entry = inl refl
  main-Kept tls user now (help text) w entry = inl refl
  main-Kept tls user now (arguments cli) w entry =
      run-Kept tls user now cli.config cli.command w entry
