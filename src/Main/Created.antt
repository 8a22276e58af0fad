-- ===== src/Main/Created.antt =====
-- src/main.rs: what a command that succeeded has made.
use roused.Base.{
  ℕ, ◌≡◌, refl, ap, sym, subst, ◌∙◌, inl, inr, true, Option, none, some, List, ◌++◌, all, arith,
  Bool-cases, Option-cases,
}
use roused.Base.Path.{PathBuf, is_absolute}
use roused.Base.Result.{Result, ok, err, result_cases, bind_ok, ok_injective, map_err_ok}
use roused.Base.Text.{Text}
use roused.Base.Utf8.{as_bytes, is_scalar, from_utf8-as_bytes}
use roused.Config.{Config, from_toml}
use roused.Config.Host.Ports.{ReadsNames}
use roused.Config.Starter.{starter_config, starter_accepted}
use roused.Config.Load.{load, starter, starter_toml}
use roused.Main.{
  write_contents, load_config, starter_contents, init_config, check_config, plist_contents,
  init_gateway_plist, checked_output, or_else, current_program, default_log_dir,
}
use roused.Setup.{gateway_plist_xml}
use roused.Main.Store.{System, Files, World, put, create_new, write_new, read_to_string}

put_same : (entry : ℕ) (bytes : List ℕ) (files : Files) → put entry bytes files entry ≡ some bytes
unfolding put
put_same entry bytes files = ground arith

module _ {E : Type 0} (system : System E) where
  record Wrote (path : PathBuf) (text : Text) (before after : Files) : Type 0 where
    absent : before (system.entry_of path) ≡ none
    holds : after (system.entry_of path) ≡ some (as_bytes text)

  create_new_ok :
      (path : PathBuf) (files : Files) (u : Unit {0})
      → create_new system path files ≡ ok u
      → files (system.entry_of path) ≡ none
  unfolding create_new
  create_new_ok path files u h = elim (Option-cases (files (system.entry_of path))) [
    | inr (bytes, e) ↦ absurd (ground arith)
    | inl e ↦ elim (Option-cases (system.open_error path)) [
      | inl g ↦ e
      | inr (x, g) ↦ absurd (ground arith)
    ]
  ]

  write_new_ok :
      (path : PathBuf) (text : Text) (files : Files) (u : Unit {0})
      → (write_new system path text files).0 ≡ ok u
      → Wrote path text files (write_new system path text files).1
  unfolding write_new
  write_new_ok path text files u h = elim (result_cases (create_new system path files)) [
    | inr (e, f) ↦ absurd (ground arith)
    | inl (v, f) ↦ elim (Option-cases (system.write_error path (as_bytes text))) [
      | inr ((written, e), g) ↦ absurd (ground arith)
      | inl g ↦ record {
        absent = create_new_ok path files v f;
        holds = rw (write_new, f, g) (put_same (system.entry_of path) (as_bytes text) files);
      }
    ]
  ]

  write_contents_ok :
      (path : PathBuf) (contents : Result Text Text) (lines : List Text) (w : World) (u : Unit {0})
      → (write_contents system path contents lines w).0 ≡ ok u
      → (text : Text) × (contents ≡ ok text)
        × Wrote path text w.files (write_contents system path contents lines w).1.files
        × ((write_contents system path contents lines w).1.printed ≡ w.printed ++ lines)
  unfolding write_contents
  write_contents_ok path (err message) lines w u h = absurd (ground arith)
  write_contents_ok path (ok text) lines w u h =
      elim (result_cases (write_new system path text w.files).0) [
        | inr (e, f) ↦ absurd (ground arith)
        | inl (v, f) ↦ (
          text,
          refl,
          rw (write_contents, f) (write_new_ok path text w.files v f),
          rw (write_contents, f) refl,
        )
      ]

  read_written :
      (path : PathBuf) (text : Text) (before after : Files)
      → system.read_error path ≡ none
      → Wrote path text before after
      → all is_scalar text ≡ true
      → read_to_string system after path ≡ ok text
  unfolding read_to_string
  read_written path text before after r w s =
      rw (read_to_string, r, w.holds, from_utf8-as_bytes text s) refl

  load_written :
      (path : PathBuf) (text : Text) (before after : Files) (c : Config)
      → system.read_error path ≡ none
      → Wrote path text before after
      → all is_scalar text ≡ true
      → from_toml system.parse_authority system.from_str text ≡ ok c
      → load_config system after path ≡ ok c
  unfolding load_config load
  load_written path text before after c r w s h =
      rw (load, read_written path text before after r w s, h) refl

  starter_contents_ok :
      (text : Text)
      → starter_contents system ≡ ok text
      → (system.to_string_pretty starter ≡ ok text)
        × (c : Config) × (from_toml system.parse_authority system.from_str text ≡ ok c)
  unfolding starter_contents starter_toml
  starter_contents_ok text h = elim (result_cases (system.to_string_pretty starter)) [
    | inr (e, f) ↦ absurd (ground arith)
    | inl (t, f) ↦ elim (result_cases (from_toml system.parse_authority system.from_str t)) [
      | inr (e, g) ↦ absurd (ground arith)
      | inl (c, g) ↦
          let same : t ≡ text = ground arith in
          (
            f ∙ ap ok same,
            c,
            subst (λ u. from_toml system.parse_authority system.from_str u ≡ ok c) same g,
          )
    ]
  ]

  -- When `init-config` succeeds, there was nothing at its output before, and `check-config` of it
  -- succeeds then, if the output can be read and the toml crate writes the starter as text that UTF-8 has.
  pub init_config_checked :
      (output : PathBuf) (w : World) (u : Unit {0})
      → ((t : Text) → system.to_string_pretty starter ≡ ok t → all is_scalar t ≡ true)
      → system.read_error output ≡ none
      → (init_config system output w).0 ≡ ok u
      → (w.files (system.entry_of output) ≡ none)
        × ((check_config system output (init_config system output w).1).0 ≡ ok tt)
  unfolding init_config check_config
  init_config_checked output w u scalars readable h =
      let (text, e, wrote, p) = write_contents_ok output (starter_contents system) _ w u h in
      let (written, c, accepted) = starter_contents_ok text e in
      let loaded =
        load_written output text w.files (init_config system output w).1.files c readable wrote
          (scalars text written) accepted in
      (wrote.absent, rw (check_config, loaded) refl)

  write_contents_succeeds :
      (path : PathBuf) (text : Text) (lines : List Text) (w : World)
      → w.files (system.entry_of path) ≡ none
      → system.open_error path ≡ none
      → system.write_error path (as_bytes text) ≡ none
      → (write_contents system path (ok text) lines w).0 ≡ ok tt
  unfolding write_contents write_new create_new
  write_contents_succeeds path text lines w absent opens writes =
      rw (write_contents, write_new, create_new, absent, opens, writes) refl

  -- With crates that read names and that read back the starter as they write it, as text that UTF-8 has,
  -- `init-config` succeeds at an output where nothing is and that can be written and read; and the program
  -- loads from there the configuration of all interfaces on port 8080 with its two services.
  pub init_config-starter :
      (output : PathBuf) (text : Text) (w : World)
      → ReadsNames system.parse_authority
      → system.to_string_pretty starter ≡ ok text
      → system.from_str text ≡ ok starter
      → all is_scalar text ≡ true
      → w.files (system.entry_of output) ≡ none
      → system.open_error output ≡ none
      → system.write_error output (as_bytes text) ≡ none
      → system.read_error output ≡ none
      → ((init_config system output w).0 ≡ ok tt)
        × (load_config system (init_config system output w).1.files output ≡ ok starter_config)
  unfolding init_config starter_contents starter_toml from_toml
  init_config-starter output text w reads written read scalars absent opens writes readable =
      let accepted : from_toml system.parse_authority system.from_str text ≡ ok starter_config =
        rw read (starter_accepted system.parse_authority reads) in
      let contents : starter_contents system ≡ ok text =
        rw (starter_contents, written, accepted) refl in
      let succeeds : (init_config system output w).0 ≡ ok tt =
        rw (init_config, contents) (write_contents_succeeds output text _ w absent opens writes) in
      let (text', e, wrote, p) =
        write_contents_ok output (starter_contents system) _ w tt succeeds in
      let same : text ≡ text' = ok_injective (sym contents ∙ e) in
      (
        succeeds,
        load_written output text' w.files (init_config system output w).1.files starter_config
            readable wrote (subst (λ t. all is_scalar t ≡ true) same scalars)
            (subst (λ t. from_toml system.parse_authority system.from_str t ≡ ok starter_config)
              same accepted),
      )

  checked_output_lem :
      (output : PathBuf) (u : Unit {0})
      → checked_output system output ≡ ok u
      → is_absolute output ≡ true
  checked_output_lem output u h = elim (Bool-cases (is_absolute output)) [
    | inl e ↦ e
    | inr e ↦ absurd (ground arith)
  ]

  -- When `init-gateway-plist` succeeds, its output is absolute and nothing was there; the configuration
  -- loads; and the output now holds, as UTF-8, the gateway's property list for the label, for the program
  -- given or the running one, for the configuration, and for the log directory given or the default one.
  pub init_gateway_plist_made :
      (label : Text) (config_path output : PathBuf) (log_dir program : Option PathBuf) (w : World)
      (u : Unit {0})
      → (init_gateway_plist system label config_path output log_dir program w).0 ≡ ok u
      → (is_absolute output ≡ true)
        × (w.files (system.entry_of output) ≡ none)
        × (config : Config) × (load_config system w.files config_path ≡ ok config)
        × (program_path : PathBuf) × (or_else system program (current_program system)
            ≡ ok program_path)
        × (log_path : PathBuf) × (or_else system log_dir (default_log_dir system) ≡ ok log_path)
        × (xml : Text) × (gateway_plist_xml system.metadata label program_path config_path log_path
            ≡ ok xml)
        × ((init_gateway_plist system label config_path output log_dir program w).1.files
              (system.entry_of output)
            ≡ some (as_bytes xml))
  unfolding init_gateway_plist plist_contents
  init_gateway_plist_made label config_path output log_dir program w u h =
      let contents = plist_contents system label config_path output log_dir program w.files in
      let (xml, e, wrote, p) = write_contents_ok output contents _ w u h in
      let (u1, e1, h1) = bind_ok _ _ xml e in
      let (program_path, e2, h2) = bind_ok _ _ xml h1 in
      let (log_path, e3, h3) = bind_ok _ _ xml h2 in
      let (config, e4, h4) = bind_ok _ _ xml h3 in
      (
        checked_output_lem output u1 e1,
        wrote.absent,
        config,
        e4,
        program_path,
        e2,
        log_path,
        e3,
        xml,
        map_err_ok _ _ xml h4,
        wrote.holds,
      )
