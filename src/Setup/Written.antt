-- ===== src/Setup/Written.antt =====
-- src/setup.rs: what a reader of the generated property list finds.
use roused.Base.{
  ◌≡◌, refl, sym, ap, ◌∙◌, Bool, true, false, not, [], ◌∷◌, ◌++◌, ◌==◌, all, arith, Bool-cases, inl,
  inr, some, ◌||◌, ◌&&◌, if◌then◌else◌,
}
use roused.Base.Result.{Result, ok}
use roused.Base.Text.{Text, codes, starts_with, ends_with, is_empty}
use roused.Config.Label.{valid_launchd_label, is_control, is_whitespace}
use roused.Setup.{
  PathBuf, utf8, join, gateway_plist, gateway_plist_xml, stdout_log_path, stderr_log_path,
}
use roused.Setup.Accepted.{accepted_plist, accepts}
use roused.Setup.PropertyList.{
  PropertyListValue, dictionary, array, string, bool, integer, nil, cons, end, entry, document,
  xml_prefix,
}
use roused.Setup.PropertyList.Lines.{normalized}
use roused.Setup.PropertyList.Reader.{normalize_lines, read_document}
use roused.Setup.PropertyList.RoundTrip.{read-document, Fits}

-- A text without carriage returns.
abbrev pub HasNoReturn : Text → Type 0
HasNoReturn t = all (λ c. not (c == b'\r')) t ≡ true

HasNoReturn-normalize : (t : Text) → HasNoReturn t → normalize_lines false t ≡ t
unfolding normalize_lines
HasNoReturn-normalize [] h = refl
HasNoReturn-normalize (c ∷ t) h = ground (arith, HasNoReturn-normalize t)

HasNoReturn-append : (t u : Text) → HasNoReturn t → HasNoReturn u → HasNoReturn (t ++ u)
HasNoReturn-append [] u h k = k
HasNoReturn-append (c ∷ t) u h k = ground (arith, HasNoReturn-append t u)

HasNoReturn-join : (d n : Text) → HasNoReturn d → HasNoReturn n → HasNoReturn (join d n)
unfolding join
HasNoReturn-join d n h k = elim (Bool-cases (starts_with b'/' n)) [
  | inl b ↦ rw b k
  | inr b ↦ elim (Bool-cases (is_empty d || ends_with b'/' d)) [
    | inl e ↦ rw (b, e) (HasNoReturn-append d n h k)
    | inr e ↦ rw (b, e) (HasNoReturn-append d (b'/' ∷ n) h k)
  ]
]

HasNoReturn-label :
    (t : Text)
    → all (λ c. not (c == b'/') && (not (is_control c) && not (is_whitespace c))) t ≡ true
    → HasNoReturn t
unfolding is_control is_whitespace
HasNoReturn-label [] h = refl
HasNoReturn-label (c ∷ t) h = ground (arith, HasNoReturn-label t)

HasNoReturn-plist :
    (label program config log_dir : Text)
    → HasNoReturn label
    → HasNoReturn program
    → HasNoReturn config
    → HasNoReturn log_dir
    → normalized (accepted_plist label program config log_dir)
      ≡ accepted_plist label program config log_dir
unfolding normalized gateway_plist normalize_lines
HasNoReturn-plist label program config log_dir l p c d =
    let out =
      HasNoReturn-join log_dir _ d (HasNoReturn-append label (codes ".stdout.log") l refl) in
    let error =
      HasNoReturn-join log_dir _ d (HasNoReturn-append label (codes ".stderr.log") l refl) in
    rw
      (
        HasNoReturn-normalize label l,
        HasNoReturn-normalize program p,
        HasNoReturn-normalize config c,
        HasNoReturn-normalize (stdout_log_path label log_dir) out,
        HasNoReturn-normalize (stderr_log_path label log_dir) error,
      )
      refl

-- A file of the directory.
abbrev pub file_in : Text → Text → Text
file_in directory name =
    if ends_with b'/' directory then directory ++ name else directory ++ b'/' ∷ name

-- The property list that launchd is to have: it runs the program with the configuration as its one
-- argument, from its load on and again whenever it ends, waits 30 seconds for its end, and logs to two
-- files of the log directory that are named by the label.
abbrev pub expected_plist : Text → Text → Text → Text → PropertyListValue
expected_plist label program config log_dir = dictionary (
    entry (codes "Label") (string label) (
      entry (codes "ProgramArguments") (array (cons (string program) (cons (string config) nil))) (
        entry (codes "RunAtLoad") (bool true) (
          entry (codes "KeepAlive") (bool true) (
            entry (codes "ExitTimeOut") (integer 30) (
              entry (codes "StandardOutPath")
                (string (file_in log_dir (label ++ codes ".stdout.log")))
                (entry (codes "StandardErrorPath")
                  (string (file_in log_dir (label ++ codes ".stderr.log"))) end)))))))

join-file_in :
    (d n : Text) → starts_with b'/' d ≡ true → starts_with b'/' n ≡ false → join d n ≡ file_in d n
unfolding join
join-file_in [] n h k = absurd (ground arith)
join-file_in (c ∷ d) n h k = rw k refl

label_start :
    (label suffix : Text)
    → starts_with b'/' suffix ≡ false
    → all (λ c. not (c == b'/') && (not (is_control c) && not (is_whitespace c))) label ≡ true
    → starts_with b'/' (label ++ suffix) ≡ false
label_start [] suffix h k = h
label_start (c ∷ label) suffix h k = ground arith

accepted-expected :
    (label program config log_dir : Text)
    → starts_with b'/' log_dir ≡ true
    → all (λ c. not (c == b'/') && (not (is_control c) && not (is_whitespace c))) label ≡ true
    → accepted_plist label program config log_dir ≡ expected_plist label program config log_dir
unfolding gateway_plist
accepted-expected label program config log_dir h k =
    rw
      (
        join-file_in log_dir _ h (label_start label (codes ".stdout.log") refl k),
        join-file_in log_dir _ h (label_start label (codes ".stderr.log") refl k),
      )
      refl

utf8_injective : {t u : Text} → utf8 t ≡ utf8 u → t ≡ u
utf8_injective h = cc

-- When the gateway's property list is made for paths that are texts without carriage returns, a reader
-- that follows XML finds in it, in this order, the label; the program and the configuration as the
-- command; that it is loaded at once and kept alive, with 30 seconds to end; and as its log files those
-- named by the label, with `.stdout.log` and `.stderr.log`, in the log directory.
pub plist_read :
    {Io : Type 0} (metadata : PathBuf → Result Io Bool) (label xml program config log_dir : Text)
    → gateway_plist_xml metadata label (utf8 program) (utf8 config) (utf8 log_dir) ≡ ok xml
    → HasNoReturn program
    → HasNoReturn config
    → HasNoReturn log_dir
    → read_document xml_prefix xml ≡ some (expected_plist label program config log_dir)
unfolding valid_launchd_label gateway_plist Fits
plist_read metadata label xml program config log_dir h p c d =
    let (program', config', log_dir', a, e) =
      accepts metadata label xml (utf8 program) (utf8 config) (utf8 log_dir) h in
    let names : all (λ c. not (c == b'/') && (not (is_control c) && not (is_whitespace c))) label
        ≡ true =
      ground arith in
    let l = HasNoReturn-label label names in
    let same_program : program' ≡ program = utf8_injective (sym a.names_program.text) in
    let same_config : config' ≡ config = utf8_injective (sym a.names_config.text) in
    let same_log_dir : log_dir' ≡ log_dir = utf8_injective (sym a.names_log_dir.text) in
    let absolute : starts_with b'/' log_dir ≡ true = rw (← same_log_dir) a.names_log_dir.absolute in
    let same : xml ≡ document (accepted_plist label program config log_dir) = cc in
    ap (read_document xml_prefix) same
    ∙ read-document (accepted_plist label program config log_dir)
        (tt, ((tt, (tt, tt)), (tt, (tt, (omega arith, (tt, (tt, tt)))))))
    ∙ ap some (HasNoReturn-plist label program config log_dir l p c d)
    ∙ ap some (accepted-expected label program config log_dir absolute names)
