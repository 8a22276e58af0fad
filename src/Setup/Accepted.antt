-- ===== src/Setup/Accepted.antt =====
-- src/setup.rs, `gateway_plist_xml`: when it gives a property list, and which.
use roused.Base.{
  ◌↔◌, ◌≡◌, refl, sym, ap, ◌∙◌, subst, Bool, true, not, ◌||◌, none, [], ◌∷◌, ◌++◌, all, arith,
  Bool-cases, Option-cases, inl, inr,
}
use roused.Base.Result.{Result, ok, result_cases, bind_ok, ok_injective}
use roused.Base.Text.{Text, codes, is_empty, starts_with, ends_with}
use roused.Config.Label.{valid_launchd_label}
use roused.Setup.{
  PathBuf, utf8, not_utf8, join, is_xml_1_0_character, find, gateway_plist, validate_xml_string,
  validated_path, check_log_dir, gateway_plist_xml, plist_xml, stdout_log_path, stderr_log_path,
  checked_label,
}
use roused.Setup.PropertyList.{PropertyListValue, document}

-- A text that XML 1.0 can hold.
abbrev pub IsXml : Text → Type 0
IsXml t = all is_xml_1_0_character t ≡ true

-- A path that can stand in the property list, as text `t`.
pub record IsNamed (path : PathBuf) (t : Text) : Type 0 where
  pub text : path ≡ utf8 t
  pub absolute : starts_with b'/' t ≡ true
  pub xml : IsXml t

find-IsXml : (t : Text) → IsXml t → find (λ c. not (is_xml_1_0_character c)) t ≡ none
unfolding find
find-IsXml [] h = refl
find-IsXml (c ∷ t) h = ground (arith, find-IsXml t)

IsXml-find : (t : Text) → find (λ c. not (is_xml_1_0_character c)) t ≡ none → IsXml t
unfolding find
IsXml-find [] h = refl
IsXml-find (c ∷ t) h = ground (arith, IsXml-find t)

IsXml-append : (t u : Text) → IsXml t → IsXml u → IsXml (t ++ u)
IsXml-append [] u h k = k
IsXml-append (c ∷ t) u h k = ground (arith, IsXml-append t u)

slash-IsXml : (n : Text) → IsXml n → IsXml (b'/' ∷ n)
unfolding is_xml_1_0_character
slash-IsXml n h = h

IsXml-join : (d n : Text) → IsXml d → IsXml n → IsXml (join d n)
unfolding join
IsXml-join d n h k = elim (Bool-cases (starts_with b'/' n)) [
  | inl b ↦ rw b k
  | inr b ↦ elim (Bool-cases (is_empty d || ends_with b'/' d)) [
    | inl e ↦ rw (b, e) (IsXml-append d n h k)
    | inr e ↦ rw (b, e) (IsXml-append d (b'/' ∷ n) h (slash-IsXml n k))
  ]
]

starts_with-join : (d n : Text) → starts_with b'/' d ≡ true → starts_with b'/' (join d n) ≡ true
unfolding join
starts_with-join [] n h = cc
starts_with-join (c ∷ d) n h = ground arith

log_IsNamed :
    (label log_dir suffix : Text)
    → IsXml label
    → IsXml suffix
    → starts_with b'/' log_dir ≡ true
    → IsXml log_dir
    → IsNamed (utf8 (join log_dir (label ++ suffix))) (join log_dir (label ++ suffix))
log_IsNamed label log_dir suffix l s a d = record {
  text = refl;
  absolute = starts_with-join log_dir (label ++ suffix) a;
  xml = IsXml-join log_dir (label ++ suffix) d (IsXml-append label suffix l s);
}

-- The property list of an accepted set of texts.
abbrev pub accepted_plist : Text → Text → Text → Text → PropertyListValue
accepted_plist label program config log_dir =
    gateway_plist label program config (stdout_log_path label log_dir)
      (stderr_log_path label log_dir)

module _ {Io : Type 0} where
  validate_xml_string-IsXml :
      (name t : Text) → IsXml t → validate_xml_string {Io = Io} name t ≡ ok tt
  unfolding validate_xml_string
  validate_xml_string-IsXml name t h = rw (validate_xml_string, find-IsXml t h) refl

  IsXml-validate :
      (name t : Text) (u : Unit {0}) → validate_xml_string {Io = Io} name t ≡ ok u → IsXml t
  unfolding validate_xml_string
  IsXml-validate name t u h = elim (Option-cases (find (λ c. not (is_xml_1_0_character c)) t)) [
    | inl e ↦ IsXml-find t e
    | inr (c, e) ↦ absurd (ground arith)
  ]

  validated_path-IsNamed :
      (name t : Text) (path : PathBuf) → IsNamed path t → validated_path {Io = Io} name path ≡ ok t
  unfolding validated_path
  validated_path-IsNamed name t path n =
      rw (n.text, n.absolute, validate_xml_string-IsXml name t n.xml) refl

  IsNamed-validated_path :
      (name t : Text) (path : PathBuf) → validated_path {Io = Io} name path ≡ ok t → IsNamed path t
  unfolding validated_path
  IsNamed-validated_path name t (utf8 u) h = elim (Bool-cases (starts_with b'/' u)) [
    | inr b ↦ absurd (ground arith)
    | inl b ↦ elim (result_cases (validate_xml_string {Io = Io} name u)) [
      | inr (e, f) ↦ absurd (ground arith)
      | inl (v, f) ↦
          let same : u ≡ t = ground arith in
          record {
            text = ap utf8 same;
            absolute = subst (λ (w : Text). starts_with b'/' w ≡ true) same b;
            xml = subst IsXml same (IsXml-validate name u v f);
          }
    ]
  ]
  IsNamed-validated_path name t (not_utf8 bytes) h = absurd (ground arith)

  -- The conditions on the arguments, with the texts of the paths.
  pub record Accepts (metadata : PathBuf → Result Io Bool) (label : Text)
      (program_path config_path log_path : PathBuf) (program config log_dir : Text) : Type 0 where
    pub valid_label : valid_launchd_label label ≡ true
    pub xml_label : IsXml label
    pub names_program : IsNamed program_path program
    pub names_config : IsNamed config_path config
    pub names_log_dir : IsNamed log_path log_dir
    pub is_directory : metadata log_path ≡ ok true

  checked_label_lem :
      (label : Text) (u : Unit {0})
      → checked_label {Io = Io} label ≡ ok u
      → valid_launchd_label label ≡ true
  checked_label_lem label u h = ground arith

  check_log_dir_lem :
      (metadata : PathBuf → Result Io Bool) (path : PathBuf) (u : Unit {0})
      → check_log_dir metadata path ≡ ok u
      → metadata path ≡ ok true
  unfolding check_log_dir
  check_log_dir_lem metadata path u h = elim (result_cases (metadata path)) [
    | inr (e, f) ↦ absurd (ground arith)
    | inl (b, f) ↦ ground arith
  ]

  plist_xml_lem :
      (label program config log_dir : Text)
      → IsXml label
      → starts_with b'/' log_dir ≡ true
      → IsXml log_dir
      → plist_xml {Io = Io} label program config log_dir
        ≡ ok (document (accepted_plist label program config log_dir))
  unfolding plist_xml is_xml_1_0_character
  plist_xml_lem label program config log_dir l a d =
      rw
        (
          validated_path-IsNamed (codes "standard output log") _ _
              (log_IsNamed label log_dir (codes ".stdout.log") l refl a d),
          validated_path-IsNamed (codes "standard error log") _ _
              (log_IsNamed label log_dir (codes ".stderr.log") l refl a d),
        )
        refl

  is_directory_check :
      (metadata : PathBuf → Result Io Bool) (path : PathBuf)
      → metadata path ≡ ok true
      → check_log_dir metadata path ≡ ok tt
  unfolding check_log_dir
  is_directory_check metadata path h = rw (check_log_dir, h) refl

  pub accepts :
      (metadata : PathBuf → Result Io Bool) (label xml : Text)
      (program_path config_path log_path : PathBuf)
      → gateway_plist_xml metadata label program_path config_path log_path ≡ ok xml
      → (program : Text) × (config : Text) × (log_dir : Text) × Accepts metadata label program_path
          config_path log_path program config log_dir
        × (xml ≡ document (accepted_plist label program config log_dir))
  unfolding gateway_plist_xml
  accepts metadata label xml program_path config_path log_path h =
      let (u1, e1, h1) = bind_ok _ _ xml h in
      let (u2, e2, h2) = bind_ok _ _ xml h1 in
      let (program, e3, h3) = bind_ok _ _ xml h2 in
      let (config, e4, h4) = bind_ok _ _ xml h3 in
      let (log_dir, e5, h5) = bind_ok _ _ xml h4 in
      let (u6, e6, h6) = bind_ok _ _ xml h5 in
      let n = IsNamed-validated_path (codes "log directory") log_dir log_path e5 in
      let l = IsXml-validate (codes "launchd label") label u2 e2 in
      (
        program,
        config,
        log_dir,
        record {
          valid_label = checked_label_lem label u1 e1;
          xml_label = l;
          names_program = IsNamed-validated_path (codes "program") program program_path e3;
          names_config = IsNamed-validated_path (codes "configuration") config config_path e4;
          names_log_dir = n;
          is_directory = check_log_dir_lem metadata log_path u6 e6;
        },
        ok_injective (sym h6 ∙ plist_xml_lem label program config log_dir l n.absolute n.xml),
      )

  accepted :
      (metadata : PathBuf → Result Io Bool) (label : Text)
      (program_path config_path log_path : PathBuf) (program config log_dir : Text)
      → Accepts metadata label program_path config_path log_path program config log_dir
      → gateway_plist_xml metadata label program_path config_path log_path
        ≡ ok (document (accepted_plist label program config log_dir))
  unfolding gateway_plist_xml
  accepted metadata label program_path config_path log_path program config log_dir a =
      let directory : check_log_dir metadata log_path ≡ ok tt =
        is_directory_check metadata log_path a.is_directory in
      rw
        (
          a.valid_label,
          validate_xml_string-IsXml (codes "launchd label") label a.xml_label,
          validated_path-IsNamed (codes "program") program program_path a.names_program,
          validated_path-IsNamed (codes "configuration") config config_path a.names_config,
          validated_path-IsNamed (codes "log directory") log_dir log_path a.names_log_dir,
          directory,
        )
        (plist_xml_lem label program config log_dir a.xml_label a.names_log_dir.absolute
          a.names_log_dir.xml)

  -- The gateway's property list is made exactly for a valid label that XML can hold, for absolute
  -- paths that are texts that XML can hold, and for a log directory that is there and is one; and then
  -- it is the document of the one property list for these texts. No other check can fail.
  pub gateway_plist_xml_iff :
      (metadata : PathBuf → Result Io Bool) (label xml : Text)
      (program_path config_path log_path : PathBuf)
      → (gateway_plist_xml metadata label program_path config_path log_path ≡ ok xml) ↔ (
          (program : Text) × (config : Text) × (log_dir : Text) × Accepts metadata label
            program_path config_path log_path program config log_dir
          × (xml ≡ document (accepted_plist label program config log_dir)))
  gateway_plist_xml_iff metadata label xml program_path config_path log_path = (
    accepts metadata label xml program_path config_path log_path,
    λ (program, config, log_dir, a, e).
        accepted metadata label program_path config_path log_path program config log_dir a
        ∙ ap ok (sym e),
  )
