-- ===== src/Setup/Tests.antt =====
-- src/setup.rs: property lists of concrete arguments.
use roused.Base.{◌≡◌, refl, true, false, some, [], ◌∷◌, ◌↔◌, Bool, arith}
use roused.Base.Result.{Result, ok, err}
use roused.Base.Text.{Text, codes}
use roused.Config.Label.{valid_launchd_label}
use roused.Setup.{
  PathBuf, utf8, not_utf8, SetupError, invalid_label, path_not_absolute, path_not_utf8,
  invalid_xml_character, log_directory_unavailable, log_directory_not_directory, gateway_plist_xml,
  gateway_plist, is_xml_1_0_character, join,
}
use roused.Setup.Accepted.{Accepts, accepted_plist, gateway_plist_xml_iff}
use roused.Setup.Messages.{setup_message, to_hex}
use roused.Setup.PropertyList.{
  PropertyListValue, dictionary, array, string, bool, integer, nil, cons, end, entry, document,
  xml_prefix, write_xml,
}
use roused.Setup.PropertyList.Lines.{normalized}
use roused.Setup.PropertyList.Reader.{read_document}
use roused.Setup.PropertyList.RoundTrip.{read-document, Fits}
use roused.Setup.Written.{expected_plist, plist_read}

-- The paths that are texts are directories; a path of no bytes is a file, another path is not there.
unfoldable metadata : PathBuf → Result Text Bool
metadata (utf8 t) = ok true
metadata (not_utf8 []) = ok false
metadata (not_utf8 (b ∷ bytes)) = err (codes "not found")

abbrev sample : PropertyListValue
sample = dictionary (
    entry (codes "a&b") (array (cons (string (codes "<\r\n>")) (cons (bool false) nil)))
      (entry (codes "n") (integer 30) end))

read-document_example :
    read_document xml_prefix (document sample)
    ≡ some (
        dictionary (
          entry
            (codes "a&b")
            (array (cons (string (codes "<\n>")) (cons (bool false) nil)))
            (entry (codes "n") (integer 30) end)))
unfolding Fits normalized
read-document_example = read-document sample ((tt, (tt, tt)), (omega arith, tt))

written :
    write_xml (array (cons (string (codes "k'\"")) nil)) 1 []
    ≡ codes "  <array>\n    <string>k&apos;&quot;</string>\n  </array>\n"
unfolding write_xml
written = refl

abbrev label : Text
label = codes "net.example.&<>\"'"

abbrev program : Text
program = codes "/Applications/Roused & <Tools>/roused\"'"

abbrev config : Text
config = codes "/Users/example/roused.toml"

abbrev log_dir : Text
log_dir = codes "/tmp"

Accepts-sample :
    Accepts metadata label (utf8 program) (utf8 config) (utf8 log_dir) program config log_dir
unfolding metadata valid_launchd_label is_xml_1_0_character
Accepts-sample = record {
  valid_label = refl;
  xml_label = refl;
  names_program = record { text = refl; absolute = refl; xml = refl };
  names_config = record { text = refl; absolute = refl; xml = refl };
  names_log_dir = record { text = refl; absolute = refl; xml = refl };
  is_directory = refl;
}

made :
    gateway_plist_xml metadata label (utf8 program) (utf8 config) (utf8 log_dir)
    ≡ ok (document (accepted_plist label program config log_dir))
unfolding gateway_plist_xml valid_launchd_label metadata
made = refl

gateway_plist_xml_iff_example :
    (gateway_plist_xml metadata label (utf8 program) (utf8 config) (utf8 log_dir)
      ≡ ok (document (accepted_plist label program config log_dir)))
    ↔ ((p : Text) × (c : Text) × (d : Text) × Accepts metadata label
          (utf8 program)
          (utf8 config)
          (utf8 log_dir)
          p
          c
          d
        × (document (accepted_plist label program config log_dir)
            ≡ document (accepted_plist label p c d)))
gateway_plist_xml_iff_example =
    gateway_plist_xml_iff metadata label (document (accepted_plist label program config log_dir))
      (utf8 program) (utf8 config) (utf8 log_dir)

plist_read_example :
    read_document xml_prefix (document (accepted_plist label program config log_dir))
    ≡ some (expected_plist label program config log_dir)
plist_read_example =
    plist_read metadata label (document (accepted_plist label program config log_dir)) program
      config log_dir made refl refl refl

bad_label :
    gateway_plist_xml metadata (codes "bad label") (utf8 program) (utf8 config) (utf8 log_dir)
    ≡ err invalid_label
unfolding gateway_plist_xml valid_launchd_label
bad_label = refl

relative :
    gateway_plist_xml metadata label (utf8 program) (utf8 (codes "a.toml")) (utf8 log_dir)
    ≡ err (path_not_absolute (codes "configuration") (utf8 (codes "a.toml")))
unfolding gateway_plist_xml valid_launchd_label
relative = refl

bad_character :
    gateway_plist_xml metadata label (utf8 program) (utf8 (codes "/a\u{1}")) (utf8 log_dir)
    ≡ err (invalid_xml_character (codes "configuration") 1)
unfolding gateway_plist_xml valid_launchd_label
bad_character = refl

no_utf8 :
    gateway_plist_xml metadata label (not_utf8 (b'/' ∷ 0xff ∷ [])) (utf8 config) (utf8 log_dir)
    ≡ err (path_not_utf8 (codes "program") (not_utf8 (b'/' ∷ 0xff ∷ [])))
unfolding gateway_plist_xml valid_launchd_label
no_utf8 = refl

message :
    setup_message {Io = Text}
      (λ b. [])
      (λ e. e)
      (invalid_xml_character (codes "configuration") 0xfffe)
    ≡ codes "configuration contains an XML 1.0-incompatible character (U+FFFE)"
unfolding setup_message
message = refl

short_hex : to_hex 1 ≡ codes "0001"
unfolding roused.Setup.Messages.hex_onto
short_hex = refl

joined : join (codes "/tmp/") (codes "a.log") ≡ codes "/tmp/a.log"
unfolding join
joined = refl
