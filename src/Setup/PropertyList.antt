-- ===== src/Setup/PropertyList.antt =====
-- src/setup.rs, `PropertyListValue` and how it is written as XML. `output.push_str` appends; a function
-- here gives the text that the source appends, in front of the `rest` that is appended after it.
pub mod Reader
pub mod Lines
pub mod Pieces
pub mod Weight
pub mod RoundTrip
use roused.Base.{ℕ, zero, suc, Bool, true, false, List, [], ◌∷◌, ◌++◌, ◌==◌, if◌then◌else◌}
use roused.Base.Text.{Text, codes, to_decimal}

-- `Vec`s of values and of entries are lists of their own here.
mutual
  pub data PropertyListValue : Type 0 where
    dictionary : Entries → PropertyListValue
    array : Values → PropertyListValue
    string : Text → PropertyListValue
    bool : Bool → PropertyListValue
    integer : ℕ → PropertyListValue

  pub data Values : Type 0 where
    nil : Values
    cons : PropertyListValue → Values → Values

  pub data Entries : Type 0 where
    end : Entries
    entry : Text → PropertyListValue → Entries → Entries

unfoldable pub write_indentation : ℕ → Text → Text
write_indentation zero rest = rest
write_indentation (suc n) rest = b' ' ∷ b' ' ∷ write_indentation n rest

unfoldable pub escape : ℕ → Text
escape character =
    if character == b'&'
    then codes "&amp;"
    else if character == b'<'
    then codes "&lt;"
    else if character == b'>'
    then codes "&gt;"
    else if character == b'"'
    then codes "&quot;"
    else if character == b'\''
    then codes "&apos;"
    else character ∷ []

unfoldable pub write_escaped_xml : Text → Text → Text
unfolding escape
write_escaped_xml [] rest = rest
write_escaped_xml (character ∷ value) rest = escape character ++ write_escaped_xml value rest

unfoldable mutual
  unfolding write_indentation write_escaped_xml

  pub write_xml : PropertyListValue → ℕ → Text → Text
  write_xml (dictionary entries) indentation rest = write_indentation indentation (
      codes "<dict>\n"
      ++ write_entries entries indentation
          (write_indentation indentation (codes "</dict>\n" ++ rest)))
  write_xml (array values) indentation rest = write_indentation indentation (
      codes "<array>\n"
      ++ write_values values indentation
          (write_indentation indentation (codes "</array>\n" ++ rest)))
  write_xml (string value) indentation rest =
      write_indentation indentation
        (codes "<string>" ++ write_escaped_xml value (codes "</string>\n" ++ rest))
  write_xml (bool true) indentation rest = write_indentation indentation (codes "<true/>\n" ++ rest)
  write_xml (bool false) indentation rest =
      write_indentation indentation (codes "<false/>\n" ++ rest)
  write_xml (integer value) indentation rest =
      write_indentation indentation
        (codes "<integer>" ++ (to_decimal value ++ (codes "</integer>\n" ++ rest)))

  pub write_values : Values → ℕ → Text → Text
  write_values nil indentation rest = rest
  write_values (cons value values) indentation rest =
      write_xml value (suc indentation) (write_values values indentation rest)

  pub write_entries : Entries → ℕ → Text → Text
  write_entries end indentation rest = rest
  write_entries (entry key value entries) indentation rest = write_indentation (suc indentation) (
      codes "<key>"
      ++ write_escaped_xml key (
          codes "</key>\n"
          ++ write_xml value (suc indentation) (write_entries entries indentation rest)))

-- `XML_PREFIX`.
unfoldable pub xml_prefix : Text
xml_prefix =
    codes "<?xml version=\"1.0\" encoding=\"UTF-8\"?>\n"
    ++ (codes
          "<!DOCTYPE plist PUBLIC \"-//Apple//DTD PLIST 1.0//EN\" \"http://www.apple.com/DTDs/PropertyList-1.0.dtd\">\n"
        ++ codes "<plist version=\"1.0\">\n")

-- The document of a property list, as `gateway_plist_xml` puts it together.
unfoldable pub document : PropertyListValue → Text
unfolding xml_prefix write_xml
document plist = xml_prefix ++ write_xml plist 0 (codes "</plist>\n")
