-- ===== src/Setup/PropertyList/Lines.antt =====
-- The normalization of line ends on a written property list: only the strings have any to normalize.
use roused.Base.{ℕ, zero, suc, ◌≡◌, refl, ap, ◌∙◌, Bool, true, false, [], ◌∷◌, ◌++◌, arith, all}
use roused.Base.Text.{Text, codes, to_decimal, is_ascii_digit}
use roused.Net.Parse.Decimal.{decimal_digits}
use roused.Setup.PropertyList.{
  PropertyListValue, dictionary, array, string, bool, integer, Values, nil, cons, Entries, end,
  entry, write_indentation, escape, write_escaped_xml, write_xml, write_values, write_entries,
}
use roused.Setup.PropertyList.Reader.{normalize_lines}

-- The value with the line ends of its strings and keys normalized.
unfoldable mutual
  unfolding normalize_lines

  pub normalized : PropertyListValue → PropertyListValue
  normalized (dictionary entries) = dictionary (normalized_entries entries)
  normalized (array values) = array (normalized_values values)
  normalized (string value) = string (normalize_lines false value)
  normalized (bool value) = bool value
  normalized (integer value) = integer value

  pub normalized_values : Values → Values
  normalized_values nil = nil
  normalized_values (cons value values) = cons (normalized value) (normalized_values values)

  pub normalized_entries : Entries → Entries
  normalized_entries end = end
  normalized_entries (entry key value entries) =
      entry (normalize_lines false key) (normalized value) (normalized_entries entries)

normalize_escaped :
    (after : Bool) (value rest : Text)
    → normalize_lines after (write_escaped_xml value (b'<' ∷ rest))
      ≡ write_escaped_xml (normalize_lines after value) (b'<' ∷ normalize_lines false rest)
unfolding normalize_lines write_escaped_xml escape
normalize_escaped after [] rest = ground arith
normalize_escaped after (c ∷ value) rest =
    ground (arith, normalize_escaped true value rest, normalize_escaped false value rest)

normalize_indentation :
    (n : ℕ) (rest : Text)
    → normalize_lines false (write_indentation n rest)
      ≡ write_indentation n (normalize_lines false rest)
unfolding normalize_lines write_indentation
normalize_indentation zero rest = refl
normalize_indentation (suc n) rest = ap (λ t. b' ' ∷ b' ' ∷ t) (normalize_indentation n rest)

normalize_digits :
    (digits rest : Text)
    → all is_ascii_digit digits ≡ true
    → normalize_lines false (digits ++ rest) ≡ digits ++ normalize_lines false rest
unfolding normalize_lines
normalize_digits [] rest h = refl
normalize_digits (c ∷ digits) rest h = ground (arith, normalize_digits digits rest)

mutual
  unfolding write_xml normalized normalize_lines

  pub normalize-write_xml :
      (v : PropertyListValue) (n : ℕ) (rest : Text)
      → normalize_lines false (write_xml v n rest)
        ≡ write_xml (normalized v) n (normalize_lines false rest)
  normalize-write_xml (dictionary entries) n rest =
      normalize_indentation n _
      ∙ ap (λ t. write_indentation n (codes "<dict>\n" ++ t))
          (normalize-write_entries entries n (write_indentation n (codes "</dict>\n" ++ rest))
            ∙ ap (write_entries (normalized_entries entries) n) (normalize_indentation n _))
  normalize-write_xml (array values) n rest =
      normalize_indentation n _
      ∙ ap (λ t. write_indentation n (codes "<array>\n" ++ t))
          (normalize-write_values values n (write_indentation n (codes "</array>\n" ++ rest))
            ∙ ap (write_values (normalized_values values) n) (normalize_indentation n _))
  normalize-write_xml (string value) n rest =
      normalize_indentation n _
      ∙ ap (λ t. write_indentation n (codes "<string>" ++ t)) (normalize_escaped false value _)
  normalize-write_xml (bool true) n rest = normalize_indentation n _
  normalize-write_xml (bool false) n rest = normalize_indentation n _
  normalize-write_xml (integer value) n rest =
      normalize_indentation n _
      ∙ ap (λ t. write_indentation n (codes "<integer>" ++ t))
          (normalize_digits (to_decimal value) _ (decimal_digits value))

  normalize-write_values :
      (vs : Values) (n : ℕ) (rest : Text)
      → normalize_lines false (write_values vs n rest)
        ≡ write_values (normalized_values vs) n (normalize_lines false rest)
  normalize-write_values nil n rest = refl
  normalize-write_values (cons value values) n rest =
      normalize-write_xml value (suc n) (write_values values n rest)
      ∙ ap (write_xml (normalized value) (suc n)) (normalize-write_values values n rest)

  normalize-write_entries :
      (es : Entries) (n : ℕ) (rest : Text)
      → normalize_lines false (write_entries es n rest)
        ≡ write_entries (normalized_entries es) n (normalize_lines false rest)
  normalize-write_entries end n rest = refl
  normalize-write_entries (entry key value entries) n rest =
      normalize_indentation (suc n) _
      ∙ ap (λ t. write_indentation (suc n) (codes "<key>" ++ t))
          (normalize_escaped false key _
            ∙ ap (λ t. write_escaped_xml (normalize_lines false key) (codes "</key>\n" ++ t))
                (normalize-write_xml value (suc n) (write_entries entries n rest)
                  ∙ ap (write_xml (normalized value) (suc n))
                      (normalize-write_entries entries n rest)))
