-- ===== src/Setup/PropertyList/Weight.antt =====
-- The fuel that reading a property list takes, against the length of what is written.
use roused.Base.{
  ℕ, zero, suc, ◌+◌, ◌≤◌, ◌<◌, true, false, [], ◌∷◌, ◌++◌, arith, length, length-append,
}
use roused.Base.Text.{Text, codes, to_decimal}
use roused.Setup.PropertyList.{
  PropertyListValue, dictionary, array, string, bool, integer, Values, nil, cons, Entries, end,
  entry, write_indentation, escape, write_escaped_xml, write_xml, write_values, write_entries,
}

-- The fuel that reading the value takes.
unfoldable mutual
  pub weight : PropertyListValue → ℕ
  weight (dictionary entries) = suc (weight_entries entries)
  weight (array values) = suc (weight_values values)
  weight _ = 1

  pub weight_values : Values → ℕ
  weight_values nil = 1
  weight_values (cons value values) = suc (weight value + weight_values values)

  pub weight_entries : Entries → ℕ
  weight_entries end = 1
  weight_entries (entry key value entries) = suc (weight value + weight_entries entries)

length-indentation : (n : ℕ) (t : Text) → length t ≤ length (write_indentation n t)
unfolding write_indentation
length-indentation zero t = omega arith
length-indentation (suc n) t = omega (arith, length-indentation n t)

length-escaped : (value rest : Text) → length rest ≤ length (write_escaped_xml value rest)
unfolding write_escaped_xml
length-escaped [] rest = omega arith
length-escaped (c ∷ value) rest =
    omega
      (arith, length-append (escape c) (write_escaped_xml value rest), length-escaped value rest)

-- Each element takes more characters than fuel.
mutual
  unfolding write_xml weight

  pub weight-le :
      (v : PropertyListValue) (n : ℕ) (rest : Text)
      → weight v + length rest < length (write_xml v n rest)
  weight-le (dictionary entries) n rest =
      let inner = write_indentation n (codes "</dict>\n" ++ rest) in
      omega (
        arith,
        length-indentation n (codes "<dict>\n" ++ write_entries entries n inner),
        weight_entries-le entries n inner,
        length-indentation n (codes "</dict>\n" ++ rest),
      )
  weight-le (array values) n rest =
      let inner = write_indentation n (codes "</array>\n" ++ rest) in
      omega (
        arith,
        length-indentation n (codes "<array>\n" ++ write_values values n inner),
        weight_values-le values n inner,
        length-indentation n (codes "</array>\n" ++ rest),
      )
  weight-le (string value) n rest =
      let inner = write_escaped_xml value (codes "</string>\n" ++ rest) in
      omega (
        arith,
        length-indentation n (codes "<string>" ++ inner),
        length-escaped value (codes "</string>\n" ++ rest),
      )
  weight-le (bool true) n rest = omega (arith, length-indentation n (codes "<true/>\n" ++ rest))
  weight-le (bool false) n rest = omega (arith, length-indentation n (codes "<false/>\n" ++ rest))
  weight-le (integer value) n rest =
      let tail = codes "</integer>\n" ++ rest in
      omega (
        arith,
        length-indentation n (codes "<integer>" ++ (to_decimal value ++ tail)),
        length-append (to_decimal value) tail,
      )

  weight_values-le :
      (vs : Values) (n : ℕ) (rest : Text)
      → weight_values vs + length rest ≤ length (write_values vs n rest) + 1
  weight_values-le nil n rest = omega arith
  weight_values-le (cons v vs) n rest =
      omega (arith, weight-le v (suc n) (write_values vs n rest), weight_values-le vs n rest)

  weight_entries-le :
      (es : Entries) (n : ℕ) (rest : Text)
      → weight_entries es + length rest ≤ length (write_entries es n rest) + 1
  weight_entries-le end n rest = omega arith
  weight_entries-le (entry key v es) n rest =
      let tail = write_xml v (suc n) (write_entries es n rest) in
      let inner = write_escaped_xml key (codes "</key>\n" ++ tail) in
      omega (
        arith,
        length-indentation (suc n) (codes "<key>" ++ inner),
        length-escaped key (codes "</key>\n" ++ tail),
        weight-le v (suc n) (write_entries es n rest),
        weight_entries-le es n rest,
      )
