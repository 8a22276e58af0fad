-- ===== src/Setup/PropertyList/RoundTrip.antt =====
-- A written property list, read back.
use roused.Base.{
  ℕ, zero, suc, ◌≤◌, ◌<◌, ◌^◌, ◌≡◌, refl, ◌∙◌, true, false, some, ◌∷◌, ◌++◌, arith, length,
}
use roused.Base.Text.{Text, codes}
use roused.Setup.PropertyList.{
  PropertyListValue, dictionary, array, string, bool, integer, Values, nil, cons, Entries, end,
  entry, write_indentation, write_escaped_xml, write_xml, write_values, write_entries, xml_prefix,
  document,
}
use roused.Setup.PropertyList.Lines.{
  normalized, normalized_values, normalized_entries, normalize-write_xml,
}
use roused.Setup.PropertyList.Pieces.{
  next_tag-line, element_read, integer_read, next_tag-key, next_tag-end_array, next_tag-end_dict,
  opening, inside, next_tag-write,
}
use roused.Setup.PropertyList.Weight.{weight, weight_values, weight_entries, weight-le}
use roused.Setup.PropertyList.Reader.{
  normalize_lines, opens_key, skip_space, next_tag, ends_key, read_element, read_value, read_values,
  read_entries, read_document,
}

-- The numbers of the value are those of its type.
unfoldable mutual
  pub Fits : PropertyListValue → Type 0
  Fits (dictionary entries) = FitsEntries entries
  Fits (array values) = FitsValues values
  Fits (string value) = Unit
  Fits (bool value) = Unit
  Fits (integer value) = value < 2 ^ 64

  pub FitsValues : Values → Type 0
  FitsValues nil = Unit
  FitsValues (cons value values) = Fits value × FitsValues values

  pub FitsEntries : Entries → Type 0
  FitsEntries end = Unit
  FitsEntries (entry key value entries) = Fits value × FitsEntries entries

read_value-line : (f : ℕ) (t : Text) → read_value f (b'\n' ∷ t) ≡ read_value f t
unfolding read_value
read_value-line zero t = refl
read_value-line (suc f) t = rw (next_tag-line t) refl

values_step :
    (f : ℕ) (t t1 t2 t3 : Text) (v : PropertyListValue) (vs : Values)
    → next_tag t ≡ some (opening v, t1)
    → read_value f t ≡ some (v, t2)
    → read_values f t2 ≡ some (vs, t3)
    → read_values (suc f) t ≡ some (cons v vs, t3)
unfolding read_value opening
values_step f t t1 t2 t3 (dictionary entries) vs e r s = rw (e, r, s) refl
values_step f t t1 t2 t3 (array values) vs e r s = rw (e, r, s) refl
values_step f t t1 t2 t3 (string value) vs e r s = rw (e, r, s) refl
values_step f t t1 t2 t3 (bool true) vs e r s = rw (e, r, s) refl
values_step f t t1 t2 t3 (bool false) vs e r s = rw (e, r, s) refl
values_step f t t1 t2 t3 (integer value) vs e r s = rw (e, r, s) refl

entries_step :
    (f : ℕ) (t t1 t2 t3 t4 : Text) (key : Text) (v : PropertyListValue) (es : Entries)
    → next_tag t ≡ some (opens_key, t1)
    → read_element ends_key t1 ≡ some (key, t2)
    → read_value f t2 ≡ some (v, t3)
    → read_entries f t3 ≡ some (es, t4)
    → read_entries (suc f) t ≡ some (entry key v es, t4)
unfolding read_value
entries_step f t t1 t2 t3 t4 key v es e k r s = rw (e, k, r, s) refl

mutual
  unfolding read_value write_xml weight Fits opening inside

  read-write_xml :
      (v : PropertyListValue) (f n : ℕ) (rest : Text)
      → Fits v
      → weight v ≤ f
      → read_value f (write_xml v n rest) ≡ some (v, b'\n' ∷ rest)
  read-write_xml (dictionary entries) zero n rest h w = absurd (omega arith)
  read-write_xml (array values) zero n rest h w = absurd (omega arith)
  read-write_xml (string value) zero n rest h w = absurd (omega arith)
  read-write_xml (bool b) zero n rest h w = absurd (omega arith)
  read-write_xml (integer value) zero n rest h w = absurd (omega arith)
  read-write_xml (dictionary entries) (suc f) n rest h w =
      rw
        (
          next_tag-write (dictionary entries) n rest,
          read-write_entries entries f n rest h (omega arith),
        )
        refl
  read-write_xml (array values) (suc f) n rest h w =
      rw (next_tag-write (array values) n rest, read-write_values values f n rest h (omega arith))
        refl
  read-write_xml (string value) (suc f) n rest h w =
      rw (next_tag-write (string value) n rest, (element_read value (b'\n' ∷ rest)).0) refl
  read-write_xml (bool true) (suc f) n rest h w = rw (next_tag-write (bool true) n rest) refl
  read-write_xml (bool false) (suc f) n rest h w = rw (next_tag-write (bool false) n rest) refl
  read-write_xml (integer value) (suc f) n rest h w =
      rw (next_tag-write (integer value) n rest, integer_read value (b'\n' ∷ rest) h) refl

  read-write_values :
      (vs : Values) (f n : ℕ) (rest : Text)
      → FitsValues vs
      → weight_values vs ≤ f
      → read_values f (b'\n' ∷ write_values vs n (write_indentation n (codes "</array>\n" ++ rest)))
        ≡ some (vs, b'\n' ∷ rest)
  read-write_values nil zero n rest h w = absurd (omega arith)
  read-write_values (cons v vs) zero n rest h w = absurd (omega arith)
  read-write_values nil (suc f) n rest h w = rw (next_tag-end_array n (b'\n' ∷ rest)) refl
  read-write_values (cons v vs) (suc f) n rest h w =
      values_step f _ _ _ _ v vs
        (next_tag-line (write_xml v (suc n) _) ∙ next_tag-write v (suc n) _)
        (read_value-line f (write_xml v (suc n) _) ∙ read-write_xml v f (suc n) _ h.0 (omega arith))
        (read-write_values vs f n rest h.1 (omega arith))

  read-write_entries :
      (es : Entries) (f n : ℕ) (rest : Text)
      → FitsEntries es
      → weight_entries es ≤ f
      → read_entries f
          (b'\n' ∷ write_entries es n (write_indentation n (codes "</dict>\n" ++ rest)))
        ≡ some (es, b'\n' ∷ rest)
  read-write_entries end zero n rest h w = absurd (omega arith)
  read-write_entries (entry key v es) zero n rest h w = absurd (omega arith)
  read-write_entries end (suc f) n rest h w = rw (next_tag-end_dict n (b'\n' ∷ rest)) refl
  read-write_entries (entry key v es) (suc f) n rest h w =
      let tail =
        write_xml v (suc n)
          (write_entries es n (write_indentation n (codes "</dict>\n" ++ rest))) in
      let inner = write_escaped_xml key (codes "</key>\n" ++ tail) in
      entries_step f (b'\n' ∷ write_indentation (suc n) (codes "<key>" ++ inner)) inner
        (b'\n' ∷ tail) _ _ key v es
        (next_tag-line (write_indentation (suc n) (codes "<key>" ++ inner))
          ∙ next_tag-key (suc n) inner)
        (element_read key (b'\n' ∷ tail)).1
        (read_value-line f tail ∙ read-write_xml v f (suc n) _ h.0 (omega arith))
        (read-write_entries es f n rest h.1 (omega arith))

mutual
  unfolding Fits normalized

  normalized-Fits : (v : PropertyListValue) → Fits v → Fits (normalized v)
  normalized-Fits (dictionary entries) h = normalized_entries-Fits entries h
  normalized-Fits (array values) h = normalized_values-Fits values h
  normalized-Fits (string value) h = tt
  normalized-Fits (bool b) h = tt
  normalized-Fits (integer value) h = h

  normalized_values-Fits : (vs : Values) → FitsValues vs → FitsValues (normalized_values vs)
  normalized_values-Fits nil h = tt
  normalized_values-Fits (cons v vs) h = (normalized-Fits v h.0, normalized_values-Fits vs h.1)

  normalized_entries-Fits : (es : Entries) → FitsEntries es → FitsEntries (normalized_entries es)
  normalized_entries-Fits end h = tt
  normalized_entries-Fits (entry key v es) h =
      (normalized-Fits v h.0, normalized_entries-Fits es h.1)

-- A document that is written from a property list, whatever its strings hold, reads back as that
-- property list, with the line ends of its strings normalized.
pub read-document :
    (v : PropertyListValue) → Fits v → read_document xml_prefix (document v) ≡ some (normalized v)
unfolding read_document xml_prefix document skip_space normalize_lines
read-document v h =
    let body = write_xml (normalized v) 0 (codes "</plist>\n") in
    let norm : normalize_lines false (write_xml v 0 (codes "</plist>\n")) ≡ body =
      normalize-write_xml v 0 (codes "</plist>\n") in
    rw
      (
        norm,
        read-write_xml (normalized v) (length body) 0 (codes "</plist>\n") (normalized-Fits v h)
            (omega (arith, weight-le (normalized v) 0 (codes "</plist>\n"))),
      )
      refl
