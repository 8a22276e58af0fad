-- ===== src/Setup/PropertyList/Pieces.antt =====
-- Pieces of a written property list, read back: escaped texts, numbers and tags, with any `rest`.
use mathlib.Core.List.{append_assoc}
use roused.Base.{
  ℕ, zero, suc, ◌+◌, ◌<◌, ◌^◌, ◌≡◌, refl, sym, ap, ◌∙◌, true, false, none, some, [], ◌∷◌, ◌++◌,
  ◌==◌, arith, Bool-cases, inl, inr, ltb, ◌/◌, ◌%◌,
}
use roused.Base.Text.{Text, codes, to_decimal, digits_onto, text_eq}
use roused.Net.Parse.{to_digit, read_digits, read_number}
use roused.Net.Parse.Decimal.{read_printed}
use roused.Setup.PropertyList.{
  PropertyListValue, dictionary, array, string, bool, integer, write_indentation, escape,
  write_escaped_xml, write_xml, write_values, write_entries,
}
use roused.Setup.PropertyList.Reader.{
  Tag, opens_dict, closes_dict, opens_array, closes_array, opens_string, opens_key, opens_integer,
  is_true, is_false, skip_space, to_close, read_tag, next_tag, decode, read_text, ends_string,
  ends_key, expect, read_element, read_integer,
}

read-escape :
    (c : ℕ) (t value rest : Text)
    → read_text none t ≡ some (value, rest)
    → read_text none (escape c ++ t) ≡ some (c ∷ value, rest)
unfolding read_text escape text_eq decode
read-escape c t value rest h = elim (Bool-cases (c == b'&')) [
  | inl b ↦ rw (b, h) (ground arith)
  | inr b1 ↦ elim (Bool-cases (c == b'<')) [
    | inl b ↦ rw (b1, b, h) (ground arith)
    | inr b2 ↦ elim (Bool-cases (c == b'>')) [
      | inl b ↦ rw (b1, b2, b, h) (ground arith)
      | inr b3 ↦ elim (Bool-cases (c == b'"')) [
        | inl b ↦ rw (b1, b2, b3, b, h) (ground arith)
        | inr b4 ↦ elim (Bool-cases (c == b'\'')) [
          | inl b ↦ rw (b1, b2, b3, b4, b, h) (ground arith)
          | inr b5 ↦ rw (b1, b2, b3, b4, b5) (ground arith)
        ]
      ]
    ]
  ]
]

-- An escaped text reads back, up to the tag behind it.
pub read-escaped :
    (value rest : Text)
    → read_text none (write_escaped_xml value (b'<' ∷ rest)) ≡ some (value, b'<' ∷ rest)
unfolding read_text write_escaped_xml
read-escaped [] rest = refl
read-escaped (c ∷ value) rest = read-escape c _ value _ (read-escaped value rest)

pub next_tag-indentation : (n : ℕ) (t : Text) → next_tag (write_indentation n t) ≡ next_tag t
unfolding next_tag write_indentation skip_space
next_tag-indentation zero t = refl
next_tag-indentation (suc n) t = next_tag-indentation n t

pub next_tag-line : (t : Text) → next_tag (b'\n' ∷ t) ≡ next_tag t
unfolding next_tag skip_space
next_tag-line t = refl

digits_onto-append :
    (fuel n : ℕ) (rest : Text) → digits_onto fuel n rest ≡ digits_onto fuel n [] ++ rest
unfolding digits_onto
digits_onto-append zero n rest = refl
digits_onto-append (suc fuel) n rest = elim (Bool-cases (ltb n 10)) [
  | inl b ↦ rw b refl
  | inr b ↦ rw b (
      digits_onto-append fuel (n / 10) ((b'0' + n % 10) ∷ rest)
      ∙ (sym (append_assoc (digits_onto fuel (n / 10) []) ((b'0' + n % 10) ∷ []) rest)
          ∙ ap (λ t. t ++ rest) (sym (digits_onto-append fuel (n / 10) ((b'0' + n % 10) ∷ [])))))
]

number_read :
    (n k : ℕ) (t rest : Text)
    → read_digits false 0 0 t ≡ (n, k, rest)
    → n < 2 ^ 64
    → 0 < k
    → read_number false none true (2 ^ 64) t ≡ some (n, rest)
unfolding read_number
number_read n k t rest e h p = rw e (ground arith)

digits_end : (n k : ℕ) (rest : Text) → read_digits false n k (b'<' ∷ rest) ≡ (n, k, b'<' ∷ rest)
unfolding read_digits to_digit
digits_end n k rest = refl

read-decimal :
    (n : ℕ) (rest : Text)
    → n < 2 ^ 64
    → read_number false none true (2 ^ 64) (to_decimal n ++ b'<' ∷ rest) ≡ some (n, b'<' ∷ rest)
unfolding to_decimal
read-decimal n rest h =
    let (k, pos, e) = read_printed 20 n 0 (b'<' ∷ rest) (omega arith) in
    rw (← digits_onto-append 20 n (b'<' ∷ rest)) (
      number_read n (k + 0) _ _ (e ∙ digits_end n (k + 0) rest) h
        (omega (arith, pos (omega arith))))

pub element_read :
    (value rest : Text)
    → (read_element ends_string (write_escaped_xml value (codes "</string>" ++ rest))
        ≡ some (value, rest))
      × (read_element ends_key (write_escaped_xml value (codes "</key>" ++ rest))
          ≡ some (value, rest))
unfolding read_element expect read_tag to_close text_eq
element_read value rest = (rw (read-escaped value _) refl, rw (read-escaped value _) refl)

pub integer_read :
    (n : ℕ) (rest : Text)
    → n < 2 ^ 64
    → read_integer (to_decimal n ++ (codes "</integer>" ++ rest)) ≡ some (n, rest)
unfolding read_integer expect read_tag to_close text_eq
integer_read n rest h = rw (read-decimal n (codes "/integer>" ++ rest) h) refl

pub next_tag-key :
    (n : ℕ) (t : Text) → next_tag (write_indentation n (codes "<key>" ++ t)) ≡ some (opens_key, t)
unfolding next_tag skip_space read_tag to_close text_eq
next_tag-key n t = next_tag-indentation n _

pub next_tag-end_array :
    (n : ℕ) (t : Text)
    → next_tag (b'\n' ∷ write_indentation n (codes "</array>" ++ t)) ≡ some (closes_array, t)
unfolding next_tag skip_space read_tag to_close text_eq
next_tag-end_array n t =
    next_tag-line (write_indentation n (codes "</array>" ++ t))
    ∙ next_tag-indentation n (codes "</array>" ++ t)

pub next_tag-end_dict :
    (n : ℕ) (t : Text)
    → next_tag (b'\n' ∷ write_indentation n (codes "</dict>" ++ t)) ≡ some (closes_dict, t)
unfolding next_tag skip_space read_tag to_close text_eq
next_tag-end_dict n t =
    next_tag-line (write_indentation n (codes "</dict>" ++ t))
    ∙ next_tag-indentation n (codes "</dict>" ++ t)

unfoldable pub opening : PropertyListValue → Tag
opening (dictionary entries) = opens_dict
opening (array values) = opens_array
opening (string value) = opens_string
opening (bool true) = is_true
opening (bool false) = is_false
opening (integer value) = opens_integer

-- What stands behind the opening tag.
unfoldable pub inside : PropertyListValue → ℕ → Text → Text
unfolding write_xml
inside (dictionary entries) n rest =
    b'\n' ∷ write_entries entries n (write_indentation n (codes "</dict>\n" ++ rest))
inside (array values) n rest =
    b'\n' ∷ write_values values n (write_indentation n (codes "</array>\n" ++ rest))
inside (string value) n rest = write_escaped_xml value (codes "</string>\n" ++ rest)
inside (bool value) n rest = b'\n' ∷ rest
inside (integer value) n rest = to_decimal value ++ (codes "</integer>\n" ++ rest)

pub next_tag-write :
    (v : PropertyListValue) (n : ℕ) (rest : Text)
    → next_tag (write_xml v n rest) ≡ some (opening v, inside v n rest)
unfolding opening inside write_xml next_tag skip_space read_tag to_close text_eq
next_tag-write (dictionary entries) n rest = next_tag-indentation n _
next_tag-write (array values) n rest = next_tag-indentation n _
next_tag-write (string value) n rest = next_tag-indentation n _
next_tag-write (bool true) n rest = next_tag-indentation n _
next_tag-write (bool false) n rest = next_tag-indentation n _
next_tag-write (integer value) n rest = next_tag-indentation n _
