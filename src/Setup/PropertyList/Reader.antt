-- ===== src/Setup/PropertyList/Reader.antt =====
-- What a reader of property lists makes of a document, as far as property lists use XML 1.0: the line
-- ends of the document are normalized first (section 2.11), entities stand for their characters, and
-- white space between elements does not count. It is written from the format, not from
-- `src/setup.rs`.
use roused.Base.{
  ℕ, zero, suc, Bool, true, false, ◌||◌, ◌&&◌, Option, none, some, List, [], ◌∷◌, ◌++◌, ◌>>=◌, ◌==◌,
  ◌^◌, length, if◌then◌else◌,
}
use roused.Base.Text.{Text, codes, text_eq}
use roused.Net.Parse.{read_number}
use roused.Setup.PropertyList.{
  PropertyListValue, dictionary, array, string, bool, integer, Values, nil, cons, Entries, end,
  entry,
}

-- A carriage return, with the line feed after it if there is one, becomes a line feed.
unfoldable pub normalize_lines : Bool → Text → Text
normalize_lines after_return [] = []
normalize_lines after_return (c ∷ t) =
    let rest = normalize_lines (c == b'\r') t in
    if c == b'\r' then b'\n' ∷ rest else if after_return && c == b'\n' then rest else c ∷ rest

abbrev is_xml_space : ℕ → Bool
is_xml_space c = c == 0x20 || (c == 0x9 || (c == 0xa || c == 0xd))

unfoldable pub skip_space : Text → Text
skip_space [] = []
skip_space (c ∷ t) = if is_xml_space c then skip_space t else c ∷ t

-- The text before the first `>`, and what follows it.
unfoldable pub to_close : Text → Option (Text × Text)
to_close [] = none
to_close (c ∷ t) =
    let rest = to_close t in
    if c == b'>' then some ([], t) else (do (name, t') ← rest; some (c ∷ name, t'))

pub data Tag : Type 0 where
  opens_dict closes_dict opens_array closes_array opens_string closes_string : Tag
  opens_key closes_key opens_integer closes_integer is_true is_false unknown : Tag

abbrev tags : List (Text × Tag)
tags =
    (codes "dict", opens_dict)
    ∷ (codes "/dict", closes_dict)
    ∷ (codes "array", opens_array)
    ∷ (codes "/array", closes_array)
    ∷ (codes "string", opens_string)
    ∷ (codes "/string", closes_string)
    ∷ (codes "key", opens_key)
    ∷ (codes "/key", closes_key)
    ∷ (codes "integer", opens_integer)
    ∷ (codes "/integer", closes_integer)
    ∷ (codes "true/", is_true)
    ∷ (codes "false/", is_false)
    ∷ []

abbrev named {ℓ} : {A : Type ℓ} → A → Text → List (Text × A) → A
named other name [] = other
named other name ((n, a) ∷ rest) = if text_eq name n then a else named other name rest

unfoldable pub read_tag : Text → Option (Tag × Text)
unfolding to_close
read_tag [] = none
read_tag (c ∷ t) =
    if c == b'<' then (do (name, t') ← to_close t; some (named unknown name tags, t')) else none

-- The tag after white space.
unfoldable pub next_tag : Text → Option (Tag × Text)
unfolding skip_space read_tag
next_tag t = read_tag (skip_space t)

abbrev pub without_prefix : Text → Text → Option Text
without_prefix [] t = some t
without_prefix (p ∷ prefix) [] = none
without_prefix (p ∷ prefix) (c ∷ t) = if c == p then without_prefix prefix t else none

abbrev entities : List (Text × Option ℕ)
entities =
    (codes "amp", some b'&')
    ∷ (codes "lt", some b'<')
    ∷ (codes "gt", some b'>')
    ∷ (codes "quot", some b'"')
    ∷ (codes "apos", some b'\'')
    ∷ []

-- The name of the entity that is being read, if one is, after one more character; and the character
-- that is read with it.
unfoldable pub decode : Option Text → ℕ → Option (Option Text × Text)
decode none c = if c == b'&' then some (some [], []) else some (none, c ∷ [])
decode (some name) c =
    if c == b';'
    then (do character ← named none name entities; some (none, character ∷ []))
    else some (some (name ++ c ∷ []), [])

abbrev onto : Text → Option (Text × Text) → Option (Text × Text)
onto characters none = none
onto characters (some (value, rest)) = some (characters ++ value, rest)

-- The characters up to the next tag.
unfoldable pub read_text : Option Text → Text → Option (Text × Text)
unfolding decode
read_text entity [] = none
read_text entity (c ∷ t) =
    let rest : Option (Text × Text) = elim (decode entity c) [
      | none ↦ none
      | some (next, characters) ↦ onto characters (read_text next t)
    ] in
    if c == b'<' then some ([], c ∷ t) else rest

abbrev pub ends_string : Tag → Bool
ends_string closes_string = true
ends_string _ = false

abbrev pub ends_key : Tag → Bool
ends_key closes_key = true
ends_key _ = false

abbrev pub ends_integer : Tag → Bool
ends_integer closes_integer = true
ends_integer _ = false

-- The tag that ends an element.
unfoldable pub expect : (Tag → Bool) → Text → Option Text
unfolding read_tag
expect is_end t = do (tag, t') ← read_tag t; if is_end tag then some t' else none

-- The text of an element, up to its end.
unfoldable pub read_element : (Tag → Bool) → Text → Option (Text × Text)
unfolding read_text expect
read_element is_end t = do (value, t1) ← read_text none t; t2 ← expect is_end t1; some (value, t2)

unfoldable pub read_integer : Text → Option (ℕ × Text)
unfolding expect
read_integer t = do
  (value, t1) ← read_number false none true (2 ^ 64) t
  t2 ← expect ends_integer t1
  some (value, t2)

abbrev as_string : Option (Text × Text) → Option (PropertyListValue × Text)
as_string none = none
as_string (some (value, t)) = some (string value, t)

abbrev as_integer : Option (ℕ × Text) → Option (PropertyListValue × Text)
as_integer none = none
as_integer (some (value, t)) = some (integer value, t)

abbrev as_array : Option (Values × Text) → Option (PropertyListValue × Text)
as_array none = none
as_array (some (values, t)) = some (array values, t)

abbrev as_dictionary : Option (Entries × Text) → Option (PropertyListValue × Text)
as_dictionary none = none
as_dictionary (some (entries, t)) = some (dictionary entries, t)

abbrev with_value : PropertyListValue → Option (Values × Text) → Option (Values × Text)
with_value value none = none
with_value value (some (values, t)) = some (cons value values, t)

abbrev with_entry : Text → PropertyListValue → Option (Entries × Text) → Option (Entries × Text)
with_entry key value none = none
with_entry key value (some (entries, t)) = some (entry key value entries, t)

-- The fuel bounds the nesting and the number of elements.
unfoldable mutual
  unfolding next_tag read_element read_integer

  pub read_value : ℕ → Text → Option (PropertyListValue × Text)
  read_value zero t = none
  read_value (suc fuel) t = do
    (tag, t1) ← next_tag t
    elim tag [
      | opens_string ↦ as_string (read_element ends_string t1)
      | opens_integer ↦ as_integer (read_integer t1)
      | is_true ↦ some (bool true, t1)
      | is_false ↦ some (bool false, t1)
      | opens_array ↦ as_array (read_values fuel t1)
      | opens_dict ↦ as_dictionary (read_entries fuel t1)
      | _ ↦ none
    ]

  pub read_values : ℕ → Text → Option (Values × Text)
  read_values zero t = none
  read_values (suc fuel) t = do
    (tag, t1) ← next_tag t
    elim tag [
      | closes_array ↦ some (nil, t1)
      | _ ↦ do (value, t2) ← read_value fuel t; with_value value (read_values fuel t2)
    ]

  pub read_entries : ℕ → Text → Option (Entries × Text)
  read_entries zero t = none
  read_entries (suc fuel) t = do
    (tag, t1) ← next_tag t
    elim tag [
      | closes_dict ↦ some (end, t1)
      | opens_key ↦ do
        (key, t2) ← read_element ends_key t1
        (value, t3) ← read_value fuel t2
        with_entry key value (read_entries fuel t3)
      | _ ↦ none
    ]

-- A document is the prefix that `src/setup.rs` writes (the XML declaration, the document type and the
-- start of the `plist` element), a value and the end of the element.
unfoldable pub read_document : Text → Text → Option PropertyListValue
unfolding normalize_lines next_tag
read_document prefix t = do
  body ← without_prefix prefix (normalize_lines false t)
  (value, t1) ← read_value (length body) body
  t2 ← without_prefix (codes "</plist>") (skip_space t1)
  some value
