-- ===== src/Config/Host/Names.antt =====
-- src/config.rs, `normalize_dns_name`: the normal form of a name.
use mathlib.Core.Path.{ap₂}
use roused.Base.{
  ℕ, ◌≤◌, ◌≡◌, ◌≢◌, refl, ap, ◌∙◌, Bool, true, false, ◌&&◌, ◌||◌, none, some, List, [], ◌∷◌, ◌++◌,
  map, arith, ◌==◌, all, Bool-cases, inl, inr,
}
use roused.Base.Text.{
  Text, ends_with, but_last, without_suffix, onto_first, split, utf8_len, is_ascii_alphanumeric,
  is_ascii_lowercase, is_ascii_digit, to_ascii_lowercase, lower_char,
}
use roused.Base.Text.Lower.{
  lower_char-eq, lower_char-alphanumeric, lower_idem, is_empty-lower, utf8_len-lower,
  is_ascii-lower, starts_with-lower, ends_with-lower, without_suffix-lower, split-lower,
}
use roused.Config.Host.{is_valid_label, is_valid_name, normalize_dns_name}
use roused.Net.Parse.{parse_ip_addr}
use roused.Net.Parse.Lower.{parse_ip_addr-lower}

abbrev is_label_char : ℕ → Bool
is_label_char byte = is_ascii_alphanumeric byte || byte == b'-'

label_chars-lower : (t : Text) → all is_label_char (to_ascii_lowercase t) ≡ all is_label_char t
unfolding to_ascii_lowercase
label_chars-lower [] = refl
label_chars-lower (c ∷ t) =
    ap₂ ◌&&◌ (ap₂ ◌||◌ (lower_char-alphanumeric c) (lower_char-eq c b'-' (refl, refl)))
      (label_chars-lower t)

is_valid_label-lower : (t : Text) → is_valid_label (to_ascii_lowercase t) ≡ is_valid_label t
unfolding is_valid_label
is_valid_label-lower t = rw (
  is_empty-lower t,
  utf8_len-lower t,
  label_chars-lower t,
  starts_with-lower b'-' t (refl, refl),
  ends_with-lower b'-' t (refl, refl),
)

labels-lower :
    (ls : List Text) → all is_valid_label (map to_ascii_lowercase ls) ≡ all is_valid_label ls
labels-lower [] = refl
labels-lower (l ∷ ls) = ap₂ ◌&&◌ (is_valid_label-lower l) (labels-lower ls)

is_valid_name-lower : (t : Text) → is_valid_name (to_ascii_lowercase t) ≡ is_valid_name t
unfolding is_valid_name
is_valid_name-lower t = rw (
  is_empty-lower t,
  utf8_len-lower t,
  is_ascii-lower t,
  parse_ip_addr-lower t,
  split-lower b'.' t (refl, refl),
  labels-lower (split b'.' t),
)

-- The pieces but the first.
abbrev later : List Text → List Text
later [] = []
later (p ∷ ps) = ps

later-onto_first : (c : ℕ) (ps : List Text) → later (onto_first c ps) ≡ later ps
later-onto_first c [] = refl
later-onto_first c (p ∷ ps) = refl

later-false :
    (ps : List Text) → all is_valid_label (later ps) ≡ false → all is_valid_label ps ≡ false
later-false [] h = h
later-false (p ∷ ps) h = ground arith

empty_goes_on :
    (sep c : ℕ) (t : Text)
    → all is_valid_label (later (split sep t)) ≡ false
    → all is_valid_label (later (split sep (c ∷ t))) ≡ false
unfolding split
empty_goes_on sep c t h = elim (Bool-cases (c == sep)) [
  | inl e ↦ rw e (later-false (split sep t) h)
  | inr e ↦ rw (e, later-onto_first c (split sep t)) h
]

empty_alone :
    (sep c : ℕ) → (c == sep) ≡ true → all is_valid_label (later (split sep (c ∷ []))) ≡ false
unfolding split is_valid_label
empty_alone sep c h = rw h refl

-- A text that ends in the separator has an empty piece after its first.
ends_empty :
    (sep : ℕ) (t : Text) → ends_with sep t ≡ true → all is_valid_label (later (split sep t)) ≡ false
ends_empty sep [] h = cc
ends_empty sep (c ∷ []) h = empty_alone sep c h
ends_empty sep (c ∷ d ∷ t) h = empty_goes_on sep c (d ∷ t) (ends_empty sep (d ∷ t) h)

ends_invalid : (t : Text) → ends_with b'.' t ≡ true → is_valid_name t ≡ false
unfolding is_valid_name
ends_invalid t h = ground (arith, later-false (split b'.' t) (ends_empty b'.' t h))

-- A name that passes the checks has no terminal dot left.
valid_no_dot : (t : Text) → is_valid_name t ≡ true → without_suffix b'.' t ≡ t
valid_no_dot t h = elim (Bool-cases (ends_with b'.' t)) [
  | inl e ↦ absurd (ground (arith, ends_invalid t e))
  | inr e ↦ rw e refl
]

normalize-valid :
    (t : Text) → is_valid_name t ≡ true → normalize_dns_name t ≡ some (to_ascii_lowercase t)
unfolding normalize_dns_name
normalize-valid t h = rw (valid_no_dot t h, h) refl

normalize_inversion :
    (h n : Text)
    → normalize_dns_name h ≡ some n
    → (is_valid_name (without_suffix b'.' h) ≡ true)
      × (to_ascii_lowercase (without_suffix b'.' h) ≡ n)
unfolding normalize_dns_name
normalize_inversion h n e = elim (Bool-cases (is_valid_name (without_suffix b'.' h))) [
  | inl b ↦ (b, ground arith)
  | inr b ↦ absurd (ground arith)
]

-- Lower-case letters, digits and dashes.
abbrev pub is_name_char : ℕ → Bool
is_name_char c = is_ascii_lowercase c || (is_ascii_digit c || (c == b'-' || c == b'.'))

-- A host name in normal form: 1 to 253 lower-case letters, digits, dashes and dots, whose labels are
-- those of a DNS name, and which is no IP address.
pub record IsHostname (n : Text) : Type 0 where
  pub nonempty : n ≢ []
  pub short : utf8_len n ≤ 253
  pub characters : all is_name_char n ≡ true
  pub labels : all is_valid_label (split b'.' n) ≡ true
  pub no_address : parse_ip_addr n ≡ none

labels_chars : (ps : List Text) → all is_valid_label ps ≡ true → all (all is_label_char) ps ≡ true
unfolding is_valid_label
labels_chars [] h = refl
labels_chars (p ∷ ps) h = ground (arith, labels_chars ps)

onto_first_chars :
    (c : ℕ) (ps : List Text)
    → all (all is_label_char) (onto_first c ps) ≡ true
    → (is_label_char c ≡ true) × (all (all is_label_char) ps ≡ true)
onto_first_chars c [] h = ground arith
onto_first_chars c (p ∷ ps) h = ground arith

name_char_of_label : (c : ℕ) → is_label_char c ≡ true → is_name_char (lower_char c) ≡ true
unfolding lower_char
name_char_of_label c h = ground arith

name_char_of_dot : (c : ℕ) → (c == b'.') ≡ true → is_name_char (lower_char c) ≡ true
unfolding lower_char
name_char_of_dot c h = ground arith

name_chars :
    (t : Text)
    → all (all is_label_char) (split b'.' t) ≡ true
    → all is_name_char (to_ascii_lowercase t) ≡ true
unfolding split to_ascii_lowercase
name_chars [] h = refl
name_chars (c ∷ t) h = elim (Bool-cases (c == b'.')) [
  | inl e ↦ rw (name_char_of_dot c e) (name_chars t (rw e at h))
  | inr e ↦
      let (here, rest) = onto_first_chars c (split b'.' t) (rw e at h) in
      rw (name_char_of_label c here) (name_chars t rest)
]

valid_nonempty : (t : Text) → is_valid_name t ≡ true → t ≢ []
unfolding is_valid_name
valid_nonempty t h = ground arith

valid_short : (t : Text) → is_valid_name t ≡ true → utf8_len t ≤ 253
unfolding is_valid_name
valid_short t h = ground arith

valid_labels : (t : Text) → is_valid_name t ≡ true → all is_valid_label (split b'.' t) ≡ true
unfolding is_valid_name
valid_labels t h = ground arith

valid_no_address : (t : Text) → is_valid_name t ≡ true → parse_ip_addr t ≡ none
unfolding is_valid_name
valid_no_address t h = ground arith

valid_IsHostname : (t : Text) → is_valid_name t ≡ true → IsHostname (to_ascii_lowercase t)
valid_IsHostname t h =
    let v : is_valid_name (to_ascii_lowercase t) ≡ true = is_valid_name-lower t ∙ h in
    record {
      nonempty = valid_nonempty _ v;
      short = valid_short _ v;
      characters = name_chars t (labels_chars _ (valid_labels t h));
      labels = valid_labels _ v;
      no_address = valid_no_address _ v;
    }

-- What is normalized is in normal form, whatever was given, and normalizing it again changes nothing.
pub normalize_normal :
    (h n : Text) → normalize_dns_name h ≡ some n → IsHostname n × (normalize_dns_name n ≡ some n)
normalize_normal h n e =
    let (v, same) = normalize_inversion h n e in
    rw (← same)
      (valid_IsHostname _ v, normalize-valid _ (is_valid_name-lower _ ∙ v) ∙ ap some (lower_idem _))

but_last-snoc : (c : ℕ) (t : Text) → but_last (t ++ c ∷ []) ≡ t
but_last-snoc c [] = refl
but_last-snoc c (d ∷ []) = refl
but_last-snoc c (d ∷ e ∷ t) = ap (◌∷◌ d) (but_last-snoc c (e ∷ t))

ends_with-snoc : (c : ℕ) (t : Text) → ends_with c (t ++ c ∷ []) ≡ true
ends_with-snoc c [] = ground arith
ends_with-snoc c (d ∷ []) = ground arith
ends_with-snoc c (d ∷ e ∷ t) = ends_with-snoc c (e ∷ t)

-- The case of a name plays no part in what it normalizes to, nor whether it is refused; nor does one
-- terminal dot.
pub normalize_same :
    (h : Text)
    → ends_with b'.' h ≡ false
    → (normalize_dns_name (to_ascii_lowercase h) ≡ normalize_dns_name h)
      × (normalize_dns_name (h ++ b'.' ∷ []) ≡ normalize_dns_name h)
unfolding normalize_dns_name
normalize_same h e = (
  rw (
    without_suffix-lower b'.' h (refl, refl),
    is_valid_name-lower (without_suffix b'.' h),
    lower_idem (without_suffix b'.' h),
  ),
  rw (ends_with-snoc b'.' h, but_last-snoc b'.' h, e),
)
