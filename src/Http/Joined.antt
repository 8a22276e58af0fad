-- ===== src/Http/Joined.antt =====
-- src/proxy.rs: a header that comes in several lines means what one line with a list means.
use mathlib.Core.List.{append_assoc}
use roused.Base.{
  ℕ, ◌≡◌, refl, ap, sym, ◌∙◌, Bool, ◌||◌, some, List, [], ◌∷◌, ◌++◌, any, arith, ◌==◌, Bool-cases,
  Option-cases, inl, inr,
}
use roused.Base.Text.{Text, split, onto_first}
use roused.Http.{
  Headers, header_contains_token, names_in, names_of, trim_ascii_whitespace, eq_ignore_ascii_case,
}
use roused.Http.Loading.{
  Method, get, head, other, prefers_html_loading, html_media_range_is_accepted,
}

split_cons :
    (sep : ℕ) (t : Text) → (piece : Text) × (pieces : List Text) × (split sep t ≡ piece ∷ pieces)
unfolding split
split_cons sep [] = ([], [], refl)
split_cons sep (c ∷ t) = elim (Bool-cases (c == sep)) [
  | inl e ↦ ([], split sep t, rw e refl)
  | inr e ↦ let (piece, pieces, h) = split_cons sep t in (c ∷ piece, pieces, rw (e, h) refl)
]

onto_first-append :
    (c sep : ℕ) (t : Text) (more : List Text)
    → onto_first c (split sep t) ++ more ≡ onto_first c (split sep t ++ more)
onto_first-append c sep t more = let (piece, pieces, h) = split_cons sep t in rw h refl

split-append : (sep : ℕ) (t u : Text) → split sep (t ++ sep ∷ u) ≡ split sep t ++ split sep u
unfolding split
split-append sep [] u = ground arith
split-append sep (c ∷ t) u = elim (Bool-cases (c == sep)) [
  | inl e ↦ rw e (ap (λ l. [] ∷ l) (split-append sep t u))
  | inr e ↦
      rw e
        (ap (onto_first c) (split-append sep t u) ∙ sym (onto_first-append c sep t (split sep u)))
]

pub any-append :
    {A : Type 0} (p : A → Bool) (xs ys : List A) → any p (xs ++ ys) ≡ (any p xs || any p ys)
any-append p [] ys = refl
any-append p (x ∷ xs) ys = ground (arith, any-append p xs ys)

any-joined :
    (p : Text → Bool) (t u : Text) (values : List Text)
    → any (λ value. any p (split b',' value)) ((t ++ b',' ∷ u) ∷ values)
      ≡ any (λ value. any p (split b',' value)) (t ∷ u ∷ values)
any-joined p t u values =
    rw (split-append b',' t u, any-append p (split b',' t) (split b',' u)) (ground arith)

module _ {M : Type 0} (headers : Headers M) where
  names_in-append :
      (xs ys : List Text) → names_in headers (xs ++ ys) ≡ names_in headers xs ++ names_in headers ys
  unfolding names_in
  names_in-append [] ys = refl
  names_in-append (x ∷ xs) ys = elim (Option-cases (headers.parse_name (trim_ascii_whitespace x))) [
    | inl e ↦ rw e (names_in-append xs ys)
    | inr (n, e) ↦ rw e (ap (λ l. n ∷ l) (names_in-append xs ys))
  ]

  names_of-joined :
      (t u : Text) (values : List Text)
      → names_of headers ((t ++ b',' ∷ u) ∷ values) ≡ names_of headers (t ∷ u ∷ values)
  unfolding names_of
  names_of-joined t u values =
      rw (split-append b',' t u, names_in-append (split b',' t) (split b',' u))
        (append_assoc (names_in headers (split b',' t)) (names_in headers (split b',' u))
          (names_of headers values))

page_joined :
    (method : Method) (t u : Text) (values : List Text)
    → prefers_html_loading some method ((t ++ b',' ∷ u) ∷ values)
      ≡ prefers_html_loading some method (t ∷ u ∷ values)
unfolding prefers_html_loading
page_joined get t u values = any-joined html_media_range_is_accepted t u values
page_joined head t u values = any-joined html_media_range_is_accepted t u values
page_joined other t u values = refl

-- For a header in several lines with values that are text: whether a request gets the loading page,
-- whether a `Connection` has a token and which headers a `Connection` lists is the same when two of the
-- lines, that come first and next, are one line with both values and a comma between them.
pub lines_joined :
    {M : Type 0} (headers : Headers M) (method : Method) (expected t u : Text) (values : List Text)
    → (prefers_html_loading some method ((t ++ b',' ∷ u) ∷ values)
        ≡ prefers_html_loading some method (t ∷ u ∷ values))
      × (header_contains_token ((t ++ b',' ∷ u) ∷ values) expected
          ≡ header_contains_token (t ∷ u ∷ values) expected)
      × (names_of headers ((t ++ b',' ∷ u) ∷ values) ≡ names_of headers (t ∷ u ∷ values))
unfolding prefers_html_loading header_contains_token
lines_joined headers method expected t u values = (
  page_joined method t u values,
  any-joined (λ token. eq_ignore_ascii_case (trim_ascii_whitespace token) expected) t u values,
  names_of-joined headers t u values,
)
