-- ===== src/Http/Stripped.antt =====
-- src/proxy.rs, `strip_request_hop_headers`, `strip_response_hop_headers` and `connection_header_names`:
-- which headers go on, by their names in RFC 9110.
use mathlib.Core.List.{Memᴰ}
use roused.Base.{
  Bool, true, false, ◌&&◌, ◌||◌, some, List, [], ◌∷◌, ◌≡◌, refl, ◌∙◌, any, inl, inr, if◌then◌else◌,
  Bool-cases, Option-cases,
}
use roused.Base.Text.{Text, codes, text_eq, split}
use roused.Base.Text.Equality.{text_eq_sound, text_eq_refl}
use roused.Http.{
  Headers, names_in, names_of, connection_header_names, trim_ascii_whitespace,
  strip_request_hop_headers, strip_response_hop_headers,
}
use roused.Http.Hops.{get_all-strip_request, get_all-strip_response}
use roused.Http.Joined.{any-append}

-- The headers of a request that never go on.
abbrev pub request_fields : List Text
request_fields =
    codes "connection"
    ∷ codes "upgrade"
    ∷ codes "proxy-authorization"
    ∷ codes "proxy-connection"
    ∷ codes "keep-alive"
    ∷ codes "proxy-authenticate"
    ∷ codes "te"
    ∷ codes "trailer"
    ∷ codes "transfer-encoding"
    ∷ []

-- The headers of a response that never go on.
abbrev pub response_fields : List Text
response_fields =
    codes "connection"
    ∷ codes "upgrade"
    ∷ codes "proxy-connection"
    ∷ codes "keep-alive"
    ∷ codes "proxy-authenticate"
    ∷ codes "te"
    ∷ codes "trailer"
    ∷ codes "transfer-encoding"
    ∷ []

-- The values of a header `n` after a strip that takes off the names `fields`, with whether `Connection`
-- lists it. A switch of protocols keeps the two headers that ask for it, with fixed values.
abbrev pub passed : Bool → List Text → Text → Bool → List Text → List Text
passed switch fields n is_listed old =
    if switch && text_eq n (codes "upgrade")
    then codes "websocket" ∷ []
    else if switch && text_eq n (codes "connection")
    then codes "Upgrade" ∷ []
    else if any (text_eq n) fields || is_listed
    then []
    else old

or_true : (a b : Bool) → b ≡ true → (a || b) ≡ true
or_true true b h = refl
or_true false b h = h

module _ {M : Type 0} (headers : Headers M) where
  -- A piece of a `Connection` value between commas is the name, up to the white space around it.
  abbrev pub IsListed : Text → M → Type 0
  IsListed n m =
      (value : Text) × Memᴰ value (headers.get_all (codes "connection") m)
      × (piece : Text) × Memᴰ piece (split b',' value)
      × (headers.parse_name (trim_ascii_whitespace piece) ≡ some n)

  names_in_sound :
      (n : Text) (pieces : List Text)
      → any (text_eq n) (names_in headers pieces) ≡ true
      → (piece : Text) × Memᴰ piece pieces
        × (headers.parse_name (trim_ascii_whitespace piece) ≡ some n)
  unfolding names_in
  names_in_sound n [] h = cc
  names_in_sound n (piece ∷ pieces) h =
      elim (Option-cases (headers.parse_name (trim_ascii_whitespace piece))) [
        | inl e ↦ let (q, m, f) = names_in_sound n pieces (rw e at h) in (q, Memᴰ.tail m, f)
        | inr (k, e) ↦ elim (Bool-cases (text_eq n k)) [
          | inl s ↦ (piece, Memᴰ.head refl, rw (text_eq_sound n k s) e)
          | inr s ↦ let (q, m, f) = names_in_sound n pieces (rw (e, s) at h) in (q, Memᴰ.tail m, f)
        ]
      ]

  names_in_complete :
      (n piece : Text) (pieces : List Text)
      → Memᴰ piece pieces
      → headers.parse_name (trim_ascii_whitespace piece) ≡ some n
      → any (text_eq n) (names_in headers pieces) ≡ true
  unfolding names_in
  names_in_complete n piece [] k f = elim k [ ]
  names_in_complete n piece (other ∷ pieces) (Memᴰ.head same) f =
      rw (← same, f, text_eq_refl n) refl
  names_in_complete n piece (other ∷ pieces) (Memᴰ.tail m) f =
      elim (Option-cases (headers.parse_name (trim_ascii_whitespace other))) [
        | inl e ↦ rw e (names_in_complete n piece pieces m f)
        | inr (k, e) ↦
            let rest = names_in_complete n piece pieces m f in rw e (or_true (text_eq n k) _ rest)
      ]

  names_of_sound :
      (n : Text) (values : List Text)
      → any (text_eq n) (names_of headers values) ≡ true
      → (value : Text) × Memᴰ value values
        × (piece : Text) × Memᴰ piece (split b',' value)
        × (headers.parse_name (trim_ascii_whitespace piece) ≡ some n)
  unfolding names_of
  names_of_sound n [] h = cc
  names_of_sound n (value ∷ values) h =
      elim (Bool-cases (any (text_eq n) (names_in headers (split b',' value)))) [
        | inl s ↦
            let (piece, m, f) = names_in_sound n (split b',' value) s in
            (value, Memᴰ.head refl, piece, m, f)
        | inr s ↦
            let (v, m, piece, k, f) =
              names_of_sound n values
                (rw (any-append (text_eq n) (names_in headers (split b',' value)) _, s) at h) in
            (v, Memᴰ.tail m, piece, k, f)
      ]

  names_of_complete :
      (n value piece : Text) (values : List Text)
      → Memᴰ value values
      → Memᴰ piece (split b',' value)
      → headers.parse_name (trim_ascii_whitespace piece) ≡ some n
      → any (text_eq n) (names_of headers values) ≡ true
  unfolding names_of
  names_of_complete n value piece [] m k f = elim m [ ]
  names_of_complete n value piece (other ∷ values) (Memᴰ.head same) k f =
      rw
        (
          any-append (text_eq n) (names_in headers (split b',' other)) _,
          names_in_complete n piece (split b',' other) (rw same at k) f,
        )
        refl
  names_of_complete n value piece (other ∷ values) (Memᴰ.tail m) k f =
      let rest = names_of_complete n value piece values m k f in
      rw (any-append (text_eq n) (names_in headers (split b',' other)) _)
        (or_true (any (text_eq n) (names_in headers (split b',' other))) _ rest)

  listed_true :
      (n : Text) (m : M) → IsListed n m → any (text_eq n) (connection_header_names headers m) ≡ true
  unfolding connection_header_names
  listed_true n m (value, k, piece, l, f) = names_of_complete n value piece _ k l f

  listed_false :
      (n : Text) (m : M)
      → ¬ IsListed n m
      → any (text_eq n) (connection_header_names headers m) ≡ false
  unfolding connection_header_names
  listed_false n m h = elim (Bool-cases (any (text_eq n) (connection_header_names headers m))) [
    | inl s ↦ absurd (h (names_of_sound n (headers.get_all (codes "connection") m) s))
    | inr s ↦ s
  ]

  -- Of a request, `Connection`, `Upgrade`, `Proxy-Authorization`, `Proxy-Connection`, `Keep-Alive`,
  -- `Proxy-Authenticate`, `TE`, `Trailer` and `Transfer-Encoding` never go upstream, and neither does a
  -- header, also a `Host`, that one of its `Connection` values lists between commas. For a request to
  -- switch to a websocket, `Upgrade: websocket` and `Connection: Upgrade` alone take the place of the
  -- first two. Every other header has the values that it had.
  pub strip_request_hop_headers_lem :
      (n : Text) (m : M) (retain : Bool)
      → let left = headers.get_all n (strip_request_hop_headers headers m retain) in
        let old = headers.get_all n m in
        (IsListed n m → left ≡ passed retain request_fields n true old)
        × ((¬ IsListed n m) → left ≡ passed retain request_fields n false old)
  strip_request_hop_headers_lem n m retain =
      let left = get_all-strip_request headers n m retain in
      (λ h. left ∙ rw (listed_true n m h) refl, λ h. left ∙ rw (listed_false n m h) refl)

  -- The same of a response, but for `Proxy-Authorization`, which goes on if it is not listed.
  pub strip_response_hop_headers_lem :
      (n : Text) (m : M) (retain : Bool)
      → let left = headers.get_all n (strip_response_hop_headers headers m retain) in
        let old = headers.get_all n m in
        (IsListed n m → left ≡ passed retain response_fields n true old)
        × ((¬ IsListed n m) → left ≡ passed retain response_fields n false old)
  strip_response_hop_headers_lem n m retain =
      let left = get_all-strip_response headers n m retain in
      (λ h. left ∙ rw (listed_true n m h) refl, λ h. left ∙ rw (listed_false n m h) refl)
