-- ===== src/Gateway/Framing.antt =====
-- src/proxy.rs, `upstream_request_filter`: the headers of a request on its way to the service, with the
-- framing of its body.
use roused.Base.{
  Bool, true, false, not, ◌&&◌, Option, none, some, List, [], ◌∷◌, ◌≡◌, refl, any, Bool-cases, inl,
  inr, if◌then◌else◌, ◌∙◌,
}
use roused.Base.Text.{Text, codes, text_eq}
use roused.Gateway.{RequestContext}
use roused.Gateway.Forwarded.{
  apply_forwarded_headers, apply_forwarded_headers_lem, said_or, shown, host_of,
}
use roused.Http.{Headers, connection_header_names, strip_request_hop_headers}
use roused.Http.Hops.{get_all-strip_request}
use roused.Net.{IpAddr}

abbrev pub no_values : List Text → Bool
no_values [] = true
no_values (v ∷ vs) = false

abbrev pub content_length : Text
content_length = codes "content-length"

abbrev pub transfer_encoding : Text
transfer_encoding = codes "transfer-encoding"

said_nothing : (value : Option Text) (rest : List Text) → said_or false value rest ≡ rest
said_nothing none rest = refl
said_nothing (some v) rest = refl

module _ {M : Type 0} (headers : Headers M) (to_str : Text → Option Text)
    (display : IpAddr → Text) where
  -- `body_empty` is what the session says of the body.
  unfoldable pub upstream_request_filter : Bool → M → RequestContext → M
  upstream_request_filter body_empty m x =
      let stripped = strip_request_hop_headers headers m x.websocket in
      let told = apply_forwarded_headers headers to_str display stripped x in
      if not body_empty && no_values (headers.get_all content_length told)
      then headers.insert transfer_encoding (codes "chunked") told
      else told

  -- A name that the forwarded headers do not touch.
  not_forwarded :
      (m : M) (x : RequestContext)
      → (headers.get_all transfer_encoding (apply_forwarded_headers headers to_str display m x)
          ≡ headers.get_all transfer_encoding m)
        × (headers.get_all content_length (apply_forwarded_headers headers to_str display m x)
            ≡ headers.get_all content_length m)
  unfolding text_eq
  not_forwarded m x = (
    apply_forwarded_headers_lem headers to_str display transfer_encoding m x
        ∙ elim (Bool-cases x.tls) [
          | inl b ↦ rw b (
              said_nothing (host_of headers to_str display m) _
              ∙ said_nothing (shown display x.peer_ip) _)
          | inr b ↦ rw b refl
        ],
    apply_forwarded_headers_lem headers to_str display content_length m x
        ∙ elim (Bool-cases x.tls) [
          | inl b ↦ rw b (
              said_nothing (host_of headers to_str display m) _
              ∙ said_nothing (shown display x.peer_ip) _)
          | inr b ↦ rw b refl
        ],
  )

  stripped_te :
      (m : M) (retain : Bool)
      → headers.get_all transfer_encoding (strip_request_hop_headers headers m retain) ≡ []
  unfolding text_eq
  stripped_te m true = get_all-strip_request headers transfer_encoding m true
  stripped_te m false = get_all-strip_request headers transfer_encoding m false

  stripped_length :
      (m : M) (retain : Bool)
      → headers.get_all content_length (strip_request_hop_headers headers m retain) ≡ (
          if any (text_eq content_length) (connection_header_names headers m)
          then []
          else headers.get_all content_length m)
  unfolding text_eq
  stripped_length m true = get_all-strip_request headers content_length m true
  stripped_length m false = get_all-strip_request headers content_length m false

  other : text_eq content_length transfer_encoding ≡ false
  unfolding text_eq
  other = refl

  -- The length of the body that the service gets to see: the client's, unless `Connection` lists it.
  abbrev pub length_sent : M → List Text
  length_sent m =
      if any (text_eq content_length) (connection_header_names headers m)
      then []
      else headers.get_all content_length m

  -- The `Transfer-Encoding` of the client never goes upstream. The request has the `Content-Length` of
  -- the client, unless its `Connection` lists that, and is chunked exactly if it has a body and no
  -- such length, so that it never has both framings.
  pub upstream_framing :
      (body_empty : Bool) (m : M) (x : RequestContext)
      → (headers.get_all transfer_encoding (upstream_request_filter body_empty m x)
          ≡ (if not body_empty && no_values (length_sent m) then codes "chunked" ∷ [] else []))
        × (headers.get_all content_length (upstream_request_filter body_empty m x) ≡ length_sent m)
  unfolding upstream_request_filter
  upstream_framing body_empty m x =
      let stripped = strip_request_hop_headers headers m x.websocket in
      let (te, cl) = not_forwarded stripped x in
      let none_te = te ∙ stripped_te m x.websocket in
      let sent = cl ∙ stripped_length m x.websocket in
      elim (Bool-cases (not body_empty && no_values (length_sent m))) [
        | inl b ↦ (
          rw (sent, b, headers.inserted transfer_encoding (codes "chunked") _) refl,
          rw
              (
                sent,
                b,
                headers.not_inserted transfer_encoding content_length (codes "chunked") _ other,
              )
              sent,
        )
        | inr b ↦ (rw (sent, b) none_te, rw (sent, b) sent)
      ]
