-- ===== src/Http/Tests.antt =====
-- src/proxy.rs: the strip on header maps that are lists of fields.
use roused.Gateway.{RequestContext}
use roused.Gateway.Forwarded.{
  apply_forwarded_headers, apply_forwarded_headers_lem, forwarded_of, first,
}
use roused.Gateway.Framing.{
  upstream_request_filter, upstream_framing, transfer_encoding, content_length, no_values,
  length_sent,
}
use roused.Net.{IpAddr, v4}
use roused.Base.{none, not, ◌&&◌, true, false, some, [], ◌∷◌, ◌≡◌, ◌>>=◌, refl, if◌then◌else◌}
use roused.Base.Text.{Text, codes, text_eq, to_ascii_lowercase, lower_char, split}
use roused.Http.{strip_request_hop_headers, trim_ascii_whitespace}
use roused.Http.Fields.{Fields, fields, values_of, without}
use roused.Http.Stripped.{IsListed, passed, request_fields, strip_request_hop_headers_lem}

-- A request with trailers that names its `Host` and a header of its own in `Connection`.
abbrev request : Fields
request =
    (codes "host", codes "api.local")
    ∷ (codes "x-secret", codes "1")
    ∷ (codes "te", codes "trailers")
    ∷ (codes "connection", codes "X-Secret, Host")
    ∷ []

strip_request_hop_headers_lem_example :
    let left = values_of (codes "te") (strip_request_hop_headers fields request false) in
    let old = values_of (codes "te") request in
    (IsListed fields (codes "te") request
      → left ≡ passed false request_fields (codes "te") true old)
    × ((¬ IsListed fields (codes "te") request)
        → left ≡ passed false request_fields (codes "te") false old)
strip_request_hop_headers_lem_example =
    strip_request_hop_headers_lem fields (codes "te") request false

listed_host_test : values_of (codes "host") (strip_request_hop_headers fields request false) ≡ []
unfolding values_of without strip_request_hop_headers text_eq trim_ascii_whitespace
    to_ascii_lowercase lower_char split
listed_host_test = refl

abbrev spoofed : Fields
spoofed =
    (codes "host", codes "api.local:8443")
    ∷ (codes "x-forwarded-for", codes "203.0.113.9")
    ∷ (codes "content-length", codes "3")
    ∷ (codes "transfer-encoding", codes "chunked")
    ∷ []

abbrev context : RequestContext
context = record {
  route = none;
  lease = none;
  admission = none;
  rejected_for_shutdown = false;
  websocket = false;
  listener_port = 8_443;
  tls = true;
  peer_ip = some (v4 127 0 0 1);
}

-- The one address of these runs.
abbrev display : IpAddr → Text
display ip = codes "127.0.0.1"

apply_forwarded_headers_lem_example :
    values_of
      (codes "x-forwarded-for")
      (apply_forwarded_headers fields some display spoofed context)
    ≡ forwarded_of display context
        (do value ← first (values_of (codes "host") spoofed); some value)
        (codes "x-forwarded-for")
        (codes "203.0.113.9" ∷ [])
unfolding values_of text_eq
apply_forwarded_headers_lem_example =
    apply_forwarded_headers_lem fields some display (codes "x-forwarded-for") spoofed context

forwarded_test :
    values_of
      (codes "x-forwarded-for")
      (apply_forwarded_headers fields some display spoofed context)
    ≡ codes "127.0.0.1" ∷ []
unfolding values_of without apply_forwarded_headers text_eq
forwarded_test = refl

upstream_framing_example :
    (values_of transfer_encoding (upstream_request_filter fields some display false spoofed context)
      ≡ (if not false && no_values (length_sent fields some display spoofed)
          then codes "chunked" ∷ []
          else []))
    × (values_of content_length (upstream_request_filter fields some display false spoofed context)
        ≡ length_sent fields some display spoofed)
upstream_framing_example = upstream_framing fields some display false spoofed context
