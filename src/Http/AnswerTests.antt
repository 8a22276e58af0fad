-- ===== src/Http/AnswerTests.antt =====
-- src/proxy.rs: answers of the gateway, media ranges, and a switch of protocols.
use mathlib.Core.List.{Memᴰ}
use roused.Base.{◌≡◌, ◌↔◌, refl, true, false, some, List, [], ◌∷◌}
use roused.Base.Text.{Text, codes, text_eq, to_ascii_lowercase, lower_char, split}
use roused.Http.{connection, upgrade, header_contains_token, names_of, trim_ascii_whitespace}
use roused.Http.Answers.{write_shutting_down, write_unknown_host, write_loading_response}
use roused.Http.Answers.Sent.{Sends, WantsPage, answers_lem}
use roused.Http.Fields.{Fields, fields, values_of}
use roused.Http.Joined.{lines_joined}
use roused.Http.Loading.{
  get, head, other, prefers_html_loading, html_media_range_is_accepted, loading_code,
}
use roused.Http.Upgraded.{
  is_valid_websocket_response, upstream_response_filter, Agrees, upstream_response_filter_lem,
}
use roused.Http.Stripped.{IsListed, passed, response_fields}

abbrev accept : List Text
accept = codes "application/json;q=0.5" ∷ codes "TEXT/html ; Q = 1.0" ∷ []

answers_lem_example :
    let down = write_shutting_down head in
    let unknown = write_unknown_host in
    let loading = write_loading_response some head accept in
    ((down.status ≡ 503)
      × Sends head (codes "text/plain; charset=utf-8") (codes "gateway shutting down\n") down)
    × ((unknown.status ≡ 421)
        × Sends get (codes "text/plain; charset=utf-8") (codes "unknown host\n") unknown)
    × ((loading.status ≡ 503)
        × Memᴰ {A = Text × Text} (codes "retry-after", codes "5") loading.headers
        × (WantsPage some head accept
            → Sends head
                (codes "text/html; charset=utf-8")
                (codes
                  "<!doctype html><html><head><meta charset=\"utf-8\"><meta http-equiv=\"refresh\" content=\"5\"><title>Loading</title></head><body>Service is starting.</body></html>\n")
                loading)
        × ((¬ WantsPage some head accept)
            → Sends head
                (codes "application/json")
                (codes "{\"status\":\"loading\",\"retry_after\":5}\n")
                loading))
answers_lem_example = answers_lem some head accept

lines_joined_example :
    (prefers_html_loading some get (codes "text/plain,text/html" ∷ [])
      ≡ prefers_html_loading some get (codes "text/plain" ∷ codes "text/html" ∷ []))
    × (header_contains_token (codes "text/plain,text/html" ∷ []) (codes "upgrade")
        ≡ header_contains_token (codes "text/plain" ∷ codes "text/html" ∷ []) (codes "upgrade"))
    × (names_of fields (codes "text/plain,text/html" ∷ [])
        ≡ names_of fields (codes "text/plain" ∷ codes "text/html" ∷ []))
lines_joined_example =
    lines_joined fields get (codes "upgrade") (codes "text/plain") (codes "text/html") []

abbrev switching : Fields
switching =
    (connection, codes "keep-alive, Upgrade")
    ∷ (upgrade, codes "WebSocket")
    ∷ (codes "keep-alive", codes "5")
    ∷ []

upstream_response_filter_lem_example :
    let (filtered, lifted) = upstream_response_filter fields true 101 switching in
    let old = values_of (codes "keep-alive") switching in
    ((lifted ≡ true) ↔ ((true ≡ true) × Agrees fields 101 switching))
    × (IsListed fields (codes "keep-alive") switching
        → values_of (codes "keep-alive") filtered
          ≡ passed lifted response_fields (codes "keep-alive") true old)
    × ((¬ IsListed fields (codes "keep-alive") switching)
        → values_of (codes "keep-alive") filtered
          ≡ passed lifted response_fields (codes "keep-alive") false old)
upstream_response_filter_lem_example =
    upstream_response_filter_lem fields true 101 switching (codes "keep-alive")

switches : is_valid_websocket_response fields 101 switching ≡ true
unfolding is_valid_websocket_response values_of text_eq to_ascii_lowercase lower_char split
    trim_ascii_whitespace header_contains_token
switches = refl

page : prefers_html_loading some get accept ≡ true
unfolding loading_code
page = refl

no_page : prefers_html_loading some other accept ≡ false
unfolding loading_code
no_page = refl

refused : html_media_range_is_accepted (codes "text/html;q=0") ≡ false
unfolding loading_code
refused = refl

small : html_media_range_is_accepted (codes "text/html; q=.1e-2") ≡ true
unfolding loading_code
small = refl

too_large : html_media_range_is_accepted (codes "text/html;q=1.1") ≡ false
unfolding loading_code
too_large = refl

no_number : html_media_range_is_accepted (codes "text/html;q=NaN") ≡ false
unfolding loading_code
no_number = refl
