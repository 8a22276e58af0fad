-- ===== src/Http/Answers.antt =====
-- src/proxy.rs: the responses of the gateway itself, `write_shutting_down`, `write_unknown_host` and
-- `write_loading_response`. `Written` is what they do to the session. `ResponseHeader::build` and
-- `insert_header` do not fail on these names and values.
pub mod Sent
use roused.Base.{ℕ, Bool, true, false, Option, none, some, List, [], ◌∷◌, if◌then◌else◌, length}
use roused.Base.Text.{Text, codes, to_decimal}
use roused.Http.Loading.{Method, get, head, other, prefers_html_loading}

pub record Written : Type 0 where
  pub status : ℕ
  pub headers : List (Text × Text)
  pub keepalive : Option ℕ
  -- Whether the header ends the response, and the body with whether it does.
  pub header_ends : Bool
  pub body : Option (Text × Bool)

abbrev pub unknown_host_body : Text
unknown_host_body = codes "unknown host\n"

abbrev pub shutting_down_body : Text
shutting_down_body = codes "gateway shutting down\n"

abbrev pub loading_html_body : Text
loading_html_body =
    codes
      "<!doctype html><html><head><meta charset=\"utf-8\"><meta http-equiv=\"refresh\" content=\"5\"><title>Loading</title></head><body>Service is starting.</body></html>\n"

abbrev pub loading_json_body : Text
loading_json_body = codes "{\"status\":\"loading\",\"retry_after\":5}\n"

abbrev pub is_head : Method → Bool
is_head head = true
is_head get = false
is_head other = false

abbrev text_plain : List (Text × Text) → List (Text × Text)
text_plain rest =
    (codes "content-type", codes "text/plain; charset=utf-8")
    ∷ (codes "cache-control", codes "no-store")
    ∷ rest

unfoldable pub write_shutting_down : Method → Written
unfolding to_decimal
write_shutting_down method = record {
  status = 503;
  headers = text_plain ((codes "content-length", to_decimal (length shutting_down_body)) ∷ []);
  keepalive = none;
  header_ends = is_head method;
  body = if is_head method then none else some (shutting_down_body, true);
}

unfoldable pub write_unknown_host : Written
unfolding to_decimal
write_unknown_host = record {
  status = 421;
  headers = text_plain ((codes "content-length", to_decimal (length unknown_host_body)) ∷ []);
  keepalive = none;
  header_ends = false;
  body = some (unknown_host_body, true);
}

abbrev loading_content : Bool → Text × Text
loading_content html =
    if html
    then (codes "text/html; charset=utf-8", loading_html_body)
    else (codes "application/json", loading_json_body)

unfoldable pub write_loading_response : (Text → Option Text) → Method → List Text → Written
unfolding prefers_html_loading to_decimal
write_loading_response to_str method accept =
    let (content_type, body) = loading_content (prefers_html_loading to_str method accept) in
    record {
      status = 503;
      headers =
          (codes "content-type", content_type)
          ∷ (codes "retry-after", codes "5")
          ∷ (codes "cache-control", codes "no-store")
          ∷ (codes "content-length", to_decimal (length body))
          ∷ [];
      keepalive = none;
      header_ends = is_head method;
      body = if is_head method then none else some (body, true);
    }
