-- ===== src/Http/Answers/Sent.antt =====
-- src/proxy.rs: what the client gets of the responses of the gateway itself.
use mathlib.Core.List.{Memᴰ}
use roused.Base.{
  ◌≡◌, ◌≢◌, refl, ◌⊎◌, inl, inr, Bool, true, false, Option, none, some, List, if◌then◌else◌, length,
  any, Bool-cases, Option-cases,
}
use roused.Base.Text.{Text, codes, to_decimal, split}
use roused.Http.Answers.{
  Written, is_head, unknown_host_body, shutting_down_body, loading_html_body, loading_json_body,
  write_shutting_down, write_unknown_host, write_loading_response,
}
use roused.Http.Loading.{
  Method, get, head, other, is_other, accepts_html, html_media_range_is_accepted,
  prefers_html_loading,
}
use roused.Http.Members.{any_sound, any_complete}

-- An answer says that its body is as long as it is, is not to be stored, and closes the connection.
abbrev pub IsClosing : Text → Written → Type 0
IsClosing body w =
    (w.keepalive ≡ none)
    × Memᴰ {A = Text × Text} (codes "cache-control", codes "no-store") w.headers
    × Memᴰ {A = Text × Text} (codes "content-length", to_decimal (length body)) w.headers

-- A complete response: to HEAD the header alone, which ends it, and to another method the body.
abbrev pub IsComplete : Method → Text → Bool → Option (Text × Bool) → Type 0
IsComplete method body header_ends sent =
    ((is_head method ≡ true) × (header_ends ≡ true) × (sent ≡ none))
    ⊎ ((is_head method ≡ false) × (header_ends ≡ false) × (sent ≡ some (body, true)))

IsComplete-cases :
    (method : Method) (body : Text)
    → IsComplete method body (is_head method) (if is_head method then none else some (body, true))
IsComplete-cases get body = inr (refl, refl, refl)
IsComplete-cases head body = inl (refl, refl, refl)
IsComplete-cases other body = inr (refl, refl, refl)

-- The answer has the content type and the body: the latter is left out for HEAD only.
abbrev pub Sends : Method → Text → Text → Written → Type 0
Sends method content_type body w =
    Memᴰ {A = Text × Text} (codes "content-type", content_type) w.headers
    × IsClosing body w
    × IsComplete method body w.header_ends w.body

-- A GET or HEAD with a media range, among the commas of an `Accept` that is text, that accepts HTML.
abbrev pub WantsPage : (Text → Option Text) → Method → List Text → Type 0
WantsPage to_str method accept =
    (method ≢ other)
    × (value : Text) × Memᴰ value accept
    × (text : Text) × (to_str value ≡ some text)
    × (range : Text) × Memᴰ range (split b',' text)
    × (html_media_range_is_accepted range ≡ true)

known_method :
    (method : Method) {b : Bool}
    → method ≢ other
    → b ≡ true
    → (if is_other method then false else b) ≡ true
known_method get n h = h
known_method head n h = h
known_method other n h = absurd (n refl)

values_sound :
    (to_str : Text → Option Text) (accept : List Text)
    → any (accepts_html to_str) accept ≡ true
    → (value : Text) × Memᴰ value accept
      × (text : Text) × (to_str value ≡ some text)
      × (range : Text) × Memᴰ range (split b',' text)
      × (html_media_range_is_accepted range ≡ true)
values_sound to_str accept h =
    let (value, m, k) = any_sound (accepts_html to_str) accept h in
    elim (Option-cases (to_str value)) [
      | inl e ↦ absurd (cc (rw (e, accepts_html) at k))
      | inr (text, e) ↦
          let (range, r, a) =
            any_sound html_media_range_is_accepted (split b',' text) (rw (e, accepts_html) at k) in
          (value, m, text, e, range, r, a)
    ]

wants_sound :
    (to_str : Text → Option Text) (method : Method) (accept : List Text)
    → prefers_html_loading to_str method accept ≡ true
    → WantsPage to_str method accept
unfolding prefers_html_loading
wants_sound to_str get accept h =
    let (value, m, text, e, range, r, a) = values_sound to_str accept h in
    (λ q. cc, value, m, text, e, range, r, a)
wants_sound to_str head accept h =
    let (value, m, text, e, range, r, a) = values_sound to_str accept h in
    (λ q. cc, value, m, text, e, range, r, a)
wants_sound to_str other accept h = cc

wants_complete :
    (to_str : Text → Option Text) (method : Method) (accept : List Text)
    → WantsPage to_str method accept
    → prefers_html_loading to_str method accept ≡ true
unfolding prefers_html_loading
wants_complete to_str method accept (n, value, m, text, e, range, r, a) =
    let accepted : accepts_html to_str value ≡ true =
      rw (accepts_html, e)
        (any_complete html_media_range_is_accepted range (split b',' text) r a) in
    let some_value = any_complete (accepts_html to_str) value accept m accepted in
    known_method method n some_value

loading_page :
    (to_str : Text → Option Text) (method : Method) (accept : List Text)
    → WantsPage to_str method accept
    → Sends method
        (codes "text/html; charset=utf-8")
        (codes
          "<!doctype html><html><head><meta charset=\"utf-8\"><meta http-equiv=\"refresh\" content=\"5\"><title>Loading</title></head><body>Service is starting.</body></html>\n")
        (write_loading_response to_str method accept)
unfolding write_loading_response
loading_page to_str method accept h =
    rw (write_loading_response, wants_complete to_str method accept h)
      (
        Memᴰ.head refl,
        (
          refl,
          Memᴰ.tail (Memᴰ.tail (Memᴰ.head refl)),
          Memᴰ.tail (Memᴰ.tail (Memᴰ.tail (Memᴰ.head refl))),
        ),
        IsComplete-cases method loading_html_body,
      )

loading_json :
    (to_str : Text → Option Text) (method : Method) (accept : List Text)
    → ¬ WantsPage to_str method accept
    → Sends method
        (codes "application/json")
        (codes "{\"status\":\"loading\",\"retry_after\":5}\n")
        (write_loading_response to_str method accept)
unfolding write_loading_response
loading_json to_str method accept n =
    elim (Bool-cases (prefers_html_loading to_str method accept)) [
      | inl e ↦ absurd (n (wants_sound to_str method accept e))
      | inr e ↦
          rw (write_loading_response, e)
            (
              Memᴰ.head refl,
              (
                refl,
                Memᴰ.tail (Memᴰ.tail (Memᴰ.head refl)),
                Memᴰ.tail (Memᴰ.tail (Memᴰ.tail (Memᴰ.head refl))),
              ),
              IsComplete-cases method loading_json_body,
            )
    ]

-- While the gateway shuts down, a request gets 503 with the text `gateway shutting down`; for an unknown
-- host it gets 421 with the text `unknown host`; and while its service starts, 503 with `Retry-After: 5`
-- and the loading page as HTML, if it is a GET or HEAD with an `Accept` value that is text and has a
-- media range that accepts HTML, and the loading status as JSON otherwise. Each answer closes
-- the connection, is not to be stored, and has the type and the length of its body; the first and the
-- last leave the body out for HEAD, and only then.
pub answers_lem :
    (to_str : Text → Option Text) (method : Method) (accept : List Text)
    → let down = write_shutting_down method in
      let unknown = write_unknown_host in
      let loading = write_loading_response to_str method accept in
      ((down.status ≡ 503)
        × Sends method (codes "text/plain; charset=utf-8") (codes "gateway shutting down\n") down)
      × ((unknown.status ≡ 421)
          × Sends get (codes "text/plain; charset=utf-8") (codes "unknown host\n") unknown)
      × ((loading.status ≡ 503)
          × Memᴰ {A = Text × Text} (codes "retry-after", codes "5") loading.headers
          × (WantsPage to_str method accept
              → Sends method
                  (codes "text/html; charset=utf-8")
                  (codes
                    "<!doctype html><html><head><meta charset=\"utf-8\"><meta http-equiv=\"refresh\" content=\"5\"><title>Loading</title></head><body>Service is starting.</body></html>\n")
                  loading)
          × ((¬ WantsPage to_str method accept)
              → Sends method
                  (codes "application/json")
                  (codes "{\"status\":\"loading\",\"retry_after\":5}\n")
                  loading))
unfolding write_shutting_down write_unknown_host write_loading_response
answers_lem to_str method accept = (
  (
    refl,
    (
      Memᴰ.head refl,
      (refl, Memᴰ.tail (Memᴰ.head refl), Memᴰ.tail (Memᴰ.tail (Memᴰ.head refl))),
      IsComplete-cases method shutting_down_body,
    ),
  ),
  (
    refl,
    (
      Memᴰ.head refl,
      (refl, Memᴰ.tail (Memᴰ.head refl), Memᴰ.tail (Memᴰ.tail (Memᴰ.head refl))),
      IsComplete-cases get unknown_host_body,
    ),
  ),
  (
    refl,
    Memᴰ.tail (Memᴰ.head refl),
    loading_page to_str method accept,
    loading_json to_str method accept,
  ),
)
