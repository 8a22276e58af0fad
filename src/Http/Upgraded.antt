-- ===== src/Http/Upgraded.antt =====
-- src/proxy.rs: `is_valid_websocket_response` and `upstream_response_filter`.
use mathlib.Core.List.{Memᴰ}
use roused.Base.{ℕ, ◌≡◌, refl, Bool, true, false, ◌&&◌, any, ◌==◌, ◌↔◌, arith}
use roused.Base.Text.{Text, codes, to_ascii_lowercase, lower_char, split}
use roused.Base.Text.Equality.{text_eq_sound, text_eq_refl}
use roused.Http.{
  Headers, connection, upgrade, eq_ignore_ascii_case, header_contains_token,
  strip_response_hop_headers, trim_ascii_whitespace,
}
use roused.Http.Members.{any_sound, any_complete}
use roused.Http.Stripped.{IsListed, passed, response_fields, strip_response_hop_headers_lem}

module _ {M : Type 0} (headers : Headers M) where
  unfoldable pub is_valid_websocket_response : ℕ → M → Bool
  unfolding header_contains_token
  is_valid_websocket_response status m =
      status == 101
      && (any (λ value. eq_ignore_ascii_case value (codes "websocket")) (headers.get_all upgrade m)
          && header_contains_token (headers.get_all connection m) (codes "upgrade"))

  -- With the new headers, whether the read timeout of the connection is lifted.
  unfoldable pub upstream_response_filter : Bool → ℕ → M → M × Bool
  unfolding is_valid_websocket_response strip_response_hop_headers
  upstream_response_filter websocket status m =
      let upgraded = websocket && is_valid_websocket_response status m in
      (strip_response_hop_headers headers m upgraded, upgraded)

  -- The response agrees to the switch to a websocket: it is a 101 with an `Upgrade` that is `websocket`
  -- and a `Connection` that has `upgrade` between commas, in any case.
  abbrev pub Agrees : ℕ → M → Type 0
  Agrees status m =
      (status ≡ 101)
      × ((value : Text) × Memᴰ value (headers.get_all (codes "upgrade") m)
          × (to_ascii_lowercase value ≡ codes "websocket"))
      × ((line : Text) × Memᴰ line (headers.get_all (codes "connection") m)
          × (token : Text) × Memᴰ token (split b',' line)
          × (to_ascii_lowercase (trim_ascii_whitespace token) ≡ codes "upgrade"))

  Agrees-sound :
      (status : ℕ) (m : M) → is_valid_websocket_response status m ≡ true → Agrees status m
  unfolding is_valid_websocket_response header_contains_token to_ascii_lowercase lower_char
  Agrees-sound status m h =
      let (value, k, e) =
        any_sound (λ value. eq_ignore_ascii_case value (codes "websocket"))
          (headers.get_all upgrade m) (ground arith) in
      let (line, l, f) =
        any_sound
          (λ line.
            any (λ token. eq_ignore_ascii_case (trim_ascii_whitespace token) (codes "upgrade"))
              (split b',' line))
          (headers.get_all connection m) (ground arith) in
      let (token, t, g) =
        any_sound (λ token. eq_ignore_ascii_case (trim_ascii_whitespace token) (codes "upgrade"))
          (split b',' line) f in
      (
        ground arith,
        (value, k, text_eq_sound (to_ascii_lowercase value) (codes "websocket") e),
        (
          line,
          l,
          token,
          t,
          text_eq_sound (to_ascii_lowercase (trim_ascii_whitespace token)) (codes "upgrade") g,
        ),
      )

  Agrees-complete :
      (status : ℕ) (m : M) → Agrees status m → is_valid_websocket_response status m ≡ true
  unfolding is_valid_websocket_response header_contains_token to_ascii_lowercase lower_char
  Agrees-complete status m (s, (value, k, e), (line, l, token, t, g)) =
      rw
        (
          s,
          any_complete (λ value. eq_ignore_ascii_case value (codes "websocket")) value
              (headers.get_all upgrade m) k (rw e (text_eq_refl (codes "websocket"))),
        )
        (any_complete
          (λ line.
            any (λ token. eq_ignore_ascii_case (trim_ascii_whitespace token) (codes "upgrade"))
              (split b',' line))
          line (headers.get_all connection m) l
          (any_complete
            (λ token. eq_ignore_ascii_case (trim_ascii_whitespace token) (codes "upgrade")) token
            (split b',' line) t (rw g (text_eq_refl (codes "upgrade")))))

  lifted-Agrees :
      (websocket : Bool) (status : ℕ) (m : M)
      → ((websocket && is_valid_websocket_response status m) ≡ true)
        ↔ ((websocket ≡ true) × Agrees status m)
  lifted-Agrees true status m =
      (λ h. (refl, Agrees-sound status m h), λ (h, a). Agrees-complete status m a)
  lifted-Agrees false status m = (λ h. cc, λ (h, a). h)

  -- The read timeout of the connection is lifted exactly when the response to a websocket request agrees
  -- to the switch: a 101 with an `Upgrade: websocket` and a `Connection` that lists `upgrade`. Then
  -- `Connection: Upgrade` and `Upgrade: websocket` alone go downstream in place of those headers, and
  -- otherwise neither. In both cases `Proxy-Connection`, `Keep-Alive`, `Proxy-Authenticate`, `TE`,
  -- `Trailer`, `Transfer-Encoding` and the headers that `Connection` lists do not go downstream, and
  -- every other header has the values that the service sent.
  pub upstream_response_filter_lem :
      (websocket : Bool) (status : ℕ) (m : M) (n : Text)
      → let (filtered, lifted) = upstream_response_filter websocket status m in
        let old = headers.get_all n m in
        ((lifted ≡ true) ↔ ((websocket ≡ true) × Agrees status m))
        × (IsListed headers n m
            → headers.get_all n filtered ≡ passed lifted response_fields n true old)
        × ((¬ IsListed headers n m)
            → headers.get_all n filtered ≡ passed lifted response_fields n false old)
  unfolding upstream_response_filter
  upstream_response_filter_lem websocket status m n =
      let upgraded = websocket && is_valid_websocket_response status m in
      let (listed, other) = strip_response_hop_headers_lem headers n m upgraded in
      (lifted-Agrees websocket status m, listed, other)
