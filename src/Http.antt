-- ===== src/Http.antt =====
-- src/proxy.rs: the headers that the gateway takes off a request or a response, and those that it sets.
-- The header map of the http crate, which pingora's `remove_header` and `insert_header` change, is the
-- argument `headers`. Names are in lower case, as `HeaderName` keeps them.
pub mod Hops
pub mod Stripped
pub mod Members
pub mod Loading
pub mod Answers
pub mod Joined
pub mod Upgraded
pub mod Fields
mod Tests
mod AnswerTests
use roused.Base.{
  ℕ, any, ◌==◌, Bool, true, false, not, ◌&&◌, Option, none, some, List, [], ◌∷◌, ◌++◌, ◌≡◌,
  if◌then◌else◌,
}
use roused.Base.Text.{Text, codes, is_empty, text_eq, to_ascii_lowercase, split}

-- `u8::is_ascii_whitespace`.
abbrev is_space : ℕ → Bool
is_space c = any (◌==◌ c) (0x20 ∷ 0x9 ∷ 0xa ∷ 0xc ∷ 0xd ∷ [])

unfoldable trim_start : Text → Text
trim_start [] = []
trim_start (c ∷ t) = if is_space c then trim_start t else c ∷ t

unfoldable trim_end : Text → Text
trim_end [] = []
trim_end (c ∷ t) = let rest = trim_end t in if is_empty rest && is_space c then [] else c ∷ rest

unfoldable pub trim_ascii_whitespace : Text → Text
unfolding trim_start trim_end
trim_ascii_whitespace t = trim_end (trim_start t)

abbrev pub eq_ignore_ascii_case : Text → Text → Bool
eq_ignore_ascii_case t u = text_eq (to_ascii_lowercase t) (to_ascii_lowercase u)

unfoldable pub header_contains_token : List Text → Text → Bool
header_contains_token values expected =
    any
      (λ value.
        any (λ token. eq_ignore_ascii_case (trim_ascii_whitespace token) expected)
          (split b',' value))
      values

-- The operations of a header map and what the http crate documents of them. `parse_name` is
-- `HeaderName::from_bytes`.
pub record Headers (M : Type 0) : Type 0 where
  pub get_all : Text → M → List Text
  pub remove : Text → M → M
  pub insert : Text → Text → M → M
  pub parse_name : Text → Option Text
  pub removed : (n : Text) (m : M) → get_all n (remove n m) ≡ []
  pub not_removed :
      (n k : Text) (m : M) → text_eq k n ≡ false → get_all k (remove n m) ≡ get_all k m
  pub inserted : (n v : Text) (m : M) → get_all n (insert n v m) ≡ v ∷ []
  pub not_inserted :
      (n k v : Text) (m : M) → text_eq k n ≡ false → get_all k (insert n v m) ≡ get_all k m

abbrev pub connection : Text
connection = codes "connection"

abbrev pub upgrade : Text
upgrade = codes "upgrade"

-- The names that are always taken off.
abbrev pub bounded_names : List Text
bounded_names =
    codes "proxy-connection"
    ∷ codes "keep-alive"
    ∷ codes "proxy-authenticate"
    ∷ codes "te"
    ∷ codes "trailer"
    ∷ codes "transfer-encoding"
    ∷ []

abbrev with_name : Option Text → List Text → List Text
with_name none names = names
with_name (some name) names = name ∷ names

module _ {M : Type 0} (headers : Headers M) where
  unfoldable pub names_in : List Text → List Text
  names_in [] = []
  names_in (piece ∷ pieces) =
      with_name (headers.parse_name (trim_ascii_whitespace piece)) (names_in pieces)

  unfoldable pub names_of : List Text → List Text
  unfolding names_in
  names_of [] = []
  names_of (value ∷ values) = names_in (split b',' value) ++ names_of values

  unfoldable pub connection_header_names : M → List Text
  unfolding names_of
  connection_header_names m = names_of (headers.get_all connection m)

  -- The loops of `remove_header`: over all names, and over those that are not the upgrade to retain.
  unfoldable pub remove_all : List Text → M → M
  remove_all [] m = m
  remove_all (n ∷ ns) m = remove_all ns (headers.remove n m)

  unfoldable pub remove_named : Bool → List Text → M → M
  remove_named retain [] m = m
  remove_named retain (n ∷ ns) m =
      remove_named retain ns (if not (retain && text_eq n upgrade) then headers.remove n m else m)

  abbrev set_upgrade : M → M
  set_upgrade m =
      headers.insert upgrade (codes "websocket") (headers.insert connection (codes "Upgrade") m)

  unfoldable pub strip_request_bounded_headers : M → Bool → M
  unfolding remove_all
  strip_request_bounded_headers m retain =
      let kept = if not retain then headers.remove upgrade (headers.remove connection m) else m in
      remove_all bounded_names kept

  unfoldable pub strip_request_hop_headers : M → Bool → M
  unfolding remove_named strip_request_bounded_headers connection_header_names
  strip_request_hop_headers m retain =
      let named = remove_named retain (connection_header_names m) m in
      let rest =
        strip_request_bounded_headers (headers.remove (codes "proxy-authorization") named) retain in
      if retain then set_upgrade rest else rest

  unfoldable pub strip_response_hop_headers : M → Bool → M
  unfolding remove_named remove_all connection_header_names
  strip_response_hop_headers m retain =
      let named = remove_named retain (connection_header_names m) m in
      let kept =
        if not retain then headers.remove upgrade (headers.remove connection named) else named in
      let rest = remove_all bounded_names kept in if retain then set_upgrade rest else rest
