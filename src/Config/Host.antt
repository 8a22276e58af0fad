-- ===== src/Config/Host.antt =====
-- src/config.rs, `normalize_authority` and what it calls. `str::parse::<Authority>` of the http crate
-- is the argument `parse_authority`.
pub mod Names
pub mod Ports
pub mod FirstColon
use roused.Base.{
  ℕ, Bool, true, false, not, ◌&&◌, ◌||◌, Option, none, some, List, [], ◌∷◌, ◌>>=◌, ◌==◌, ltb, leb,
  all, if◌then◌else◌, is_some,
}
use roused.Base.Text.{
  Text, is_empty, is_ascii, contains, ends_with, starts_with, without_suffix, split, utf8_len,
  is_ascii_alphanumeric, to_ascii_lowercase, lower_char,
}
use roused.Net.Parse.{parse_ip_addr, parse_u16, readers}

-- The host of an `Authority`, and the text of its port if it has one.
pub record Authority : Type 0 where
  pub host : Text
  pub port : Option Text

-- The test on one label of a name. Each of its characters is ASCII, so that they are its bytes.
unfoldable pub is_valid_label : Text → Bool
is_valid_label label =
    not (is_empty label)
    && (leb (utf8_len label) 63
        && (all (λ byte. is_ascii_alphanumeric byte || byte == b'-') label
            && (not (starts_with b'-' label) && not (ends_with b'-' label))))

-- The checks of `normalize_dns_name` on the name without its terminal dot.
unfoldable pub is_valid_name : Text → Bool
is_valid_name host =
    not (
      is_empty host
      || (ltb 253 (utf8_len host) || (not (is_ascii host) || is_some (parse_ip_addr host))))
    && all is_valid_label (split b'.' host)

unfoldable pub normalize_dns_name : Text → Option Text
normalize_dns_name host =
    let name = without_suffix b'.' host in
    if is_valid_name name then some (to_ascii_lowercase name) else none

-- The port of the authority as a number: an inner `none` where there is none to check, an outer one
-- where the name is refused.
unfoldable pub checked_port : Text → Authority → Option (Option ℕ)
checked_port raw a = elim a.port [
  | some port ↦ do n ← parse_u16 port; some (some n)
  | none ↦ if contains b':' raw then none else some none
]

-- `match (port, allowed_port)`.
unfoldable pub port_allowed : Option ℕ → Option ℕ → Bool
port_allowed none allowed = true
port_allowed (some actual) none = false
port_allowed (some actual) (some expected) = actual == expected

module _ (parse_authority : Text → Option Authority) where
  unfoldable pub normalize_authority : Text → Option ℕ → Option Text
  normalize_authority authority allowed_port =
      let parsed : Option Text = (do
        a ← parse_authority authority
        let rest : Option Text = (do
          port ← checked_port authority a
          if port_allowed port allowed_port then normalize_dns_name a.host else none)
        if ends_with b':' authority then none else rest) in
      if is_empty authority || (not (is_ascii authority) || contains b'@' authority)
      then none
      else parsed

  unfoldable pub normalize_config_host : Text → Option Text
  normalize_config_host host = normalize_authority host none

  unfoldable pub normalize_request_host : Text → ℕ → Option Text
  normalize_request_host host listener_port = normalize_authority host (some listener_port)

-- The functions above, for the modules that run them.
unfoldable pub host_code : Unit {0}
unfolding readers split to_ascii_lowercase lower_char is_valid_label is_valid_name
    normalize_dns_name checked_port port_allowed normalize_authority normalize_config_host
    normalize_request_host
host_code = tt
