-- ===== src/Config/Host/Ports.antt =====
-- src/config.rs, `normalize_request_host` and `normalize_config_host`: which names they accept.
use roused.Base.{
  ℕ, ◌<◌, ◌^◌, ◌≡◌, refl, ◌≢◌, ◌⊎◌, inl, inr, ◌∙◌, Bool, true, false, ◌||◌, Option, none, some, [],
  ◌∷◌, ◌++◌, arith, all, ◌==◌, ltb, if◌then◌else◌, Option-cases,
}
use roused.Base.Text.{
  Text, is_empty, is_ascii, is_ascii_digit, is_ascii_alphanumeric, contains, ends_with, to_decimal,
}
use roused.Config.Host.{
  Authority, normalize_dns_name, checked_port, port_allowed, normalize_authority,
  normalize_config_host, normalize_request_host,
}
use roused.Config.Host.Names.{IsHostname, normalize_normal}
use roused.Net.Parse.{parse_u16}
use roused.Net.Parse.Decimal.{parse-decimal, decimal_digits, decimal-ne-nil}

-- The name and its port, as a client writes them in `Host`.
abbrev pub with_port : Text → ℕ → Text
with_port name port = name ++ (b':' ∷ to_decimal port)

-- The characters of a host name, in either case.
abbrev pub is_host_char : ℕ → Bool
is_host_char c = is_ascii_alphanumeric c || (c == b'-' || c == b'.')

-- A way to write a name: one that normalizes to it.
abbrev pub Writes : Text → Text → Type 0
Writes host name =
    (host ≢ []) × (all is_host_char host ≡ true) × (normalize_dns_name host ≡ some name)

-- What the http crate documents of `Authority`: a registered name alone is its host, with no port; and
-- before a colon and the digits of a 16-bit port it is the host, with these digits for the port.
pub record ReadsNames (parse_authority : Text → Option Authority) : Type 0 where
  pub alone :
      (name : Text)
      → name ≢ []
      → all is_host_char name ≡ true
      → parse_authority name ≡ some (record { host = name; port = none })
  pub ported :
      (name : Text) (port : ℕ)
      → name ≢ []
      → all is_host_char name ≡ true
      → port < 2 ^ 16
      → parse_authority (with_port name port)
        ≡ some (record { host = name; port = some (to_decimal port) })

-- The authority that the crate reads has no port to check, or the one that is allowed.
abbrev pub HasPort : Authority → Option ℕ → Type 0
HasPort a allowed =
    (a.port ≡ none)
    ⊎ ((port : Text) × (n : ℕ) × (a.port ≡ some port)
        × (parse_u16 port ≡ some n)
        × (allowed ≡ some n))

checked_HasPort :
    (raw : Text) (a : Authority) (port allowed : Option ℕ)
    → checked_port raw a ≡ some port
    → port_allowed port allowed ≡ true
    → HasPort a allowed
unfolding checked_port port_allowed
checked_HasPort raw a port allowed h k = elim (Option-cases a.port) [
  | inl e ↦ inl e
  | inr (t, e) ↦ elim (Option-cases (parse_u16 t)) [
    | inl f ↦ absurd (ground arith)
    | inr (m, f) ↦ elim (Option-cases allowed) [
      | inl g ↦ absurd (ground arith)
      | inr (m', g) ↦ inr (t, m, e, f, ground arith)
    ]
  ]
]

module _ (parse_authority : Text → Option Authority) where
  -- Whatever the http crate reads: a host that is accepted, in a configuration (with no port allowed)
  -- or a request (with that of the listener), has no `@`, its port is missing or the allowed one, and
  -- the result is the normal form of the host that the crate reads.
  pub normalize_sound :
      (raw n : Text) (allowed : Option ℕ)
      → normalize_authority parse_authority raw allowed ≡ some n
      → (a : Authority) × (parse_authority raw ≡ some a)
        × (contains b'@' raw ≡ false)
        × HasPort a allowed
        × (normalize_dns_name a.host ≡ some n)
        × IsHostname n
  unfolding normalize_authority
  normalize_sound raw n allowed h = elim (Option-cases (parse_authority raw)) [
    | inl e ↦ absurd (ground arith)
    | inr (a, e) ↦ elim (Option-cases (checked_port raw a)) [
      | inl f ↦ absurd (ground arith)
      | inr (port, f) ↦
          let v : normalize_dns_name a.host ≡ some n = ground arith in
          (
            a,
            e,
            ground arith,
            checked_HasPort raw a port allowed f (ground arith),
            v,
            (normalize_normal a.host n v).0,
          )
    ]
  ]

-- Characters of names and digits are ASCII, and neither `@` nor `:`.
host_char_plain :
    (c : ℕ)
    → is_host_char c ≡ true
    → (ltb c 128 ≡ true) × ((c == b'@') ≡ false) × ((c == b':') ≡ false)
host_char_plain c h = ground arith

host_plain :
    (t : Text)
    → all is_host_char t ≡ true
    → (is_ascii t ≡ true) × (contains b'@' t ≡ false) × (contains b':' t ≡ false)
host_plain [] h = (refl, refl, refl)
host_plain (c ∷ t) h = ground (arith, host_plain t, host_char_plain c)

no_end : (t : Text) → contains b':' t ≡ false → ends_with b':' t ≡ false
no_end [] h = refl
no_end (c ∷ []) h = ground arith
no_end (c ∷ d ∷ t) h = no_end (d ∷ t) (ground arith)

digit_plain :
    (c : ℕ)
    → is_ascii_digit c ≡ true
    → (ltb c 128 ≡ true) × ((c == b'@') ≡ false) × ((c == b':') ≡ false)
digit_plain c h = ground arith

digits_plain :
    (t : Text)
    → all is_ascii_digit t ≡ true
    → (is_ascii t ≡ true) × (contains b'@' t ≡ false) × (contains b':' t ≡ false)
digits_plain [] h = (refl, refl, refl)
digits_plain (c ∷ t) h = ground (arith, digits_plain t, digit_plain c)

-- A name, a colon and digits: as the tests of `normalize_authority` see them.
ported_plain :
    (t d : Text)
    → (is_ascii t ≡ true) × (contains b'@' t ≡ false)
    → (is_ascii d ≡ true) × (contains b'@' d ≡ false) × (contains b':' d ≡ false)
    → d ≢ []
    → (is_ascii (t ++ b':' ∷ d) ≡ true)
      × (contains b'@' (t ++ b':' ∷ d) ≡ false)
      × (ends_with b':' (t ++ b':' ∷ d) ≡ false)
ported_plain [] [] h k e = absurd (e refl)
ported_plain [] (c ∷ d) h k e = ground (arith, no_end (c ∷ d))
ported_plain (c ∷ []) d h k e = ground (arith, ported_plain [] d (refl, refl) k e)
ported_plain (c ∷ b ∷ t) d h k e = ground (arith, ported_plain (b ∷ t) d (ground arith) k e)

not_empty : (t : Text) → t ≢ [] → is_empty t ≡ false
not_empty [] h = absurd (h refl)
not_empty (c ∷ t) h = refl

append_not_empty : (t d : Text) (c : ℕ) → is_empty (t ++ c ∷ d) ≡ false
append_not_empty [] d c = refl
append_not_empty (b ∷ t) d c = refl

module _ {parse_authority : Text → Option Authority} (reads : ReadsNames parse_authority) where
  pub accepts_alone :
      (n m : Text) (allowed : Option ℕ)
      → Writes n m
      → normalize_authority parse_authority n allowed ≡ some m
  unfolding normalize_authority checked_port port_allowed
  accepts_alone n m allowed (e, h, v) =
      let (a, b, c) = host_plain n h in ground (arith, reads.alone n e h, not_empty n e, no_end n c)

  ported_allowed :
      (n m : Text) (port : ℕ) (allowed : Option ℕ)
      → Writes n m
      → port < 2 ^ 16
      → normalize_authority parse_authority (with_port n port) allowed
        ≡ (if port_allowed (some port) allowed then some m else none)
  unfolding normalize_authority checked_port
  ported_allowed n m port allowed (e, h, v) p =
      let (a, b, c) = host_plain n h in
      let (x, y, z) =
        ported_plain n (to_decimal port) (a, b)
          (digits_plain (to_decimal port) (decimal_digits port)) (decimal-ne-nil port p) in
      rw
        (
          append_not_empty n (to_decimal port) b':',
          x,
          y,
          z,
          reads.ported n port e h p,
          parse-decimal port p,
          v,
        )
        refl

  pub request_accepts :
      (n m : Text) (port : ℕ)
      → Writes n m
      → port < 2 ^ 16
      → (normalize_request_host parse_authority n port ≡ some m)
        × (normalize_request_host parse_authority (with_port n port) port ≡ some m)
  unfolding normalize_request_host port_allowed
  request_accepts n m port w p =
      (accepts_alone n m (some port) w, ported_allowed n m port (some port) w p ∙ ground arith)

  -- A request host that writes a name, in whatever case and with a terminal dot or not, is accepted
  -- alone and with the port of the listener, as that name, and refused with any other port; a
  -- configured host is accepted alone and refused with a port. (The http crate is taken to read names
  -- and ports as it documents.)
  pub host_ports :
      (n m : Text) (listener other : ℕ)
      → Writes n m
      → listener < 2 ^ 16
      → other < 2 ^ 16
      → other ≢ listener
      → (normalize_request_host parse_authority n listener ≡ some m)
        × (normalize_request_host parse_authority (with_port n listener) listener ≡ some m)
        × (normalize_request_host parse_authority (with_port n other) listener ≡ none)
        × (normalize_config_host parse_authority n ≡ some m)
        × (normalize_config_host parse_authority (with_port n listener) ≡ none)
  unfolding normalize_request_host normalize_config_host port_allowed
  host_ports n m listener other w p q ne = (
    accepts_alone n m (some listener) w,
    ported_allowed n m listener (some listener) w p ∙ ground arith,
    ported_allowed n m other (some listener) w q ∙ ground arith,
    accepts_alone n m none w,
    ported_allowed n m listener none w p,
  )
