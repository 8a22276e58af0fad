-- ===== src/Net/Parse.antt =====
-- `std::net`'s parser of addresses, and `str::parse` of a `u16`. A reader takes the text from its
-- place on, and gives a value with the text that is left; one that fails has read nothing.
pub mod Lower
pub mod Decimal
pub mod Typed
use roused.Base.{
  ℕ, zero, suc, ◌+◌, ◌-◌, ◌*◌, ◌^◌, Bool, true, false, not, ◌&&◌, ◌||◌, Option, none, some, List,
  [], ◌∷◌, ◌++◌, ◌>>=◌, ◌==◌, ltb, leb, length, if◌then◌else◌,
}
use roused.Base.Text.{Text, is_ascii_digit, starts_with, is_ascii_lowercase, is_ascii_uppercase}
use roused.Net.{IpAddr, v4, v6, SocketAddr}

abbrev pub Reader : Type 0 → Type 0
Reader A = Text → Option (A × Text)

-- `char::to_digit(10)` and `char::to_digit(16)`.
unfoldable pub to_digit : Bool → ℕ → Option ℕ
to_digit hex c =
    if is_ascii_digit c
    then some (c - b'0')
    else if hex && (leb b'a' c && leb c b'f')
    then some (c - b'a' + 10)
    else if hex && (leb b'A' c && leb c b'F')
    then some (c - b'A' + 10)
    else none

abbrev radix : Bool → ℕ
radix hex = if hex then 16 else 10

-- The digits at the start of the text: their value, their number and what is left.
unfoldable pub read_digits : Bool → ℕ → ℕ → Text → ℕ × ℕ × Text
read_digits hex value count [] = (value, count, [])
read_digits hex value count (c ∷ t) = elim (to_digit hex c) [
  | none ↦ (value, count, c ∷ t)
  | some d ↦ read_digits hex (value * radix hex + d) (suc count) t
]

-- `read_number`: at most `digits` digits if that is given, a value below `limit`, and no leading zero
-- before another digit where that is not allowed.
unfoldable pub read_number : Bool → Option ℕ → Bool → ℕ → Reader ℕ
read_number hex digits zero_prefix limit t =
    let (value, count, rest) = read_digits hex 0 0 t in
    let too_long = elim digits as (λ d. Bool) [ none ↦ false | some n ↦ ltb n count ] in
    if too_long || (not (ltb value limit) || count == 0)
    then none
    else if not zero_prefix && (starts_with b'0' t && ltb 1 count)
    then none
    else some (value, rest)

unfoldable pub read_given_char : ℕ → Reader (Unit {0})
read_given_char c [] = none
read_given_char c (d ∷ t) = if d == c then some (tt, t) else none

-- `read_separator`: nothing before the item of index 0.
unfoldable pub read_separator : ℕ → ℕ → Text → Option Text
read_separator sep zero t = some t
read_separator sep (suc i) t = do (u, rest) ← read_given_char sep t; some rest

abbrev pub read_octet : Reader ℕ
read_octet = read_number false (some 3) false 256

unfoldable pub read_ipv4_addr : Reader IpAddr
read_ipv4_addr t = do
  (a, t1) ← read_octet t
  (u1, t2) ← read_given_char b'.' t1
  (b, t3) ← read_octet t2
  (u2, t4) ← read_given_char b'.' t3
  (c, t5) ← read_octet t4
  (u3, t6) ← read_given_char b'.' t5
  (d, t7) ← read_octet t6
  some (v4 a b c d, t7)

-- The two groups of an embedded IPv4 address.
abbrev pub groups_of : IpAddr → List ℕ
groups_of (v4 a b c d) = (a * 256 + b) ∷ (c * 256 + d) ∷ []
groups_of (v6 gs) = gs

-- The two things that a slot of `read_groups` may hold, with `left` slots after it, at index `i`.
unfoldable pub read_embedded : ℕ → ℕ → Reader IpAddr
read_embedded left i t =
    if ltb 0 left then (do t1 ← read_separator b':' i t; read_ipv4_addr t1) else none

unfoldable pub read_group : ℕ → Reader ℕ
read_group i t = do t1 ← read_separator b':' i t; read_number true (some 4) true (2 ^ 16) t1

-- `read_groups` with so many groups to fill, from index `i` on: the groups, whether they end in an IPv4
-- address, and what is left.
unfoldable pub read_groups : ℕ → ℕ → Text → List ℕ × Bool × Text
read_groups zero i t = ([], false, t)
read_groups (suc left) i t = elim (read_embedded left i t) [
  | some (addr, t2) ↦ (groups_of addr, true, t2)
  | none ↦ elim (read_group i t) [
    | none ↦ ([], false, t)
    | some (g, t2) ↦ let (gs, ended, rest) = read_groups left (suc i) t2 in (g ∷ gs, ended, rest)
  ]
]

abbrev pub zeros : ℕ → List ℕ
zeros zero = []
zeros (suc n) = 0 ∷ zeros n

-- What follows the groups before `::`.
unfoldable pub read_compressed : List ℕ → Reader IpAddr
read_compressed head t1 = do
  (u1, t2) ← read_given_char b':' t1
  (u2, t3) ← read_given_char b':' t2
  let (tail, ended, t4) = read_groups (8 - (length head + 1)) 0 t3
  some (v6 (head ++ (zeros (8 - length head - length tail) ++ tail)), t4)

unfoldable pub read_ipv6_addr : Reader IpAddr
read_ipv6_addr t =
    let (head, ended, t1) = read_groups 8 0 t in
    if length head == 8 then some (v6 head, t1) else if ended then none else read_compressed head t1

abbrev pub or_else {ℓ} : {A : Type ℓ} → Option A → Option A → Option A
or_else none o = o
or_else (some a) o = some a

abbrev pub at_end {ℓ} : {A : Type ℓ} → Option (A × Text) → Option A
at_end none = none
at_end (some (a, [])) = some a
at_end (some (a, c ∷ t)) = none

-- `str::parse::<IpAddr>`.
unfoldable pub parse_ip_addr : Text → Option IpAddr
parse_ip_addr t = at_end (or_else (read_ipv4_addr t) (read_ipv6_addr t))

unfoldable pub read_port : Reader ℕ
read_port t = do (u, t1) ← read_given_char b':' t; read_number false none true (2 ^ 16) t1

abbrev pub read_scope_id : Text → ℕ × Text
read_scope_id t =
    let read = (do (u, t1) ← read_given_char b'%' t; read_number false none true (2 ^ 32) t1) in
    elim read [ none ↦ (0, t) | some r ↦ r ]

unfoldable pub read_socket_addr_v4 : Reader SocketAddr
read_socket_addr_v4 t = do
  (ip, t1) ← read_ipv4_addr t
  (port, t2) ← read_port t1
  some (record { ip = ip; port = port; scope_id = 0 }, t2)

unfoldable pub read_socket_addr_v6 : Reader SocketAddr
read_socket_addr_v6 t = do
  (u1, t1) ← read_given_char b'[' t
  (ip, t2) ← read_ipv6_addr t1
  let (scope, t3) = read_scope_id t2
  (u2, t4) ← read_given_char b']' t3
  (port, t5) ← read_port t4
  some (record { ip = ip; port = port; scope_id = scope }, t5)

-- `str::parse::<SocketAddr>`.
unfoldable pub parse_socket_addr : Text → Option SocketAddr
parse_socket_addr t = at_end (or_else (read_socket_addr_v4 t) (read_socket_addr_v6 t))

abbrev without_plus : Text → Text
without_plus [] = []
without_plus (c ∷ t) = if c == b'+' then t else c ∷ t

-- `str::parse::<u16>`: digits, after one `+` at most.
unfoldable pub parse_u16 : Text → Option ℕ
parse_u16 t = at_end (read_number false none true (2 ^ 16) (without_plus t))

-- All readers, for the modules that run them.
unfoldable pub readers : Unit {0}
unfolding to_digit read_digits read_number read_given_char read_separator read_ipv4_addr
    read_embedded read_group read_groups read_compressed read_ipv6_addr parse_ip_addr read_port
    read_socket_addr_v4 read_socket_addr_v6 parse_socket_addr parse_u16
readers = tt
