-- ===== src/Net/Parse/Typed.antt =====
-- `std::net`'s parser of addresses: its results have the machine types of their fields.
use roused.Base.{
  ℕ, zero, suc, ◌+◌, ◌-◌, ◌<◌, ◌≤◌, ◌^◌, ◌≡◌, refl, subst, inl, inr, Bool, true, false, Option,
  none, some, List, [], ◌∷◌, ◌++◌, All, length, length-append, arith, Bool-cases, Option-cases,
  ◌>>=◌, ltb, ◌==◌,
}
use roused.Base.Text.{Text}
use roused.Net.{IpAddr, v4, v6, SocketAddr}
use roused.Net.Parse.{
  read_number, read_given_char, read_separator, read_ipv4_addr, read_embedded, read_group,
  read_groups, read_compressed, read_ipv6_addr, read_port, read_socket_addr_v4, read_socket_addr_v6,
  parse_socket_addr, groups_of, zeros, read_scope_id, read_octet, or_else, at_end,
}

abbrev pub AllGroups : List ℕ → Type 0
AllGroups gs = All (λ (g : ℕ). g < 2 ^ 16) gs

-- Four octets, or eight groups of 16 bits.
abbrev pub IsIp : IpAddr → Type 0
IsIp (v4 a b c d) = (a < 256) × (b < 256) × (c < 256) × (d < 256)
IsIp (v6 gs) = (length gs ≡ 8) × AllGroups gs

-- An IPv4 address with its octets.
abbrev IsOctets : IpAddr → Type 0
IsOctets (v4 a b c d) = (a < 256) × (b < 256) × (c < 256) × (d < 256)
IsOctets (v6 gs) = ⊥

IsOctets-IsIp : (ip : IpAddr) → IsOctets ip → IsIp ip
IsOctets-IsIp (v4 a b c d) h = h
IsOctets-IsIp (v6 gs) h = absurd h

pub record IsAddr (a : SocketAddr) : Type 0 where
  pub ip : IsIp a.ip
  pub port : a.port < 2 ^ 16
  pub scope : a.scope_id < 2 ^ 32

read_number-lt :
    (hex : Bool) (digits : Option ℕ) (prefixed : Bool) (limit : ℕ) (t : Text) (v : ℕ) (rest : Text)
    → read_number hex digits prefixed limit t ≡ some (v, rest)
    → v < limit
unfolding read_number
read_number-lt hex digits prefixed limit t v rest h = ground arith

-- The first of two readers, one after the other.
then_some {ℓ} :
    {A B : Type ℓ} (o : Option A) (f : A → Option B) (b : B)
    → (o >>= f) ≡ some b
    → (a : A) × (o ≡ some a) × (f a ≡ some b)
then_some none f b h = absurd (cc)
then_some (some a) f b h = (a, refl, h)

some_first {ℓ} :
    {A B : Type ℓ} (x x' : A) (y y' : B)
    → ◌≡◌ {A = Option (A × B)} (some (x, y)) (some (x', y'))
    → x ≡ x'
some_first x x' y y' h = cc

read_ipv4_addr-IsOctets :
    (t : Text) (ip : IpAddr) (rest : Text) → read_ipv4_addr t ≡ some (ip, rest) → IsOctets ip
unfolding read_ipv4_addr
read_ipv4_addr-IsOctets t ip rest h =
    let ((a, t1), ea, h1) = then_some (read_octet t) _ (ip, rest) h in
    let ((u1, t2), e1, h2) = then_some (read_given_char b'.' t1) _ (ip, rest) h1 in
    let ((b, t3), eb, h3) = then_some (read_octet t2) _ (ip, rest) h2 in
    let ((u2, t4), e2, h4) = then_some (read_given_char b'.' t3) _ (ip, rest) h3 in
    let ((c, t5), ec, h5) = then_some (read_octet t4) _ (ip, rest) h4 in
    let ((u3, t6), e3, h6) = then_some (read_given_char b'.' t5) _ (ip, rest) h5 in
    let ((d, t7), ed, h7) = then_some (read_octet t6) _ (ip, rest) h6 in
    let is = some_first (v4 a b c d) ip t7 rest h7 in
    subst IsOctets is (
      read_number-lt false (some 3) false 256 t a t1 ea,
      read_number-lt false (some 3) false 256 t2 b t3 eb,
      read_number-lt false (some 3) false 256 t4 c t5 ec,
      read_number-lt false (some 3) false 256 t6 d t7 ed,
    )

length-zeros : (n : ℕ) → length (zeros n) ≡ n
length-zeros zero = refl
length-zeros (suc n) = omega (arith, length-zeros n)

AllGroups-zeros : (n : ℕ) → AllGroups (zeros n)
AllGroups-zeros zero = tt
AllGroups-zeros (suc n) = (omega arith, AllGroups-zeros n)

AllGroups-append : (xs ys : List ℕ) → AllGroups xs → AllGroups ys → AllGroups (xs ++ ys)
AllGroups-append [] ys h k = k
AllGroups-append (x ∷ xs) ys h k = (h.0, AllGroups-append xs ys h.1 k)

octets-groups :
    (left : ℕ) (ip : IpAddr)
    → 0 < left
    → IsOctets ip
    → (length (groups_of ip) ≤ suc left) × AllGroups (groups_of ip)
octets-groups left (v4 a b c d) p (ha, hb, hc, hd) =
    (omega (arith, p), (omega (arith, ha, hb), (omega (arith, hc, hd), tt)))
octets-groups left (v6 gs) p h = absurd h

-- The two groups of an embedded IPv4 address.
read_embedded-groups :
    (left i : ℕ) (t : Text) (ip : IpAddr) (rest : Text)
    → read_embedded left i t ≡ some (ip, rest)
    → (length (groups_of ip) ≤ suc left) × AllGroups (groups_of ip)
unfolding read_embedded
read_embedded-groups left i t ip rest h = elim (Bool-cases (ltb 0 left)) [
  | inr b ↦ absurd (ground arith)
  | inl b ↦
      let (t1, e, h1) =
        then_some (read_separator b':' i t) read_ipv4_addr (ip, rest) (ground arith) in
      octets-groups left ip (ground arith) (read_ipv4_addr-IsOctets t1 ip rest h1)
]

read_group-lt :
    (i : ℕ) (t : Text) (g : ℕ) (rest : Text) → read_group i t ≡ some (g, rest) → g < 2 ^ 16
unfolding read_group
read_group-lt i t g rest h =
    let (t1, e, h1) = then_some (read_separator b':' i t) _ (g, rest) h in
    read_number-lt true (some 4) true (2 ^ 16) t1 g rest h1

read_groups-typed :
    (left i : ℕ) (t : Text)
    → (length (read_groups left i t).0 ≤ left) × AllGroups (read_groups left i t).0
unfolding read_groups
read_groups-typed zero i t = (omega arith, tt)
read_groups-typed (suc left) i t = elim (Option-cases (read_embedded left i t)) [
  | inr ((ip, t2), e) ↦ rw (e, read_groups) (read_embedded-groups left i t ip t2 e)
  | inl e ↦ elim (Option-cases (read_group i t)) [
    | inl f ↦ rw (e, f, read_groups) (omega arith, tt)
    | inr ((g, t2), f) ↦
        let (n, all) = read_groups-typed left (suc i) t2 in
        rw (e, f, read_groups) (omega (arith, n), (read_group-lt i t g t2 f, all))
  ]
]

read_compressed-IsIp :
    (head : List ℕ) (t : Text) (ip : IpAddr) (rest : Text)
    → length head < 8
    → AllGroups head
    → read_compressed head t ≡ some (ip, rest)
    → IsIp ip
unfolding read_compressed
read_compressed-IsIp head t ip rest few typed h =
    let ((u1, t2), e1, h1) = then_some (read_given_char b':' t) _ (ip, rest) h in
    let ((u2, t3), e2, h2) = then_some (read_given_char b':' t2) _ (ip, rest) h1 in
    let tail = (read_groups (8 - (length head + 1)) 0 t3).0 in
    let fill = zeros (8 - length head - length tail) in
    let is = some_first (v6 (head ++ (fill ++ tail))) ip _ rest h2 in
    let (n, all) = read_groups-typed (8 - (length head + 1)) 0 t3 in
    subst IsIp is (
      omega (
        arith,
        length-append head (fill ++ tail),
        length-append fill tail,
        length-zeros (8 - length head - length tail),
        n,
        few,
      ),
      AllGroups-append head (fill ++ tail) typed
          (AllGroups-append fill tail (AllGroups-zeros (8 - length head - length tail)) all),
    )

read_ipv6_addr-IsIp :
    (t : Text) (ip : IpAddr) (rest : Text) → read_ipv6_addr t ≡ some (ip, rest) → IsIp ip
unfolding read_ipv6_addr
read_ipv6_addr-IsIp t ip rest h =
    let (n, all) = read_groups-typed 8 0 t in
    elim (Bool-cases (length (read_groups 8 0 t).0 == 8)) [
      | inl b ↦
          let is =
            some_first (v6 (read_groups 8 0 t).0) ip (read_groups 8 0 t).2 rest (ground arith) in
          subst IsIp is (ground arith, all)
      | inr b ↦
          read_compressed-IsIp (read_groups 8 0 t).0 (read_groups 8 0 t).2 ip rest
            (ground (arith, n)) all (ground arith)
    ]

read_port-lt : (t : Text) (n : ℕ) (rest : Text) → read_port t ≡ some (n, rest) → n < 2 ^ 16
unfolding read_port
read_port-lt t n rest h =
    let ((u, t1), e, h1) = then_some (read_given_char b':' t) _ (n, rest) h in
    read_number-lt false none true (2 ^ 16) t1 n rest h1

read_scope_id-lt : (t : Text) → (read_scope_id t).0 < 2 ^ 32
read_scope_id-lt t = elim (Option-cases (read_given_char b'%' t)) [
  | inl e ↦ rw (e, read_scope_id) (omega arith)
  | inr ((u, t1), e) ↦ elim (Option-cases (read_number false none true (2 ^ 32) t1)) [
    | inl f ↦ rw (e, f, read_scope_id) (omega arith)
    | inr ((n, rest), f) ↦
        rw (e, f, read_scope_id) (read_number-lt false none true (2 ^ 32) t1 n rest f)
  ]
]

read_socket_addr_v4-IsAddr :
    (t : Text) (a : SocketAddr) (rest : Text) → read_socket_addr_v4 t ≡ some (a, rest) → IsAddr a
unfolding read_socket_addr_v4
read_socket_addr_v4-IsAddr t a rest h =
    let ((ip, t1), e, h1) = then_some (read_ipv4_addr t) _ (a, rest) h in
    let ((port, t2), f, h2) = then_some (read_port t1) _ (a, rest) h1 in
    let is = some_first (record { ip = ip; port = port; scope_id = 0 }) a t2 rest h2 in
    subst IsAddr is (record {
      ip = IsOctets-IsIp ip (read_ipv4_addr-IsOctets t ip t1 e);
      port = read_port-lt t1 port t2 f;
      scope = omega arith;
    })

read_socket_addr_v6-IsAddr :
    (t : Text) (a : SocketAddr) (rest : Text) → read_socket_addr_v6 t ≡ some (a, rest) → IsAddr a
unfolding read_socket_addr_v6
read_socket_addr_v6-IsAddr t a rest h =
    let ((u1, t1), e1, h1) = then_some (read_given_char b'[' t) _ (a, rest) h in
    let ((ip, t2), e, h2) = then_some (read_ipv6_addr t1) _ (a, rest) h1 in
    let ((u2, t4), e2, h3) = then_some (read_given_char b']' (read_scope_id t2).1) _ (a, rest) h2 in
    let ((port, t5), f, h4) = then_some (read_port t4) _ (a, rest) h3 in
    let is =
      some_first (record { ip = ip; port = port; scope_id = (read_scope_id t2).0 }) a t5 rest h4 in
    subst IsAddr is (record {
      ip = read_ipv6_addr-IsIp t1 ip t2 e;
      port = read_port-lt t4 port t5 f;
      scope = read_scope_id-lt t2;
    })

at_end_read :
    (o : Option (SocketAddr × Text)) (a : SocketAddr)
    → at_end o ≡ some a
    → (rest : Text) × (o ≡ some (a, rest))
at_end_read none a h = absurd (cc)
at_end_read (some (b, [])) a h = ([], cc)
at_end_read (some (b, c ∷ t)) a h = absurd (cc)

-- A socket address that is parsed has octets or groups, a port and a scope of their types.
pub parse_socket_addr-IsAddr : (t : Text) (a : SocketAddr) → parse_socket_addr t ≡ some a → IsAddr a
unfolding parse_socket_addr
parse_socket_addr-IsAddr t a h =
    let (rest, e) = at_end_read (or_else (read_socket_addr_v4 t) (read_socket_addr_v6 t)) a h in
    elim (Option-cases (read_socket_addr_v4 t)) [
      | inl n ↦ read_socket_addr_v6-IsAddr t a rest (rw n at e)
      | inr ((b, rest'), f) ↦
          let is = some_first b a rest' rest (rw f at e) in
          subst IsAddr is (read_socket_addr_v4-IsAddr t b rest' f)
    ]
