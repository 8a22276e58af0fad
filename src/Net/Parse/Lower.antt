-- ===== src/Net/Parse/Lower.antt =====
-- The parser of addresses does not see the case of the text.
use roused.Base.{
  ℕ, zero, suc, ◌≡◌, refl, Bool, true, false, Option, none, some, List, [], ◌∷◌, ◌>>=◌, arith, ◌+◌,
  ◌*◌, ◌-◌, ◌^◌, length, Option-cases, Bool-cases, ltb, inl, inr,
}
use roused.Base.Text.{Text, to_ascii_lowercase, lower_char}
use roused.Base.Text.Lower.{IsCaseless, lower_char-eq, starts_with-lower}
use roused.Net.{IpAddr}
use roused.Net.Parse.{
  Reader, to_digit, read_digits, read_number, read_given_char, read_separator, read_ipv4_addr,
  read_groups, read_embedded, read_group, read_compressed, at_end, or_else, read_ipv6_addr,
  parse_ip_addr, radix, read_octet,
}

-- The same value, with what is left in lower case.
abbrev lifted {ℓ} : {A : Type ℓ} → Option (A × Text) → Option (A × Text)
lifted none = none
lifted (some (a, t)) = some (a, to_ascii_lowercase t)

-- A reader that gives the same value on the text in lower case.
abbrev IsBlind : {A : Type 0} → Reader A → Type 0
IsBlind r = (t : Text) → r (to_ascii_lowercase t) ≡ lifted (r t)

bind-lifted :
    {A B : Type 0} (m : Option (A × Text)) (f : A → Reader B)
    → ((a : A) → IsBlind (f a))
    → (lifted m >>= λ x. f x.0 x.1) ≡ lifted (m >>= λ x. f x.0 x.1)
bind-lifted none f h = refl
bind-lifted (some (a, t)) f h = h a t

to_digit-lower : (hex : Bool) (c : ℕ) → to_digit hex (lower_char c) ≡ to_digit hex c
unfolding to_digit lower_char
to_digit-lower hex c = ground arith

read_digits-lower :
    (hex : Bool) (value count : ℕ) (t : Text)
    → read_digits hex value count (to_ascii_lowercase t) ≡ (
      (read_digits hex value count t).0,
      (read_digits hex value count t).1,
      to_ascii_lowercase (read_digits hex value count t).2,
    )
unfolding read_digits to_ascii_lowercase
read_digits-lower hex value count [] = refl
read_digits-lower hex value count (c ∷ t) = elim (Option-cases (to_digit hex c)) [
  | inl e ↦ ground (arith, to_digit-lower hex c)
  | inr (d, e) ↦
      ground
        (arith, to_digit-lower hex c, read_digits-lower hex (value * radix hex + d) (suc count) t)
]

read_number-IsBlind :
    (hex : Bool) (digits : Option ℕ) (zero_prefix : Bool) (limit : ℕ)
    → IsBlind (read_number hex digits zero_prefix limit)
unfolding read_number
read_number-IsBlind hex digits zero_prefix limit t =
    ground (arith, read_digits-lower hex 0 0 t, starts_with-lower b'0' t (refl, refl))

read_given_char-IsBlind : (c : ℕ) → IsCaseless c → IsBlind (read_given_char c)
unfolding read_given_char to_ascii_lowercase
read_given_char-IsBlind c h [] = refl
read_given_char-IsBlind c h (d ∷ t) = ground (arith, lower_char-eq d c h)

read_octet-IsBlind : IsBlind read_octet
read_octet-IsBlind = read_number-IsBlind false (some 3) false 256

dot-IsBlind : IsBlind (read_given_char b'.')
dot-IsBlind = read_given_char-IsBlind b'.' (refl, refl)

colon-IsBlind : IsBlind (read_given_char b':')
colon-IsBlind = read_given_char-IsBlind b':' (refl, refl)

then-IsBlind :
    {A B : Type 0} (m : Reader A) (f : A → Reader B)
    → IsBlind m
    → ((a : A) → IsBlind (f a))
    → IsBlind (λ t. m t >>= λ x. f x.0 x.1)
then-IsBlind m f hm hf t = rw (hm t) (bind-lifted (m t) f hf)

read_ipv4_addr-IsBlind : IsBlind read_ipv4_addr
unfolding read_ipv4_addr
read_ipv4_addr-IsBlind = then-IsBlind read_octet _ read_octet-IsBlind λ a.
    then-IsBlind (read_given_char b'.') _ dot-IsBlind λ u1.
      then-IsBlind read_octet _ read_octet-IsBlind λ b.
        then-IsBlind (read_given_char b'.') _ dot-IsBlind λ u2.
          then-IsBlind read_octet _ read_octet-IsBlind λ c.
            then-IsBlind (read_given_char b'.') _ dot-IsBlind
              λ u3. then-IsBlind read_octet _ read_octet-IsBlind λ d t. refl

-- A reader behind the separator of the item of index `i`.
abbrev behind : {A : Type 0} → ℕ → Reader A → Reader A
behind i r t = do t1 ← read_separator b':' i t; r t1

behind-IsBlind : {A : Type 0} (i : ℕ) (r : Reader A) → IsBlind r → IsBlind (behind i r)
unfolding read_separator
behind-IsBlind zero r h t = h t
behind-IsBlind (suc i) r h t = rw (colon-IsBlind t) (go (read_given_char b':' t))
  where
    go :
        (m : Option (Unit {0} × Text))
        → ((lifted m >>= λ x. some (x.1)) >>= r) ≡ lifted ((m >>= λ x. some (x.1)) >>= r)
    go none = refl
    go (some (u, t1)) = h t1

read_embedded-IsBlind : (left i : ℕ) → IsBlind (read_embedded left i)
unfolding read_embedded
read_embedded-IsBlind left i t = elim (Bool-cases (ltb 0 left)) [
  | inl b ↦ rw b (behind-IsBlind i read_ipv4_addr read_ipv4_addr-IsBlind t)
  | inr b ↦ rw b refl
]

read_group-IsBlind : (i : ℕ) → IsBlind (read_group i)
unfolding read_group
read_group-IsBlind i t =
    behind-IsBlind i (read_number true (some 4) true (2 ^ 16))
      (read_number-IsBlind true (some 4) true (2 ^ 16)) t

read_groups-lower :
    (left i : ℕ) (t : Text)
    → read_groups left i (to_ascii_lowercase t) ≡ (
      (read_groups left i t).0,
      (read_groups left i t).1,
      to_ascii_lowercase (read_groups left i t).2,
    )
unfolding read_groups
read_groups-lower zero i t = refl
read_groups-lower (suc left) i t = elim (Option-cases (read_embedded left i t)) [
  | inr ((addr, t2), e) ↦ ground (arith, read_embedded-IsBlind left i t)
  | inl e ↦ elim (Option-cases (read_group i t)) [
    | inl g ↦ ground (arith, read_embedded-IsBlind left i t, read_group-IsBlind i t)
    | inr ((d, t2), g) ↦ ground (
      arith,
      read_embedded-IsBlind left i t,
      read_group-IsBlind i t,
      read_groups-lower left (suc i) t2,
    )
  ]
]

read_compressed-IsBlind : (head : List ℕ) → IsBlind (read_compressed head)
unfolding read_compressed
read_compressed-IsBlind head = then-IsBlind (read_given_char b':') _ colon-IsBlind λ u1.
    then-IsBlind (read_given_char b':') _ colon-IsBlind
      λ u2 t3. rw (read_groups-lower (8 - (length head + 1)) 0 t3) refl

read_ipv6_addr-IsBlind : IsBlind read_ipv6_addr
unfolding read_ipv6_addr
read_ipv6_addr-IsBlind t = ground (
  arith,
  read_groups-lower 8 0 t,
  read_compressed-IsBlind (read_groups 8 0 t).0 (read_groups 8 0 t).2,
)

at_end-lower : (m : Option (IpAddr × Text)) → at_end (lifted m) ≡ at_end m
unfolding to_ascii_lowercase
at_end-lower none = refl
at_end-lower (some (a, [])) = refl
at_end-lower (some (a, c ∷ t)) = refl

or_else-lifted :
    (m n : Option (IpAddr × Text)) → or_else (lifted m) (lifted n) ≡ lifted (or_else m n)
or_else-lifted none n = refl
or_else-lifted (some a) n = refl

-- An address is read from a text exactly when it is read from the text in lower case.
pub parse_ip_addr-lower : (t : Text) → parse_ip_addr (to_ascii_lowercase t) ≡ parse_ip_addr t
unfolding parse_ip_addr
parse_ip_addr-lower t =
    rw
      (
        read_ipv4_addr-IsBlind t,
        read_ipv6_addr-IsBlind t,
        or_else-lifted (read_ipv4_addr t) (read_ipv6_addr t),
      )
      (at_end-lower (or_else (read_ipv4_addr t) (read_ipv6_addr t)))
