-- ===== src/Net.antt =====
-- `std::net`, as far as the program uses it: addresses and the tests on them.
pub mod Parse
mod Tests
use roused.Base.{ℕ, Bool, false, ◌&&◌, List, [], ◌∷◌, ◌==◌, all}

-- Four octets, or eight 16-bit groups.
pub data IpAddr : Type 0 where
  v4 : ℕ → ℕ → ℕ → ℕ → IpAddr
  v6 : List ℕ → IpAddr

-- The scope of an IPv4 address is 0, and so is the flow label of every parsed address.
pub record SocketAddr : Type 0 where
  pub ip : IpAddr
  pub port : ℕ
  pub scope_id : ℕ

-- All groups but the last are zero, and the last is `n`.
abbrev low_only : ℕ → List ℕ → Bool
low_only n [] = false
low_only n (g ∷ []) = g == n
low_only n (g ∷ gs) = g == 0 && low_only n gs

unfoldable pub is_loopback : IpAddr → Bool
is_loopback (v4 a b c d) = a == 127
is_loopback (v6 gs) = low_only 1 gs

unfoldable pub is_unspecified : IpAddr → Bool
is_unspecified (v4 a b c d) = a == 0 && (b == 0 && (c == 0 && d == 0))
is_unspecified (v6 gs) = all (λ g. g == 0) gs
