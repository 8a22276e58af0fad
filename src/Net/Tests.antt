-- ===== src/Net/Tests.antt =====
-- The parser of addresses at concrete texts.
use roused.Base.{◌≡◌, refl, none, some, [], ◌∷◌}
use roused.Base.Text.{codes}
use roused.Net.{v4, v6}
use roused.Net.Parse.{parse_ip_addr, parse_socket_addr, parse_u16, readers}

ip_tests :
    (parse_ip_addr (codes "127.0.0.1") ≡ some (v4 127 0 0 1))
    × (parse_ip_addr (codes "127.0.0.01") ≡ none)
    × (parse_ip_addr (codes "127.0.0.256") ≡ none)
    × (parse_ip_addr (codes "::1") ≡ some (v6 (0 ∷ 0 ∷ 0 ∷ 0 ∷ 0 ∷ 0 ∷ 0 ∷ 1 ∷ [])))
    × (parse_ip_addr (codes "::") ≡ some (v6 (0 ∷ 0 ∷ 0 ∷ 0 ∷ 0 ∷ 0 ∷ 0 ∷ 0 ∷ [])))
    × (parse_ip_addr (codes "1:2::fFfF:1.2.3.4")
        ≡ some (v6 (1 ∷ 2 ∷ 0 ∷ 0 ∷ 0 ∷ 0xffff ∷ 0x102 ∷ 0x304 ∷ [])))
    × (parse_ip_addr (codes "1:2:3:4:5:6:7") ≡ none)
    × (parse_ip_addr (codes "alpha.apps.test") ≡ none)
unfolding readers
ip_tests = (refl, refl, refl, refl, refl, refl, refl, refl)

socket_tests :
    (parse_socket_addr (codes "127.0.0.1:8080")
      ≡ some (record { ip = v4 127 0 0 1; port = 8080; scope_id = 0 }))
    × (parse_socket_addr (codes "[::1]:443")
        ≡ some (record { ip = v6 (0 ∷ 0 ∷ 0 ∷ 0 ∷ 0 ∷ 0 ∷ 0 ∷ 1 ∷ []); port = 443; scope_id = 0 }))
    × (parse_socket_addr (codes "localhost:8080") ≡ none)
    × (parse_socket_addr (codes "127.0.0.1:65536") ≡ none)
    × (parse_socket_addr (codes "127.0.0.1") ≡ none)
unfolding readers
socket_tests = (refl, refl, refl, refl, refl)

u16_tests :
    (parse_u16 (codes "8080") ≡ some 8080)
    × (parse_u16 (codes "+80") ≡ some 80)
    × (parse_u16 (codes "99999") ≡ none)
    × (parse_u16 [] ≡ none)
unfolding readers
u16_tests = (refl, refl, refl, refl)
