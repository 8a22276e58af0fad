-- ===== src/Plain/Tests.antt =====
-- src/plain_http.rs: connections of three polls.
use roused.Base.{◌≡◌, refl, true, false, some, [], ◌∷◌, ◌++◌, arith}
use roused.Plain.{
  Poll, pending, peeked, dropped, delegates, ConnectionEnd, process_new, process_new_tls,
  is_tls_handshake, select,
}
use roused.Plain.Delegated.{process_new_ends}

abbrev idle : Poll
idle = record { now = 1; changed = false; peek = pending }

abbrev speaks : Poll
speaks = record { now = 2; changed = false; peek = peeked true b'G' b'E' b'T' }

abbrev late : Poll
late = record { now = 60_000_000_000; changed = false; peek = pending }

process_new_ends_example :
    (end : ConnectionEnd) × (process_new 0 false ((idle ∷ idle ∷ []) ++ late ∷ []) ≡ some end)
process_new_ends_example = process_new_ends 0 false (idle ∷ idle ∷ []) [] late (omega arith)

delegated : process_new 0 false (idle ∷ speaks ∷ []) ≡ some delegates
unfolding process_new select is_tls_handshake
delegated = refl

handshake :
    process_new 0 false (record speaks { peek = peeked true 0x16 0x03 0x01 } ∷ []) ≡ some dropped
unfolding process_new select is_tls_handshake
handshake = refl

-- A stream that ends before three bytes are there goes to the parser, whatever they are.
short :
    process_new 0 false (record speaks { peek = peeked false 0x16 0x03 0 } ∷ []) ≡ some delegates
unfolding process_new select is_tls_handshake
short = refl

too_slow : process_new 0 false (idle ∷ late ∷ []) ≡ some dropped
unfolding process_new select is_tls_handshake
too_slow = refl

shutting_down : process_new_tls true ≡ dropped
unfolding process_new_tls
shutting_down = refl
