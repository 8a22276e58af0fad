-- ===== src/Plain.antt =====
-- src/plain_http.rs: what a connection to a listener gets. The wait for the first bytes runs over the
-- polls of its `select!`; what pingora's HTTP parser does with a stream is no part of it.
pub mod Delegated
mod Tests
use roused.Base.{
  ℕ, ◌+◌, Bool, true, false, not, ◌&&◌, ◌||◌, Option, none, some, List, [], ◌∷◌, ◌==◌, leb,
  if◌then◌else◌,
}
use roused.Base.Duration.{from_secs}

abbrev pub tls_prefix_timeout : ℕ
tls_prefix_timeout = from_secs 60

-- `try_peek`: it waits, it has peeked into the buffer of three bytes and says whether it filled it, or
-- it fails.
pub data Peek : Type 0 where
  pending : Peek
  peeked : Bool → ℕ → ℕ → ℕ → Peek
  failed : Peek

-- One poll: the time, whether the shutdown has changed, and the peek.
pub record Poll : Type 0 where
  pub now : ℕ
  pub changed : Bool
  pub peek : Peek

-- The end of `process_new`: the stream is dropped, or goes to the HTTP parser.
pub data ConnectionEnd : Type 0 where
  dropped delegates : ConnectionEnd

unfoldable pub is_tls_handshake : Peek → Bool
is_tls_handshake (peeked filled b0 b1 b2) = filled && (b0 == 0x16 && b1 == 0x03)
is_tls_handshake pending = false
is_tls_handshake failed = false

abbrev pub is_pending : Peek → Bool
is_pending pending = true
is_pending (peeked filled b0 b1 b2) = false
is_pending failed = false

abbrev pub is_failed : Peek → Bool
is_failed failed = true
is_failed pending = false
is_failed (peeked filled b0 b1 b2) = false

-- What is done once the select has ended with the peek.
unfoldable pub after_peek : Peek → ConnectionEnd
unfolding is_tls_handshake
after_peek peek = if is_tls_handshake peek || is_failed peek then dropped else delegates

-- The biased select: the shutdown before the peek, and the peek before its timeout. `none` still waits.
unfoldable pub select : ℕ → List Poll → Option ConnectionEnd
unfolding after_peek
select deadline [] = none
select deadline (p ∷ polls) =
    let rest = select deadline polls in
    if p.changed
    then some dropped
    else if not (is_pending p.peek)
    then some (after_peek p.peek)
    else if leb deadline p.now
    then some dropped
    else rest

-- `PlainHttpApp::process_new` from the time `now`, and that of `TlsHttpApp`.
unfoldable pub process_new : ℕ → Bool → List Poll → Option ConnectionEnd
unfolding select
process_new now shutting_down polls =
    if shutting_down then some dropped else select (now + tls_prefix_timeout) polls

unfoldable pub process_new_tls : Bool → ConnectionEnd
process_new_tls shutting_down = if shutting_down then dropped else delegates
