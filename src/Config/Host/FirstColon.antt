-- ===== src/Config/Host/FirstColon.antt =====
-- An authority parser that splits at the first colon, for runs of the code that calls one: it does what
-- the http crate documents for names.
use roused.Base.{
  ◌≡◌, refl, true, Option, none, some, [], ◌∷◌, ◌++◌, all, ◌==◌, if◌then◌else◌, arith,
}
use roused.Base.Text.{Text, to_decimal}
use roused.Config.Host.{Authority}
use roused.Config.Host.Ports.{ReadsNames, is_host_char}

-- The text before the first colon, and the one after it if there is one.
unfoldable pub read_colon : Text → Text × Option Text
read_colon [] = ([], none)
read_colon (c ∷ t) = if c == b':' then ([], some t) else (c ∷ (read_colon t).0, (read_colon t).1)

unfoldable pub read_authority : Text → Option Authority
read_authority t = some (record { host = (read_colon t).0; port = (read_colon t).1 })

read_colon-name : (t : Text) → all is_host_char t ≡ true → read_colon t ≡ (t, none)
unfolding read_colon
read_colon-name [] h = refl
read_colon-name (c ∷ t) h = ground (arith, read_colon-name t)

read_colon-port :
    (t d : Text) → all is_host_char t ≡ true → read_colon (t ++ b':' ∷ d) ≡ (t, some d)
unfolding read_colon
read_colon-port [] d h = refl
read_colon-port (c ∷ t) d h = ground (arith, read_colon-port t d)

pub reads : ReadsNames read_authority
unfolding read_authority
reads = record {
  alone = λ name e h. rw (read_colon-name name h) refl;
  ported = λ name port e h p. rw (read_colon-port name (to_decimal port) h) refl;
}
