-- ===== src/Base/Utf8.antt =====
-- UTF-8: `str::as_bytes`, and `str::from_utf8` as a machine that takes one byte at a time.
use mathlib.Core.Bool.{Bool, true, not, ◌&&◌, ◌||◌}
use mathlib.Core.List.{List, [], ◌∷◌, ◌++◌}
use mathlib.Core.Option.{Option, none, some}
use mathlib.Core.Path.{◌≡◌, refl, ap, ◌∙◌}
use native.Mathlib.Omega.{arith}
use Prim.Native.Nat.{ℕ, ◌+◌, ◌-◌, ◌*◌, ◌/◌, ◌%◌}
use roused.Base.Tests.{if◌then◌else◌, ltb, leb, ◌==◌}
use roused.Base.Lists.{all}
use roused.Base.Text.{Text}

abbrev pub is_scalar : ℕ → Bool
is_scalar c = ltb c 0xd800 || (leb 0xe000 c && ltb c 0x110000)

unfoldable pub encode_char : ℕ → List ℕ
encode_char c =
    if ltb c 0x80
    then c ∷ []
    else if ltb c 0x800
    then (0xc0 + c / 64) ∷ (0x80 + c % 64) ∷ []
    else if ltb c 0x10000
    then (0xe0 + c / 4_096) ∷ (0x80 + c / 64 % 64) ∷ (0x80 + c % 64) ∷ []
    else (0xf0 + c / 262_144)
      ∷ (0x80 + c / 4_096 % 64)
      ∷ (0x80 + c / 64 % 64)
      ∷ (0x80 + c % 64)
      ∷ []

unfoldable pub as_bytes : Text → List ℕ
unfolding encode_char
as_bytes [] = []
as_bytes (c ∷ t) = encode_char c ++ as_bytes t

-- The bytes that a character still has to come, its bits so far, and the least character that takes as
-- many bytes.
record Pending : Type 0 where
  more : ℕ
  value : ℕ
  least : ℕ

abbrev start : Pending
start = record { more = 0; value = 0; least = 0 }

-- What the first byte of a character says: the character, or that more is to come.
abbrev first : ℕ → Option (Option ℕ × Pending)
first b =
    if ltb b 0x80
    then some (some b, start)
    else if ltb b 0xc0
    then none
    else if ltb b 0xe0
    then some (none, record { more = 1; value = b - 0xc0; least = 0x80 })
    else if ltb b 0xf0
    then some (none, record { more = 2; value = b - 0xe0; least = 0x800 })
    else if ltb b 0xf8
    then some (none, record { more = 3; value = b - 0xf0; least = 0x10000 })
    else none

abbrev next : Pending → ℕ → Option (Option ℕ × Pending)
next p b =
    let value = p.value * 64 + (b - 0x80) in
    if not (leb 0x80 b && ltb b 0xc0)
    then none
    else if not (p.more == 1)
    then some (none, record p { more = p.more - 1; value = value })
    else if leb p.least value && is_scalar value
    then some (some value, start)
    else none

abbrev step : Pending → ℕ → Option (Option ℕ × Pending)
step p b = if p.more == 0 then first b else next p b

abbrev onto : Option ℕ → Option Text → Option Text
onto (some c) (some t) = some (c ∷ t)
onto none rest = rest
onto (some c) none = none

unfoldable decode : Pending → List ℕ → Option Text
decode p [] = if p.more == 0 then some [] else none
decode p (b ∷ bytes) = elim (step p b) [ none ↦ none | some s ↦ onto s.0 (decode s.1 bytes) ]

unfoldable pub from_utf8 : List ℕ → Option Text
unfolding decode
from_utf8 bytes = decode start bytes

decode-char :
    (c : ℕ) (bytes : List ℕ)
    → is_scalar c ≡ true
    → decode start (encode_char c ++ bytes) ≡ onto (some c) (decode start bytes)
unfolding decode encode_char
decode-char c bytes h = ground arith

-- A text is read back from its bytes.
pub from_utf8-as_bytes : (t : Text) → all is_scalar t ≡ true → from_utf8 (as_bytes t) ≡ some t
unfolding from_utf8 as_bytes decode
from_utf8-as_bytes [] h = refl
from_utf8-as_bytes (c ∷ t) h =
    (let rest : decode start (as_bytes t) ≡ some t = from_utf8-as_bytes t (ground arith) in
      decode-char c (as_bytes t) (ground arith) ∙ ap (onto (some c)) rest)
