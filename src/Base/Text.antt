-- ===== src/Base/Text.antt =====
-- Strings as lists of code points, byte strings as lists of bytes, and `std`'s operations on them.
pub mod Lower
pub mod Equality
use Prim.Native.Nat.{ℕ, zero, suc, ◌+◌, ◌/◌, ◌%◌}
use Prim.Native.Char.{code}
use Prim.Native.String.{String}
use mathlib.Core.List.{List, [], ◌∷◌}
use mathlib.Core.Bool.{Bool, true, false, ◌&&◌, ◌||◌}
use mathlib.Core.Option.{Option, none, some}
use roused.Base.Lists.{all}
use roused.Base.Tests.{ltb, leb, ◌==◌, if◌then◌else◌}

abbrev pub Text : Type 0
Text = List ℕ

abbrev pub codes : String → Text
codes String.[] = []
codes (String.◌∷◌ c s) = code c ∷ codes s

-- `Display` of an unsigned integer, by at most `fuel` digits.
unfoldable pub digits_onto : ℕ → ℕ → Text → Text
digits_onto zero n rest = rest
digits_onto (suc fuel) n rest =
    let digit = b'0' + n % 10 in
    let more = digits_onto fuel (n / 10) (digit ∷ rest) in if ltb n 10 then digit ∷ rest else more

-- No integer of the program is wider than 64 bits, so 20 digits are enough.
unfoldable pub to_decimal : ℕ → Text
unfolding digits_onto
to_decimal n = digits_onto 20 n []

-- `==` on strings and byte strings.
unfoldable pub text_eq : Text → Text → Bool
text_eq [] [] = true
text_eq [] (d ∷ t) = false
text_eq (c ∷ s) [] = false
text_eq (c ∷ s) (d ∷ t) = c == d && text_eq s t

abbrev pub contains : ℕ → Text → Bool
contains c [] = false
contains c (d ∷ t) = d == c || contains c t

abbrev pub is_empty : Text → Bool
is_empty [] = true
is_empty (c ∷ t) = false

-- `starts_with` and `ends_with` of one character.
abbrev pub starts_with : ℕ → Text → Bool
starts_with c [] = false
starts_with c (d ∷ t) = d == c

abbrev pub ends_with : ℕ → Text → Bool
ends_with c [] = false
ends_with c (d ∷ []) = d == c
ends_with c (d ∷ t) = ends_with c t

-- The text without its last character.
abbrev pub but_last : Text → Text
but_last [] = []
but_last (d ∷ []) = []
but_last (d ∷ t) = d ∷ but_last t

-- `s.strip_suffix(c).unwrap_or(s)`.
abbrev pub without_suffix : ℕ → Text → Text
without_suffix c t = if ends_with c t then but_last t else t

-- What a piece gains in front.
abbrev pub onto_first : ℕ → List Text → List Text
onto_first c [] = (c ∷ []) ∷ []
onto_first c (piece ∷ pieces) = (c ∷ piece) ∷ pieces

-- `str::split` and `slice::split` at a character: one piece more than there are separators.
unfoldable pub split : ℕ → Text → List Text
split sep [] = [] ∷ []
split sep (c ∷ t) = if c == sep then [] ∷ split sep t else onto_first c (split sep t)

abbrev pub is_ascii : Text → Bool
is_ascii t = all (λ c. ltb c 128) t

abbrev pub is_ascii_digit : ℕ → Bool
is_ascii_digit c = leb b'0' c && leb c b'9'

abbrev pub is_ascii_lowercase : ℕ → Bool
is_ascii_lowercase c = leb b'a' c && leb c b'z'

abbrev pub is_ascii_uppercase : ℕ → Bool
is_ascii_uppercase c = leb b'A' c && leb c b'Z'

abbrev pub is_ascii_alphanumeric : ℕ → Bool
is_ascii_alphanumeric c = is_ascii_digit c || (is_ascii_lowercase c || is_ascii_uppercase c)

unfoldable pub lower_char : ℕ → ℕ
lower_char c = if is_ascii_uppercase c then c + 32 else c

unfoldable pub to_ascii_lowercase : Text → Text
unfolding lower_char
to_ascii_lowercase [] = []
to_ascii_lowercase (c ∷ t) = lower_char c ∷ to_ascii_lowercase t

-- The bytes of a code point in UTF-8, and `str::len`.
abbrev pub utf8_width : ℕ → ℕ
utf8_width c = if ltb c 0x80 then 1 else if ltb c 0x800 then 2 else if ltb c 0x10000 then 3 else 4

abbrev pub utf8_len : Text → ℕ
utf8_len [] = 0
utf8_len (c ∷ t) = utf8_width c + utf8_len t
