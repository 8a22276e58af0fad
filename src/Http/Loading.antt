-- ===== src/Http/Loading.antt =====
-- src/proxy.rs: `prefers_html_loading`, with the quality as `str::parse::<f32>` reads it. The rounding
-- of the parser is exact: to more than 0 from above 2^-150, and to at most 1 up to 1 + 2^-24. The
-- `to_str` of a value is an argument.
use roused.Base.{
  ℕ, ◌+◌, ◌-◌, ◌*◌, ◌^◌, Bool, true, false, not, ◌&&◌, ◌||◌, Option, none, some, List, [], ◌∷◌,
  ◌==◌, ltb, leb, any, if◌then◌else◌, ◌>>=◌,
}
use roused.Base.Text.{
  Text, codes, is_empty, split, is_ascii_digit, lower_char, to_ascii_lowercase, text_eq,
}
use roused.Config.Label.{is_whitespace}
use roused.Http.{eq_ignore_ascii_case}

-- `str::trim`.
unfoldable pub skip_whitespace : Text → Text
unfolding is_whitespace
skip_whitespace [] = []
skip_whitespace (c ∷ t) = if is_whitespace c then skip_whitespace t else c ∷ t

unfoldable pub drop_trailing : Text → Text
unfolding is_whitespace
drop_trailing [] = []
drop_trailing (c ∷ t) =
    let rest = drop_trailing t in if is_empty rest && is_whitespace c then [] else c ∷ rest

abbrev pub trim : Text → Text
trim t = drop_trailing (skip_whitespace t)

-- `split_once`.
unfoldable pub split_once : ℕ → Text → Option (Text × Text)
split_once sep [] = none
split_once sep (c ∷ t) =
    let rest : Option (Text × Text) = do
      (before, after) ← split_once sep t
      some (c ∷ before, after)
    in if c == sep then some ([], t) else rest

-- The digits in front, as a number onto the one before, how many they are, and what follows.
unfoldable pub read_digits : ℕ → Text → ℕ × ℕ × Text
read_digits n [] = (n, 0, [])
read_digits n (c ∷ t) =
    let (m, count, rest) = read_digits (n * 10 + (c - b'0')) t in
    if is_ascii_digit c then (m, count + 1, rest) else (n, 0, c ∷ t)

-- A decimal: `digits` times ten to the power of `up`, divided by that of `down`.
pub record Decimal : Type 0 where
  pub digits : ℕ
  pub up : ℕ
  pub down : ℕ

-- A sign, and what follows it.
abbrev pub sign : Text → Bool × Text
sign [] = (false, [])
sign (c ∷ t) = if c == b'-' then (true, t) else if c == b'+' then (false, t) else (false, c ∷ t)

abbrev fraction : ℕ → Text → ℕ × ℕ × Text
fraction n [] = (n, 0, [])
fraction n (c ∷ t) = if c == b'.' then read_digits n t else (n, 0, c ∷ t)

abbrev is_exponent : ℕ → Bool
is_exponent c = c == b'e' || c == b'E'

-- The exponent, if the text has one, ends it.
unfoldable pub exponent : ℕ → ℕ → Text → Option Decimal
unfolding read_digits
exponent n down [] = some (record { digits = n; up = 0; down = down })
exponent n down (c ∷ t) =
    let (negative, digits) = sign t in
    let (e, count, rest) = read_digits 0 digits in
    if not (is_exponent c) || (count == 0 || not (is_empty rest))
    then none
    else if negative
    then some (record { digits = n; up = 0; down = down + e })
    else some (record { digits = n; up = e; down = down })

unfoldable pub unsigned_decimal : Text → Option Decimal
unfolding exponent
unsigned_decimal t =
    let (n, count, t1) = read_digits 0 t in
    let (m, down, t2) = fraction n t1 in if count + down == 0 then none else exponent m down t2

-- Above 2^-150 and at most 1 + 2^-24.
unfoldable pub is_quality : Decimal → Bool
is_quality d =
    ltb (10 ^ d.down) (d.digits * 10 ^ d.up * 2 ^ 150)
    && leb (d.digits * 10 ^ d.up * 2 ^ 24) ((2 ^ 24 + 1) * 10 ^ d.down)

-- The value parses, and is above 0 and at most 1. Infinities and NaN are refused with the rest, and so
-- is a negative value.
unfoldable pub quality_is_accepted : Text → Bool
unfolding unsigned_decimal is_quality
quality_is_accepted t =
    let (negative, digits) = sign t in
    elim (unsigned_decimal digits) [ none ↦ false | some d ↦ not negative && is_quality d ]

-- The first parameter of the name `q` decides.
unfoldable pub quality_of_parameters : List Text → Bool
unfolding split_once skip_whitespace drop_trailing quality_is_accepted
quality_of_parameters [] = true
quality_of_parameters (parameter ∷ parameters) =
    let rest = quality_of_parameters parameters in
    elim (split_once b'=' parameter) [
      | none ↦ rest
      | some (name, value) ↦
          if eq_ignore_ascii_case (trim name) (codes "q")
          then quality_is_accepted (trim value)
          else rest
    ]

abbrev of_parts : List Text → Bool
of_parts [] = false
of_parts (value ∷ parameters) =
    eq_ignore_ascii_case (trim value) (codes "text/html") && quality_of_parameters parameters

unfoldable pub html_media_range_is_accepted : Text → Bool
unfolding quality_of_parameters split
html_media_range_is_accepted media_range = of_parts (split b';' media_range)

abbrev pub accepts_html : (Text → Option Text) → Text → Bool
accepts_html to_str value = elim (to_str value) [
  | none ↦ false
  | some text ↦ any html_media_range_is_accepted (split b',' text)
]

pub data Method : Type 0 where
  get head other : Method

abbrev pub is_other : Method → Bool
is_other other = true
is_other get = false
is_other head = false

unfoldable pub prefers_html_loading : (Text → Option Text) → Method → List Text → Bool
unfolding html_media_range_is_accepted
prefers_html_loading to_str method accept =
    if is_other method then false else any (accepts_html to_str) accept

-- The functions above, for the modules that run them.
unfoldable pub loading_code : Unit {0}
unfolding split lower_char to_ascii_lowercase text_eq is_whitespace skip_whitespace drop_trailing
    split_once read_digits exponent unsigned_decimal is_quality quality_is_accepted
    quality_of_parameters html_media_range_is_accepted prefers_html_loading
loading_code = tt
