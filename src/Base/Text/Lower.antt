-- ===== src/Base/Text/Lower.antt =====
-- `to_ascii_lowercase` against the other operations on strings.
use Prim.Native.Nat.{ℕ, ◌+◌}
use mathlib.Core.Path.{◌≡◌, refl, sym, ap, ap₂}
use mathlib.Core.Logic.{inl, inr}
use mathlib.Core.Bool.{false, ◌&&◌, ◌||◌}
use mathlib.Core.List.{List, [], ◌∷◌, map}
use native.Mathlib.Omega.{arith}
use roused.Base.Tests.{ltb, ◌==◌, Bool-cases}
use roused.Base.Text.{
  Text, contains, is_empty, starts_with, ends_with, but_last, without_suffix, onto_first, split,
  is_ascii, is_ascii_alphanumeric, is_ascii_uppercase, is_ascii_lowercase, lower_char,
  to_ascii_lowercase, utf8_width, utf8_len,
}

-- The case of the character plays no part.
abbrev pub IsCaseless : ℕ → Type 0
IsCaseless c = (is_ascii_uppercase c ≡ false) × (is_ascii_lowercase c ≡ false)

pub lower_char_idem : (c : ℕ) → lower_char (lower_char c) ≡ lower_char c
unfolding lower_char
lower_char_idem c = ground arith

pub lower_char-eq : (c sep : ℕ) → IsCaseless sep → (lower_char c == sep) ≡ (c == sep)
unfolding lower_char
lower_char-eq c sep h = ground arith

pub lower_char-alphanumeric :
    (c : ℕ) → is_ascii_alphanumeric (lower_char c) ≡ is_ascii_alphanumeric c
unfolding lower_char
lower_char-alphanumeric c = ground arith

lower_char-width : (c : ℕ) → utf8_width (lower_char c) ≡ utf8_width c
unfolding lower_char
lower_char-width c = ground arith

lower_char-ascii : (c : ℕ) → ltb (lower_char c) 128 ≡ ltb c 128
unfolding lower_char
lower_char-ascii c = ground arith

pub lower_idem : (t : Text) → to_ascii_lowercase (to_ascii_lowercase t) ≡ to_ascii_lowercase t
unfolding to_ascii_lowercase
lower_idem [] = refl
lower_idem (c ∷ t) = cc (lower_char_idem c, lower_idem t)

pub is_empty-lower : (t : Text) → is_empty (to_ascii_lowercase t) ≡ is_empty t
unfolding to_ascii_lowercase
is_empty-lower [] = refl
is_empty-lower (c ∷ t) = refl

pub utf8_len-lower : (t : Text) → utf8_len (to_ascii_lowercase t) ≡ utf8_len t
unfolding to_ascii_lowercase
utf8_len-lower [] = refl
utf8_len-lower (c ∷ t) = ap₂ ◌+◌ (lower_char-width c) (utf8_len-lower t)

pub is_ascii-lower : (t : Text) → is_ascii (to_ascii_lowercase t) ≡ is_ascii t
unfolding to_ascii_lowercase
is_ascii-lower [] = refl
is_ascii-lower (c ∷ t) = ap₂ ◌&&◌ (lower_char-ascii c) (is_ascii-lower t)

pub contains-lower :
    (sep : ℕ) (t : Text) → IsCaseless sep → contains sep (to_ascii_lowercase t) ≡ contains sep t
unfolding to_ascii_lowercase
contains-lower sep [] h = refl
contains-lower sep (c ∷ t) h = ap₂ ◌||◌ (lower_char-eq c sep h) (contains-lower sep t h)

pub starts_with-lower :
    (sep : ℕ) (t : Text)
    → IsCaseless sep
    → starts_with sep (to_ascii_lowercase t) ≡ starts_with sep t
unfolding to_ascii_lowercase
starts_with-lower sep [] h = refl
starts_with-lower sep (c ∷ t) h = lower_char-eq c sep h

pub ends_with-lower :
    (sep : ℕ) (t : Text) → IsCaseless sep → ends_with sep (to_ascii_lowercase t) ≡ ends_with sep t
unfolding to_ascii_lowercase
ends_with-lower sep [] h = refl
ends_with-lower sep (c ∷ []) h = lower_char-eq c sep h
ends_with-lower sep (c ∷ d ∷ t) h = ends_with-lower sep (d ∷ t) h

but_last-lower : (t : Text) → but_last (to_ascii_lowercase t) ≡ to_ascii_lowercase (but_last t)
unfolding to_ascii_lowercase
but_last-lower [] = refl
but_last-lower (c ∷ []) = refl
but_last-lower (c ∷ d ∷ t) = ap (◌∷◌ (lower_char c)) (but_last-lower (d ∷ t))

pub without_suffix-lower :
    (sep : ℕ) (t : Text)
    → IsCaseless sep
    → without_suffix sep (to_ascii_lowercase t) ≡ to_ascii_lowercase (without_suffix sep t)
without_suffix-lower sep t h = elim (Bool-cases (ends_with sep t)) [
  | inl e ↦ rw (ends_with-lower sep t h, e) (but_last-lower t)
  | inr e ↦ rw (ends_with-lower sep t h, e) refl
]

onto_first-lower :
    (c : ℕ) (ps : List Text)
    → map to_ascii_lowercase (onto_first c ps)
      ≡ onto_first (lower_char c) (map to_ascii_lowercase ps)
unfolding to_ascii_lowercase
onto_first-lower c [] = refl
onto_first-lower c (p ∷ ps) = refl

pub split-lower :
    (sep : ℕ) (t : Text)
    → IsCaseless sep
    → split sep (to_ascii_lowercase t) ≡ map to_ascii_lowercase (split sep t)
unfolding to_ascii_lowercase split
split-lower sep [] h = refl
split-lower sep (c ∷ t) h = elim (Bool-cases (c == sep)) [
  | inl e ↦ rw (lower_char-eq c sep h, e) (ap (◌∷◌ []) (split-lower sep t h))
  | inr e ↦
      rw (lower_char-eq c sep h, e, split-lower sep t h) (sym (onto_first-lower c (split sep t)))
]
