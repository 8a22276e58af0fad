-- ===== src/Net/Parse/Decimal.antt =====
-- `str::parse::<u16>` of a number that was printed.
use roused.Base.{
  ℕ, zero, suc, ◌+◌, ◌*◌, ◌/◌, ◌%◌, ◌^◌, ◌<◌, ◌≡◌, refl, ◌∙◌, true, false, some, [], ◌∷◌, arith,
  all, ltb, Bool-cases, inl, inr, ◌≢◌,
}
use mathlib.Core.Path.{ap₂}
use native.Mathlib.Nat.{zero-add}
use roused.Base.Text.{Text, is_ascii_digit, digits_onto, to_decimal}
use roused.Net.Parse.{to_digit, read_digits, read_number, parse_u16, without_plus}

-- Ten to the power of the fuel.
abbrev pub cap : ℕ → ℕ
cap zero = 1
cap (suc f) = 10 * cap f

digit_read : (n : ℕ) → n < 10 → to_digit false (b'0' + n) ≡ some n
unfolding to_digit
digit_read n h = ground arith

read_one :
    (v c n : ℕ) (rest : Text)
    → n < 10
    → read_digits false v c ((b'0' + n) ∷ rest) ≡ read_digits false (v * 10 + n) (suc c) rest
unfolding read_digits
read_one v c n rest h = rw (digit_read n h, read_digits) refl

-- Reading the digits of `n` gives `n`, and so many digits more.
pub read_printed :
    (f n c : ℕ) (rest : Text)
    → n < cap f
    → (k : ℕ) × (0 < f → 0 < k)
      × (read_digits false 0 c (digits_onto f n rest) ≡ read_digits false n (k + c) rest)
unfolding digits_onto
read_printed zero n c rest h = let z : n ≡ 0 = omega arith in (0, λ p. p, rw (z, zero-add c) refl)
read_printed (suc f) n c rest h = elim (Bool-cases (ltb n 10)) [
  | inl small ↦ (
    1,
    λ p. omega arith,
    rw small (
        read_one 0 c (n % 10) rest (omega arith)
        ∙ ap₂ (λ v k. read_digits false v k rest) (ground arith) (omega arith)),
  )
  | inr large ↦
      let (k, pos, e) = read_printed f (n / 10) c ((b'0' + n % 10) ∷ rest) (ground arith) in
      (
        suc k,
        λ p. omega arith,
        rw large (
            e
            ∙ (read_one (n / 10) (k + c) (n % 10) rest (omega arith)
                ∙ ap₂ (λ v k. read_digits false v k rest) (omega arith) (omega arith))),
      )
]

all_digits :
    (f n : ℕ) (rest : Text)
    → all is_ascii_digit rest ≡ true
    → all is_ascii_digit (digits_onto f n rest) ≡ true
unfolding digits_onto
all_digits zero n rest h = h
all_digits (suc f) n rest h = ground (arith, all_digits f (n / 10) ((b'0' + n % 10) ∷ rest))

no_plus : (t : Text) → all is_ascii_digit t ≡ true → without_plus t ≡ t
no_plus [] h = refl
no_plus (c ∷ t) h = ground arith

pub decimal_digits : (n : ℕ) → all is_ascii_digit (to_decimal n) ≡ true
unfolding to_decimal
decimal_digits n = all_digits 20 n [] refl

-- A port that was printed reads back as it was.
pub parse-decimal : (n : ℕ) → n < 2 ^ 16 → parse_u16 (to_decimal n) ≡ some n
unfolding parse_u16 to_decimal read_number read_digits
parse-decimal n h =
    let (k, pos, e) = read_printed 20 n 0 [] (omega arith) in
    rw (no_plus (digits_onto 20 n []) (all_digits 20 n [] refl), e) (ground arith)

pub decimal-ne-nil : (n : ℕ) → n < 2 ^ 16 → to_decimal n ≢ []
decimal-ne-nil n h e = absurd (empty_refused (rw e at (parse-decimal n h)))
  where
    empty_refused : parse_u16 [] ≡ some n → ⊥
    empty_refused q = unfold parse_u16 read_number read_digits in cc q
