-- ===== src/Base/Text/Equality.antt =====
-- `text_eq` decides the equality of texts.
use mathlib.Core.Path.{◌≡◌, refl}
use mathlib.Core.Bool.{true}
use mathlib.Core.Logic.{◌↔◌}
use mathlib.Core.List.{[], ◌∷◌}
use native.Mathlib.Omega.{arith}
use roused.Base.Text.{Text, text_eq}

pub text_eq_refl : (t : Text) → text_eq t t ≡ true
unfolding text_eq
text_eq_refl [] = refl
text_eq_refl (c ∷ t) = ground (arith, text_eq_refl t)

pub text_eq_sound : (t u : Text) → text_eq t u ≡ true → t ≡ u
unfolding text_eq
text_eq_sound [] [] h = refl
text_eq_sound [] (d ∷ u) h = cc
text_eq_sound (c ∷ t) [] h = cc
text_eq_sound (c ∷ t) (d ∷ u) h = ground (arith, text_eq_sound t u)

pub text_eq_iff : (t u : Text) → (text_eq t u ≡ true) ↔ (t ≡ u)
text_eq_iff t u = (text_eq_sound t u, λ e. rw e (text_eq_refl u))
