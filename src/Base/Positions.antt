-- ===== src/Base/Positions.antt =====
-- Elements of a list by their position, as a native number.
use Prim.Native.Nat.{ℕ, zero, suc, ◌<◌}
use mathlib.Core.Path.{◌≡◌, refl, ap, subst, ◌∙◌}
use mathlib.Core.Logic.{◌⊎◌, inl, inr}
use mathlib.Core.Option.{Option, none, some}
use mathlib.Core.List.{List, [], ◌∷◌, map}
use native.Mathlib.Omega.{arith}
use roused.Base.Lists.{All, length}

module _ {ℓ} {A : Type ℓ} where
  abbrev pub get_elem? : List A → ℕ → Option A
  get_elem? [] i = none
  get_elem? (x ∷ xs) zero = some x
  get_elem? (x ∷ xs) (suc i) = get_elem? xs i

  abbrev pub set : List A → ℕ → A → List A
  set [] i y = []
  set (x ∷ xs) zero y = y ∷ xs
  set (x ∷ xs) (suc i) y = x ∷ set xs i y

  -- What is found after a change is the new element, at its place, or was there before.
  pub get_elem?-set :
      (xs : List A) (i j : ℕ) (y z : A)
      → get_elem? (set xs i y) j ≡ some z
      → ((i ≡ j) × (y ≡ z)) ⊎ (get_elem? xs j ≡ some z)
  get_elem?-set [] i j y z h = inr h
  get_elem?-set (x ∷ xs) zero zero y z h = inl (refl, cc)
  get_elem?-set (x ∷ xs) zero (suc j) y z h = inr h
  get_elem?-set (x ∷ xs) (suc i) zero y z h = inr h
  get_elem?-set (x ∷ xs) (suc i) (suc j) y z h = elim (get_elem?-set xs i j y z h) [
    | inl (e, f) ↦ inl (ap suc e, f)
    | inr e ↦ inr e
  ]

  pub All-get_elem? {κ} :
      (P : A → Type κ) (xs : List A) (i : ℕ) (x : A) → All P xs → get_elem? xs i ≡ some x → P x
  All-get_elem? P [] i x h e = absurd cc
  All-get_elem? P (y ∷ xs) zero x h e = subst P (cc) h.0
  All-get_elem? P (y ∷ xs) (suc i) x h e = All-get_elem? P xs i x h.1 e

  pub All-set {κ} :
      (P : A → Type κ) (xs : List A) (i : ℕ) (y : A) → All P xs → P y → All P (set xs i y)
  All-set P [] i y h p = tt
  All-set P (x ∷ xs) zero y h p = (p, h.1)
  All-set P (x ∷ xs) (suc i) y h p = (h.0, All-set P xs i y h.1 p)

-- A change that a function does not see.
pub map-set {ℓ κ} :
    {A : Type ℓ} {B : Type κ} (f : A → B) (xs : List A) (i : ℕ) (x y : A)
    → get_elem? xs i ≡ some x
    → f y ≡ f x
    → map f (set xs i y) ≡ map f xs
map-set f [] i x y e h = refl
map-set f (z ∷ xs) zero x y e h = let is : x ≡ z = cc in ap (λ w. w ∷ map f xs) (h ∙ ap f is)
map-set f (z ∷ xs) (suc i) x y e h = ap (λ ys. f z ∷ ys) (map-set f xs i x y e h)

pub get_elem?-lt {ℓ} :
    {A : Type ℓ} (xs : List A) (i : ℕ) (x : A) → get_elem? xs i ≡ some x → i < length xs
get_elem?-lt [] i x e = absurd (cc)
get_elem?-lt (y ∷ xs) zero x e = omega arith
get_elem?-lt (y ∷ xs) (suc i) x e = omega (arith, get_elem?-lt xs i x e)

pub length-set {ℓ} : {A : Type ℓ} (xs : List A) (i : ℕ) (y : A) → length (set xs i y) ≡ length xs
length-set [] i y = refl
length-set (x ∷ xs) zero y = refl
length-set (x ∷ xs) (suc i) y = ap suc (length-set xs i y)
