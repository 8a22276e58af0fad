-- ===== src/Base/Lists.antt =====
-- Lists measured by native numbers, and predicates on every element.
use Prim.Native.Nat.{ℕ, suc, ◌+◌}
use mathlib.Core.Path.{◌≡◌, subst, sym}
use mathlib.Core.Bool.{Bool, true, false, ◌&&◌, ◌||◌}
use mathlib.Core.List.{List, [], ◌∷◌, ◌++◌, Memᴰ}
use native.Mathlib.Omega.{arith}

module _ {ℓ} {A : Type ℓ} where
  abbrev pub length : List A → ℕ
  length [] = 0
  length (x ∷ xs) = suc (length xs)

  abbrev pub all : (A → Bool) → List A → Bool
  all p [] = true
  all p (x ∷ xs) = p x && all p xs

  abbrev pub any : (A → Bool) → List A → Bool
  any p [] = false
  any p (x ∷ xs) = p x || any p xs

  abbrev pub All {κ} : (A → Type κ) → List A → Type κ
  All P [] = Unit
  All P (x ∷ xs) = P x × All P xs

  pub length-append : (xs ys : List A) → length (xs ++ ys) ≡ length xs + length ys
  length-append [] ys = omega arith
  length-append (x ∷ xs) ys = omega (arith, length-append xs ys)

  pub length-middle :
      (xs : List A) (y : A) (zs : List A) → length (xs ++ y ∷ zs) ≡ length (xs ++ zs) + 1
  length-middle [] y zs = omega arith
  length-middle (x ∷ xs) y zs = omega (arith, length-middle xs y zs)

  -- What holds of all elements holds of one.
  pub All-at {κ} : (P : A → Type κ) {x : A} {xs : List A} → All P xs → Memᴰ x xs → P x
  All-at P h (Memᴰ.head e) = subst P (sym e) h.0
  All-at P h (Memᴰ.tail m) = All-at P h.1 m

  -- One element among the others.
  pub All-middle {κ} :
      (P : A → Type κ) (xs : List A) (y : A) (zs : List A)
      → All P (xs ++ y ∷ zs)
      → P y × All P (xs ++ zs)
  All-middle P [] y zs h = h
  All-middle P (x ∷ xs) y zs h = let (p, rest) = All-middle P xs y zs h.1 in (p, (h.0, rest))

  pub All-insert {κ} :
      (P : A → Type κ) (xs : List A) (y : A) (zs : List A)
      → P y
      → All P (xs ++ zs)
      → All P (xs ++ y ∷ zs)
  All-insert P [] y zs p h = (p, h)
  All-insert P (x ∷ xs) y zs p h = (h.0, All-insert P xs y zs p h.1)

  pub All-map {κ μ} :
      {P : A → Type κ} {Q : A → Type μ} (f : (x : A) → P x → Q x) (xs : List A)
      → All P xs
      → All Q xs
  All-map f [] h = tt
  All-map f (x ∷ xs) h = (f x h.0, All-map f xs h.1)
