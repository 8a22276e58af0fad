-- ===== src/Http/Members.antt =====
-- src/proxy.rs, where a test on some value of a header decides: the value that meets it.
use mathlib.Core.List.{Memᴰ}
use roused.Base.{◌≡◌, refl, Bool, true, List, [], ◌∷◌, any, inl, inr, arith, Bool-cases}

pub any_sound :
    {A : Type 0} (p : A → Bool) (xs : List A) → any p xs ≡ true → (x : A) × Memᴰ x xs × (p x ≡ true)
any_sound p [] h = cc
any_sound p (y ∷ xs) h = elim (Bool-cases (p y)) [
  | inl e ↦ (y, Memᴰ.head refl, e)
  | inr e ↦ let (x, m, k) = any_sound p xs (rw e at h) in (x, Memᴰ.tail m, k)
]

pub any_complete :
    {A : Type 0} (p : A → Bool) (x : A) (xs : List A) → Memᴰ x xs → p x ≡ true → any p xs ≡ true
any_complete p x [] m h = elim m [ ]
any_complete p x (y ∷ xs) (Memᴰ.head same) h = rw (← same, h) refl
any_complete p x (y ∷ xs) (Memᴰ.tail m) h =
    let rest = any_complete p x xs m h in ground (arith, rest)
