-- ===== src/Gateway/Routes.antt =====
-- src/proxy.rs: the map of the routes, whose keys never change.
use roused.Base.{◌≡◌, refl, sym, false, some, List, [], ◌∷◌, arith, Bool-cases, inl, inr}
use roused.Base.Text.{Text, text_eq}
use roused.Base.Text.Equality.{text_eq_sound}
use roused.Config.{get}
use roused.Gateway.{put}
use roused.Lifecycle.Service.{ServiceLifecycle}

pub get-put_same :
    (k : Text) (s t : ServiceLifecycle) (m : List (Text × ServiceLifecycle))
    → get k m ≡ some t
    → get k (put k s m) ≡ some s
unfolding get put
get-put_same k s t [] h = cc
get-put_same k s t ((j, u) ∷ m) h = ground (arith, get-put_same k s t m)

pub get-put_other :
    (k j : Text) (s : ServiceLifecycle) (m : List (Text × ServiceLifecycle))
    → text_eq k j ≡ false
    → get k (put j s m) ≡ get k m
unfolding get put
get-put_other k j s [] h = refl
get-put_other k j s ((i, u) ∷ m) h = elim (Bool-cases (text_eq j i)) [
  | inl e ↦ rw (e, sym (text_eq_sound j i e), h) refl
  | inr n ↦ ground (arith, get-put_other k j s m h)
]
