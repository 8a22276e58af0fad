-- ===== src/Http/Fields.antt =====
-- A header map as the list of its fields, with what the http crate documents: for runs of the code.
use roused.Base.{
  ◌≡◌, refl, sym, false, some, List, [], ◌∷◌, if◌then◌else◌, arith, Bool-cases, inl, inr,
}
use roused.Base.Text.{Text, text_eq, to_ascii_lowercase}
use roused.Base.Text.Equality.{text_eq_refl, text_eq_sound}
use roused.Http.{Headers}

abbrev pub Fields : Type 0
Fields = List (Text × Text)

unfoldable pub values_of : Text → Fields → List Text
values_of n [] = []
values_of n ((k, v) ∷ m) = if text_eq n k then v ∷ values_of n m else values_of n m

unfoldable pub without : Text → Fields → Fields
without n [] = []
without n ((k, v) ∷ m) = if text_eq n k then without n m else (k, v) ∷ without n m

pub values_of-without : (n : Text) (m : Fields) → values_of n (without n m) ≡ []
unfolding values_of without
values_of-without n [] = refl
values_of-without n ((k, v) ∷ m) = ground (arith, values_of-without n m)

pub values_of-without_other :
    (n k : Text) (m : Fields) → text_eq k n ≡ false → values_of k (without n m) ≡ values_of k m
unfolding values_of without
values_of-without_other n k [] h = refl
values_of-without_other n k ((j, v) ∷ m) h = elim (Bool-cases (text_eq n j)) [
  | inl b ↦ rw (b, sym (text_eq_sound n j b), h) (values_of-without_other n k m h)
  | inr b ↦ ground (arith, values_of-without_other n k m h)
]

pub put_first : (n v : Text) (m : Fields) → values_of n ((n, v) ∷ without n m) ≡ v ∷ []
unfolding values_of
put_first n v m = rw (text_eq_refl n, values_of-without n m) refl

pub put_beside :
    (n k v : Text) (m : Fields)
    → text_eq k n ≡ false
    → values_of k ((n, v) ∷ without n m) ≡ values_of k m
unfolding values_of
put_beside n k v m h = rw h (values_of-without_other n k m h)

abbrev pub fields : Headers Fields
fields = record {
  get_all = values_of;
  remove = without;
  insert = λ n v m. (n, v) ∷ without n m;
  parse_name = λ n. some (to_ascii_lowercase n);
  removed = values_of-without;
  not_removed = values_of-without_other;
  inserted = put_first;
  not_inserted = put_beside;
}
