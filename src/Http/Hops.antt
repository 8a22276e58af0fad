-- ===== src/Http/Hops.antt =====
-- src/proxy.rs, `strip_request_hop_headers` and `strip_response_hop_headers`: what is left of a header.
use roused.Base.{
  Bool, true, false, ◌&&◌, ◌||◌, List, [], ◌∷◌, ◌≡◌, refl, any, arith, Bool-cases, inl, inr,
  if◌then◌else◌,
}
use roused.Base.Text.{Text, codes, text_eq}
use roused.Base.Text.Equality.{text_eq_sound}
use roused.Http.{
  Headers, connection, upgrade, bounded_names, connection_header_names, remove_all, remove_named,
  strip_request_bounded_headers, strip_request_hop_headers, strip_response_hop_headers,
}

-- The values of a header `n` after the strip: those of the upgrade where it is retained, none for the
-- names `own` of the strip and the names that `Connection` lists, and the old values otherwise.
abbrev pub left_of : Bool → List Text → List Text → Text → List Text → List Text
left_of retain own listed n old =
    if retain && text_eq n upgrade
    then codes "websocket" ∷ []
    else if retain && text_eq n connection
    then codes "Upgrade" ∷ []
    else if any (text_eq n) own || any (text_eq n) listed
    then []
    else old

either :
    (a b : Bool) (old : List Text)
    → (if a then [] else if b then [] else old) ≡ (if b || a then [] else old)
either true true old = refl
either true false old = refl
either false true old = refl
either false false old = refl

-- The removals of a strip, in its order and in that of the list of its names.
gather :
    (c u p b l : Bool) (old : List Text)
    → (if b
        then []
        else if u
        then []
        else if c
        then []
        else if p
        then []
        else if l
        then []
        else old)
      ≡ (if (c || (u || (p || b))) || l then [] else old)
gather true true p true l old = refl
gather true true p false l old = refl
gather true false p true l old = refl
gather true false p false l old = refl
gather false true p true l old = refl
gather false true p false l old = refl
gather false false true true l old = refl
gather false false true false l old = refl
gather false false false true l old = refl
gather false false false false l old = refl

module _ {M : Type 0} (headers : Headers M) where
  pub get_all-remove :
      (k n : Text) (m : M)
      → headers.get_all k (headers.remove n m) ≡ (if text_eq k n then [] else headers.get_all k m)
  get_all-remove k n m = elim (Bool-cases (text_eq k n)) [
    | inl b ↦ rw (b, text_eq_sound k n b) (headers.removed n m)
    | inr b ↦ rw b (headers.not_removed n k m b)
  ]

  pub get_all-insert :
      (k n v : Text) (m : M)
      → headers.get_all k (headers.insert n v m)
        ≡ (if text_eq k n then v ∷ [] else headers.get_all k m)
  get_all-insert k n v m = elim (Bool-cases (text_eq k n)) [
    | inl b ↦ rw (b, text_eq_sound k n b) (headers.inserted n v m)
    | inr b ↦ rw b (headers.not_inserted n k v m b)
  ]

  pub get_all-remove_all :
      (k : Text) (ns : List Text) (m : M)
      → headers.get_all k (remove_all headers ns m)
        ≡ (if any (text_eq k) ns then [] else headers.get_all k m)
  unfolding remove_all
  get_all-remove_all k [] m = refl
  get_all-remove_all k (n ∷ ns) m =
      ground (arith, get_all-remove_all k ns (headers.remove n m), get_all-remove k n m)

  get_all-remove_named :
      (k : Text) (retain : Bool) (ns : List Text) (m : M)
      → (retain && text_eq k upgrade) ≡ false
      → headers.get_all k (remove_named headers retain ns m)
        ≡ (if any (text_eq k) ns then [] else headers.get_all k m)
  unfolding remove_named
  get_all-remove_named k retain [] m h = refl
  get_all-remove_named k retain (n ∷ ns) m h = elim (Bool-cases (retain && text_eq n upgrade)) [
    | inl b ↦ elim (Bool-cases (text_eq k n)) [
      | inl c ↦
          let same : (retain && text_eq k upgrade) ≡ true = rw (text_eq_sound k n c) b in
          absurd (cc (h, same))
      | inr c ↦ rw (b, c) (get_all-remove_named k retain ns m h)
    ]
    | inr b ↦
        rw (b, get_all-remove_named k retain ns (headers.remove n m) h, get_all-remove k n m)
          (either (any (text_eq k) ns) (text_eq k n) (headers.get_all k m))
  ]

  -- After the strip of a request, a header that the gateway retains for an upgrade has the one fixed
  -- value, a hop-by-hop header, a proxy authorization and every header that `Connection` lists have
  -- none, and every other header has the values that it had.
  pub get_all-strip_request :
      (n : Text) (m : M) (retain : Bool)
      → headers.get_all n (strip_request_hop_headers headers m retain)
        ≡ left_of retain
            (connection ∷ upgrade ∷ codes "proxy-authorization" ∷ bounded_names)
            (connection_header_names headers m)
            n
            (headers.get_all n m)
  unfolding strip_request_hop_headers strip_request_bounded_headers
  get_all-strip_request n m false =
      rw
        (
          get_all-remove_all n bounded_names _,
          get_all-remove n upgrade _,
          get_all-remove n connection _,
          get_all-remove n (codes "proxy-authorization") _,
          get_all-remove_named n false (connection_header_names headers m) m refl,
        )
        (gather (text_eq n connection) (text_eq n upgrade) (text_eq n (codes "proxy-authorization"))
          (any (text_eq n) bounded_names) (any (text_eq n) (connection_header_names headers m))
          (headers.get_all n m))
  get_all-strip_request n m true = elim (Bool-cases (text_eq n upgrade)) [
    | inl u ↦ rw (get_all-insert n upgrade (codes "websocket") _, u) refl
    | inr u ↦ elim (Bool-cases (text_eq n connection)) [
      | inl c ↦
          rw
            (
              get_all-insert n upgrade (codes "websocket") _,
              u,
              get_all-insert n connection (codes "Upgrade") _,
              c,
            )
            refl
      | inr c ↦
          rw
            (
              get_all-insert n upgrade (codes "websocket") _,
              u,
              get_all-insert n connection (codes "Upgrade") _,
              c,
              get_all-remove_all n bounded_names _,
              get_all-remove n (codes "proxy-authorization") _,
              get_all-remove_named n true (connection_header_names headers m) m u,
            )
            (gather false false (text_eq n (codes "proxy-authorization"))
              (any (text_eq n) bounded_names) (any (text_eq n) (connection_header_names headers m))
              (headers.get_all n m))
    ]
  ]

  -- The strip of a response does the same, but leaves a proxy authorization that `Connection` does not
  -- list.
  pub get_all-strip_response :
      (n : Text) (m : M) (retain : Bool)
      → headers.get_all n (strip_response_hop_headers headers m retain)
        ≡ left_of retain
            (connection ∷ upgrade ∷ bounded_names)
            (connection_header_names headers m)
            n
            (headers.get_all n m)
  unfolding strip_response_hop_headers
  get_all-strip_response n m false =
      rw
        (
          get_all-remove_all n bounded_names _,
          get_all-remove n upgrade _,
          get_all-remove n connection _,
          get_all-remove_named n false (connection_header_names headers m) m refl,
        )
        (gather (text_eq n connection) (text_eq n upgrade) false (any (text_eq n) bounded_names)
          (any (text_eq n) (connection_header_names headers m)) (headers.get_all n m))
  get_all-strip_response n m true = elim (Bool-cases (text_eq n upgrade)) [
    | inl u ↦ rw (get_all-insert n upgrade (codes "websocket") _, u) refl
    | inr u ↦ elim (Bool-cases (text_eq n connection)) [
      | inl c ↦
          rw
            (
              get_all-insert n upgrade (codes "websocket") _,
              u,
              get_all-insert n connection (codes "Upgrade") _,
              c,
            )
            refl
      | inr c ↦
          rw
            (
              get_all-insert n upgrade (codes "websocket") _,
              u,
              get_all-insert n connection (codes "Upgrade") _,
              c,
              get_all-remove_all n bounded_names _,
              get_all-remove_named n true (connection_header_names headers m) m u,
            )
            (gather false false false (any (text_eq n) bounded_names)
              (any (text_eq n) (connection_header_names headers m)) (headers.get_all n m))
    ]
  ]
