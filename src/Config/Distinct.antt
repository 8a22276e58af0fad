-- ===== src/Config/Distinct.antt =====
-- src/config.rs, the loop of `from_toml`: what it has collected after each service.
use mathlib.Core.List.{Perm, perm_middle}
use mathlib.Core.List.Perm
use roused.Base.{
  ℕ, suc, ◌≡◌, refl, sym, subst, ◌≢◌, inl, inr, Bool, true, false, Option, List, [], ◌∷◌, ◌++◌, map,
  All, any, arith, Bool-cases,
}
use roused.Base.Text.{Text, text_eq}
use roused.Base.Text.Equality.{text_eq_refl}
use roused.Config.{
  RawService, ServiceConfig, ok, text_lt, insert, contains_key, ip_eq, addr_eq, validate_service,
  Collected, collect, validate_services,
}
use roused.Config.Host.{Authority}
use roused.Config.Valid.{IsService, IsService-valid, Result-cases}
use roused.Net.{IpAddr, v4, v6, SocketAddr}

-- No two elements have the same `f`.
abbrev pub Distinct {ℓ} : {X : Type 0} {K : Type ℓ} → (X → K) → List X → Type ℓ
Distinct f [] = Unit
Distinct f (x ∷ xs) = All (λ y. f x ≢ f y) xs × Distinct f xs

ip_eq_refl : (a : IpAddr) → ip_eq a a ≡ true
unfolding ip_eq
ip_eq_refl (v4 a b c d) = ground arith
ip_eq_refl (v6 gs) = text_eq_refl gs

addr_eq_refl : (a : SocketAddr) → addr_eq a a ≡ true
unfolding addr_eq
addr_eq_refl a = ground (arith, ip_eq_refl a.ip)

abbrev pub Entry : Type 0
Entry = Text × ServiceConfig

All-insert :
    (P : Entry → Type 0) (k : Text) (v : ServiceConfig) (m : List Entry)
    → P (k, v)
    → All P m
    → All P (insert k v m)
unfolding insert
All-insert P k v [] p h = (p, tt)
All-insert P k v ((j, w) ∷ m) p h = elim (Bool-cases (text_lt k j)) [
  | inl b ↦ rw b (p, h)
  | inr b ↦ rw b (h.0, All-insert P k v m p h.1)
]

Distinct-insert :
    {K : Type 0} (f : Entry → K) (k : Text) (v : ServiceConfig) (m : List Entry)
    → All (λ y. f (k, v) ≢ f y) m
    → Distinct f m
    → Distinct f (insert k v m)
unfolding insert
Distinct-insert f k v [] new h = (tt, tt)
Distinct-insert f k v ((j, w) ∷ m) new h = elim (Bool-cases (text_lt k j)) [
  | inl b ↦ rw b (new, h)
  | inr b ↦ rw b (
    All-insert (λ y. f (j, w) ≢ f y) k v m (λ e. new.0 (sym e)) h.0,
    Distinct-insert f k v m new.1 h.1,
  )
]

insert-perm : (k : Text) (v : ServiceConfig) (m : List Entry) → Perm (insert k v m) ((k, v) ∷ m)
unfolding insert
insert-perm k v [] = Perm.refl _
insert-perm k v ((j, w) ∷ m) = elim (Bool-cases (text_lt k j)) [
  | inl b ↦ rw b (Perm.refl _)
  | inr b ↦ rw b (Perm.trans (Perm.cons (j, w) (insert-perm k v m)) (Perm.swap (k, v) (j, w) m))
]

-- What the loop has collected: services that are valid by themselves, under their hosts, no two with
-- the same host, label or upstream; and all their labels and upstreams are in the sets.
pub record Inv (c : Collected) : Type 0 where
  pub valid : All (λ (e : Entry). (e.0 ≡ e.1.host) × IsService e.1) c.services
  pub hosts : Distinct (λ (e : Entry). e.0) c.services
  pub labels : Distinct (λ (e : Entry). e.1.launchd_label) c.services
  pub upstreams : Distinct (λ (e : Entry). e.1.upstream) c.services
  pub labels_seen : All (λ (e : Entry). any (text_eq e.1.launchd_label) c.labels ≡ true) c.services
  pub upstreams_seen : All (λ (e : Entry). any (addr_eq e.1.upstream) c.upstreams ≡ true) c.services

new_host : (k : Text) (m : List Entry) → contains_key k m ≡ false → All (λ (e : Entry). k ≢ e.0) m
unfolding contains_key
new_host k [] h = tt
new_host k ((j, w) ∷ m) h =
    (λ e. absurd (ground (arith, text_eq_refl k)), new_host k m (ground arith))

-- A value that a set lacks differs from all those that are in it.
new_value :
    {K : Type 0} (eq : K → K → Bool) (f : Entry → K) (k : K) (seen : List K) (m : List Entry)
    → any (eq k) seen ≡ false
    → All (λ e. any (eq (f e)) seen ≡ true) m
    → All (λ e. k ≢ f e) m
new_value eq f k seen [] new h = tt
new_value eq f k seen (e ∷ m) new h =
    (λ same. absurd (ground arith), new_value eq f k seen m new h.1)

seen_more :
    {K : Type 0} (eq : K → K → Bool) (f : Entry → K) (k : K) (seen : List K) (m : List Entry)
    → All (λ e. any (eq (f e)) seen ≡ true) m
    → All (λ e. any (eq (f e)) (k ∷ seen) ≡ true) m
seen_more eq f k seen [] h = tt
seen_more eq f k seen (e ∷ m) h = (ground (arith, h.0), seen_more eq f k seen m h.1)

abbrev pub entries_of : List ServiceConfig → List Entry
entries_of = map (λ s. (s.host, s))

module _ {E : Type 0} where
  -- What `collect` does where it succeeds.
  collect_inversion :
      (c : Collected) (number : ℕ) (s : ServiceConfig) (c' : Collected)
      → collect {E = E} c number s ≡ ok c'
      → (contains_key s.host c.services ≡ false)
        × (any (text_eq s.launchd_label) c.labels ≡ false)
        × (any (addr_eq s.upstream) c.upstreams ≡ false)
        × (c' ≡ record {
          services = insert s.host s c.services;
          labels = s.launchd_label ∷ c.labels;
          upstreams = s.upstream ∷ c.upstreams;
        })
  unfolding collect
  collect_inversion c number s c' h = (ground arith, ground arith, ground arith, ground arith)

  collect-Inv :
      (c : Collected) (number : ℕ) (s : ServiceConfig) (c' : Collected)
      → IsService s
      → collect {E = E} c number s ≡ ok c'
      → Inv c
      → Inv c'
  collect-Inv c number s c' is_service h v =
      let (no_host, no_label, no_upstream, same) = collect_inversion c number s c' h in
      rw same (record {
        valid = All-insert _ s.host s c.services (refl, is_service) v.valid;
        hosts =
            Distinct-insert (λ e. e.0) s.host s c.services (new_host s.host c.services no_host)
              v.hosts;
        labels =
            Distinct-insert (λ e. e.1.launchd_label) s.host s c.services
              (new_value text_eq (λ e. e.1.launchd_label) s.launchd_label c.labels c.services
                no_label v.labels_seen)
              v.labels;
        upstreams =
            Distinct-insert (λ e. e.1.upstream) s.host s c.services
              (new_value addr_eq (λ e. e.1.upstream) s.upstream c.upstreams c.services no_upstream
                v.upstreams_seen)
              v.upstreams;
        labels_seen =
            All-insert (λ e. any (text_eq e.1.launchd_label) (s.launchd_label ∷ c.labels) ≡ true)
              s.host s c.services (rw (text_eq_refl s.launchd_label) refl)
              (seen_more text_eq (λ e. e.1.launchd_label) s.launchd_label c.labels c.services
                v.labels_seen);
        upstreams_seen =
            All-insert (λ e. any (addr_eq e.1.upstream) (s.upstream ∷ c.upstreams) ≡ true) s.host s
              c.services (rw (addr_eq_refl s.upstream) refl)
              (seen_more addr_eq (λ e. e.1.upstream) s.upstream c.upstreams c.services
                v.upstreams_seen);
      })

-- Each raw service passes its checks, the first with the number given, and gives the service of its
-- place in the list.
pub data Validated (E : Type 0) (parse_authority : Text → Option Authority)
    : ℕ → List RawService → List ServiceConfig → Type 0 where
  over : (number : ℕ) → Validated E parse_authority number [] []
  more :
      (number : ℕ) (raw : RawService) (s : ServiceConfig) (raws : List RawService)
      (ss : List ServiceConfig)
      → validate_service {E = E} parse_authority number raw ≡ ok s
      → Validated E parse_authority (suc number) raws ss
      → Validated E parse_authority number (raw ∷ raws) (s ∷ ss)

-- What the loop adds to what was collected, for the raw services that it takes.
pub record Added (E : Type 0) (parse_authority : Text → Option Authority) (number : ℕ)
    (c : Collected) (raws : List RawService) (c' : Collected) : Type 0 where
  pub inv : Inv c'
  pub added : List ServiceConfig
  pub validated : Validated E parse_authority number raws added
  pub all : Perm c'.services (entries_of added ++ c.services)

module _ {E : Type 0} where
  pub loop_adds :
      (parse_authority : Text → Option Authority) (number : ℕ) (c : Collected)
      (raws : List RawService) (c' : Collected)
      → Inv c
      → validate_services {E = E} parse_authority number c raws ≡ ok c'
      → Added E parse_authority number c raws c'
  unfolding validate_services
  loop_adds parse_authority number c [] c' v h = record {
    inv = subst Inv (ground arith) v;
    added = [];
    validated = over number;
    all =
        let same : c ≡ c' = ground arith in
        subst (λ (d : Collected). Perm d.services c.services) same (Perm.refl c.services);
  }
  loop_adds parse_authority number c (raw ∷ raws) c' v h =
      elim (Result-cases (validate_service {E = E} parse_authority number raw)) [
        | inr (e, p) ↦ absurd (ground arith)
        | inl (s, p) ↦ elim (Result-cases (collect {E = E} c number s)) [
          | inr (e, q) ↦ absurd (ground arith)
          | inl (d, q) ↦
              let inv' =
                collect-Inv c number s d (IsService-valid parse_authority number raw s p) q v in
              let a = loop_adds parse_authority (suc number) d raws c' inv' (ground arith) in
              record {
                inv = a.inv;
                added = s ∷ a.added;
                validated = more number raw s raws a.added p a.validated;
                all = Perm.trans a.all (
                    Perm.trans
                      (Perm.append_left (entries_of a.added) (
                        subst (λ (x : Collected). Perm x.services ((s.host, s) ∷ c.services))
                          (sym (collect_inversion c number s d q).3)
                          (insert-perm s.host s c.services)))
                      (perm_middle (entries_of a.added) c.services));
              }
        ]
      ]
