-- ===== src/Config/Valid.antt =====
-- src/config.rs: what a configuration that is accepted satisfies.
use roused.Base.{
  ℕ, ◌≤◌, ◌<◌, ◌≡◌, refl, subst, ◌≢◌, ◌⊎◌, inl, inr, true, false, Option, none, some, List, [], ◌∷◌,
  arith, ltb, Bool-cases, Option-cases,
}
use roused.Base.Text.{Text}
use roused.Config.{
  RawService, ServiceConfig, ConfigError, Result, ok, err, is_absolute, validate_command,
  validate_listener, validate_service,
}
use roused.Config.Host.{Authority, normalize_config_host, normalize_authority}
use roused.Config.Host.Names.{IsHostname}
use roused.Config.Host.Ports.{normalize_sound}
use roused.Config.Label.{valid_launchd_label}
use roused.Net.{SocketAddr, is_loopback, is_unspecified}
use roused.Net.Parse.{parse_socket_addr}
use roused.Net.Parse.Typed.{IsAddr, parse_socket_addr-IsAddr}

-- The port is fixed, and below 1024 only on a wildcard address.
pub record IsListener (a : SocketAddr) : Type 0 where
  pub fixed : a.port ≢ 0
  pub privileged : (1_024 ≤ a.port) ⊎ (is_unspecified a.ip ≡ true)

-- Without a command, or with an executable at an absolute path.
abbrev pub IsCommand : Option (List Text) → Type 0
IsCommand none = Unit {0}
IsCommand (some []) = ⊥
IsCommand (some (executable ∷ arguments)) = is_absolute executable ≡ true

pub record IsService (s : ServiceConfig) : Type 0 where
  pub hostname : IsHostname s.host
  pub loopback : is_loopback s.upstream.ip ≡ true
  pub port : s.upstream.port ≢ 0
  pub typed : IsAddr s.upstream
  pub label : valid_launchd_label s.launchd_label ≡ true
  pub timeout : 0 < s.idle_timeout_seconds
  pub command : IsCommand s.can_stop_command

pub Result-cases :
    {E A : Type 0} (r : Result E A) → ((a : A) × (r ≡ ok a)) ⊎ ((e : ConfigError E) × (r ≡ err e))
Result-cases (ok a) = inl (a, refl)
Result-cases (err e) = inr (e, refl)

module _ {E : Type 0} where
  pub IsListener-valid :
      (a : SocketAddr) (field : Text) → validate_listener {E = E} a field ≡ ok tt → IsListener a
  unfolding validate_listener
  IsListener-valid a field h = record {
    fixed = ground arith;
    privileged = privileged (Bool-cases (ltb a.port 1_024));
  }
    where
      privileged :
          ((ltb a.port 1_024 ≡ true) ⊎ (ltb a.port 1_024 ≡ false))
          → (1_024 ≤ a.port) ⊎ (is_unspecified a.ip ≡ true)
      privileged (inl low) = inr (ground arith)
      privileged (inr high) = inl (ground arith)

  IsCommand-valid :
      (c : Option (List Text)) (number : ℕ)
      → validate_command {E = E} c number ≡ ok tt
      → IsCommand c
  unfolding validate_command
  IsCommand-valid none number h = tt
  IsCommand-valid (some []) number h = cc
  IsCommand-valid (some (executable ∷ arguments)) number h = ground arith

  pub IsService-valid :
      (parse_authority : Text → Option Authority) (number : ℕ) (raw : RawService)
      (s : ServiceConfig)
      → validate_service {E = E} parse_authority number raw ≡ ok s
      → IsService s
  unfolding validate_service normalize_config_host
  IsService-valid parse_authority number raw s h =
      elim (Option-cases (normalize_authority parse_authority raw.host none)) [
        | inl e ↦ absurd (ground arith)
        | inr (host, e1) ↦ elim (Option-cases (parse_socket_addr raw.upstream)) [
          | inl e ↦ absurd (ground arith)
          | inr (upstream, e2) ↦
              elim (Result-cases (validate_command {E = E} raw.can_stop_command number)) [
                | inr (e, e3) ↦ absurd (ground arith)
                | inl (u, e3) ↦
                    let n = normalize_sound parse_authority raw.host host none e1 in
                    record {
                      hostname = subst IsHostname (ground arith) n.5;
                      loopback = ground arith;
                      port = ground arith;
                      typed =
                          subst IsAddr (ground arith)
                            (parse_socket_addr-IsAddr raw.upstream upstream e2);
                      label = ground arith;
                      timeout = ground arith;
                      command =
                          subst IsCommand (ground arith)
                            (IsCommand-valid raw.can_stop_command number e3);
                    }
              ]
        ]
      ]
