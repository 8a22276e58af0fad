-- ===== src/Config/CompleteTests.antt =====
-- src/config.rs: a configuration with two services passes, by the theorem on what is refused.
use roused.Base.{◌==◌, ap, Bool, true, false, ◌≡◌, ◌≢◌, refl, none, [], ◌∷◌, arith, inl}
use roused.Base.Text.{Text, text_eq}
use roused.Config.{Config, ok, from_raw, config_code}
use roused.Config.Complete.{Differ, from_raw_accepts}
use roused.Config.Distinct.{Validated, over, more}
use roused.Config.Host.FirstColon.{read_authority, reads}
use roused.Config.Load.{starter, starter_first, starter_second}
use roused.Config.Starter.{first, second, starter_config, first_accepted, second_accepted}
use roused.Config.Valid.{IsListener}
use roused.Net.{SocketAddr}

starter-Validated :
    Validated Text read_authority 1 (starter_first ∷ starter_second ∷ []) (first ∷ second ∷ [])
starter-Validated =
    more 1 starter_first first (starter_second ∷ []) (second ∷ [])
      (first_accepted read_authority reads)
      (more 2 starter_second second [] [] (second_accepted read_authority reads) (over 3))

apart : {A : Type 0} (test : A → Bool) (a b : A) → test a ≡ true → test b ≡ false → a ≢ b
apart test a b h k e = let same : test a ≡ test b = ap test e in cc

starter-Differ : Differ (first ∷ second ∷ [])
unfolding text_eq
starter-Differ = record {
  hosts = ((apart (text_eq first.host) first.host second.host refl refl, tt), (tt, tt));
  labels = (
    (apart (text_eq first.launchd_label) first.launchd_label second.launchd_label refl refl, tt),
    (tt, tt),
  );
  upstreams = (
    (apart (λ (a : SocketAddr). a.port == 9_001) first.upstream second.upstream refl refl, tt),
    (tt, tt),
  );
}

starter-IsListener : IsListener starter_config.listen
starter-IsListener = record {
  fixed = λ e. absurd (omega (arith, e));
  privileged = inl (omega arith);
}

from_raw_accepts_example :
    (c : Config) × (from_raw {E = Text} read_authority starter ≡ ok c)
    × (c.listen ≡ starter_config.listen)
    × (c.tls ≡ none)
unfolding config_code
from_raw_accepts_example =
    from_raw_accepts read_authority starter starter_config.listen none (first ∷ second ∷ []) refl
      starter-IsListener refl (λ e. cc) starter-Validated starter-Differ
