-- ===== src/Service/Running/Frame.antt =====
-- What the paths that run a client leave alone.
use generic_ml_cache.Prelude.{ℕ, String, ◌≡◌}
use generic_ml_cache.Dict.{Dict}
use generic_ml_cache.Domain.{Bytes, CacheMode}
use generic_ml_cache.Domain.Identity.{CallIdentity}
use generic_ml_cache.Repository.{Repository}
use generic_ml_cache.World.{Environment}
use generic_ml_cache.World.Keeps.{Keeps}
use generic_ml_cache.World.Frame.{Ran, ran_rules, Holds, holds_rules}
use generic_ml_cache.Service.Extension.{Hooks}
use generic_ml_cache.Service.Artifacts.Frame.{record_for-Ran, record_for-Holds}
use generic_ml_cache.Service.Running.{
  run_client, run_unstored, uncacheable_by_mode, run_uncacheable, run_metered,
}

module _ (env : Environment) {Command : Type 0} (hooks : Hooks Command) (command : Command) where
  pub run_uncacheable-Ran :
      (identity : CallIdentity) (key : String)
      → hooks.cache_mode command ≡ CacheMode.offline
      → {n : ℕ} → Keeps (Ran n) (run_uncacheable env hooks command identity key)
  unfolding run_uncacheable
  run_uncacheable-Ran identity key offline = rw offline (search (ran_rules, record_for-Ran))

  module _ {r : Repository} {b : Dict Bytes} where
    run_client-Holds : Keeps (Holds r b) (run_client env hooks command)
    unfolding run_client
    run_client-Holds = record { at = λ w h. h }

    run_unstored-Holds :
        (identity : CallIdentity) (key : String)
        → Keeps (Holds r b) (run_unstored env hooks command identity key)
    unfolding run_unstored
    run_unstored-Holds identity key =
        search (holds_rules, run_client-Holds, record_for-Holds) depth 9

    by_mode-Holds :
        (identity : CallIdentity) (key : String) (mode : CacheMode)
        → Keeps (Holds r b) (uncacheable_by_mode env hooks command identity key mode)
    unfolding uncacheable_by_mode
    by_mode-Holds identity key CacheMode.offline = search (holds_rules, record_for-Holds)
    by_mode-Holds identity key mode = run_unstored-Holds identity key

    pub run_uncacheable-Holds :
        (identity : CallIdentity) (key : String)
        → Keeps (Holds r b) (run_uncacheable env hooks command identity key)
    unfolding run_uncacheable
    run_uncacheable-Holds identity key = by_mode-Holds identity key (hooks.cache_mode command)

    pub run_metered-Holds :
        (identity : CallIdentity) (key : String)
        → Keeps (Holds r b) (run_metered env hooks command identity key)
    unfolding run_metered
    run_metered-Holds identity key =
        search (holds_rules, run_client-Holds, record_for-Holds) depth 11
