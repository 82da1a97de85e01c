-- ===== src/Service/Unstored.antt =====
-- cached_ml_execution_service.py: execute on calls that are not to be stored.
use generic_ml_cache.Prelude.{String, ◌≡◌, ◌≢◌, refl, ◌⊎◌, inl, inr, true, false}
use generic_ml_cache.Dict.{Dict}
use generic_ml_cache.Domain.{Bytes, CacheMode, stores_output}
use generic_ml_cache.Domain.Identity.{CallIdentity, generate_key}
use generic_ml_cache.Repository.{Repository}
use generic_ml_cache.World.{World, Environment}
use generic_ml_cache.World.Keeps.{Keeps, Keeps-if, Keeps-bind, Keeps-lift, Keeps-pure}
use generic_ml_cache.World.Frame.{Holds, ask-Holds}
use generic_ml_cache.Service.Extension.{Hooks}
use generic_ml_cache.Service.Running.Frame.{run_uncacheable-Holds, run_metered-Holds}
use generic_ml_cache.Service.{by_mode, execute_keyed, execute}

module _ (env : Environment) {Command : Type 0} (hooks : Hooks Command) (command : Command) where
  -- The call is not cacheable, or it only meters and is not OFFLINE.
  abbrev pub IsUnstored : Type 0
  IsUnstored =
      (hooks.is_uncacheable command ≡ true)
      ⊎ ((stores_output (hooks.persistence_depth command) ≡ false)
          × (hooks.cache_mode command ≢ CacheMode.offline))

  module _ {r : Repository} {b : Dict Bytes} where
    metered-Holds :
        (identity : CallIdentity) (key : String) (mode : CacheMode)
        → stores_output (hooks.persistence_depth command) ≡ false
        → mode ≢ CacheMode.offline
        → Keeps (Holds r b) (by_mode env hooks command identity key mode)
    unfolding by_mode
    metered-Holds identity key CacheMode.offline meter online_ = absurd (online_ refl)
    metered-Holds identity key mode meter online_ =
        rw meter (run_metered-Holds env hooks command identity key)

    execute_keyed-Holds :
        (identity : CallIdentity) (key : String)
        → IsUnstored
        → Keeps (Holds r b) (execute_keyed env hooks command identity key)
    unfolding execute_keyed
    execute_keyed-Holds identity key (inl uncacheable) =
        rw uncacheable (run_uncacheable-Holds env hooks command identity key)
    execute_keyed-Holds identity key (inr (meter, online_)) =
        Keeps-if (hooks.is_uncacheable command) _ _
          (run_uncacheable-Holds env hooks command identity key)
          (Keeps-bind _ _ (rw meter (Keeps-pure tt))
            (λ _. metered-Holds identity key (hooks.cache_mode command) meter online_))

  -- A call that is not cacheable, or that only meters and is not OFFLINE, leaves every stored
  -- execution, tag and blob as it was, whether it returns or raises.
  pub execute_unstored :
      (w : World)
      → IsUnstored
      → let w' = (execute env hooks command w).1 in
        (w'.repository ≡ w.repository) × (w'.blobs ≡ w.blobs)
  unfolding execute
  execute_unstored w unstored =
      (Keeps-bind {P = Holds w.repository w.blobs} _ _ (ask-Holds (hooks.build_identity command))
          (λ built. Keeps-bind _ _ (Keeps-lift built) (λ identity.
            execute_keyed-Holds identity (generate_key env.sha256 identity) unstored))).at
        w (refl, refl)
