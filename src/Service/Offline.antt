-- ===== src/Service/Offline.antt =====
-- cached_ml_execution_service.py: execute in OFFLINE mode, and the number of client runs.
use generic_ml_cache.Prelude.{ℕ, String, ◌≡◌, refl}
use generic_ml_cache.Domain.{CacheMode}
use generic_ml_cache.Domain.Identity.{CallIdentity, generate_key}
use generic_ml_cache.World.{World, Environment}
use generic_ml_cache.World.Keeps.{Keeps, Keeps-if, Keeps-bind, Keeps-lift}
use generic_ml_cache.World.Frame.{Ran, ran_rules, ask-Ran}
use generic_ml_cache.Service.Extension.{Hooks}
use generic_ml_cache.Service.Serving.Frame.{serve_offline-Ran}
use generic_ml_cache.Service.Running.Frame.{run_uncacheable-Ran}
use generic_ml_cache.Service.{content_gate, execute_keyed, execute}

module _ (env : Environment) {Command : Type 0} (hooks : Hooks Command) (command : Command)
    (offline : hooks.cache_mode command ≡ CacheMode.offline) where
  content_gate-Ran : {n : ℕ} → Keeps (Ran n) (content_gate env hooks command)
  unfolding content_gate
  content_gate-Ran = search ran_rules

  execute_keyed-Ran :
      (identity : CallIdentity) (key : String) {n : ℕ}
      → Keeps (Ran n) (execute_keyed env hooks command identity key)
  unfolding execute_keyed
  execute_keyed-Ran identity key =
      Keeps-if (hooks.is_uncacheable command) _ _
        (run_uncacheable-Ran env hooks command identity key offline)
        (Keeps-bind _ _ content_gate-Ran
          (λ _. rw offline (serve_offline-Ran env hooks command key)))

  -- In OFFLINE mode a call runs no client, whatever the store holds, whether it returns or raises,
  -- and whatever faults occur.
  pub execute_offline : (w : World) → (execute env hooks command w).1.runs ≡ w.runs
  unfolding execute
  execute_offline w =
      (Keeps-bind _ _ (ask-Ran (hooks.build_identity command)) (λ built.
          Keeps-bind _ _ (Keeps-lift built)
            (λ identity. execute_keyed-Ran identity (generate_key env.sha256 identity)))).at
        w refl
