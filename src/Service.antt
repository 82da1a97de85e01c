-- ===== src/Service.antt =====
-- application/usecase/cached_ml_execution_service.py of packages/core: the record-or-replay flow.
-- A subclass's hooks are the record `Hooks`, over its own type of commands. Diagnostics are left
-- out, since no branch depends on them. The per-key lock and the shared store lock are held over a
-- single sequence of calls, so they add no step here.
pub mod Extension
pub mod Artifacts
pub mod Serving
pub mod Running
pub mod Offline
pub mod Unstored
pub mod Replay
pub mod Failure
use generic_ml_cache.Prelude.{ℕ, String, Bool, Option, none, some, if◌then◌else◌}
use generic_ml_cache.Errors.{Result, ok, err}
use generic_ml_cache.Domain.{CacheMode, stores_output, MlExecution}
use generic_ml_cache.Domain.Identity.{CallIdentity, generate_key}
use generic_ml_cache.World.{World, Environment, Exec, pure, ask, lift, fail_on, ◌>>=◌, ◌>>◌}
use generic_ml_cache.Service.Extension.{Hooks}
use generic_ml_cache.Service.Serving.{serve_offline, serve_current_if_healthy}
use generic_ml_cache.Service.Running.{run_uncacheable, run_metered, run_fresh_locked}

module _ (env : Environment) {Command : Type 0} (hooks : Hooks Command) where
  fresh_unless : Command → CallIdentity → String → Option MlExecution → Exec MlExecution
  unfolding run_fresh_locked
  fresh_unless command identity key (some e) = pure e
  fresh_unless command identity key none = run_fresh_locked env hooks command identity key

  -- The encryption-token gate, for every call that reads or writes content.
  content_gate : Command → Exec (Unit {0})
  content_gate command =
      if stores_output (hooks.persistence_depth command)
      then (do fault ← ask env.content_gate; fail_on fault)
      else pure tt

  -- A call that is not OFFLINE: METER runs and stores nothing, CACHE serves what it can, REFRESH
  -- always runs.
  online : Command → CallIdentity → String → CacheMode → Exec MlExecution
  unfolding fresh_unless run_metered serve_current_if_healthy
  online command identity key mode =
      if stores_output (hooks.persistence_depth command)
      then elim mode [
        | CacheMode.cache ↦ do
          served ← serve_current_if_healthy env hooks command key
          fresh_unless command identity key served
        | _ ↦ run_fresh_locked env hooks command identity key
      ]
      else run_metered env hooks command identity key

  by_mode : Command → CallIdentity → String → CacheMode → Exec MlExecution
  unfolding online serve_offline
  by_mode command identity key CacheMode.offline = serve_offline env hooks command key
  by_mode command identity key mode = online command identity key mode

  -- The body of `execute`, once the key is known.
  unfoldable pub execute_keyed : Command → CallIdentity → String → Exec MlExecution
  unfolding content_gate by_mode run_uncacheable
  execute_keyed command identity key =
      if hooks.is_uncacheable command
      then run_uncacheable env hooks command identity key
      else do content_gate command; by_mode command identity key (hooks.cache_mode command)

  unfoldable pub execute : Command → Exec MlExecution
  unfolding execute_keyed
  execute command = do
    built ← ask (hooks.build_identity command)
    identity ← lift built
    execute_keyed command identity (generate_key env.sha256 identity)
