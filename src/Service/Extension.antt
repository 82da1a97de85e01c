-- ===== src/Service/Extension.antt =====
-- What CachedMlExecutionService needs of a command, and the hooks that a concrete kind supplies.
use generic_ml_cache.Prelude.{ℕ, String, Bool, Option, List}
use generic_ml_cache.Errors.{Result}
use generic_ml_cache.Domain.{Bytes, CacheMode, PersistenceDepth, ArtifactType, ClientRunResult}
use generic_ml_cache.Domain.Kind.{ExecutionKind}
use generic_ml_cache.Domain.Identity.{CallIdentity}
use generic_ml_cache.World.{Exec}

pub record Hooks (Command : Type 0) : Type 0 where
  pub cache_mode : Command → CacheMode
  pub persistence_depth : Command → PersistenceDepth
  pub session_id : Command → Option String
  pub should_persist : Command → Bool → Bool
  -- `_build_identity` reads the declared input files, at the time of the call.
  pub build_identity : Command → ℕ → Result CallIdentity
  -- `_run_client`, by the number of client runs so far.
  pub run_client : Command → ℕ → Result ClientRunResult
  pub execution_kind : Command → ExecutionKind
  -- client, model and effort
  pub journal_fields : Command → String × String × String
  pub is_uncacheable : Command → Bool
  pub after_record : String → Exec (Unit {0})
  pub execution_tags : Command → List String
  pub input_parts : Command → List (ArtifactType × Option String × Bytes)
