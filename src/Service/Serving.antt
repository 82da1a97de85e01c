-- ===== src/Service/Serving.antt =====
-- cached_ml_execution_service.py: serving a stored execution, with the self-healing of a corrupt one,
-- the back-fill of input, and the OFFLINE mode.
pub mod Frame
pub mod Replaying
use generic_ml_cache.Prelude.{
  ℕ, suc, String, Bool, true, false, ◌||◌, not, Option, none, some, List, [], ◌∷◌, is_some,
  if◌then◌else◌,
}
use generic_ml_cache.Errors.{
  Error, Result, ok, err, message, cache_miss, artifact_blob_missing, store_corrupt,
  store_unavailable, run_interrupted,
}
use generic_ml_cache.Domain.{
  CacheMode, PersistenceDepth, stores_output, stores_input, MlExecution, Artifact, ClientRunResult,
  ArtifactStatus, ExecutionState, ExecutionFailure, FailureReason, outcome, failure_of, succeeded,
}
use generic_ml_cache.Domain.Identity.{CallIdentity, generate_key}
use generic_ml_cache.Repository
use generic_ml_cache.Repository.Annotations.{add_tags, add_input_artifacts}
use generic_ml_cache.World.{
  World, Environment, Exec, Event, hit, record_, miss, run, would_hit, would_miss, pure, raise,
  lift, gets, attempt, ◌>>=◌, ◌>>◌, ask, fail_on, find_current, modify_repository,
  update_repository, remove_blob,
}
use generic_ml_cache.Service.Extension.{Hooks}
use generic_ml_cache.Service.Artifacts.{
  build_artifacts, part_artifacts, store_blob, persist_documents, hydrate, record_for,
}

module _ (env : Environment) {Command : Type 0} (hooks : Hooks Command) where
  -- `_apply_tags`
  unfoldable pub apply_tags : String → Command → Exec (Unit {0})
  apply_tags key command = modify_repository (add_tags key (hooks.execution_tags command))

  -- `_build_input_artifacts`
  abbrev pub build_input_artifacts : String → Command → ArtifactStatus → List Artifact
  build_input_artifacts id command status =
      part_artifacts env.sha256 id status (hooks.input_parts command)

  store_all : String → List Artifact → Exec (Unit {0})
  store_all id [] = pure tt
  store_all id (a ∷ artifacts) = store_blob env id a >> store_all id artifacts

  attach_input : String → String → List Artifact → Exec (Unit {0})
  unfolding store_all
  attach_input key id [] = pure tt
  attach_input key id (a ∷ artifacts) = do
    modify_repository (add_input_artifacts key (a ∷ artifacts))
    store_all id (a ∷ artifacts)

  backfill : Command → String → Option MlExecution → Exec (Unit {0})
  unfolding attach_input
  backfill command key none = pure tt
  backfill command key (some fresh) =
      if fresh.input_persisted
      then pure tt
      else attach_input key fresh.execution_id
          (build_input_artifacts fresh.execution_id command ArtifactStatus.pending)

  -- `_accumulate_input`
  unfoldable pub accumulate_input : Command → String → MlExecution → Exec (Unit {0})
  unfolding backfill
  accumulate_input command key current =
      if not (stores_input (hooks.persistence_depth command)) || current.input_persisted
      then pure tt
      else do fresh ← find_current env key; backfill command key fresh

  -- `_serve_hit`
  unfoldable pub serve_hit : Command → String → MlExecution → Exec MlExecution
  unfolding apply_tags accumulate_input
  serve_hit command key current = do
    hydrated ← hydrate env current
    record_for hooks hit key command
    apply_tags key command
    accumulate_input command key current
    pure hydrated

  remove_blobs : List Artifact → Exec (Unit {0})
  remove_blobs [] = pure tt
  remove_blobs (a ∷ artifacts) = remove_blob env a.blob_key >> remove_blobs artifacts

  -- `_remove_execution_and_blobs`: the bytes first, then the row that names them.
  unfoldable pub remove_execution_and_blobs : MlExecution → Exec (Unit {0})
  unfolding remove_blobs
  remove_execution_and_blobs e = do
    remove_blobs e.artifacts
    modify_repository (Repository.remove_execution e.execution_id)

  -- `except (StoreCorrupt, ArtifactBlobMissing)` around a hit
  healed : MlExecution → Result MlExecution → Exec (Option MlExecution)
  unfolding remove_execution_and_blobs
  healed current (ok e) = pure (some e)
  healed current (err (store_corrupt m)) = remove_execution_and_blobs current >> pure none
  healed current (err (artifact_blob_missing m)) = remove_execution_and_blobs current >> pure none
  healed current (err e) = raise e

  served : Command → String → Result (Option MlExecution) → Exec (Option MlExecution)
  unfolding serve_hit healed
  served command key (ok none) = pure none
  served command key (ok (some current)) = do
    result ← attempt (serve_hit command key current)
    healed current result
  served command key (err (store_corrupt m)) = pure none
  served command key (err e) = raise e

  -- `_serve_current_if_healthy`
  unfoldable pub serve_current_if_healthy : Command → String → Exec (Option MlExecution)
  unfolding served
  serve_current_if_healthy command key = do
    found ← attempt (find_current env key)
    served command key found

  offline_miss : Command → String → Exec MlExecution
  offline_miss command key = do
    record_for hooks miss key command
    raise (cache_miss "offline miss: no stored execution")

  -- A corrupt entry is a clean miss.
  offline_result : Command → String → Result (Option MlExecution) → Exec MlExecution
  unfolding offline_miss
  offline_result command key (ok (some e)) = pure e
  offline_result command key (ok none) = offline_miss command key
  offline_result command key (err (store_corrupt m)) = offline_miss command key
  offline_result command key (err (artifact_blob_missing m)) = offline_miss command key
  offline_result command key (err e) = raise e

  hit_if_some : Command → String → Option MlExecution → Exec (Option MlExecution)
  unfolding serve_hit
  hit_if_some command key none = pure none
  hit_if_some command key (some current) = do e ← serve_hit command key current; pure (some e)

  -- `_serve_offline`
  unfoldable pub serve_offline : Command → String → Exec MlExecution
  unfolding offline_result hit_if_some
  serve_offline command key = do
    result ← attempt (do found ← find_current env key; hit_if_some command key found)
    offline_result command key result
