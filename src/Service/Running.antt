-- ===== src/Service/Running.antt =====
-- cached_ml_execution_service.py: the paths that run the client, and what each of them records.
pub mod Frame
pub mod Concluding
pub mod Recording
pub mod Fresh
pub mod Failing
use generic_ml_cache.Prelude.{
  ℕ, suc, String, Bool, true, false, ◌||◌, not, Option, none, some, List, [], ◌∷◌, ◌++◌, is_some,
  if◌then◌else◌,
}
use generic_ml_cache.Errors.{
  Error, Result, ok, err, message, cache_miss, artifact_blob_missing, store_corrupt,
  store_unavailable, run_interrupted,
}
use generic_ml_cache.Domain.{
  CacheMode, PersistenceDepth, stores_output, stores_input, MlExecution, Artifact, ClientRunResult,
  ArtifactStatus, ExecutionState, ExecutionFailure, FailureReason, outcome, failure_of, succeeded,
}
use generic_ml_cache.Domain.Identity.{CallIdentity, generate_key}
use generic_ml_cache.Repository
use generic_ml_cache.Repository.Annotations.{add_tags, add_input_artifacts}
use generic_ml_cache.World.{
  World, Environment, Exec, Event, hit, record_, miss, run, would_hit, would_miss, pure, raise,
  lift, gets, attempt, ◌>>=◌, ◌>>◌, ask, fail_on, find_current, modify_repository,
  update_repository, remove_blob,
}
use generic_ml_cache.Service.Extension.{Hooks}
use generic_ml_cache.Service.Artifacts.{
  build_artifacts, part_artifacts, store_blob, persist_documents, hydrate, record_for,
}
use generic_ml_cache.Service.Serving.{apply_tags, build_input_artifacts, serve_current_if_healthy}
use mathlib.Core.Option

abbrev is_nil : List Artifact → Bool
is_nil [] = true
is_nil (a ∷ artifacts) = false

module _ (env : Environment) {Command : Type 0} (hooks : Hooks Command) where
  -- `_run_client`, and the count of client runs
  unfoldable pub run_client : Command → Exec ClientRunResult
  run_client command w = (hooks.run_client command w.runs, record w { runs = suc w.runs })

  -- An execution without artifacts, as the run paths construct it.
  new_execution :
      Command → CallIdentity → String → ExecutionState → Option ClientRunResult → MlExecution
  new_execution command identity id state result = record {
    call_identity = identity;
    execution_state = state;
    execution_kind = hooks.execution_kind command;
    output_persisted = false;
    execution_id = id;
    input_persisted = false;
    artifacts = [];
    token_usage = Option.bind result (λ r. r.token_usage);
    failure = Option.bind result failure_of;
    superseded_at = none;
  }

  -- An execution that is returned with its artifacts and written nowhere.
  unfoldable pub unstored_execution :
      Command → CallIdentity → String → ClientRunResult → MlExecution
  unfolding new_execution
  unstored_execution command identity id result =
      record (new_execution command identity id (outcome result) (some result)) {
        artifacts = build_artifacts env.sha256 id result ArtifactStatus.stored;
      }

  -- `_run_fresh` with `allow_store=False`
  unfoldable pub run_unstored : Command → CallIdentity → String → Exec MlExecution
  unfolding run_client unstored_execution
  run_unstored command identity key = do
    result ← run_client command
    id ← ask env.new_execution_id
    record_for hooks run key command
    pure (unstored_execution command identity id result)

  uncacheable_by_mode : Command → CallIdentity → String → CacheMode → Exec MlExecution
  unfolding run_unstored
  uncacheable_by_mode command identity key CacheMode.offline = do
    record_for hooks miss key command
    raise (cache_miss "offline: this call is not cacheable")
  uncacheable_by_mode command identity key mode = run_unstored command identity key

  -- `_run_uncacheable`
  unfoldable pub run_uncacheable : Command → CallIdentity → String → Exec MlExecution
  unfolding uncacheable_by_mode
  run_uncacheable command identity key =
      uncacheable_by_mode command identity key (hooks.cache_mode command)

  -- `_run_metered`
  unfoldable pub run_metered : Command → CallIdentity → String → Exec MlExecution
  unfolding run_client unstored_execution
  run_metered command identity key = do
    current ← find_current env key
    result ← run_client command
    id ← ask env.new_execution_id
    record_for hooks (if is_some current then would_hit else would_miss) key command
    pure (unstored_execution command identity id result)

  saved_in_progress : Command → CallIdentity → Exec MlExecution
  unfolding new_execution
  saved_in_progress command identity = do
    id ← ask env.new_execution_id
    now ← ask env.now
    let e = new_execution command identity id ExecutionState.in_progress none
    modify_repository (Repository.save env.sha256 now e)
    pure e

  abbrev failed_with : MlExecution → Error → MlExecution
  failed_with e error = record e {
    execution_state = ExecutionState.failed;
    failure =
        some (record {
          reason = FailureReason.client_error;
          message = message error;
          exit_code = none;
        });
  }

  -- `_abandon_in_progress_as_failed`
  unfoldable pub abandon_in_progress_as_failed : MlExecution → Error → Exec (Unit {0})
  abandon_in_progress_as_failed e error =
      update_repository (Repository.record_outcome (failed_with e error))

  with_result : MlExecution → ClientRunResult → MlExecution
  with_result e result = record e {
    execution_state = outcome result;
    token_usage = result.token_usage;
    failure = failure_of result;
  }

  -- `_record_unstored`
  unfoldable pub record_unstored :
      Command → MlExecution → String → ClientRunResult → Exec MlExecution
  unfolding with_result
  record_unstored command in_progress key result = do
    let e = with_result in_progress result
    update_repository (Repository.record_outcome e)
    record_for hooks run key command
    pure (record e {
      artifacts = build_artifacts env.sha256 e.execution_id result ArtifactStatus.stored;
    })

  unfoldable pub conclude : Command → String → String → Bool → Exec (Unit {0})
  unfolding apply_tags
  conclude command key id true = do
    now ← ask env.now
    update_repository (Repository.finalize_output_persisted now id)
    record_for hooks record_ key command
    apply_tags env hooks key command
    hooks.after_record key
  conclude command key id false = record_for hooks run key command

  abbrev input_artifacts : Command → String → List Artifact
  input_artifacts command id =
      if stores_input (hooks.persistence_depth command)
      then build_input_artifacts env hooks id command ArtifactStatus.pending
      else []

  -- `_record_stored`
  unfoldable pub record_stored : Command → MlExecution → String → ClientRunResult → Exec MlExecution
  unfolding with_result conclude
  record_stored command in_progress key result = do
    let e = with_result in_progress result
    update_repository (Repository.record_outcome e)
    let inputs = input_artifacts command e.execution_id
    documents ←
        persist_documents env e.execution_id
          (build_artifacts env.sha256 e.execution_id result ArtifactStatus.pending ++ inputs)
    conclude command key e.execution_id documents.1
    pure (record e {
      output_persisted = documents.1;
      input_persisted = not (is_nil inputs);
      artifacts = documents.0;
    })

  -- The client's outcome: an interruption leaves no row, any other error a FAILED one.
  after_run : Command → MlExecution → String → Result ClientRunResult → Exec MlExecution
  unfolding record_unstored record_stored abandon_in_progress_as_failed
  after_run command in_progress key (ok result) =
      if hooks.should_persist command (succeeded result)
      then record_stored command in_progress key result
      else record_unstored command in_progress key result
  after_run command in_progress key (err (run_interrupted m)) = do
    modify_repository (Repository.remove_execution in_progress.execution_id)
    raise (run_interrupted m)
  after_run command in_progress key (err e) = do
    abandon_in_progress_as_failed in_progress e
    raise e

  -- The rest of `_run_fresh_locked`, once no other caller has stored the answer.
  unfoldable pub run_and_record : Command → CallIdentity → String → Exec MlExecution
  unfolding saved_in_progress after_run run_client
  run_and_record command identity key = do
    in_progress ← saved_in_progress command identity
    result ← attempt (run_client command)
    after_run command in_progress key result

  -- At DATASET depth a store that accepts no write fails the call before the client runs.
  unfoldable pub require_healthy : Command → Exec (Unit {0})
  require_healthy command =
      if stores_input (hooks.persistence_depth command)
      then (do
        healthy ← ask env.healthy
        if healthy then pure tt else raise (store_unavailable "blob storage is unavailable"))
      else pure tt

  unfoldable pub recheck : Command → String → Exec (Option MlExecution)
  unfolding serve_current_if_healthy
  recheck command key = elim (hooks.cache_mode command) [
    | CacheMode.cache ↦ serve_current_if_healthy env hooks command key
    | _ ↦ pure none
  ]

  unfoldable pub run_unless_served :
      Command → CallIdentity → String → Option MlExecution → Exec MlExecution
  unfolding require_healthy run_and_record
  run_unless_served command identity key (some e) = pure e
  run_unless_served command identity key none = do
    require_healthy command
    run_and_record command identity key

  -- `_run_fresh_locked`
  unfoldable pub run_fresh_locked : Command → CallIdentity → String → Exec MlExecution
  unfolding recheck run_unless_served
  run_fresh_locked command identity key = do
    served ← recheck command key
    run_unless_served command identity key served
