-- ===== src/Service/Running/Recording.antt =====
-- cached_ml_execution_service.py: recording a successful run where no port fails.
use generic_ml_cache.Prelude.{
  ℕ, suc, String, ◌≡◌, refl, ◌∙◌, true, none, some, List, [], ◌++◌, map, arith,
}
use generic_ml_cache.Dict.{IsDict}
use generic_ml_cache.Errors.{ok}
use generic_ml_cache.Domain.{
  ArtifactStatus, Artifact, MlExecution, ExecutionState, ClientRunResult, succeeded, outcome,
}
use generic_ml_cache.Domain.Identity.{CallIdentity, generate_key}
use generic_ml_cache.Repository.{
  locate, save, dehydrate, with_outcome, record_outcome, rewrite_located,
}
use generic_ml_cache.Repository.Tracking.{
  locate-save, save-IsDict, locate-rewrite_located, rewrite_located-IsDict, modify_by_id_located,
}
use generic_ml_cache.World.{World, Environment, pure, attempt, ◌>>=◌, ask, modify_repository}
use generic_ml_cache.World.Runs.{Runs, Runs-pure, Runs-update, Runs-bind}
use generic_ml_cache.Service.Extension.{Hooks}
use generic_ml_cache.Service.Artifacts.{build_artifacts}
use generic_ml_cache.Service.Artifacts.Storing.{
  KeysAgree, Stage, CanStore, as_stored, persist_documents-Runs,
}
use generic_ml_cache.Service.Running.Concluding.{IsRecorded, conclude-Runs}
use generic_ml_cache.Service.Running.{
  run_client, new_execution, saved_in_progress, with_result, input_artifacts, record_stored,
  after_run, run_and_record,
}

module _ (env : Environment) {Command : Type 0} (hooks : Hooks Command) (command : Command) where
  -- The documents of a run, in the order in which they are stored.
  abbrev pub documents : String → ClientRunResult → List Artifact
  documents id result =
      build_artifacts env.sha256 id result ArtifactStatus.pending
      ++ input_artifacts env hooks command id

  -- What a recording needs: no failing port, a client that answers with success, a command that
  -- persists it, identifiers that are not taken, and contents that agree where digests do.
  pub record CanRecord (key : String) (result : ClientRunResult) (w : World) : Type 0 where
    pub able : CanStore env
    pub answers : hooks.run_client command w.runs ≡ ok result
    pub success : succeeded result ≡ true
    pub persists : hooks.should_persist command true ≡ true
    pub distinct : IsDict w.repository.by_key
    pub fresh : (n : ℕ) → locate (env.new_execution_id n) w.repository.by_key ≡ none
    pub agree : (n : ℕ) → KeysAgree [] (documents (env.new_execution_id n) result)
    pub quiet : hooks.after_record key ≡ pure tt

  outcome-success :
      (result : ClientRunResult) → succeeded result ≡ true → outcome result ≡ ExecutionState.success
  unfolding outcome
  outcome-success result p = ground (arith, p)

  -- What a recording returns and leaves behind.
  abbrev pub Records : String → ClientRunResult → MlExecution → World → Type 0
  Records key result e w =
      (e.output_persisted ≡ true)
      × (e.artifacts ≡ map as_stored (documents e.execution_id result))
      × IsRecorded key (documents e.execution_id result) w

  module _ (identity : CallIdentity) (result : ClientRunResult) (id : String) where
    abbrev key : String
    key = generate_key env.sha256 identity

    abbrev fresh_row : MlExecution
    fresh_row = new_execution env hooks command identity id ExecutionState.in_progress none

    record_stored-Runs :
        (w : World)
        → CanStore env
        → succeeded result ≡ true
        → KeysAgree [] (documents id result)
        → hooks.after_record key ≡ pure tt
        → IsDict w.repository.by_key
        → locate id w.repository.by_key ≡ some (key, dehydrate fresh_row)
        → Runs (record_stored env hooks command fresh_row key result) w (Records key result)
    unfolding record_stored new_execution dehydrate with_outcome
    record_stored-Runs w able success agree quiet dict found =
        let e = with_result env hooks fresh_row result in
        let base = with_outcome e (dehydrate fresh_row) in
        let r1 = rewrite_located id (with_outcome e) key w.repository in
        Runs-bind {P = λ _ w'. Stage id key base [] w'} _ _ w
          (Runs-update (record_outcome e) r1 w
            (unfold record_outcome in
              modify_by_id_located id key _ w.repository found (with_outcome e))
            (record {
              rows = [];
              distinct = rewrite_located-IsDict id key (with_outcome e) w.repository dict;
              located =
                  locate-rewrite_located id key (with_outcome e) _ w.repository dict found refl;
              matched = tt;
              written_ = tt;
            }))
          (λ _ w1 stage.
            Runs-bind _ _ w1
              (persist_documents-Runs env able id key base refl (documents id result) [] w1 stage
                agree)
              (λ out w2 h2. rw h2.0 (
                Runs-bind _ _ w2
                  (conclude-Runs env hooks command id key base (documents id result) w2 quiet
                    (outcome-success result success) refl refl h2.1)
                  (λ _ w3 h3. Runs-pure _ w3 (refl, refl, h3)))))

  after_run-Runs :
      (identity : CallIdentity) (result : ClientRunResult) (id : String) (w : World)
      → hooks.should_persist command true ≡ true
      → succeeded result ≡ true
      → Runs
          (record_stored env hooks command
            (fresh_row identity result id)
            (key identity result id)
            result)
          w
          (Records (key identity result id) result)
      → Runs
          (after_run env hooks command
            (fresh_row identity result id)
            (key identity result id)
            (ok result))
          w
          (Records (key identity result id) result)
  unfolding after_run
  after_run-Runs identity result id w persists success r = rw (success, persists) r

  saved_in_progress-Runs :
      (identity : CallIdentity) (result : ClientRunResult) (w : World)
      → let row = fresh_row identity result (env.new_execution_id w.step) in
        Runs (saved_in_progress env hooks command identity) w (λ p w'.
          (p ≡ row)
          × (w'.repository ≡ save env.sha256 (env.now (suc w.step)) row w.repository)
          × (w'.runs ≡ w.runs))
  unfolding saved_in_progress ask modify_repository ◌>>=◌
  saved_in_progress-Runs identity result w =
      let row = fresh_row identity result (env.new_execution_id w.step) in
      record {
        value = row;
        after = record w {
          step = suc (suc w.step);
          repository = save env.sha256 (env.now (suc w.step)) row w.repository;
        };
        runs = refl;
        holds = (refl, refl, refl);
      }

  run_client-Runs :
      (result : ClientRunResult) (w : World)
      → hooks.run_client command w.runs ≡ ok result
      → Runs
          (attempt (run_client env hooks command))
          w
          (λ o w'. (o ≡ ok result) × (w'.repository ≡ w.repository))
  unfolding attempt run_client
  run_client-Runs result w answers = record {
    value = ok result;
    after = record w { runs = suc w.runs };
    runs = rw answers;
    holds = (refl, refl);
  }

  -- On a key with no other caller's answer: the client runs, and its answer is recorded.
  pub run_and_record-Runs :
      (identity : CallIdentity) (result : ClientRunResult) (w : World)
      → CanRecord (generate_key env.sha256 identity) result w
      → Runs
          (run_and_record env hooks command identity (generate_key env.sha256 identity))
          w
          (Records (generate_key env.sha256 identity) result)
  unfolding run_and_record
  run_and_record-Runs identity result w can =
      let id = env.new_execution_id w.step in
      let now = env.now (suc w.step) in
      let row = fresh_row identity result id in
      let k = generate_key env.sha256 identity in
      let r1 = save env.sha256 now row w.repository in
      Runs-bind _ _ w (saved_in_progress-Runs identity result w) (λ p w1 h1. rw h1.0 (
        Runs-bind _ _ w1 (run_client-Runs result w1 (rw h1.2 can.answers)) (λ o w2 h2.
          let saved = h2.1 ∙ h1.1 in
          rw h2.0 (
            after_run-Runs identity result id w2 can.persists can.success (
              record_stored-Runs identity result id w2 can.able can.success (can.agree w.step)
                can.quiet (rw saved (save-IsDict env.sha256 now row w.repository can.distinct))
                (rw saved (
                  locate-save env.sha256 now row w.repository (can.fresh w.step)
                    (unfold new_execution in refl))))))))
