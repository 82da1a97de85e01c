-- ===== src/Service/Running/Failing.antt =====
-- cached_ml_execution_service.py: the recording path with a client that raises.
use generic_ml_cache.Prelude.{ℕ, suc, String, ◌≡◌, refl, ap, ◌∙◌, none, false}
use generic_ml_cache.Dict.{IsDict}
use generic_ml_cache.Errors.{Error, err, run_interrupted}
use generic_ml_cache.Domain.{MlExecution, ExecutionState}
use generic_ml_cache.Domain.Identity.{CallIdentity, generate_key}
use generic_ml_cache.Repository
use generic_ml_cache.Repository.{Repository, save, locate, record_outcome, remove_execution}
use generic_ml_cache.Repository.Undoing.{remove_execution-save, record_outcome-save}
use generic_ml_cache.World.{World, Environment, attempt, ◌>>=◌, ask, modify_repository}
use generic_ml_cache.World.Runs.{Runs, Runs-modify, Runs-update}
use generic_ml_cache.World.Raises.{Raises, Raises-raise, Raises-bind}
use generic_ml_cache.Service.Extension.{Hooks}
use generic_ml_cache.Service.Running.{
  run_client, new_execution, saved_in_progress, failed_with, abandon_in_progress_as_failed,
  after_run, run_and_record,
}

-- The same answers and the same bytes as before, after one more run.
pub record SameAnswers (w w' : World) : Type 0 where
  pub answers :
      (k : String)
      → Repository.find_current k w'.repository ≡ Repository.find_current k w.repository
  pub blobs : w'.blobs ≡ w.blobs

find_current-of :
    (k : String) (r r' : Repository)
    → Repository.find_all k r' ≡ Repository.find_all k r
    → Repository.find_current k r' ≡ Repository.find_current k r
unfolding Repository.find_current
find_current-of k r r' p = ap Repository.first_servable p

module _ (env : Environment) {Command : Type 0} (hooks : Hooks Command) (command : Command)
    (identity : CallIdentity) where
  abbrev key : String
  key = generate_key env.sha256 identity

  abbrev row_of : String → MlExecution
  row_of id = new_execution env hooks command identity id ExecutionState.in_progress none

  row_of-id : (id : String) → (row_of id).execution_id ≡ id
  unfolding new_execution
  row_of-id id = refl

  row_of-unpersisted : (id : String) → (row_of id).output_persisted ≡ false
  unfolding new_execution
  row_of-unpersisted id = refl

  -- The state once the client has raised.
  record Started (id : String) (now : ℕ) (w w' : World) : Type 0 where
    pub saved : w'.repository ≡ save env.sha256 now (row_of id) w.repository
    pub blobs : w'.blobs ≡ w.blobs

  module _ (id : String) (now : ℕ) (w : World) (fresh : locate id w.repository.by_key ≡ none)
      (dict : IsDict w.repository.by_key) where
    interrupted :
        (m : String) (w1 : World)
        → Started id now w w1
        → Raises
            (run_interrupted m)
            (after_run env hooks command (row_of id) key (err (run_interrupted m)))
            w1
            (SameAnswers w)
    unfolding after_run
    interrupted m w1 s =
        Raises-bind (run_interrupted m) {P = λ _ w'. SameAnswers w w'} _ _ w1
          (Runs-modify _ w1 (record {
            answers = λ k. rw s.saved (
                find_current-of k w.repository _ (
                  remove_execution-save env.sha256 now (row_of id) w.repository
                    (rw (row_of-id id) fresh) (row_of-unpersisted id) dict k));
            blobs = s.blobs;
          }))
          (λ _ w2 same. Raises-raise (run_interrupted m) w2 same)

    abandoned :
        (error : Error) (w1 : World)
        → Started id now w w1
        → Runs
            (abandon_in_progress_as_failed env hooks (row_of id) error)
            w1
            (λ _ w'. SameAnswers w w')
    unfolding abandon_in_progress_as_failed
    abandoned error w1 s =
        let done =
          record_outcome-save env.sha256 now (row_of id) w.repository (rw (row_of-id id) fresh)
            (row_of-unpersisted id) (failed_with env hooks (row_of id) error) refl in
        Runs-update _ done.0 w1 (rw s.saved done.1) (record { answers = done.2; blobs = s.blobs })

    after_run-Raises :
        (error : Error) (w1 : World)
        → Started id now w w1
        → Raises error (after_run env hooks command (row_of id) key (err error)) w1 (SameAnswers w)
    unfolding after_run
    after_run-Raises (run_interrupted m) w1 s = interrupted m w1 s
    after_run-Raises error w1 s =
        Raises-bind error _ _ w1 (abandoned error w1 s) (λ _ w2 same. Raises-raise error w2 same)

  saved_in_progress-Started :
      (w : World)
      → Runs (saved_in_progress env hooks command identity) w (λ p w'.
        (p ≡ row_of (env.new_execution_id w.step))
        × Started (env.new_execution_id w.step) (env.now (suc w.step)) w w'
        × (w'.runs ≡ w.runs))
  unfolding saved_in_progress ask modify_repository ◌>>=◌
  saved_in_progress-Started w =
      let row = row_of (env.new_execution_id w.step) in
      record {
        value = row;
        after = record w {
          step = suc (suc w.step);
          repository = save env.sha256 (env.now (suc w.step)) row w.repository;
        };
        runs = refl;
        holds = (refl, record { saved = refl; blobs = refl }, refl);
      }

  raised :
      (error : Error) (w : World)
      → hooks.run_client command w.runs ≡ err error
      → Runs
          (attempt (run_client env hooks command))
          w
          (λ o w'. (o ≡ err error) × (w'.repository ≡ w.repository) × (w'.blobs ≡ w.blobs))
  unfolding attempt run_client
  raised error w answers = record {
    value = err error;
    after = record w { runs = suc w.runs };
    runs = rw answers;
    holds = (refl, refl, refl);
  }

  -- Where the client raises, its error passes through, and every key has the answer, and the blob
  -- store the bytes, that it had before.
  pub run_and_record-Raises :
      (error : Error) (w : World)
      → hooks.run_client command w.runs ≡ err error
      → locate (env.new_execution_id w.step) w.repository.by_key ≡ none
      → IsDict w.repository.by_key
      → Raises error (run_and_record env hooks command identity key) w (SameAnswers w)
  unfolding run_and_record
  run_and_record-Raises error w answers fresh dict =
      let id = env.new_execution_id w.step in
      let now = env.now (suc w.step) in
      Raises-bind error _ _ w (saved_in_progress-Started w) (λ p w1 h1. rw h1.0 (
        Raises-bind error _ _ w1 (raised error w1 (rw h1.2 answers)) (λ o w2 h2. rw h2.0 (
          after_run-Raises id now w fresh dict error w2
            (record { saved = h2.1 ∙ h1.1.saved; blobs = h2.2 ∙ h1.1.blobs })))))
