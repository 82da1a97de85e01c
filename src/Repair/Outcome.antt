-- ===== src/Repair/Outcome.antt =====
-- repair_store_service.py: what a repair makes of the runs of its worklist.
use generic_ml_cache.Prelude.{String, ◌≡◌, ◌≢◌, Bool, false, some, List, [], map, All}
use generic_ml_cache.Dict.{Dict, IsDict}
use generic_ml_cache.Domain.{Bytes, MlExecution}
use generic_ml_cache.Repository.{Repository, locate}
use generic_ml_cache.Repository.Annotations.{UnpersistedRun, unresolved_keys}
use generic_ml_cache.Repository.Locating.{Spares}
use generic_ml_cache.World.{World}
use generic_ml_cache.World.Runs.{Runs}
use generic_ml_cache.Repair.Reconciling.{key_status, key_decision, all_present}

-- A run of the worklist: the row that is located under its id and key is not persisted, and the
-- blob keys are those of its artifacts that are not stored.
pub record IsPending (e : MlExecution) (r : Repository) (run : UnpersistedRun) : Type 0 where
  pub located : locate run.execution_id r.by_key ≡ some (run.execution_key, e)
  pub unpersisted : e.output_persisted ≡ false
  pub keys : run.blob_keys ≡ unresolved_keys e.artifacts []

-- What a repair does not decide of a row.
abbrev pub unmarked : MlExecution → MlExecution
unmarked e = record e { artifacts = []; output_persisted = false }

abbrev flag : MlExecution → Bool
flag e = e.output_persisted

-- What a repair leaves of the row `e` of a run.
pub record IsRepaired (blobs : Dict Bytes) (e : MlExecution) (r : Repository) (run : UnpersistedRun)
    : Type 0 where
  pub row : MlExecution
  pub located : locate run.execution_id r.by_key ≡ some (run.execution_key, row)
  pub statuses : map key_status row.artifacts ≡ map (key_decision blobs run.blob_keys) e.artifacts
  pub persisted : row.output_persisted ≡ all_present blobs run.blob_keys
  pub rest : unmarked row ≡ unmarked e

-- A repository after a run: the run is repaired, and the rows of other keys are as they were.
record Concluded (blobs : Dict Bytes) (e : MlExecution) (run : UnpersistedRun) (start : Repository)
    (w : World) : Type 0 where
  pub distinct : IsDict w.repository.by_key
  pub same_blobs : w.blobs ≡ blobs
  pub repaired : IsRepaired blobs e w.repository run
  pub spares : Spares run.execution_key start w.repository

-- The rows of keys outside the worklist are as they were.
abbrev pub KeepsOthers : List UnpersistedRun → Repository → Repository → Type 0
KeepsOthers runs r r' =
    (id k : String) (e : MlExecution)
    → All (λ u. u.execution_key ≢ k) runs
    → locate id r.by_key ≡ some (k, e)
    → locate id r'.by_key ≡ some (k, e)

module _ (row : UnpersistedRun → MlExecution) where
  abbrev pub ArePending : Repository → List UnpersistedRun → Type 0
  ArePending r runs = All (λ run. IsPending (row run) r run) runs

  abbrev pub AreRepaired : Dict Bytes → Repository → List UnpersistedRun → Type 0
  AreRepaired blobs r runs = All (λ run. IsRepaired blobs (row run) r run) runs
