-- ===== src/Repair.antt =====
-- application/usecase/repair_store_service.py of packages/core: the executions that were not
-- persisted to the end, reconciled with what the blob store holds.
pub mod Reconciling
pub mod Worklist
pub mod Outcome
use generic_ml_cache.Prelude.{
  ℕ, suc, ◌+◌, String, Bool, true, false, Option, none, some, List, [], ◌∷◌, is_some, if◌then◌else◌,
}
use generic_ml_cache.Repository.{finalize_output_persisted, mark_artifacts_failed}
use generic_ml_cache.Repository.Annotations.{UnpersistedRun, runs_awaiting_persistence}
use generic_ml_cache.World.{
  World, Environment, Exec, pure, gets, ask, ◌>>=◌, ◌>>◌, get_blob, mark_stored, update_repository,
}

pub record RepairReport : Type 0 where
  pub runs_recovered : ℕ
  pub runs_unrecoverable : ℕ
  pub blobs_reconciled : ℕ
  pub blobs_missing : ℕ

abbrev pub no_repairs : RepairReport
no_repairs = record {
  runs_recovered = 0;
  runs_unrecoverable = 0;
  blobs_reconciled = 0;
  blobs_missing = 0;
}

module _ (env : Environment) where
  -- One blob of a run: STORED if it is there, FAILED if it is not.
  unfoldable pub reconcile_blob : String → String → Bool → RepairReport → Exec RepairReport
  reconcile_blob id blob_key present report =
      if present
      then (do
        mark_stored env id blob_key
        pure (record report { blobs_reconciled = suc report.blobs_reconciled }))
      else (do
        update_repository (mark_artifacts_failed id blob_key "blob missing on repair")
        pure (record report { blobs_missing = suc report.blobs_missing }))

  abbrev pub both : Bool → Bool → Bool
  both all_present present = if present then all_present else false

  -- The inner loop, with `all_present`.
  unfoldable pub reconcile : String → List String → Bool → RepairReport → Exec (Bool × RepairReport)
  unfolding reconcile_blob
  reconcile id [] all_present report = pure (all_present, report)
  reconcile id (blob_key ∷ blob_keys) all_present report = do
    content ← get_blob env blob_key
    next ← reconcile_blob id blob_key (is_some content) report
    reconcile id blob_keys (both all_present (is_some content)) next

  unfoldable pub conclude_run : String → Bool → RepairReport → Exec RepairReport
  conclude_run id all_present report =
      if all_present
      then (do
        now ← ask env.now
        update_repository (finalize_output_persisted now id)
        pure (record report { runs_recovered = suc report.runs_recovered }))
      else pure (record report { runs_unrecoverable = suc report.runs_unrecoverable })

  unfoldable pub repair_runs : List UnpersistedRun → RepairReport → Exec RepairReport
  unfolding reconcile conclude_run
  repair_runs [] report = pure report
  repair_runs (run ∷ runs) report = do
    outcome ← reconcile run.execution_id run.blob_keys true report
    next ← conclude_run run.execution_id outcome.0 outcome.1
    repair_runs runs next

  unfoldable pub repair : Exec RepairReport
  unfolding repair_runs runs_awaiting_persistence
  repair = do runs ← gets (λ w. runs_awaiting_persistence w.repository); repair_runs runs no_repairs
