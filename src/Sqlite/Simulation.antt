-- ===== src/Sqlite/Simulation.antt =====
-- Sequences of transactions of packages/adapters'
-- adapter/outbound/persistence/sqlite/execution_repository.py: the tables and the log side by side.
use generic_ml_cache.Prelude.{ℕ, String, ◌≡◌, refl, ◌∙◌, ap, List, [], ◌∷◌}
use generic_ml_cache.Errors.{Result, ok, err}
use generic_ml_cache.Domain.{Timestamp, Artifact, MlExecution}
use generic_ml_cache.Domain.Identity.{generate_key}
use generic_ml_cache.Sqlite
use generic_ml_cache.Sqlite.{Database, empty, stored_at, failed_with}
use generic_ml_cache.Sqlite.Annotations
use generic_ml_cache.Sqlite.Log
use generic_ml_cache.Sqlite.Log.{Log, log_of}
use generic_ml_cache.Sqlite.Viewing.{AreKeyed}
use generic_ml_cache.Sqlite.Integrity.{Integrity}
use generic_ml_cache.Sqlite.Refinement.{
  Matches, persist_artifact-Matches, update_artifacts-Matches, record_outcome-Matches,
}
use generic_ml_cache.Sqlite.Promotion.{finalize_output_persisted-Matches}
use generic_ml_cache.Sqlite.Saving.{save-Matches}
use generic_ml_cache.Sqlite.Removal.{
  remove_execution-Matches, soft_purge_execution-Matches, hard_delete_execution-Matches,
}

-- A transaction that records, resolves, serves or deletes executions.
pub data Operation : Type 0 where
  save : Timestamp → MlExecution → Operation
  record_outcome : MlExecution → Operation
  persist_artifact : String → Artifact → Operation
  mark_artifacts_stored : Timestamp → String → String → Operation
  mark_artifacts_failed : String → String → String → Operation
  finalize_output_persisted : Timestamp → String → Operation
  remove_execution : String → Operation
  soft_purge_execution : String → Operation
  hard_delete_execution : String → Operation

module _ (sha256 : List ℕ → String) where
  unfoldable pub run : Operation → Database → Result Database
  run (Operation.save now e) db = Sqlite.save sha256 now e db
  run (Operation.record_outcome e) db = Sqlite.record_outcome e db
  run (Operation.persist_artifact id artifact) db = Sqlite.persist_artifact id artifact db
  run (Operation.mark_artifacts_stored now id blob_key) db =
      Sqlite.mark_artifacts_stored now id blob_key db
  run (Operation.mark_artifacts_failed id blob_key detail) db =
      Sqlite.mark_artifacts_failed id blob_key detail db
  run (Operation.finalize_output_persisted now id) db = Sqlite.finalize_output_persisted now id db
  run (Operation.remove_execution id) db = ok (Sqlite.remove_execution id db)
  run (Operation.soft_purge_execution key) db = ok (Annotations.soft_purge_execution key db)
  run (Operation.hard_delete_execution key) db = ok (Annotations.hard_delete_execution key db)

  unfoldable pub run_log : Operation → Log → Result Log
  unfolding generate_key
  run_log (Operation.save now e) log = Log.save (generate_key sha256 e.call_identity) now e log
  run_log (Operation.record_outcome e) log = Log.record_outcome e log
  run_log (Operation.persist_artifact id artifact) log = Log.persist_artifact id artifact log
  run_log (Operation.mark_artifacts_stored now id blob_key) log =
      Log.update_artifacts id blob_key (stored_at now) log
  run_log (Operation.mark_artifacts_failed id blob_key detail) log =
      Log.update_artifacts id blob_key (failed_with detail) log
  run_log (Operation.finalize_output_persisted now id) log =
      Log.finalize_output_persisted now id log
  run_log (Operation.remove_execution id) log = ok (Log.remove_execution id log)
  run_log (Operation.soft_purge_execution key) log = ok (Log.soft_purge_execution key log)
  run_log (Operation.hard_delete_execution key) log = ok (Log.hard_delete_execution key log)

  -- Each of these transactions on the tables does what it does on the log of runs: where the row
  -- ids and the execution ids are unique and every artifact, usage and tag belongs to an execution,
  -- both raise the same error, or both succeed, the tables stand for the resulting log, and these
  -- constraints hold again.
  pub run-Matches :
      (op : Operation) (db : Database) → Integrity db → Matches (run op db) (run_log op (log_of db))
  unfolding run run_log Sqlite.mark_artifacts_stored Sqlite.mark_artifacts_failed
  run-Matches (Operation.save now e) db h = save-Matches sha256 now e db h
  run-Matches (Operation.record_outcome e) db h = record_outcome-Matches e db h
  run-Matches (Operation.persist_artifact id artifact) db h =
      persist_artifact-Matches id artifact db h
  run-Matches (Operation.mark_artifacts_stored now id blob_key) db h =
      update_artifacts-Matches id blob_key (stored_at now) db h
  run-Matches (Operation.mark_artifacts_failed id blob_key detail) db h =
      update_artifacts-Matches id blob_key (failed_with detail) db h
  run-Matches (Operation.finalize_output_persisted now id) db h =
      finalize_output_persisted-Matches now id db h
  run-Matches (Operation.remove_execution id) db h = remove_execution-Matches id db h
  run-Matches (Operation.soft_purge_execution key) db h = soft_purge_execution-Matches key db h
  run-Matches (Operation.hard_delete_execution key) db h = hard_delete_execution-Matches key db h

  -- A transaction that raises is rolled back.
  abbrev pub committed : {S : Type 0} → S → Result S → S
  committed s (ok t) = t
  committed s (err e) = s

  unfoldable pub run_all : List Operation → Database → Database
  unfolding run
  run_all [] db = db
  run_all (op ∷ ops) db = run_all ops (committed db (run op db))

  unfoldable pub run_log_all : List Operation → Log → Log
  unfolding run_log
  run_log_all [] log = log
  run_log_all (op ∷ ops) log = run_log_all ops (committed log (run_log op log))

  committed-Matches :
      (db : Database) (r : Result Database) (s : Result Log)
      → Integrity db
      → Matches r s
      → Integrity (committed db r) × (log_of (committed db r) ≡ committed (log_of db) s)
  committed-Matches db (ok db') (ok log) h k = k
  committed-Matches db (err e) (err f) h k = (h, refl)
  committed-Matches db (ok db') (err f) h k = elim k [ ]
  committed-Matches db (err e) (ok log) h k = elim k [ ]

  run_all-from :
      (ops : List Operation) (db : Database)
      → Integrity db
      → Integrity (run_all ops db) × (log_of (run_all ops db) ≡ run_log_all ops (log_of db))
  unfolding run_all run_log_all
  run_all-from [] db h = (h, refl)
  run_all-from (op ∷ ops) db h =
      let m = committed-Matches db (run op db) (run_log op (log_of db)) h (run-Matches op db h) in
      let r = run_all-from ops (committed db (run op db)) m.0 in
      (r.0, r.1 ∙ ap (run_log_all ops) m.1)

  -- After any sequence of these transactions from the empty store, those that raise being rolled
  -- back, the row ids and the execution ids are unique, every artifact, usage and tag belongs to an
  -- execution, and the tables stand for what the same sequence makes of the empty log.
  pub run_all-Integrity :
      (ops : List Operation)
      → Integrity (run_all ops empty) × (log_of (run_all ops empty) ≡ run_log_all ops [])
  unfolding AreKeyed
  run_all-Integrity ops =
      run_all-from ops empty
        (record { keyed = tt; artifacts = tt; token_usage = tt; execution_tags = tt })
