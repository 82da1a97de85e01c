-- ===== src/Tests/Sqlite.antt =====
-- A few transactions, on the tables of the SQLite repository.
use generic_ml_cache.Prelude.{String, ◌≡◌, ◌≢◌, refl, true, false, none, some, List, [], ◌∷◌}
use generic_ml_cache.Sqlite.{
  Database, empty, finalize_output_persisted, mark_artifacts_stored, save,
}
use generic_ml_cache.Sqlite.Tables.{Row, find_row, owned}
use generic_ml_cache.Sqlite.Queries.{load_execution, find_current}
use generic_ml_cache.Sqlite.Log.{log_of}
use generic_ml_cache.Sqlite.Currency.{finalize-answers}
use generic_ml_cache.Sqlite.Integrity.{Integrity}
use generic_ml_cache.Sqlite.Refinement.{Matches}
use generic_ml_cache.Sqlite.Simulation.{
  Operation, run, run_log, run_all, run_log_all, run_all-Integrity, run-Matches,
}
use generic_ml_cache.Checksum.{checksum_input_data, preimage, serialize}
use generic_ml_cache.Text.{decimal, sorted, utf8}
use generic_ml_cache.Errors.{ok}
use generic_ml_cache.Domain.{MlExecution}
use generic_ml_cache.Domain.Identity.{generate_key}
use generic_ml_cache.Tests.{digest, call, row}

-- Two answers of one key, of which the second is finalized, and a transaction that is refused.
abbrev operations : List Operation
operations =
    Operation.save 1 (row "a" true)
    ∷ Operation.save 2 (row "b" false)
    ∷ Operation.save 3 (row "b" false)
    ∷ Operation.mark_artifacts_stored 4 "b" "b_blob"
    ∷ []

abbrev finalize : Operation
finalize = Operation.finalize_output_persisted 5 "b"

run_all-Integrity_example :
    Integrity (run_all digest operations empty)
    × (log_of (run_all digest operations empty) ≡ run_log_all digest operations [])
run_all-Integrity_example = run_all-Integrity digest operations

run-Matches_example :
    Matches
      (run digest finalize (run_all digest operations empty))
      (run_log digest finalize (log_of (run_all digest operations empty)))
run-Matches_example =
    run-Matches digest finalize (run_all digest operations empty)
      (run_all-Integrity digest operations).0

-- The row "b", and the execution that it is.
abbrev rows : Database
rows = run_all digest operations empty

abbrev b_row : Row
b_row = record {
  id = 2;
  execution_key = generate_key digest call;
  kind = (row "b" false).execution_kind;
  state = (row "b" false).execution_state;
  output_persisted = false;
  superseded_at = none;
  failure = none;
  created_at = 2;
  execution_id = "b";
}

abbrev b_execution : MlExecution
b_execution = row "b" false

finalize-answers_example :
    (db' : Database) × (finalize_output_persisted 5 "b" rows ≡ ok db')
    × (find_current b_row.execution_key db'
        ≡ ok (some (record b_execution { output_persisted = true })))
    × ((key : String) → b_row.execution_key ≢ key → find_current key db' ≡ find_current key rows)
unfolding find_row run_all mark_artifacts_stored save load_execution checksum_input_data decimal
    preimage serialize sorted utf8 owned
finalize-answers_example =
    finalize-answers 5 "b" b_row b_execution rows (run_all-Integrity digest operations).0 refl refl
      (record { succeeded = refl; unpersisted = refl; current = refl }) refl
