-- ===== src/Sqlite.antt =====
-- SqliteExecutionRepository: packages/adapters'
-- adapter/outbound/persistence/sqlite/execution_repository.py, over the tables of
-- migrations/0001.initial-schema.sql.
--
-- A table is the list of its rows in the order of their row ids, which is the order that `ORDER BY
-- id` reads. The columns of an identity are the identity, an enumeration's text is its value, and
-- a transaction is a function that returns the new tables, or an error and no change. `now` is
-- what `clock.now()` returns.
pub mod Tables
pub mod Queries
pub mod Annotations
pub mod Log
pub mod Integrity
pub mod Viewing
pub mod Refinement
pub mod Promotion
pub mod Saving
pub mod Removal
pub mod Simulation
pub mod Currency
use Prim.Native.String.{◌++◌ as ◌⧺◌}
use generic_ml_cache.Prelude.{
  ℕ, suc, ◌+◌, String, Bool, true, false, ◌&&◌, ◌||◌, not, Option, none, some, List, [], ◌∷◌, ◌++◌,
  map, any, ◌==◌, is_some, if◌then◌else◌,
}
use generic_ml_cache.Dict.{Dict, lookup, insert, erase}
use generic_ml_cache.Errors.{
  Error, Result, ok, err, store_consistency, no_execution_row, no_artifact_row, not_all_stored,
}
use generic_ml_cache.Domain.{
  Timestamp, ExecutionKind, ExecutionState, ExecutionFailure, TokenUsage, ArtifactStatus, Artifact,
  MlExecution, is_stored, is_success, is_input,
}
use generic_ml_cache.Domain.Identity.{CallIdentity, generate_key}
use generic_ml_cache.Repository.{is_servable, drop_content, count_unstored}
use Tables.{
  Table, Row, same, owned, rows_of, without, keep_rows, update_owned, next_id, find_row, has_key,
  row_servable,
}

pub record Database : Type 0 where
  pub call_identities : Dict CallIdentity
  pub executions : List Row
  pub artifacts : Table Artifact
  pub token_usage : Table TokenUsage
  pub execution_tags : Table String

abbrev pub empty : Database
empty = record {
  call_identities = [];
  executions = [];
  artifacts = [];
  token_usage = [];
  execution_tags = [];
}

-- INSERT … WHERE NOT EXISTS
unfoldable pub upsert_identity : String → CallIdentity → Dict CallIdentity → Dict CallIdentity
unfolding lookup insert
upsert_identity key identity table =
    if is_some (lookup key table) then table else insert key identity table

abbrev pub supersede_row : String → Timestamp → Row → Row
supersede_row key now r =
    if (r.execution_key == key) && row_servable r then record r { superseded_at = some now } else r

unfoldable pub supersede_prior_current : String → Timestamp → List Row → List Row
supersede_prior_current key now rows = map (supersede_row key now) rows

abbrev pub new_row : ℕ → String → Timestamp → MlExecution → Row
new_row id key now e = record {
  id = id;
  execution_key = key;
  kind = e.execution_kind;
  state = e.execution_state;
  output_persisted = e.output_persisted;
  superseded_at = e.superseded_at;
  failure = e.failure;
  created_at = now;
  execution_id = e.execution_id;
}

-- _insert_execution: the unique index on execution_id refuses a second row.
unfoldable pub insert_execution :
    String → Timestamp → MlExecution → List Row → Result (ℕ × List Row)
unfolding next_id
insert_execution key now e rows =
    if any (λ r. r.execution_id == e.execution_id) rows
    then err (store_consistency "store integrity violation")
    else ok (next_id rows, rows ++ new_row (next_id rows) key now e ∷ [])

unfoldable pub insert_artifacts : ℕ → List Artifact → Table Artifact → Table Artifact
unfolding rows_of
insert_artifacts id artifacts table = table ++ rows_of id (map drop_content artifacts)

-- _insert_token_usage: the primary key refuses a second row.
unfoldable pub insert_token_usage :
    ℕ → Option TokenUsage → Table TokenUsage → Result (Table TokenUsage)
insert_token_usage id none table = ok table
insert_token_usage id (some usage) table =
    if any (λ row. same id row.0) table
    then err (store_consistency "store integrity violation")
    else ok (table ++ (id, usage) ∷ [])

abbrev pub with_usage : Database → Result (Table TokenUsage) → Result Database
with_usage db (ok table) = ok (record db { token_usage = table })
with_usage db (err e) = err e

abbrev pub save_row :
    CallIdentity → MlExecution → String → Database → Result (ℕ × List Row) → Result Database
save_row identity e key db (err x) = err x
save_row identity e key db (ok (id, rows)) =
    with_usage
      (record db {
        call_identities = upsert_identity key identity db.call_identities;
        executions = rows;
        artifacts = insert_artifacts id e.artifacts db.artifacts;
      })
      (insert_token_usage id e.token_usage db.token_usage)

unfoldable pub save : (List ℕ → String) → Timestamp → MlExecution → Database → Result Database
unfolding generate_key upsert_identity is_servable supersede_prior_current insert_execution
    insert_artifacts insert_token_usage
save sha256 now e db =
    let key = generate_key sha256 e.call_identity in
    let prior =
      if is_servable e then supersede_prior_current key now db.executions else db.executions in
    save_row e.call_identity e key db (insert_execution key now e prior)

abbrev pub outcome_row : MlExecution → Row → Row
outcome_row e r = record r { state = e.execution_state; failure = e.failure }

abbrev pub update_row : ℕ → (Row → Row) → List Row → List Row
update_row id f rows = map (λ r. if same id r.id then f r else r) rows

-- What is done with the row, or the error where there is none.
abbrev pub with_row : Error → Option Row → (Row → Result Database) → Result Database
with_row missing none f = err missing
with_row missing (some r) f = f r

unfoldable pub record_outcome : MlExecution → Database → Result Database
unfolding find_row insert_token_usage
record_outcome e db =
    with_row (no_execution_row e.execution_id) (find_row e.execution_id db.executions) (λ r.
      with_usage (record db { executions = update_row r.id (outcome_row e) db.executions })
        (insert_token_usage r.id e.token_usage db.token_usage))

unfoldable pub persist_artifact : String → Artifact → Database → Result Database
unfolding find_row insert_artifacts
persist_artifact execution_id artifact db =
    with_row (no_execution_row execution_id) (find_row execution_id db.executions)
      (λ r. ok (record db { artifacts = insert_artifacts r.id (artifact ∷ []) db.artifacts }))

-- UPDATE artifacts … WHERE blob_key = ? AND execution_id = (SELECT id …)
abbrev pub matching : String → ℕ → ℕ × Artifact → Bool
matching blob_key id row = same id row.0 && (row.1.blob_key == blob_key)

unfoldable pub update_artifacts :
    String → String → (Artifact → Artifact) → Database → Result Database
unfolding find_row update_owned
update_artifacts execution_id blob_key f db =
    with_row (no_artifact_row execution_id blob_key) (find_row execution_id db.executions) (λ r.
      if any (matching blob_key r.id) db.artifacts
      then ok (record db {
        artifacts = update_owned r.id (λ a. if a.blob_key == blob_key then f a else a) db.artifacts;
      })
      else err (no_artifact_row execution_id blob_key))

abbrev pub stored_at : Timestamp → Artifact → Artifact
stored_at now a = record a {
  status = ArtifactStatus.stored;
  persisted_at = some now;
  status_detail = none;
}

abbrev pub failed_with : String → Artifact → Artifact
failed_with detail a = record a { status = ArtifactStatus.failed; status_detail = some detail }

unfoldable pub mark_artifacts_stored : Timestamp → String → String → Database → Result Database
unfolding update_artifacts
mark_artifacts_stored now execution_id blob_key =
    update_artifacts execution_id blob_key (stored_at now)

unfoldable pub mark_artifacts_failed : String → String → String → Database → Result Database
unfolding update_artifacts
mark_artifacts_failed execution_id blob_key detail =
    update_artifacts execution_id blob_key (failed_with detail)

abbrev pub no_row_to_finalize : String → Error
no_row_to_finalize execution_id =
    store_consistency ("finalize: no execution row for execution_id " ⧺ execution_id)

abbrev pub promote : Row → Row
promote r = record r { output_persisted = true }

unfoldable pub finalize_output_persisted : Timestamp → String → Database → Result Database
unfolding find_row owned supersede_prior_current
finalize_output_persisted now execution_id db =
    with_row (no_row_to_finalize execution_id) (find_row execution_id db.executions) (λ r.
      if any (λ a. not (is_stored a.status)) (owned r.id db.artifacts)
      then err (not_all_stored execution_id (count_unstored (owned r.id db.artifacts)))
      else ok (record db {
        executions = update_row r.id promote (
            if is_success r.state
            then supersede_prior_current r.execution_key now db.executions
            else db.executions);
      }))

-- Without a last execution the key's identity goes too.
abbrev pub orphaned : String → List Row → Dict CallIdentity → Dict CallIdentity
orphaned key rows table = if has_key key rows then table else erase key table

abbrev pub remove_row : Database → Option Row → Database
remove_row db none = db
remove_row db (some r) =
    let rows = keep_rows (λ s. not (same r.id s.id)) db.executions in
    record {
      call_identities = orphaned r.execution_key rows db.call_identities;
      executions = rows;
      artifacts = without (same r.id) db.artifacts;
      token_usage = without (same r.id) db.token_usage;
      execution_tags = without (same r.id) db.execution_tags;
    }

unfoldable pub remove_execution : String → Database → Database
unfolding find_row keep_rows without erase has_key
remove_execution execution_id db = remove_row db (find_row execution_id db.executions)
