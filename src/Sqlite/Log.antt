-- ===== src/Sqlite/Log.antt =====
-- What the tables of packages/adapters' adapter/outbound/persistence/sqlite/execution_repository.py
-- promise: one log of runs, in the order in which they were saved, each with its artifacts, usage
-- and tags. The operations change the runs that they name, without row ids and joins.
use generic_ml_cache.Prelude.{
  String, Bool, true, false, ◌&&◌, not, Option, none, some, List, [], ◌∷◌, ◌++◌, map, any, ◌==◌,
  is_some, if◌then◌else◌,
}
use generic_ml_cache.Errors.{
  Error, Result, ok, err, store_consistency, no_execution_row, no_artifact_row, not_all_stored,
}
use generic_ml_cache.Domain.{
  Timestamp, ExecutionKind, ExecutionState, ExecutionFailure, TokenUsage, Artifact, MlExecution,
  is_stored, is_success,
}
use generic_ml_cache.Repository.{is_servable, drop_content, count_unstored}
use generic_ml_cache.Sqlite.{no_row_to_finalize, Database}
use generic_ml_cache.Sqlite.Tables.{Row, owned}
use generic_ml_cache.Sqlite.Queries.{first}

pub record Run : Type 0 where
  pub execution_key : String
  pub kind : ExecutionKind
  pub state : ExecutionState
  pub output_persisted : Bool
  pub superseded_at : Option Timestamp
  pub failure : Option ExecutionFailure
  pub created_at : Timestamp
  pub execution_id : String
  pub artifacts : List Artifact
  pub token_usage : Option TokenUsage
  pub tags : List String

abbrev pub Log : Type 0
Log = List Run

-- The run that a row stands for.
abbrev pub view : Database → Row → Run
view db r = record {
  execution_key = r.execution_key;
  kind = r.kind;
  state = r.state;
  output_persisted = r.output_persisted;
  superseded_at = r.superseded_at;
  failure = r.failure;
  created_at = r.created_at;
  execution_id = r.execution_id;
  artifacts = owned r.id db.artifacts;
  token_usage = first (owned r.id db.token_usage);
  tags = owned r.id db.execution_tags;
}

abbrev pub log_of : Database → Log
log_of db = map (view db) db.executions

unfoldable pub run_servable : Run → Bool
run_servable r = is_success r.state && (r.output_persisted && not (is_some r.superseded_at))

abbrev pub supersede_run : String → Timestamp → Run → Run
supersede_run key now r =
    if (r.execution_key == key) && run_servable r then record r { superseded_at = some now } else r

abbrev pub new_run : String → Timestamp → MlExecution → Run
new_run key now e = record {
  execution_key = key;
  kind = e.execution_kind;
  state = e.execution_state;
  output_persisted = e.output_persisted;
  superseded_at = e.superseded_at;
  failure = e.failure;
  created_at = now;
  execution_id = e.execution_id;
  artifacts = map drop_content e.artifacts;
  token_usage = e.token_usage;
  tags = [];
}

unfoldable pub save : String → Timestamp → MlExecution → Log → Result Log
unfolding is_servable run_servable
save key now e log =
    if any (λ r. r.execution_id == e.execution_id) log
    then err (store_consistency "store integrity violation")
    else ok
        ((if is_servable e then map (supersede_run key now) log else log) ++ new_run key now e ∷ [])

unfoldable pub find_run : String → Log → Option Run
find_run id [] = none
find_run id (r ∷ log) = if r.execution_id == id then some r else find_run id log

abbrev pub change : String → (Run → Run) → Log → Log
change id f log = map (λ r. if r.execution_id == id then f r else r) log

abbrev pub with_run : Error → Option Run → (Run → Result Log) → Result Log
with_run missing none f = err missing
with_run missing (some r) f = f r

abbrev pub or_usage : Option TokenUsage → Option TokenUsage → Option TokenUsage
or_usage none u = u
or_usage (some t) u = some t

unfoldable pub record_outcome : MlExecution → Log → Result Log
unfolding find_run
record_outcome e log =
    with_run (no_execution_row e.execution_id) (find_run e.execution_id log) (λ r.
      if is_some e.token_usage && is_some r.token_usage
      then err (store_consistency "store integrity violation")
      else ok (
          change e.execution_id
            (λ s. record s {
              state = e.execution_state;
              failure = e.failure;
              token_usage = or_usage s.token_usage e.token_usage;
            })
            log))

unfoldable pub persist_artifact : String → Artifact → Log → Result Log
unfolding find_run
persist_artifact id artifact log = with_run (no_execution_row id) (find_run id log) (λ r.
    ok (change id (λ s. record s { artifacts = s.artifacts ++ drop_content artifact ∷ [] }) log))

unfoldable pub update_artifacts : String → String → (Artifact → Artifact) → Log → Result Log
unfolding find_run
update_artifacts id blob_key f log = with_run (no_artifact_row id blob_key) (find_run id log) (λ r.
    if any (λ a. a.blob_key == blob_key) r.artifacts
    then ok (
        change id
          (λ s. record s {
            artifacts = map (λ a. if a.blob_key == blob_key then f a else a) s.artifacts;
          })
          log)
    else err (no_artifact_row id blob_key))

unfoldable pub finalize_output_persisted : Timestamp → String → Log → Result Log
unfolding find_run run_servable
finalize_output_persisted now id log = with_run (no_row_to_finalize id) (find_run id log) (λ r.
    if any (λ a. not (is_stored a.status)) r.artifacts
    then err (not_all_stored id (count_unstored r.artifacts))
    else ok (
        change id (λ s. record s { output_persisted = true })
          (if is_success r.state then map (supersede_run r.execution_key now) log else log)))

unfoldable pub keep_runs : (Run → Bool) → Log → Log
keep_runs kept [] = []
keep_runs kept (r ∷ log) = let rest = keep_runs kept log in if kept r then r ∷ rest else rest

unfoldable pub remove_execution : String → Log → Log
unfolding keep_runs
remove_execution id log = keep_runs (λ r. not (r.execution_id == id)) log

unfoldable pub soft_purge_execution : String → Log → Log
soft_purge_execution key log =
    map
      (λ r.
        if r.execution_key == key then record r { output_persisted = false; artifacts = [] } else r)
      log

unfoldable pub hard_delete_execution : String → Log → Log
unfolding keep_runs
hard_delete_execution key log = keep_runs (λ r. not (r.execution_key == key)) log
