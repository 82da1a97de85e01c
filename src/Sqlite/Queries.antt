-- ===== src/Sqlite/Queries.antt =====
-- The reads of packages/adapters' adapter/outbound/persistence/sqlite/execution_repository.py, and
-- the reconstruction of an execution from its rows.
use generic_ml_cache.Prelude.{
  ℕ, String, Bool, false, ◌&&◌, ◌||◌, not, Option, none, some, List, [], ◌∷◌, ◌++◌, map, any, ◌==◌,
  sum_of, if◌then◌else◌,
}
use generic_ml_cache.Dict.{lookup, keys}
use generic_ml_cache.Text.{sorted}
use generic_ml_cache.Errors.{Result, ok, err, store_corrupt}
use generic_ml_cache.Domain.{MlExecution, is_input}
use generic_ml_cache.Domain.Identity.{CallIdentity, summary_client, summary_model}
use generic_ml_cache.Domain.Kind.{kind_value}
use generic_ml_cache.Repository.Annotations.{
  contains, add_all, UnpersistedRun, unresolved_keys, with_keys,
}
use generic_ml_cache.Repository.Retention.{ExecutionSummary}
use generic_ml_cache.Sqlite.{Database}
use generic_ml_cache.Sqlite.Tables.{like_prefix, Row, same, owned, row_servable}

-- SELECT … FROM executions WHERE …
unfoldable pub select : (Row → Bool) → List Row → List Row
select test [] = []
select test (r ∷ rows) = let rest = select test rows in if test r then r ∷ rest else rest

-- ORDER BY id DESC LIMIT 1
unfoldable pub last_row : List Row → Option Row
last_row [] = none
last_row (r ∷ []) = some r
last_row (r ∷ s ∷ rows) = last_row (s ∷ rows)

-- fetchone()
abbrev pub first : {A : Type 0} → List A → Option A
first [] = none
first (a ∷ as_) = some a

-- The row of the current answer of a key.
unfoldable pub current_row : String → List Row → Option Row
unfolding select last_row row_servable
current_row key rows = last_row (select (λ r. (r.execution_key == key) && row_servable r) rows)

abbrev pub load_with : Database → Row → Option CallIdentity → Result MlExecution
load_with db r none = err (store_corrupt "corrupt execution row")
load_with db r (some identity) =
    let artifacts = owned r.id db.artifacts in
    ok (record {
      call_identity = identity;
      execution_state = r.state;
      execution_kind = r.kind;
      output_persisted = r.output_persisted;
      execution_id = r.execution_id;
      input_persisted = any (λ a. is_input a.artifact_type) artifacts;
      artifacts = artifacts;
      token_usage = first (owned r.id db.token_usage);
      failure = r.failure;
      superseded_at = r.superseded_at;
    })

-- _load_execution: an identity that is missing is a corrupt row.
unfoldable pub load_execution : Database → Row → Result MlExecution
unfolding owned lookup
load_execution db r = load_with db r (lookup r.execution_key db.call_identities)

abbrev pub found_execution : Result MlExecution → Result (Option MlExecution)
found_execution (ok e) = ok (some e)
found_execution (err x) = err x

abbrev pub load_optional : Database → Option Row → Result (Option MlExecution)
load_optional db none = ok none
load_optional db (some r) = found_execution (load_execution db r)

unfoldable pub find_current : String → Database → Result (Option MlExecution)
unfolding current_row load_execution
find_current key db = load_optional db (current_row key db.executions)

abbrev pub both : Result MlExecution → Result (List MlExecution) → Result (List MlExecution)
both (err x) rest = err x
both (ok e) (err x) = err x
both (ok e) (ok es) = ok (e ∷ es)

unfoldable pub load_all : Database → List Row → Result (List MlExecution)
unfolding load_execution
load_all db [] = ok []
load_all db (r ∷ rows) = both (load_execution db r) (load_all db rows)

unfoldable pub find_all : String → Database → Result (List MlExecution)
unfolding select load_all
find_all key db = load_all db (select (λ r. r.execution_key == key) db.executions)

-- `LIKE prefix%`, for a prefix without a wildcard
unfoldable pub find_current_by_key_prefix : String → Database → Result (List MlExecution)
unfolding select load_all row_servable
find_current_by_key_prefix prefix db =
    load_all db (select (λ r. like_prefix r.execution_key prefix && row_servable r) db.executions)

unfoldable pub tags_for : String → Database → List String
unfolding current_row owned sorted
tags_for key db = elim (current_row key db.executions) [
  | none ↦ []
  | some r ↦ sorted (λ t. t) (owned r.id db.execution_tags)
]

-- SELECT DISTINCT a.blob_key … WHERE e.execution_key = ?
unfoldable pub blob_keys_in : Database → List Row → List String
unfolding owned add_all
blob_keys_in db [] = []
blob_keys_in db (r ∷ rows) =
    add_all (map (λ a. a.blob_key) (owned r.id db.artifacts)) (blob_keys_in db rows)

unfoldable pub blob_keys_for_execution : String → Database → List String
unfolding select blob_keys_in
blob_keys_for_execution key db =
    blob_keys_in db (select (λ r. r.execution_key == key) db.executions)

unfoldable pub row_bytes : Database → Row → ℕ
unfolding owned
row_bytes db r = sum_of (λ a. a.size_bytes) (owned r.id db.artifacts)

-- SELECT COALESCE(SUM(a.size_bytes), 0) … of the servable executions
unfoldable pub total_stored_bytes : Database → ℕ
unfolding select row_bytes row_servable
total_stored_bytes db = sum_of (row_bytes db) (select row_servable db.executions)

unfoldable pub executions_by_tag : String → Database → List String
unfolding select owned contains add_all row_servable
executions_by_tag tag db =
    add_all
      (map (λ r. r.execution_key)
        (select (λ r. row_servable r && contains tag (owned r.id db.execution_tags)) db.executions))
      []

unfoldable pub all_execution_keys : Database → List String
unfolding sorted
all_execution_keys db = sorted (λ k. k) (keys db.call_identities)

abbrev summary_with : Row → Option CallIdentity → List ExecutionSummary → List ExecutionSummary
summary_with r none rest = rest
summary_with r (some identity) rest =
    record {
      execution_key = r.execution_key;
      kind = kind_value r.kind;
      client = summary_client identity;
      model = summary_model identity;
    }
    ∷ rest

-- The JOIN with call_identities has no line for a key without an identity.
unfoldable pub summaries_of : Database → List Row → List ExecutionSummary
unfolding lookup
summaries_of db [] = []
summaries_of db (r ∷ rows) =
    summary_with r (lookup r.execution_key db.call_identities) (summaries_of db rows)

unfoldable pub current_execution_summaries : Database → List ExecutionSummary
unfolding select summaries_of row_servable
current_execution_summaries db = summaries_of db (select row_servable db.executions)

-- e.id = (SELECT id … ORDER BY e2.id DESC LIMIT 1)
abbrev is_id : ℕ → Option Row → Bool
is_id id none = false
is_id id (some r) = same id r.id

unfoldable pub is_latest : List Row → Row → Bool
unfolding select last_row
is_latest rows r = is_id r.id (last_row (select (λ s. s.execution_key == r.execution_key) rows))

-- The latest execution of a key, where it is not persisted and has an artifact that is not stored.
unfoldable pub awaiting_in : Database → List Row → List UnpersistedRun
unfolding owned unresolved_keys is_latest
awaiting_in db [] = []
awaiting_in db (r ∷ rows) =
    let rest = awaiting_in db rows in
    if r.output_persisted || not (is_latest db.executions r)
    then rest
    else with_keys r.execution_key r.execution_id (unresolved_keys (owned r.id db.artifacts) [])
      ++ rest

unfoldable pub runs_awaiting_persistence : Database → List UnpersistedRun
unfolding awaiting_in sorted
runs_awaiting_persistence db = sorted (λ u. u.execution_key) (awaiting_in db db.executions)
