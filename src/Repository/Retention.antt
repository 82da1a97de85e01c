-- ===== src/Repository/Retention.antt =====
-- testing/in_memory_execution_repository.py: retention, purge and reporting.
use generic_ml_cache.Prelude.{
  ℕ, ◌+◌, String, Bool, false, Option, none, some, List, [], ◌∷◌, ◌++◌, map, sum_of, if◌then◌else◌,
}
use generic_ml_cache.Dict.{Dict, lookup, insert, erase, keys}
use generic_ml_cache.Domain.{MlExecution}
use generic_ml_cache.Domain.Identity.{summary_client, summary_model}
use generic_ml_cache.Domain.Kind.{kind_value}
use generic_ml_cache.Repository.{Repository, is_servable, or_empty, find_all, find_current}
use generic_ml_cache.Repository.Annotations.{contains, add_all}
use text.Mathlib.Text.{starts_with}

-- blob_keys_for_execution: the distinct blob keys of all executions of a key.
unfoldable pub blob_keys_in : List MlExecution → List String
unfolding add_all
blob_keys_in [] = []
blob_keys_in (e ∷ h) = add_all (map (λ a. a.blob_key) e.artifacts) (blob_keys_in h)

unfoldable pub blob_keys_for_execution : String → Repository → List String
unfolding blob_keys_in find_all
blob_keys_for_execution key r = blob_keys_in (find_all key r)

unfoldable pub release : MlExecution → MlExecution
release e = record e { artifacts = []; output_persisted = false; input_persisted = false }

unfoldable pub soft_purge_execution : String → Repository → Repository
unfolding release insert
soft_purge_execution key r = elim (lookup key r.by_key) [
  | none ↦ r
  | some history ↦ record r { by_key = insert key (map release history) r.by_key }
]

unfoldable pub drop_tags : List MlExecution → Dict (List String) → Dict (List String)
drop_tags [] tags = tags
drop_tags (e ∷ h) tags = drop_tags h (erase e.execution_id tags)

unfoldable pub hard_delete_execution : String → Repository → Repository
unfolding drop_tags find_all
hard_delete_execution key r = record {
  by_key = erase key r.by_key;
  tags_by_execution_id = drop_tags (find_all key r) r.tags_by_execution_id;
}

unfoldable pub artifact_bytes : MlExecution → ℕ
artifact_bytes e = sum_of (λ a. a.size_bytes) e.artifacts

unfoldable pub servable_bytes : List MlExecution → ℕ
servable_bytes [] = 0
servable_bytes (e ∷ h) =
    let rest = servable_bytes h in if is_servable e then artifact_bytes e + rest else rest

unfoldable pub total_stored_bytes : Repository → ℕ
unfolding servable_bytes
total_stored_bytes r = sum_of (λ entry. servable_bytes entry.1) r.by_key

pub record ExecutionSizeEntry : Type 0 where
  pub execution_key : String
  pub total_size_bytes : ℕ
  pub created_at : String

unfoldable pub size_entries : String → List MlExecution → List ExecutionSizeEntry
size_entries key [] = []
size_entries key (e ∷ h) =
    let rest = size_entries key h in
    if is_servable e
    then record { execution_key = key; total_size_bytes = artifact_bytes e; created_at = "" } ∷ rest
    else rest

unfoldable pub sizes_in : Dict (List MlExecution) → List ExecutionSizeEntry
unfolding size_entries
sizes_in [] = []
sizes_in ((key, history) ∷ d) = size_entries key history ++ sizes_in d

unfoldable pub current_executions_with_sizes : Repository → List ExecutionSizeEntry
unfolding sizes_in
current_executions_with_sizes r = sizes_in r.by_key

abbrev carries : String → Dict (List String) → Option MlExecution → Bool
carries tag tags none = false
carries tag tags (some e) = contains tag (or_empty (lookup e.execution_id tags))

unfoldable pub keys_tagged : String → Repository → List String → List String
unfolding find_current contains
keys_tagged tag r [] = []
keys_tagged tag r (key ∷ rest) =
    let later = keys_tagged tag r rest in
    if carries tag r.tags_by_execution_id (find_current key r) then key ∷ later else later

unfoldable pub executions_by_tag : String → Repository → List String
unfolding keys_tagged
executions_by_tag tag r = keys_tagged tag r (keys r.by_key)

unfoldable pub all_execution_keys : Repository → List String
all_execution_keys r = keys r.by_key

pub record ExecutionSummary : Type 0 where
  pub execution_key : String
  pub kind : String
  pub client : String
  pub model : String

unfoldable pub summaries_of : String → List MlExecution → List ExecutionSummary
unfolding is_servable kind_value summary_client summary_model
summaries_of key [] = []
summaries_of key (e ∷ h) =
    let rest = summaries_of key h in
    if is_servable e
    then record {
      execution_key = key;
      kind = kind_value e.execution_kind;
      client = summary_client e.call_identity;
      model = summary_model e.call_identity;
    }
      ∷ rest
    else rest

unfoldable pub summaries_in : Dict (List MlExecution) → List ExecutionSummary
unfolding summaries_of
summaries_in [] = []
summaries_in ((key, history) ∷ d) = summaries_of key history ++ summaries_in d

unfoldable pub current_execution_summaries : Repository → List ExecutionSummary
unfolding summaries_in
current_execution_summaries r = summaries_in r.by_key

unfoldable pub servable_of : List MlExecution → List MlExecution
unfolding is_servable
servable_of [] = []
servable_of (e ∷ h) = let rest = servable_of h in if is_servable e then e ∷ rest else rest

unfoldable pub servable_with_prefix : String → Dict (List MlExecution) → List MlExecution
unfolding servable_of
servable_with_prefix key_prefix [] = []
servable_with_prefix key_prefix ((key, history) ∷ d) =
    let rest = servable_with_prefix key_prefix d in
    if starts_with key key_prefix then servable_of history ++ rest else rest

unfoldable pub find_current_by_key_prefix : String → Repository → List MlExecution
unfolding servable_with_prefix
find_current_by_key_prefix key_prefix r = servable_with_prefix key_prefix r.by_key
