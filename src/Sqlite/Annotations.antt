-- ===== src/Sqlite/Annotations.antt =====
-- Tags, back-filled input and the purges of packages/adapters'
-- adapter/outbound/persistence/sqlite/execution_repository.py.
use generic_ml_cache.Prelude.{
  ℕ, String, Bool, false, ◌&&◌, not, none, some, List, [], ◌∷◌, ◌++◌, map, any, ◌==◌, if◌then◌else◌,
}
use generic_ml_cache.Dict.{erase}
use generic_ml_cache.Domain.{Artifact, is_input}
use generic_ml_cache.Repository.Annotations.{contains}
use generic_ml_cache.Sqlite.{Database, insert_artifacts}
use generic_ml_cache.Sqlite.Tables.{Row, Table, same, owned, without, keep_rows}
use generic_ml_cache.Sqlite.Queries.{current_row}

-- INSERT OR IGNORE, for one tag after the other
unfoldable pub insert_tags : ℕ → List String → Table String → Table String
unfolding owned contains
insert_tags id [] table = table
insert_tags id (t ∷ ts) table =
    insert_tags id ts (if contains t (owned id table) then table else table ++ (id, t) ∷ [])

unfoldable pub add_tags : String → List String → Database → Database
unfolding current_row insert_tags
add_tags key [] db = db
add_tags key (t ∷ ts) db = elim (current_row key db.executions) [
  | none ↦ db
  | some r ↦ record db { execution_tags = insert_tags r.id (t ∷ ts) db.execution_tags }
]

unfoldable pub add_input_artifacts : String → List Artifact → Database → Database
unfolding current_row owned insert_artifacts
add_input_artifacts key [] db = db
add_input_artifacts key (a ∷ as_) db = elim (current_row key db.executions) [
  | none ↦ db
  | some r ↦
      if any (λ b. is_input b.artifact_type) (owned r.id db.artifacts)
      then db
      else record db { artifacts = insert_artifacts r.id (a ∷ as_) db.artifacts }
]

-- execution_id IN (SELECT id FROM executions WHERE execution_key = ?)
unfoldable pub in_key : String → List Row → ℕ → Bool
in_key key rows id = any (λ r. same id r.id && (r.execution_key == key)) rows

abbrev pub unpersist : String → Row → Row
unpersist key r = if r.execution_key == key then record r { output_persisted = false } else r

unfoldable pub soft_purge_execution : String → Database → Database
unfolding in_key without
soft_purge_execution key db = record db {
  executions = map (unpersist key) db.executions;
  artifacts = without (in_key key db.executions) db.artifacts;
}

unfoldable pub hard_delete_execution : String → Database → Database
unfolding in_key without keep_rows erase
hard_delete_execution key db = record {
  call_identities = erase key db.call_identities;
  executions = keep_rows (λ r. not (r.execution_key == key)) db.executions;
  artifacts = without (in_key key db.executions) db.artifacts;
  token_usage = without (in_key key db.executions) db.token_usage;
  execution_tags = without (in_key key db.executions) db.execution_tags;
}
