-- ===== src/Repository.antt =====
-- testing/in_memory_execution_repository.py of packages/core: the append-only execution store
-- behind the ports of application/port/outbound/ml_run_ports.py. The mutable execution objects are
-- values here, written back into the history of their key. `now` is what `clock.now()` returns.
pub mod Annotations
pub mod Retention
pub mod Tables
pub mod Counting
pub mod Currency
pub mod Consistency
pub mod Reachability
pub mod Purging
pub mod Sizes
pub mod Locating
pub mod Tracking
pub mod Undoing
use generic_ml_cache.Prelude.{
  ℕ, suc, ◌+◌, String, Bool, true, false, ◌&&◌, Option, none, some, List, [], ◌∷◌, ◌++◌, map, any,
  not, ◌==◌, is_some, sum_of, if◌then◌else◌,
}
use generic_ml_cache.Dict.{Dict, lookup, insert, erase, keys}
use generic_ml_cache.Text.{sorted}
use generic_ml_cache.Errors.{
  Error, Result, ok, err, no_execution_row, no_artifact_row, not_all_stored,
}
use generic_ml_cache.Domain.{
  Timestamp, ExecutionKind, ExecutionState, ArtifactStatus, Artifact, MlExecution, is_stored,
  is_success, is_input,
}
use generic_ml_cache.Domain.Identity.{generate_key, summary_client, summary_model}
use generic_ml_cache.Domain.Kind.{kind_value}

pub record Repository : Type 0 where
  pub by_key : Dict (List MlExecution)
  pub tags_by_execution_id : Dict (List String)

abbrev pub empty : Repository
empty = record { by_key = []; tags_by_execution_id = [] }

unfoldable pub is_servable : MlExecution → Bool
is_servable e =
    is_success e.execution_state && (e.output_persisted && not (is_some e.superseded_at))

-- self._by_key.get(key, [])
abbrev pub or_empty : {A : Type 0} → Option (List A) → List A
or_empty none = []
or_empty (some xs) = xs

unfoldable pub find_all : String → Repository → List MlExecution
find_all key r = or_empty (lookup key r.by_key)

unfoldable pub first_servable : List MlExecution → Option MlExecution
unfolding is_servable
first_servable [] = none
first_servable (e ∷ h) = if is_servable e then some e else first_servable h

unfoldable pub find_current : String → Repository → Option MlExecution
unfolding first_servable find_all
find_current key r = first_servable (find_all key r)

-- Stamping every servable execution of a history as superseded.
unfoldable pub supersede : Timestamp → MlExecution → MlExecution
unfolding is_servable
supersede now e = if is_servable e then record e { superseded_at = some now } else e

abbrev pub drop_content : Artifact → Artifact
drop_content a = record a { content = none }

unfoldable pub dehydrate : MlExecution → MlExecution
dehydrate e = record e { artifacts = map drop_content e.artifacts }

unfoldable pub save : (List ℕ → String) → Timestamp → MlExecution → Repository → Repository
unfolding is_servable supersede dehydrate find_all insert
save sha256 now execution r =
    let key = generate_key sha256 execution.call_identity in
    let stored = dehydrate execution in
    let history = find_all key r in
    let prior = if is_servable stored then map (supersede now) history else history in
    record r { by_key = insert key (prior ++ stored ∷ []) r.by_key }

unfoldable pub find_by_id : String → List MlExecution → Option MlExecution
find_by_id id [] = none
find_by_id id (e ∷ h) = if e.execution_id == id then some e else find_by_id id h

abbrev pub found_in :
    String → Option MlExecution → Option (String × MlExecution) → Option (String × MlExecution)
found_in key none later = later
found_in key (some e) later = some (key, e)

unfoldable pub locate : String → Dict (List MlExecution) → Option (String × MlExecution)
unfolding find_by_id
locate id [] = none
locate id ((key, history) ∷ d) = found_in key (find_by_id id history) (locate id d)

-- The execution object with this id is changed in place.
unfoldable pub update_first :
    String → (MlExecution → MlExecution) → List MlExecution → List MlExecution
update_first id f [] = []
update_first id f (e ∷ h) = if e.execution_id == id then f e ∷ h else e ∷ update_first id f h

unfoldable pub rewrite_located :
    String → (MlExecution → MlExecution) → String → Repository → Repository
unfolding update_first find_all insert
rewrite_located id f key r = record r {
  by_key = insert key (update_first id f (find_all key r)) r.by_key;
}

-- sum(1 for a in artifacts if a.status is not STORED)
abbrev pub count_unstored : List Artifact → ℕ
count_unstored artifacts = sum_of (λ a. if is_stored a.status then 0 else 1) artifacts

-- `_require_by_id`, then a change of the execution that it returned.
unfoldable pub modify_by_id : String → (MlExecution → MlExecution) → Repository → Result Repository
unfolding locate rewrite_located
modify_by_id id f r = elim (locate id r.by_key) [
  | none ↦ err (no_execution_row id)
  | some (key, e) ↦ ok (rewrite_located id f key r)
]

unfoldable pub with_outcome : MlExecution → MlExecution → MlExecution
with_outcome execution stored = record stored {
  execution_state = execution.execution_state;
  failure = execution.failure;
  token_usage = execution.token_usage;
}

unfoldable pub record_outcome : MlExecution → Repository → Result Repository
unfolding modify_by_id with_outcome
record_outcome execution = modify_by_id execution.execution_id (with_outcome execution)

unfoldable pub append_artifact : Artifact → MlExecution → MlExecution
append_artifact artifact stored = record stored {
  artifacts = stored.artifacts ++ drop_content artifact ∷ [];
}

unfoldable pub persist_artifact : String → Artifact → Repository → Result Repository
unfolding modify_by_id append_artifact
persist_artifact id artifact = modify_by_id id (append_artifact artifact)

unfoldable pub resolve_artifact :
    String → ArtifactStatus → Option Timestamp → Option String → Artifact → Artifact
resolve_artifact blob_key status persisted_at detail a =
    if a.blob_key == blob_key
    then record a {
      status = status;
      persisted_at = (if is_some persisted_at then persisted_at else a.persisted_at);
      status_detail = detail;
    }
    else a

unfoldable pub resolve_in :
    String → ArtifactStatus → Option Timestamp → Option String → MlExecution → MlExecution
unfolding resolve_artifact
resolve_in blob_key status persisted_at detail stored = record stored {
  artifacts = map (resolve_artifact blob_key status persisted_at detail) stored.artifacts;
}

-- `_resolve_artifacts` and `_require_artifact_update`: no matching row is an error.
unfoldable pub resolve_artifacts :
    String
    → String
    → ArtifactStatus
    → Option Timestamp
    → Option String
    → Repository
    → Result Repository
unfolding locate rewrite_located resolve_in
resolve_artifacts id blob_key status persisted_at detail r = elim (locate id r.by_key) [
  | none ↦ err (no_execution_row id)
  | some (key, e) ↦
      if any (λ a. a.blob_key == blob_key) e.artifacts
      then ok (rewrite_located id (resolve_in blob_key status persisted_at detail) key r)
      else err (no_artifact_row id blob_key)
]

unfoldable pub mark_artifacts_stored : Timestamp → String → String → Repository → Result Repository
unfolding resolve_artifacts
mark_artifacts_stored now id blob_key =
    resolve_artifacts id blob_key ArtifactStatus.stored (some now) none

unfoldable pub mark_artifacts_failed : String → String → String → Repository → Result Repository
unfolding resolve_artifacts
mark_artifacts_failed id blob_key detail =
    resolve_artifacts id blob_key ArtifactStatus.failed none (some detail)

unfoldable pub set_persisted : MlExecution → MlExecution
set_persisted e = record e { output_persisted = true }

-- The step of finalize that retires the prior current rows of a key.
unfoldable pub supersede_history : Timestamp → String → Repository → Repository
unfolding supersede find_all insert
supersede_history now key r = record r {
  by_key = insert key (map (supersede now) (find_all key r)) r.by_key;
}

unfoldable pub finalize_output_persisted : Timestamp → String → Repository → Result Repository
unfolding locate rewrite_located supersede_history set_persisted
finalize_output_persisted now id r = elim (locate id r.by_key) [
  | none ↦ err (no_execution_row id)
  | some (key, e) ↦
      if any (λ a. not (is_stored a.status)) e.artifacts
      then err (not_all_stored id (count_unstored e.artifacts))
      else ok (
          rewrite_located id set_persisted key
            (if is_success e.execution_state then supersede_history now key r else r))
]

unfoldable pub remove_first : String → List MlExecution → List MlExecution
remove_first id [] = []
remove_first id (e ∷ h) = if e.execution_id == id then h else e ∷ remove_first id h

abbrev pub put_or_drop :
    String → List MlExecution → Dict (List MlExecution) → Dict (List MlExecution)
put_or_drop key [] d = erase key d
put_or_drop key (e ∷ h) d = insert key (e ∷ h) d

unfoldable pub remove_execution : String → Repository → Repository
unfolding locate remove_first find_all insert erase
remove_execution id r = elim (locate id r.by_key) [
  | none ↦ r
  | some (key, e) ↦ record {
    by_key = put_or_drop key (remove_first id (find_all key r)) r.by_key;
    tags_by_execution_id = erase id r.tags_by_execution_id;
  }
]
