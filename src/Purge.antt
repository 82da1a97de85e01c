-- ===== src/Purge.antt =====
-- application/usecase/purge_service.py of packages/core: retention and explicit invalidation.
-- Times are whole seconds; `max_bytes` and `max_age_seconds` are not negative.
pub mod Eviction
pub mod Quota
use generic_ml_cache.Prelude.{
  ℕ, ◌+◌, String, Bool, true, false, Option, none, some, List, [], ◌∷◌, map, leb, length, ◌++◌,
  ◌==◌, if◌then◌else◌,
}
use generic_ml_cache.Dict.{Dict, lookup, insert}
use generic_ml_cache.Errors.{ok}
use generic_ml_cache.Domain.{Bytes, MlExecution, Artifact}
use generic_ml_cache.Repository
use generic_ml_cache.Repository.{Repository, find_all}
use generic_ml_cache.Repository.Retention.{
  ExecutionSizeEntry, soft_purge_execution, hard_delete_execution, total_stored_bytes,
  current_executions_with_sizes, executions_by_tag, all_execution_keys,
}
use generic_ml_cache.Repository.Annotations.{contains}
use generic_ml_cache.World.{
  World, Environment, JournalEntry, Exec, pure, gets, ◌>>=◌, ◌>>◌, modify_repository, remove_blob,
}
use generic_ml_cache.Purge.Eviction.{stale_keys, sorted_entries, keys_to_evict}

pub record PurgeReport : Type 0 where
  pub executions_removed : ℕ
  pub bytes_freed : ℕ
  pub blobs_removed : ℕ

abbrev pub nothing_purged : PurgeReport
nothing_purged = record { executions_removed = 0; bytes_freed = 0; blobs_removed = 0 }

-- The journal's access data and the sessions, which other stores keep.
pub record JournalPorts : Type 0 where
  pub last_access : Option (Dict ℕ)
  pub execution_keys_for_session : String → List String
  pub session_ids_for_tag : String → List String
  -- datetime.fromisoformat(…).timestamp(), on a well-formed text
  pub parse_epoch : String → Option ℕ
  -- time.time()
  pub time : ℕ

unfoldable pub artifact_sizes : List Artifact → Dict ℕ → Dict ℕ
artifact_sizes [] sizes = sizes
artifact_sizes (a ∷ artifacts) sizes =
    artifact_sizes artifacts (insert a.blob_key a.size_bytes sizes)

-- `_blob_sizes_for`, for one key
unfoldable pub blob_sizes : List MlExecution → Dict ℕ → Dict ℕ
unfolding artifact_sizes
blob_sizes [] sizes = sizes
blob_sizes (e ∷ history) sizes = blob_sizes history (artifact_sizes e.artifacts sizes)

unfoldable pub delete_events : String → List JournalEntry → List JournalEntry
delete_events key [] = []
delete_events key (e ∷ journal) =
    let rest = delete_events key journal in if e.execution_key == key then rest else e ∷ rest

unfoldable pub delete_events_for_key : String → Exec (Unit {0})
unfolding delete_events
delete_events_for_key key w = (ok tt, record w { journal = delete_events key w.journal })

abbrev or_empty_dict : Option (Dict ℕ) → Dict ℕ
or_empty_dict none = []
or_empty_dict (some d) = d

abbrev pub entry_keys : List ExecutionSizeEntry → List String
entry_keys [] = []
entry_keys (e ∷ r) = e.execution_key ∷ entry_keys r

-- `_access_ordering`: without access data the creation time decides.
abbrev pub access_ordering : JournalPorts → Dict ℕ
access_ordering ports = or_empty_dict ports.last_access

module _ (env : Environment) where
  -- `_remove_blobs`: how many, and how many bytes
  unfoldable pub remove_blobs : Dict ℕ → Exec (ℕ × ℕ)
  remove_blobs [] = pure (0, 0)
  remove_blobs ((blob_key, size) ∷ sizes) = do
    remove_blob env blob_key
    rest ← remove_blobs sizes
    pure (1 + rest.0, size + rest.1)

  unfoldable pub soft_purge_key : String → Exec (ℕ × ℕ)
  unfolding remove_blobs blob_sizes
  soft_purge_key key = do
    sizes ← gets (λ w. blob_sizes (find_all key w.repository) [])
    modify_repository (soft_purge_execution key)
    remove_blobs sizes

  unfoldable pub hard_delete_key : String → Exec (ℕ × ℕ)
  unfolding remove_blobs blob_sizes delete_events_for_key
  hard_delete_key key = do
    sizes ← gets (λ w. blob_sizes (find_all key w.repository) [])
    modify_repository (hard_delete_execution key)
    delete_events_for_key key
    remove_blobs sizes

  -- The loop over the keys, with the totals of blobs and bytes.
  unfoldable pub purge_each : (String → Exec (ℕ × ℕ)) → List String → Exec (ℕ × ℕ)
  purge_each one [] = pure (0, 0)
  purge_each one (key ∷ keys) = do
    first ← one key
    rest ← purge_each one keys
    pure (first.0 + rest.0, first.1 + rest.1)

  -- The report; with no keys it is empty, as the early return has it.
  purged : (String → Exec (ℕ × ℕ)) → List String → Exec PurgeReport
  unfolding purge_each
  purged one keys = do
    totals ← purge_each one keys
    pure (record {
      executions_removed = length keys;
      bytes_freed = totals.1;
      blobs_removed = totals.0;
    })

  -- `_soft_purge_keys`
  unfoldable pub soft_purge_keys : List String → Exec PurgeReport
  unfolding purged soft_purge_key
  soft_purge_keys = purged soft_purge_key

  -- `_hard_delete_keys`
  unfoldable pub hard_delete_keys : List String → Exec PurgeReport
  unfolding purged hard_delete_key
  hard_delete_keys = purged hard_delete_key

  -- `_purge`
  unfoldable pub purge : List String → Bool → Exec PurgeReport
  unfolding hard_delete_keys soft_purge_keys
  purge keys hard = if hard then hard_delete_keys keys else soft_purge_keys keys

  by_key : String → Bool → List MlExecution → Exec PurgeReport
  unfolding purge
  by_key key hard [] = pure nothing_purged
  by_key key hard (e ∷ history) = purge (key ∷ []) hard

  unfoldable pub purge_by_key : String → Bool → Exec PurgeReport
  unfolding by_key
  purge_by_key key hard = do
    history ← gets (λ w. find_all key w.repository)
    by_key key hard history

  unfoldable pub purge_by_tag : String → Bool → Exec PurgeReport
  unfolding purge
  purge_by_tag tag hard = do keys ← gets (λ w. executions_by_tag tag w.repository); purge keys hard

  unfoldable pub purge_by_session : JournalPorts → String → Bool → Exec PurgeReport
  unfolding purge
  purge_by_session ports session_id hard = purge (ports.execution_keys_for_session session_id) hard

  unfoldable pub purge_all : Bool → Exec PurgeReport
  unfolding purge
  purge_all hard = do
    keys ← gets (λ w.
        if hard
        then all_execution_keys w.repository
        else entry_keys (current_executions_with_sizes w.repository))
    purge keys hard

  -- An age of zero evicts nothing.
  unfoldable pub evict_stale : JournalPorts → ℕ → Exec PurgeReport
  unfolding soft_purge_keys
  evict_stale ports max_age_seconds = if leb max_age_seconds 0 then pure nothing_purged else do
    entries ← gets (λ w. current_executions_with_sizes w.repository)
    soft_purge_keys
        (stale_keys ports.parse_epoch (access_ordering ports) ports.time max_age_seconds entries)

  unfoldable pub evict_to_quota : JournalPorts → ℕ → Exec PurgeReport
  unfolding soft_purge_keys
  evict_to_quota ports max_bytes = do
    current ← gets (λ w. total_stored_bytes w.repository)
    entries ← gets (λ w. current_executions_with_sizes w.repository)
    if leb current max_bytes
        then pure nothing_purged
        else soft_purge_keys (
            keys_to_evict max_bytes current
              (sorted_entries ports.parse_epoch (access_ordering ports) entries))

add_unseen : List String → List String → List String
add_unseen [] seen = seen
add_unseen (key ∷ keys) seen =
    add_unseen keys (if contains key seen then seen else seen ++ key ∷ [])

collect_keys : JournalPorts → List String → List String → List String
unfolding add_unseen
collect_keys ports [] seen = seen
collect_keys ports (session_id ∷ sessions) seen =
    collect_keys ports sessions (add_unseen (ports.execution_keys_for_session session_id) seen)

-- `_keys_for_session_tag`
unfoldable pub keys_for_session_tag : JournalPorts → String → List String
unfolding collect_keys
keys_for_session_tag ports tag = collect_keys ports (ports.session_ids_for_tag tag) []

module _ (env : Environment) where
  unfoldable pub purge_by_session_tag : JournalPorts → String → Bool → Exec PurgeReport
  unfolding keys_for_session_tag
  purge_by_session_tag ports tag hard = purge env (keys_for_session_tag ports tag) hard
