-- ===== src/Tests/Store.antt =====
-- The repository, its retention and its repair on the test rows.
use generic_ml_cache.Prelude.{
  ◌+◌, ◌≤◌, String, ◌≡◌, ◌≢◌, refl, true, false, none, some, [], ◌∷◌, ◌==◌, arith, if◌then◌else◌,
}
use generic_ml_cache.Dict.{IsDict, lookup}
use generic_ml_cache.Errors.{ok}
use generic_ml_cache.Domain.{Artifact, ArtifactStatus, MlExecution}
use generic_ml_cache.Domain.Identity.{generate_key}
use generic_ml_cache.Repository.{
  Repository, empty, is_servable, find_all, find_current, locate, find_by_id, save, set_persisted,
  finalize_output_persisted,
}
use generic_ml_cache.Repository.Retention.{
  servable_of, soft_purge_execution, hard_delete_execution, servable_bytes, total_stored_bytes,
  current_executions_with_sizes,
}
use generic_ml_cache.Repository.Counting.{servable_count}
use generic_ml_cache.Repository.Currency.{finalize-find_current}
use generic_ml_cache.Repository.Consistency.{IsConsistent}
use generic_ml_cache.Repository.Reachability.{
  Reach, Reach.start, Reach.next, Step.saved, to_list, Reach-IsConsistent, find_current_unique,
}
use generic_ml_cache.Repository.Purging.{
  AreReleased, has_id, soft_purge_lem, hard_delete_lem, total_stored_bytes-soft_purge,
}
use generic_ml_cache.Repository.Sizes.{
  AreDistinct, AreExact, entry_bytes, current_executions_with_sizes_lem,
}
use generic_ml_cache.Repository.Annotations.{UnpersistedRun}
use generic_ml_cache.World.{World}
use generic_ml_cache.World.Runs.{Runs}
use generic_ml_cache.Purge.{JournalPorts, evict_to_quota}
use generic_ml_cache.Purge.Quota.{evict_to_quota_lem}
use generic_ml_cache.Tests.{
  digest, quiet_environment, call, row, two_keys, used_world, stored_artifact,
}

pub two_keys-IsDict : IsDict two_keys.by_key
unfolding lookup
two_keys-IsDict = (refl, (refl, tt))

two_keys-IsConsistent : IsConsistent two_keys
unfolding servable_count is_servable
two_keys-IsConsistent = record {
  distinct = two_keys-IsDict;
  unique = (omega arith, (omega arith, tt));
}

finalize-find_current_example :
    (r' : Repository) × (finalize_output_persisted 7 "b" two_keys ≡ ok r')
    × (find_current "k" r' ≡ some (set_persisted (row "b" false)))
    × ((k : String) → "k" ≢ k → find_all k r' ≡ find_all k two_keys)
unfolding locate find_by_id
finalize-find_current_example =
    finalize-find_current 7 "b" "k" (row "b" false) two_keys two_keys-IsDict refl
      (record { succeeded = refl; unpersisted = refl; current = refl; resolved = refl })

abbrev saved_row : Repository
saved_row = save digest 1 (row "a" true) empty

saved_row-Reach : Reach digest saved_row
saved_row-Reach = next start (saved 1 (row "a" true) empty)

find_current_unique_example :
    servable_of (find_all (generate_key digest call) saved_row)
    ≡ to_list (find_current (generate_key digest call) saved_row)
find_current_unique_example =
    find_current_unique digest (generate_key digest call) saved_row saved_row-Reach

Reach-IsConsistent_example : IsConsistent saved_row
Reach-IsConsistent_example = Reach-IsConsistent digest saved_row-Reach

-- The same rows, each with a tag.
abbrev tagged : Repository
tagged = record two_keys { tags_by_execution_id = ("a", "t" ∷ []) ∷ ("c", "t" ∷ "u" ∷ []) ∷ [] }

soft_purge_lem_example :
    (find_current "k" (soft_purge_execution "k" tagged) ≡ none)
    × AreReleased (find_all "k" tagged) (find_all "k" (soft_purge_execution "k" tagged))
    × ((k : String) → "k" ≢ k → find_all k (soft_purge_execution "k" tagged) ≡ find_all k tagged)
    × ((soft_purge_execution "k" tagged).tags_by_execution_id ≡ tagged.tags_by_execution_id)
soft_purge_lem_example = soft_purge_lem "k" tagged

hard_delete_lem_example :
    (find_all "k" (hard_delete_execution "k" tagged) ≡ [])
    × ((k : String) → "k" ≢ k → find_all k (hard_delete_execution "k" tagged) ≡ find_all k tagged)
    × ((id : String)
        → lookup id (hard_delete_execution "k" tagged).tags_by_execution_id ≡ (
            if has_id id (find_all "k" tagged)
            then none
            else lookup id tagged.tags_by_execution_id))
unfolding lookup
hard_delete_lem_example = hard_delete_lem "k" tagged two_keys-IsDict (refl, (refl, tt))

total_stored_bytes-soft_purge_example :
    total_stored_bytes (soft_purge_execution "k" two_keys) + servable_bytes (find_all "k" two_keys)
    ≡ total_stored_bytes two_keys
total_stored_bytes-soft_purge_example = total_stored_bytes-soft_purge "k" two_keys

current_executions_with_sizes_lem_example :
    AreDistinct (current_executions_with_sizes two_keys)
    × AreExact two_keys.by_key (current_executions_with_sizes two_keys)
    × (entry_bytes (current_executions_with_sizes two_keys) ≡ total_stored_bytes two_keys)
current_executions_with_sizes_lem_example =
    current_executions_with_sizes_lem two_keys two_keys-IsConsistent

abbrev ports : JournalPorts
ports = record {
  last_access = some (("k", 5) ∷ ("l", 3) ∷ []);
  execution_keys_for_session = λ session_id. [];
  session_ids_for_tag = λ tag. [];
  parse_epoch = λ text. none;
  time = 9;
}

evict_to_quota_lem_example :
    Runs
      (evict_to_quota quiet_environment ports 10)
      used_world
      (λ report w'. total_stored_bytes w'.repository ≤ 10)
evict_to_quota_lem_example =
    evict_to_quota_lem quiet_environment (λ n key. refl) ports 10 used_world two_keys-IsConsistent

-- Two runs to repair: of the first the blob is there, of the second one of two.
abbrev pending_artifact : String → Artifact
pending_artifact key = record (stored_artifact key) { status = ArtifactStatus.pending }

abbrev pending_row : String → MlExecution
pending_row id = record (row id false) {
  artifacts = pending_artifact "b" ∷ (if id == "b" then [] else pending_artifact "c" ∷ []);
}

abbrev row_of : UnpersistedRun → MlExecution
row_of run = pending_row run.execution_id

abbrev broken_world : World
broken_world = record used_world {
  repository = record {
    by_key =
        ("k", row "a" true ∷ pending_row "b" ∷ [])
        ∷ ("l", pending_row "d" ∷ [])
        ∷ ("m", row "e" true ∷ [])
        ∷ [];
    tags_by_execution_id = [];
  };
  blobs = ("a", 1 ∷ []) ∷ ("b", 2 ∷ []) ∷ [];
}
