-- ===== src/Purge/Eviction.antt =====
-- purge_service.py: which keys an eviction picks.
pub mod Order
use generic_ml_cache.Prelude.{
  ℕ, ◌+◌, ◌-◌, String, Bool, true, false, Option, none, some, List, [], ◌∷◌, leb, ltb,
  if◌then◌else◌,
}
use generic_ml_cache.Dict.{Dict, lookup}
use generic_ml_cache.Repository.Retention.{ExecutionSizeEntry}

abbrev epoch_or_zero : Option ℕ → ℕ
epoch_or_zero none = 0
epoch_or_zero (some t) = t

abbrev epoch_or : Option ℕ → Option ℕ → ℕ
epoch_or none created = epoch_or_zero created
epoch_or (some t) created = t

module _ (parse_epoch : String → Option ℕ) (last_access : Dict ℕ) where
  -- `_lru_epoch`
  unfoldable pub lru_epoch : ExecutionSizeEntry → ℕ
  lru_epoch e = epoch_or (lookup e.execution_key last_access) (parse_epoch e.created_at)

  -- Stable, as `sorted` is: an entry goes before those that are not smaller.
  unfoldable pub insert_entry :
      ExecutionSizeEntry → List ExecutionSizeEntry → List ExecutionSizeEntry
  insert_entry e [] = e ∷ []
  insert_entry e (f ∷ r) =
      if leb (lru_epoch e) (lru_epoch f) then e ∷ f ∷ r else f ∷ insert_entry e r

  -- sorted(entries, key=…)
  unfoldable pub sorted_entries : List ExecutionSizeEntry → List ExecutionSizeEntry
  unfolding insert_entry
  sorted_entries [] = []
  sorted_entries (e ∷ r) = insert_entry e (sorted_entries r)

  -- `_lru_epoch(e) < time.time() - max_age_seconds`, with the subtraction moved to the left.
  unfoldable pub stale_keys : ℕ → ℕ → List ExecutionSizeEntry → List String
  unfolding lru_epoch
  stale_keys time max_age_seconds [] = []
  stale_keys time max_age_seconds (e ∷ r) =
      let rest = stale_keys time max_age_seconds r in
      if ltb (lru_epoch e + max_age_seconds) time then e.execution_key ∷ rest else rest

-- The loop of evict_to_quota. `running` is at least the sizes still to come, so the subtraction
-- never goes below zero.
unfoldable pub keys_to_evict : ℕ → ℕ → List ExecutionSizeEntry → List String
keys_to_evict max_bytes running [] = []
keys_to_evict max_bytes running (e ∷ r) =
    let rest = keys_to_evict max_bytes (running - e.total_size_bytes) r in
    if leb running max_bytes then [] else e.execution_key ∷ rest
