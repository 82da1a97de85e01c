-- ===== src/Repository/Purging.antt =====
-- What a purge of one key does to the table, and to the number of stored bytes.
use generic_ml_cache.Prelude.{
  ℕ, ◌+◌, String, Bool, false, any, ◌≡◌, refl, ◌≢◌, none, some, List, [], ◌∷◌, map, arith, ◌==◌,
  eq_iff, eq_refl, sum_of, if◌then◌else◌, Option-cases, inl, inr,
}
use generic_ml_cache.Dict.{
  Dict, lookup, insert, erase, IsDict, lookup-insert, lookup-erase, erase-IsDict,
}
use generic_ml_cache.Domain.{MlExecution}
use generic_ml_cache.Repository.{Repository, is_servable, find_all, first_servable, find_current}
use generic_ml_cache.Repository.Retention.{
  release, drop_tags, soft_purge_execution, hard_delete_execution, servable_bytes,
  total_stored_bytes,
}

pub find_all-soft_purge :
    (key k : String) (r : Repository)
    → find_all k (soft_purge_execution key r)
      ≡ (if key == k then map release (find_all key r) else find_all k r)
unfolding find_all soft_purge_execution
find_all-soft_purge key k r = elim (Option-cases (lookup key r.by_key)) [
  | inl missing ↦ ground (arith, missing, eq_iff key k)
  | inr (h, found) ↦ ground (arith, found, lookup-insert key k (map release h) r.by_key)
]

first_servable-release : (h : List MlExecution) → first_servable (map release h) ≡ none
unfolding first_servable release is_servable
first_servable-release [] = refl
first_servable-release (e ∷ h) = ground (arith, first_servable-release h)

-- What a released execution keeps: all but its documents and the two flags of persistence.
pub record IsReleased (e e' : MlExecution) : Type 0 where
  pub call_identity : e'.call_identity ≡ e.call_identity
  pub execution_state : e'.execution_state ≡ e.execution_state
  pub execution_kind : e'.execution_kind ≡ e.execution_kind
  pub execution_id : e'.execution_id ≡ e.execution_id
  pub token_usage : e'.token_usage ≡ e.token_usage
  pub failure : e'.failure ≡ e.failure
  pub superseded_at : e'.superseded_at ≡ e.superseded_at
  pub artifacts : e'.artifacts ≡ []
  pub output_persisted : e'.output_persisted ≡ false
  pub input_persisted : e'.input_persisted ≡ false

-- One by one, in order.
pub AreReleased : List MlExecution → List MlExecution → Type 0
AreReleased [] [] = Unit
AreReleased (e ∷ h) (e' ∷ h') = IsReleased e e' × AreReleased h h'
AreReleased [] (e' ∷ h') = ⊥
AreReleased (e ∷ h) [] = ⊥

release-AreReleased : (h : List MlExecution) → AreReleased h (map release h)
unfolding release AreReleased
release-AreReleased [] = tt
release-AreReleased (e ∷ h) = (
  record {
    call_identity = refl;
    execution_state = refl;
    execution_kind = refl;
    execution_id = refl;
    token_usage = refl;
    failure = refl;
    superseded_at = refl;
    artifacts = refl;
    output_persisted = refl;
    input_persisted = refl;
  },
  release-AreReleased h,
)

soft_purge-tags :
    (key : String) (r : Repository)
    → (soft_purge_execution key r).tags_by_execution_id ≡ r.tags_by_execution_id
unfolding soft_purge_execution
soft_purge-tags key r = elim (Option-cases (lookup key r.by_key)) [
  | inl missing ↦ ground (arith, missing)
  | inr (h, found) ↦ ground (arith, found)
]

-- After a soft purge of a key nothing is served for it. Its history has the same executions in the
-- same order, each with its identity, state, kind, id, usage, failure and time of supersession, but
-- without artifacts and marked as not persisted. The histories of other keys, and all tags, are as
-- they were.
pub soft_purge_lem :
    (key : String) (r : Repository)
    → (find_current key (soft_purge_execution key r) ≡ none)
      × AreReleased (find_all key r) (find_all key (soft_purge_execution key r))
      × ((k : String) → key ≢ k → find_all k (soft_purge_execution key r) ≡ find_all k r)
      × ((soft_purge_execution key r).tags_by_execution_id ≡ r.tags_by_execution_id)
unfolding find_current
soft_purge_lem key r = (
  rw (find_all-soft_purge key key r, eq_refl key) (first_servable-release (find_all key r)),
  rw (find_all-soft_purge key key r, eq_refl key) (release-AreReleased (find_all key r)),
  λ k ne. rw (find_all-soft_purge key k r) (ground (arith, eq_iff key k)),
  soft_purge-tags key r,
)

-- The id is that of an execution of the history.
abbrev pub has_id : String → List MlExecution → Bool
has_id id h = any (λ e. e.execution_id == id) h

lookup-drop_tags :
    (id : String) (h : List MlExecution) (tags : Dict (List String))
    → IsDict tags
    → lookup id (drop_tags h tags) ≡ (if has_id id h then none else lookup id tags)
unfolding drop_tags
lookup-drop_tags id [] tags dict = refl
lookup-drop_tags id (e ∷ h) tags dict = ground (
  arith,
  lookup-drop_tags id h (erase e.execution_id tags) (erase-IsDict e.execution_id tags dict),
  lookup-erase e.execution_id id tags dict,
)

-- After a hard delete the key has no execution left, an execution of its history has no tags left,
-- and the histories of other keys, and the tags of every other id, are as they were. The two tables
-- name no key twice.
pub hard_delete_lem :
    (key : String) (r : Repository)
    → IsDict r.by_key
    → IsDict r.tags_by_execution_id
    → (find_all key (hard_delete_execution key r) ≡ [])
      × ((k : String) → key ≢ k → find_all k (hard_delete_execution key r) ≡ find_all k r)
      × ((id : String)
          → lookup id (hard_delete_execution key r).tags_by_execution_id
            ≡ (if has_id id (find_all key r) then none else lookup id r.tags_by_execution_id))
unfolding find_all hard_delete_execution
hard_delete_lem key r dict tags = (
  rw (lookup-erase key key r.by_key dict, eq_refl key),
  λ k ne. rw (lookup-erase key k r.by_key dict) (ground (arith, eq_iff key k)),
  λ id. lookup-drop_tags id (find_all key r) r.tags_by_execution_id tags,
)

sum_of-insert :
    (f : List MlExecution → ℕ) (key : String) (old new : List MlExecution)
    (d : Dict (List MlExecution))
    → lookup key d ≡ some old
    → sum_of (λ entry. f entry.1) (insert key new d) + f old ≡ sum_of (λ entry. f entry.1) d + f new
unfolding lookup insert
sum_of-insert f key old new [] p = ground arith
sum_of-insert f key old new ((k, h) ∷ d) p = ground (arith, sum_of-insert f key old new d)

servable_bytes-release : (h : List MlExecution) → servable_bytes (map release h) ≡ 0
unfolding servable_bytes release is_servable
servable_bytes-release [] = refl
servable_bytes-release (e ∷ h) = ground (arith, servable_bytes-release h)

-- A soft purge frees exactly the bytes that the key's current execution held.
pub total_stored_bytes-soft_purge :
    (key : String) (r : Repository)
    → total_stored_bytes (soft_purge_execution key r) + servable_bytes (find_all key r)
      ≡ total_stored_bytes r
unfolding total_stored_bytes soft_purge_execution find_all
total_stored_bytes-soft_purge key r = elim (Option-cases (lookup key r.by_key)) [
  | inl missing ↦ unfold servable_bytes in ground (arith, missing)
  | inr (h, found) ↦ ground (
    arith,
    found,
    sum_of-insert servable_bytes key h (map release h) r.by_key found,
    servable_bytes-release h,
  )
]
