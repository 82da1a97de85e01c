-- ===== src/Repository/Reachability.antt =====
-- The states that the port operations can reach from the empty repository, in any order and with
-- any arguments that the write path allows.
use generic_ml_cache.Prelude.{
  ℕ, ◌≤◌, String, ◌≡◌, refl, subst, false, Option, none, some, List, [], ◌∷◌, map, arith,
  Option-cases, inl, inr,
}
use generic_ml_cache.Dict.{erase-IsDict}
use generic_ml_cache.Errors.{ok}
use generic_ml_cache.Dict.{lookup}
use generic_ml_cache.Domain.{Timestamp, Artifact, MlExecution}
use generic_ml_cache.Repository.{
  Repository, empty, is_servable, find_all, first_servable, find_current, save, locate,
  with_outcome, record_outcome, append_artifact, persist_artifact, mark_artifacts_stored,
  mark_artifacts_failed, finalize_output_persisted, remove_execution,
}
use generic_ml_cache.Repository.Annotations.{add_tags, add_input, add_input_artifacts}
use generic_ml_cache.Repository.Retention.{
  soft_purge_execution, hard_delete_execution, release, servable_of,
}
use generic_ml_cache.Repository.Tables.{AllHistories-erase}
use generic_ml_cache.Repository.Counting.{
  servable_count, servable_count-release, servable_count-add_input,
}
use generic_ml_cache.Repository.Consistency.{
  AtMostOne, IsConsistent, find_all-AtMostOne, history-AtMostOne, insert-IsConsistent,
  save-IsConsistent, modify_by_id-IsConsistent, resolve_artifacts-IsConsistent,
  finalize-IsConsistent, remove_execution-IsConsistent,
}

module _ (sha256 : List ℕ → String) where
  -- One call of a port. The outcome of a run is recorded on a row that is not persisted yet.
  pub data Step : Repository → Repository → Type 0 where
    saved : (now : Timestamp) (e : MlExecution) (r : Repository) → Step r (save sha256 now e r)
    recorded :
        (e : MlExecution) (r r' : Repository)
        → ((key : String) (stored : MlExecution)
            → locate e.execution_id r.by_key ≡ some (key, stored)
            → stored.output_persisted ≡ false)
        → record_outcome e r ≡ ok r'
        → Step r r'
    appended :
        (id : String) (a : Artifact) (r r' : Repository)
        → persist_artifact id a r ≡ ok r'
        → Step r r'
    marked_stored :
        (now : Timestamp) (id blob_key : String) (r r' : Repository)
        → mark_artifacts_stored now id blob_key r ≡ ok r'
        → Step r r'
    marked_failed :
        (id blob_key detail : String) (r r' : Repository)
        → mark_artifacts_failed id blob_key detail r ≡ ok r'
        → Step r r'
    finalized :
        (now : Timestamp) (id : String) (r r' : Repository)
        → finalize_output_persisted now id r ≡ ok r'
        → Step r r'
    removed : (id : String) (r : Repository) → Step r (remove_execution id r)
    tagged : (key : String) (tags : List String) (r : Repository) → Step r (add_tags key tags r)
    enriched :
        (key : String) (artifacts : List Artifact) (r : Repository)
        → Step r (add_input_artifacts key artifacts r)
    soft_purged : (key : String) (r : Repository) → Step r (soft_purge_execution key r)
    hard_deleted : (key : String) (r : Repository) → Step r (hard_delete_execution key r)

  pub data Reach : Repository → Type 0 where
    start : Reach empty
    next : {r r' : Repository} → Reach r → Step r r' → Reach r'

pub add_tags-by_key :
    (key : String) (tags : List String) (r : Repository) → (add_tags key tags r).by_key ≡ r.by_key
unfolding add_tags
add_tags-by_key key [] r = refl
add_tags-by_key key (t ∷ ts) r = ground arith

pub add_tags-IsConsistent :
    (key : String) (tags : List String) (r : Repository)
    → IsConsistent r
    → IsConsistent (add_tags key tags r)
add_tags-IsConsistent key tags r c = record {
  distinct = rw (add_tags-by_key key tags r) c.distinct;
  unique = rw (add_tags-by_key key tags r) c.unique;
}

pub add_input_artifacts-IsConsistent :
    (key : String) (artifacts : List Artifact) (r : Repository)
    → IsConsistent r
    → IsConsistent (add_input_artifacts key artifacts r)
unfolding add_input_artifacts
add_input_artifacts-IsConsistent key [] r c = c
add_input_artifacts-IsConsistent key (a ∷ artifacts) r c =
    elim (Option-cases (lookup key r.by_key)) [
      | inl missing ↦ subst IsConsistent (ground (arith, missing)) c
      | inr (history, found) ↦ subst IsConsistent (ground (arith, found)) (
          insert-IsConsistent key (add_input (a ∷ artifacts) history) r c (
            omega (
              arith,
              servable_count-add_input (a ∷ artifacts) history,
              history-AtMostOne key history r c found,
            )))
    ]

pub soft_purge-IsConsistent :
    (key : String) (r : Repository) → IsConsistent r → IsConsistent (soft_purge_execution key r)
unfolding soft_purge_execution
soft_purge-IsConsistent key r c = elim (Option-cases (lookup key r.by_key)) [
  | inl missing ↦ subst IsConsistent (ground (arith, missing)) c
  | inr (history, found) ↦ subst IsConsistent (ground (arith, found)) (
      insert-IsConsistent key (map release history) r c
        (omega (arith, servable_count-release history)))
]

pub hard_delete-IsConsistent :
    (key : String) (r : Repository) → IsConsistent r → IsConsistent (hard_delete_execution key r)
unfolding hard_delete_execution
hard_delete-IsConsistent key r c = record {
  distinct = erase-IsDict key r.by_key c.distinct;
  unique = AllHistories-erase AtMostOne key r.by_key c.unique;
}

Step-IsConsistent :
    (sha256 : List ℕ → String) {r r' : Repository}
    → Step sha256 r r'
    → IsConsistent r
    → IsConsistent r'
unfolding record_outcome persist_artifact mark_artifacts_stored mark_artifacts_failed
Step-IsConsistent sha256 (saved now e r) c = save-IsConsistent sha256 now e r c
Step-IsConsistent sha256 (recorded e r r' fresh p) c =
    modify_by_id-IsConsistent e.execution_id (with_outcome e) r r' c
      (λ key stored found u. unfold is_servable in ground (arith, fresh key stored found)) p
Step-IsConsistent sha256 (appended id a r r' p) c =
    modify_by_id-IsConsistent id (append_artifact a) r r' c
      (λ key stored found. unfold is_servable in λ u. u) p
Step-IsConsistent sha256 (marked_stored now id b r r' p) c =
    resolve_artifacts-IsConsistent id b _ (some now) none r r' c p
Step-IsConsistent sha256 (marked_failed id b detail r r' p) c =
    resolve_artifacts-IsConsistent id b _ none (some detail) r r' c p
Step-IsConsistent sha256 (finalized now id r r' p) c = finalize-IsConsistent now id r r' c p
Step-IsConsistent sha256 (removed id r) c = remove_execution-IsConsistent id r c
Step-IsConsistent sha256 (tagged key tags r) c = add_tags-IsConsistent key tags r c
Step-IsConsistent sha256 (enriched key artifacts r) c =
    add_input_artifacts-IsConsistent key artifacts r c
Step-IsConsistent sha256 (soft_purged key r) c = soft_purge-IsConsistent key r c
Step-IsConsistent sha256 (hard_deleted key r) c = hard_delete-IsConsistent key r c

pub Reach-IsConsistent :
    (sha256 : List ℕ → String) {r : Repository} → Reach sha256 r → IsConsistent r
Reach-IsConsistent sha256 start = record { distinct = tt; unique = tt }
Reach-IsConsistent sha256 (next reached step) =
    Step-IsConsistent sha256 step (Reach-IsConsistent sha256 reached)

-- The servable rows of a history with one at most are the one that a lookup finds.
abbrev pub to_list {ℓ} : {A : Type ℓ} → Option A → List A
to_list none = []
to_list (some a) = a ∷ []

servable_of-none : (h : List MlExecution) → servable_count h ≤ 0 → servable_of h ≡ []
unfolding servable_count servable_of
servable_of-none [] p = refl
servable_of-none (e ∷ h) p = ground (arith, servable_of-none h)

servable_of-eq : (h : List MlExecution) → AtMostOne h → servable_of h ≡ to_list (first_servable h)
unfolding servable_count servable_of first_servable
servable_of-eq [] p = refl
servable_of-eq (e ∷ h) p = ground (arith, servable_of-eq h, servable_of-none h)

-- In every state that the port operations reach from the empty repository, where the outcome of a
-- run is recorded only on a row that is not persisted yet, the servable executions of a key are
-- exactly the one that `find_current` returns, if any: a cached answer is never ambiguous.
pub find_current_unique :
    (sha256 : List ℕ → String) (key : String) (r : Repository)
    → Reach sha256 r
    → servable_of (find_all key r) ≡ to_list (find_current key r)
unfolding find_current
find_current_unique sha256 key r reached =
    servable_of-eq (find_all key r) (find_all-AtMostOne key r (Reach-IsConsistent sha256 reached))
