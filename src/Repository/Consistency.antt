-- ===== src/Repository/Consistency.antt =====
-- in_memory_execution_repository.py: the invariant of the table, one list per key and at most one
-- servable execution in it, operation by operation.
use generic_ml_cache.Prelude.{
  ℕ, ◌≤◌, String, ◌≡◌, subst, eq_refl, any, ◌==◌, false, Option, some, List, [], ◌∷◌, ◌++◌, map,
  arith, Option-cases, Bool-cases, inl, inr,
}
use generic_ml_cache.Dict.{lookup, insert, IsDict, insert-IsDict, erase-IsDict}
use generic_ml_cache.Errors.{ok}
use generic_ml_cache.Domain.{Timestamp, ArtifactStatus, MlExecution, is_success}
use generic_ml_cache.Domain.Identity.{generate_key}
use generic_ml_cache.Repository.{
  Repository, is_servable, or_empty, find_all, supersede, dehydrate, save, locate, update_first,
  rewrite_located, resolve_in, modify_by_id, resolve_artifacts, supersede_history, set_persisted,
  finalize_output_persisted, remove_first, put_or_drop, remove_execution,
}
use generic_ml_cache.Repository.Tables.{
  AllHistories, AllHistories-insert, AllHistories-erase, AllHistories-lookup, locate-find_by_id,
  find_all-supersede_history,
}
use generic_ml_cache.Repository.Counting.{
  servable_count, servable_count-append, servable_count-supersede, servable_count-remove,
  servable_count-update, servable_count-update_any,
}

abbrev pub AtMostOne : List MlExecution → Type 0
AtMostOne h = servable_count h ≤ 1

-- No key is listed twice, and no key has two current executions.
pub record IsConsistent (r : Repository) : Type 0 where
  pub distinct : IsDict r.by_key
  pub unique : AllHistories AtMostOne r.by_key

AtMostOne-nil : AtMostOne []
unfolding servable_count
AtMostOne-nil = omega arith

pub find_all-AtMostOne :
    (key : String) (r : Repository) → IsConsistent r → AtMostOne (find_all key r)
unfolding find_all
find_all-AtMostOne key r c = AllHistories-lookup AtMostOne key r.by_key c.unique AtMostOne-nil

pub history-AtMostOne :
    (key : String) (h : List MlExecution) (r : Repository)
    → IsConsistent r
    → lookup key r.by_key ≡ some h
    → AtMostOne h
history-AtMostOne key h r c found =
    subst (λ o. AtMostOne (or_empty o)) found
      (AllHistories-lookup AtMostOne key r.by_key c.unique AtMostOne-nil)

pub insert-IsConsistent :
    (key : String) (h : List MlExecution) (r : Repository)
    → IsConsistent r
    → AtMostOne h
    → IsConsistent (record r { by_key = insert key h r.by_key })
insert-IsConsistent key h r c one = record {
  distinct = insert-IsDict key h r.by_key c.distinct;
  unique = AllHistories-insert AtMostOne key h r.by_key c.unique one;
}

-- Rewriting a located row keeps the table consistent unless it makes that row servable.
rewrite_located-IsConsistent :
    (id : String) (f : MlExecution → MlExecution) (key : String) (e : MlExecution) (r : Repository)
    → IsConsistent r
    → locate id r.by_key ≡ some (key, e)
    → (is_servable e ≡ false → is_servable (f e) ≡ false)
    → IsConsistent (rewrite_located id f key r)
unfolding rewrite_located find_all
rewrite_located-IsConsistent id f key e r c found keep =
    insert-IsConsistent key (update_first id f (find_all key r)) r c (
      omega (
        arith,
        find_all-AtMostOne key r c,
        servable_count-update id f e (find_all key r)
            (locate-find_by_id id key e r.by_key c.distinct found) keep,
      ))

pub save-IsConsistent :
    (sha256 : List ℕ → String) (now : Timestamp) (e : MlExecution) (r : Repository)
    → IsConsistent r
    → IsConsistent (save sha256 now e r)
unfolding save
save-IsConsistent sha256 now e r c =
    let key = generate_key sha256 e.call_identity in
    elim (Bool-cases (is_servable (dehydrate e))) [
      | inl servable ↦ rw servable (
          insert-IsConsistent key (map (supersede now) (find_all key r) ++ dehydrate e ∷ []) r c (
            unfold servable_count in
            ground (
              arith,
              servable_count-append (map (supersede now) (find_all key r)) (dehydrate e ∷ []),
              servable_count-supersede now (find_all key r),
            )))
      | inr unservable ↦ rw unservable (
          insert-IsConsistent key (find_all key r ++ dehydrate e ∷ []) r c (
            unfold servable_count in
            ground (
              arith,
              servable_count-append (find_all key r) (dehydrate e ∷ []),
              find_all-AtMostOne key r c,
            )))
    ]

pub modify_by_id-IsConsistent :
    (id : String) (f : MlExecution → MlExecution) (r r' : Repository)
    → IsConsistent r
    → ((key : String) (e : MlExecution)
        → locate id r.by_key ≡ some (key, e)
        → is_servable e ≡ false
        → is_servable (f e) ≡ false)
    → modify_by_id id f r ≡ ok r'
    → IsConsistent r'
unfolding modify_by_id
modify_by_id-IsConsistent id f r r' c keep p = elim (Option-cases (locate id r.by_key)) [
  | inl missing ↦ ground (arith, missing)
  | inr (ke, found) ↦
      subst IsConsistent (ground (arith, found))
        (rewrite_located-IsConsistent id f ke.0 ke.1 r c found (keep ke.0 ke.1 found))
]

pub resolve_artifacts-IsConsistent :
    (id blob_key : String) (status : ArtifactStatus) (at : Option Timestamp)
    (detail : Option String) (r r' : Repository)
    → IsConsistent r
    → resolve_artifacts id blob_key status at detail r ≡ ok r'
    → IsConsistent r'
unfolding resolve_artifacts
resolve_artifacts-IsConsistent id blob_key status at detail r r' c p =
    elim (Option-cases (locate id r.by_key)) [
      | inl missing ↦ ground (arith, missing)
      | inr (ke, found) ↦ elim (Bool-cases (any (λ a. a.blob_key == blob_key) ke.1.artifacts)) [
        | inl matched ↦ subst IsConsistent (ground (arith, found, matched)) (
            rewrite_located-IsConsistent id (resolve_in blob_key status at detail) ke.0 ke.1 r c
              found (unfold is_servable resolve_in in λ u. u))
        | inr unmatched ↦ ground (arith, found, unmatched)
      ]
    ]

supersede_history-IsConsistent :
    (now : Timestamp) (key : String) (r : Repository)
    → IsConsistent r
    → IsConsistent (supersede_history now key r)
unfolding supersede_history
supersede_history-IsConsistent now key r c =
    insert-IsConsistent key (map (supersede now) (find_all key r)) r c
      (omega (arith, servable_count-supersede now (find_all key r)))

persist_superseded-IsConsistent :
    (now : Timestamp) (id key : String) (r : Repository)
    → IsConsistent r
    → IsConsistent (rewrite_located id set_persisted key (supersede_history now key r))
unfolding rewrite_located
persist_superseded-IsConsistent now id key r c =
    let s = supersede_history now key r in
    let retired : servable_count (find_all key s) ≡ 0 =
      rw (find_all-supersede_history now key key r, eq_refl key)
        (servable_count-supersede now (find_all key r)) in
    insert-IsConsistent key (update_first id set_persisted (find_all key s)) s
      (supersede_history-IsConsistent now key r c)
      (omega (arith, servable_count-update_any id set_persisted (find_all key s), retired))

pub finalize-IsConsistent :
    (now : Timestamp) (id : String) (r r' : Repository)
    → IsConsistent r
    → finalize_output_persisted now id r ≡ ok r'
    → IsConsistent r'
unfolding finalize_output_persisted
finalize-IsConsistent now id r r' c p = elim (Option-cases (locate id r.by_key)) [
  | inl missing ↦ ground (arith, missing)
  | inr (ke, found) ↦ elim (Bool-cases (is_success ke.1.execution_state)) [
    | inl success ↦
        subst IsConsistent (ground (arith, found, success))
          (persist_superseded-IsConsistent now id ke.0 r c)
    | inr failure ↦ subst IsConsistent (ground (arith, found, failure)) (
        rewrite_located-IsConsistent id set_persisted ke.0 ke.1 r c found
          (unfold is_servable set_persisted in ground (arith, failure)))
  ]
]

put_or_drop-IsConsistent :
    (key : String) (h : List MlExecution) (r r' : Repository)
    → IsConsistent r
    → AtMostOne h
    → r'.by_key ≡ put_or_drop key h r.by_key
    → IsConsistent r'
put_or_drop-IsConsistent key [] r r' c one e = record {
  distinct = rw e (erase-IsDict key r.by_key c.distinct);
  unique = rw e (AllHistories-erase AtMostOne key r.by_key c.unique);
}
put_or_drop-IsConsistent key (x ∷ h) r r' c one e = record {
  distinct = rw e (insert-IsDict key (x ∷ h) r.by_key c.distinct);
  unique = rw e (AllHistories-insert AtMostOne key (x ∷ h) r.by_key c.unique one);
}

pub remove_execution-IsConsistent :
    (id : String) (r : Repository) → IsConsistent r → IsConsistent (remove_execution id r)
unfolding remove_execution
remove_execution-IsConsistent id r c = elim (Option-cases (locate id r.by_key)) [
  | inl missing ↦ subst IsConsistent (ground (arith, missing)) c
  | inr (ke, found) ↦
      put_or_drop-IsConsistent ke.0 (remove_first id (find_all ke.0 r)) r (remove_execution id r) c
        (omega (arith, find_all-AtMostOne ke.0 r c, servable_count-remove id (find_all ke.0 r)))
        (ground (arith, found))
]
