-- ===== src/Repository/Tracking.antt =====
-- Following one row, by its id, through the changes that the write path makes to it.
use generic_ml_cache.Prelude.{
  ℕ, String, ◌≡◌, refl, true, false, none, some, List, [], ◌∷◌, ◌++◌, any, arith, ◌==◌, eq_iff,
  eq_refl, Option-cases, Bool-cases, inl, inr,
}
use generic_ml_cache.Dict.{Dict, lookup, insert, IsDict, insert-IsDict}
use generic_ml_cache.Errors.{ok}
use generic_ml_cache.Domain.{Timestamp, ArtifactStatus, MlExecution}
use generic_ml_cache.Domain.Identity.{generate_key}
use generic_ml_cache.Repository.{
  Repository, is_servable, or_empty, find_all, dehydrate, save, find_by_id, locate, update_first,
  rewrite_located, modify_by_id, resolve_in, mark_artifacts_stored,
}
use generic_ml_cache.Repository.Tables.{locate-find_by_id}

find_by_id-update :
    (id : String) (f : MlExecution → MlExecution) (e : MlExecution) (h : List MlExecution)
    → find_by_id id h ≡ some e
    → (f e).execution_id ≡ e.execution_id
    → find_by_id id (update_first id f h) ≡ some (f e)
unfolding find_by_id update_first
find_by_id-update id f e [] p same = ground arith
find_by_id-update id f e (x ∷ h) p same = elim (Bool-cases (x.execution_id == id)) [
  | inl here ↦ ground (arith, here, eq_iff x.execution_id id, eq_iff (f e).execution_id id)
  | inr later ↦ ground (arith, later, find_by_id-update id f e h)
]

pub locate-insert_located :
    (id key : String) (e e' : MlExecution) (h : List MlExecution) (d : Dict (List MlExecution))
    → locate id d ≡ some (key, e)
    → find_by_id id h ≡ some e'
    → IsDict d
    → locate id (insert key h d) ≡ some (key, e')
unfolding locate insert lookup
locate-insert_located id key e e' h [] p q dict = ground arith
locate-insert_located id key e e' h ((k, g) ∷ d) p q dict = elim (Option-cases (find_by_id id g)) [
  | inl missing ↦ ground (arith, missing, eq_iff k key, locate-insert_located id key e e' h d)
  | inr (x, found) ↦ ground (arith, found, eq_iff k key, eq_refl k)
]

-- Changing the located row, and nothing of its id, leaves it located.
pub locate-rewrite_located :
    (id key : String) (f : MlExecution → MlExecution) (e : MlExecution) (r : Repository)
    → IsDict r.by_key
    → locate id r.by_key ≡ some (key, e)
    → (f e).execution_id ≡ e.execution_id
    → locate id (rewrite_located id f key r).by_key ≡ some (key, f e)
unfolding rewrite_located find_all
locate-rewrite_located id key f e r dict p same =
    locate-insert_located id key e (f e) (update_first id f (or_empty (lookup key r.by_key)))
      r.by_key p
      (find_by_id-update id f e (or_empty (lookup key r.by_key))
        (locate-find_by_id id key e r.by_key dict p) same)
      dict

pub rewrite_located-IsDict :
    (id key : String) (f : MlExecution → MlExecution) (r : Repository)
    → IsDict r.by_key
    → IsDict (rewrite_located id f key r).by_key
unfolding rewrite_located
rewrite_located-IsDict id key f r dict =
    insert-IsDict key (update_first id f (find_all key r)) r.by_key dict

locate-insert_new :
    (id key : String) (e : MlExecution) (h : List MlExecution) (d : Dict (List MlExecution))
    → locate id d ≡ none
    → find_by_id id h ≡ some e
    → locate id (insert key h d) ≡ some (key, e)
unfolding locate insert
locate-insert_new id key e h [] p q = ground arith
locate-insert_new id key e h ((k, g) ∷ d) p q = elim (Option-cases (find_by_id id g)) [
  | inl missing ↦ ground (arith, missing, eq_iff k key, locate-insert_new id key e h d)
  | inr (x, found) ↦ ground (arith, found)
]

pub find_by_id-fresh :
    (id key : String) (d : Dict (List MlExecution))
    → locate id d ≡ none
    → find_by_id id (or_empty (lookup key d)) ≡ none
unfolding locate lookup find_by_id
find_by_id-fresh id key [] p = refl
find_by_id-fresh id key ((k, g) ∷ d) p = elim (Option-cases (find_by_id id g)) [
  | inl missing ↦ ground (arith, missing, find_by_id-fresh id key d)
  | inr (x, found) ↦ ground (arith, found)
]

find_by_id-last :
    (id : String) (e : MlExecution) (h : List MlExecution)
    → find_by_id id h ≡ none
    → e.execution_id ≡ id
    → find_by_id id (h ++ e ∷ []) ≡ some e
unfolding find_by_id
find_by_id-last id e [] p q = ground (arith, eq_iff e.execution_id id)
find_by_id-last id e (x ∷ h) p q = ground (arith, find_by_id-last id e h)

-- A new row that cannot be served yet, saved under a fresh id, is located under its key.
pub locate-save :
    (sha256 : List ℕ → String) (now : Timestamp) (e : MlExecution) (r : Repository)
    → locate e.execution_id r.by_key ≡ none
    → e.output_persisted ≡ false
    → locate e.execution_id (save sha256 now e r).by_key
      ≡ some (generate_key sha256 e.call_identity, dehydrate e)
unfolding save find_all
locate-save sha256 now e r fresh unpersisted =
    let key = generate_key sha256 e.call_identity in
    let unservable : is_servable (dehydrate e) ≡ false =
      unfold is_servable dehydrate in ground (arith, unpersisted) in
    rw unservable (
      locate-insert_new e.execution_id key (dehydrate e) _ r.by_key fresh (
        find_by_id-last e.execution_id (dehydrate e) (or_empty (lookup key r.by_key))
          (find_by_id-fresh e.execution_id key r.by_key fresh) (unfold dehydrate in refl)))

pub save-IsDict :
    (sha256 : List ℕ → String) (now : Timestamp) (e : MlExecution) (r : Repository)
    → IsDict r.by_key
    → IsDict (save sha256 now e r).by_key
unfolding save
save-IsDict sha256 now e r dict = insert-IsDict _ _ r.by_key dict

-- The write-path operations on a located row succeed, and rewrite it.
module _ (id key : String) (e : MlExecution) (r : Repository)
    (p : locate id r.by_key ≡ some (key, e)) where
  pub modify_by_id_located :
      (f : MlExecution → MlExecution) → modify_by_id id f r ≡ ok (rewrite_located id f key r)
  unfolding modify_by_id
  modify_by_id_located f = ground (arith, p)

  pub mark_artifacts_stored_located :
      (now : Timestamp) (blob_key : String)
      → any (λ a. a.blob_key == blob_key) e.artifacts ≡ true
      → mark_artifacts_stored now id blob_key r
        ≡ ok (rewrite_located id (resolve_in blob_key ArtifactStatus.stored (some now) none) key r)
  unfolding mark_artifacts_stored
  mark_artifacts_stored_located now blob_key q = ground (arith, p, q)
