-- ===== src/Repository/Undoing.antt =====
-- in_memory_execution_repository.py: a row that is saved for a run, and then removed or failed.
use generic_ml_cache.Prelude.{
  ℕ, String, ◌≡◌, refl, sym, ap, ◌∙◌, false, none, some, List, [], ◌∷◌, ◌++◌, arith, ◌==◌, eq_iff,
  eq_refl, if◌then◌else◌, Bool-cases, inl, inr,
}
use generic_ml_cache.Dict.{Dict, lookup, IsDict, lookup-insert, lookup-erase}
use generic_ml_cache.Errors.{ok}
use generic_ml_cache.Domain.{Timestamp, MlExecution}
use generic_ml_cache.Domain.Identity.{generate_key}
use generic_ml_cache.Repository.{
  Repository, is_servable, or_empty, find_all, first_servable, find_current, dehydrate, save,
  find_by_id, locate, update_first, rewrite_located, with_outcome, record_outcome, remove_first,
  put_or_drop, remove_execution,
}
use generic_ml_cache.Repository.Tables.{find_all-insert, find_all-rewrite_located}
use generic_ml_cache.Repository.Tracking.{
  find_by_id-fresh, locate-save, save-IsDict, modify_by_id_located,
}

module _ (id : String) (e : MlExecution) (same : e.execution_id ≡ id) where
  remove_first-last :
      (h : List MlExecution) → find_by_id id h ≡ none → remove_first id (h ++ e ∷ []) ≡ h
  unfolding find_by_id remove_first
  remove_first-last [] p = ground (arith, same, eq_iff e.execution_id id)
  remove_first-last (x ∷ h) p = ground (arith, remove_first-last h)

  update_first-last :
      (f : MlExecution → MlExecution) (h : List MlExecution)
      → find_by_id id h ≡ none
      → update_first id f (h ++ e ∷ []) ≡ h ++ f e ∷ []
  unfolding find_by_id update_first
  update_first-last f [] p = ground (arith, same, eq_iff e.execution_id id)
  update_first-last f (x ∷ h) p = ground (arith, update_first-last f h)

first_servable-last :
    (e : MlExecution) (h : List MlExecution)
    → is_servable e ≡ false
    → first_servable (h ++ e ∷ []) ≡ first_servable h
unfolding first_servable
first_servable-last e [] p = ground (arith, p)
first_servable-last e (x ∷ h) p = ground (arith, first_servable-last e h p)

lookup-put_or_drop :
    (key k : String) (h : List MlExecution) (d : Dict (List MlExecution))
    → IsDict d
    → or_empty (lookup k (put_or_drop key h d)) ≡ (if key == k then h else or_empty (lookup k d))
lookup-put_or_drop key k [] d dict = rw (lookup-erase key k d dict) (ground arith)
lookup-put_or_drop key k (e ∷ h) d dict = rw (lookup-insert key k (e ∷ h) d) (ground arith)

find_all-remove_execution :
    (id key k : String) (e : MlExecution) (s : Repository)
    → locate id s.by_key ≡ some (key, e)
    → IsDict s.by_key
    → find_all k (remove_execution id s)
      ≡ (if key == k then remove_first id (find_all key s) else find_all k s)
unfolding remove_execution find_all
find_all-remove_execution id key k e s found dict =
    rw (remove_execution, found) (lookup-put_or_drop key k _ s.by_key dict)

module _ (sha256 : List ℕ → String) (now : Timestamp) (e : MlExecution) (r : Repository)
    (fresh : locate e.execution_id r.by_key ≡ none) (unpersisted : e.output_persisted ≡ false) where
  abbrev key : String
  key = generate_key sha256 e.call_identity

  unservable : is_servable (dehydrate e) ≡ false
  unfolding is_servable dehydrate
  unservable = ground (arith, unpersisted)

  find_all-save :
      (k : String)
      → find_all k (save sha256 now e r)
        ≡ (if key == k then find_all key r ++ dehydrate e ∷ [] else find_all k r)
  unfolding save
  find_all-save k = rw unservable (find_all-insert key k (find_all key r ++ dehydrate e ∷ []) r)

  new_id : find_by_id e.execution_id (find_all key r) ≡ none
  unfolding find_all
  new_id = find_by_id-fresh e.execution_id key r.by_key fresh

  -- Saving a new row that cannot be served, and removing it, leaves every history as it was.
  pub remove_execution-save :
      IsDict r.by_key
      → (k : String)
      → find_all k (remove_execution e.execution_id (save sha256 now e r)) ≡ find_all k r
  remove_execution-save dict k =
      let saved = save sha256 now e r in
      let removed =
        find_all-remove_execution e.execution_id key k (dehydrate e) saved
          (locate-save sha256 now e r fresh unpersisted) (save-IsDict sha256 now e r dict) in
      elim (Bool-cases (key == k)) [
        | inl here ↦
            let here_key : key ≡ k = ground (arith, here, eq_iff key k) in
            rw (removed, here, find_all-save key, eq_refl key)
              (remove_first-last e.execution_id (dehydrate e) (unfold dehydrate in refl)
                  (find_all key r) new_id
                ∙ ap (λ j. find_all j r) here_key)
        | inr there ↦ rw (removed, there, find_all-save k, there) refl
      ]

  -- Recording an outcome on it, which leaves it unpersisted, changes no answer.
  pub record_outcome-save :
      (x : MlExecution)
      → x.execution_id ≡ e.execution_id
      → (r' : Repository) × (record_outcome x (save sha256 now e r) ≡ ok r')
        × ((k : String) → find_current k r' ≡ find_current k r)
  unfolding record_outcome find_current
  record_outcome-save x same =
      let saved = save sha256 now e r in
      let id = x.execution_id in
      let failed = with_outcome x (dehydrate e) in
      let hidden : is_servable failed ≡ false =
        unfold is_servable with_outcome dehydrate in ground (arith, unpersisted) in
      (
        rewrite_located id (with_outcome x) key saved,
        modify_by_id_located id key (dehydrate e) saved
            (rw same (locate-save sha256 now e r fresh unpersisted)) (with_outcome x),
        λ k. elim (Bool-cases (key == k)) [
          | inl here ↦
              let here_key : key ≡ k = ground (arith, here, eq_iff key k) in
              rw
                (
                  find_all-rewrite_located id (with_outcome x) key k saved,
                  here,
                  find_all-save key,
                  eq_refl key,
                  update_first-last id (dehydrate e) (unfold dehydrate in sym same) (with_outcome x)
                      (find_all key r) (rw same new_id),
                )
                (first_servable-last failed (find_all key r) hidden
                  ∙ ap (λ j. first_servable (find_all j r)) here_key)
          | inr there ↦
              rw
                (
                  find_all-rewrite_located id (with_outcome x) key k saved,
                  there,
                  find_all-save k,
                  there,
                )
                refl
        ],
      )
