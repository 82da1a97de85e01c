-- ===== src/Repository/Locating.antt =====
-- in_memory_execution_repository.py: `_locate_by_id` after a write to another key, and after
-- finalize_output_persisted.
use generic_ml_cache.Prelude.{
  String, ◌≡◌, ◌≢◌, refl, true, false, not, none, some, List, [], ◌∷◌, map, any, arith, ◌==◌,
  eq_iff, Option-cases, Bool-cases, inl, inr,
}
use generic_ml_cache.Dict.{Dict, lookup, insert, IsDict, insert-IsDict}
use generic_ml_cache.Errors.{ok}
use generic_ml_cache.Domain.{Timestamp, MlExecution, is_stored, is_success}
use generic_ml_cache.Repository.{
  Repository, is_servable, or_empty, find_all, supersede, find_by_id, locate, update_first,
  rewrite_located, set_persisted, supersede_history, finalize_output_persisted,
}
use generic_ml_cache.Repository.Tables.{locate-find_by_id}
use generic_ml_cache.Repository.Tracking.{
  locate-insert_located, locate-rewrite_located, rewrite_located-IsDict,
}

missing-update :
    (id id' : String) (f : MlExecution → MlExecution) (h : List MlExecution)
    → ((e : MlExecution) → (f e).execution_id ≡ e.execution_id)
    → find_by_id id h ≡ none
    → find_by_id id (update_first id' f h) ≡ none
unfolding find_by_id update_first
missing-update id id' f [] same p = refl
missing-update id id' f (e ∷ h) same p = ground (arith, same e, missing-update id id' f h same)

missing-supersede :
    (id : String) (now : Timestamp) (h : List MlExecution)
    → find_by_id id h ≡ none
    → find_by_id id (map (supersede now) h) ≡ none
unfolding find_by_id supersede
missing-supersede id now [] p = refl
missing-supersede id now (e ∷ h) p = ground (arith, missing-supersede id now h)

locate-insert_elsewhere :
    (id k key : String) (e : MlExecution) (g : List MlExecution) (d : Dict (List MlExecution))
    → k ≢ key
    → (find_by_id id (or_empty (lookup key d)) ≡ none → find_by_id id g ≡ none)
    → locate id d ≡ some (k, e)
    → locate id (insert key g d) ≡ some (k, e)
unfolding locate insert lookup
locate-insert_elsewhere id k key e g [] ne keeps p = ground arith
locate-insert_elsewhere id k key e g ((j, h) ∷ d) ne keeps p =
    elim (Option-cases (find_by_id id h)) [
      | inl missing ↦ elim (Bool-cases (j == key)) [
        | inl same ↦ ground (arith, missing, same, eq_iff j key)
        | inr other ↦
            rw (other, missing)
              (locate-insert_elsewhere id k key e g d ne (rw other at keeps) (rw missing at p))
      ]
      | inr (x, found) ↦ ground (arith, found, eq_iff j key)
    ]

-- Every row that is located under another key is located as before.
abbrev pub Spares : String → Repository → Repository → Type 0
Spares key r r' =
    (id k : String) (e : MlExecution)
    → k ≢ key
    → locate id r.by_key ≡ some (k, e)
    → locate id r'.by_key ≡ some (k, e)

pub rewrite_located-Spares :
    (id key : String) (f : MlExecution → MlExecution) (r : Repository)
    → ((e : MlExecution) → (f e).execution_id ≡ e.execution_id)
    → Spares key r (rewrite_located id f key r)
unfolding rewrite_located find_all
rewrite_located-Spares id key f r same id' k e ne p =
    locate-insert_elsewhere id' k key e _ r.by_key ne
      (missing-update id' id f (or_empty (lookup key r.by_key)) same) p

supersede_history-Spares :
    (now : Timestamp) (key : String) (r : Repository) → Spares key r (supersede_history now key r)
unfolding supersede_history find_all
supersede_history-Spares now key r id k e ne p =
    locate-insert_elsewhere id k key e _ r.by_key ne
      (missing-supersede id now (or_empty (lookup key r.by_key))) p

found-supersede :
    (id : String) (now : Timestamp) (e : MlExecution) (h : List MlExecution)
    → e.output_persisted ≡ false
    → find_by_id id h ≡ some e
    → find_by_id id (map (supersede now) h) ≡ some e
unfolding find_by_id supersede is_servable
found-supersede id now e [] u p = ground arith
found-supersede id now e (x ∷ h) u p = elim (Bool-cases (x.execution_id == id)) [
  | inl here ↦ ground (arith, here)
  | inr later ↦ ground (arith, later, found-supersede id now e h)
]

-- What finalizing a row leaves: the row persisted, and the rows of other keys as they were.
pub record Finalized (id key : String) (e : MlExecution) (r r' : Repository) : Type 0 where
  pub distinct : IsDict r'.by_key
  pub located : locate id r'.by_key ≡ some (key, record e { output_persisted = true })
  pub spares : Spares key r r'

module _ (now : Timestamp) (id key : String) (e : MlExecution) (r : Repository)
    (dict : IsDict r.by_key) (p : locate id r.by_key ≡ some (key, e))
    (unpersisted : e.output_persisted ≡ false) where
  abbrev retired : Repository
  retired = supersede_history now key r

  retired-IsDict : IsDict retired.by_key
  unfolding supersede_history
  retired-IsDict = insert-IsDict key _ r.by_key dict

  locate-retired : locate id retired.by_key ≡ some (key, e)
  unfolding supersede_history find_all
  locate-retired =
      locate-insert_located id key e e _ r.by_key p
        (found-supersede id now e (or_empty (lookup key r.by_key)) unpersisted
          (locate-find_by_id id key e r.by_key dict p))
        dict

  persisting :
      (q : Repository)
      → IsDict q.by_key
      → locate id q.by_key ≡ some (key, e)
      → Spares key r q
      → Finalized id key e r (rewrite_located id set_persisted key q)
  unfolding set_persisted
  persisting q d l spares = record {
    distinct = rewrite_located-IsDict id key set_persisted q d;
    located = locate-rewrite_located id key set_persisted e q d l refl;
    spares = λ id' k x ne s.
        rewrite_located-Spares id key set_persisted q (λ y. refl) id' k x ne (spares id' k x ne s);
  }

  pub finalize-Finalized :
      any (λ a. not (is_stored a.status)) e.artifacts ≡ false
      → (r' : Repository) × (finalize_output_persisted now id r ≡ ok r') × Finalized id key e r r'
  unfolding finalize_output_persisted
  finalize-Finalized stored = elim (Bool-cases (is_success e.execution_state)) [
    | inl s ↦ (
      rewrite_located id set_persisted key retired,
      rw (p, finalize_output_persisted) (ground (arith, stored, s)),
      persisting retired retired-IsDict locate-retired (supersede_history-Spares now key r),
    )
    | inr s ↦ (
      rewrite_located id set_persisted key r,
      rw (p, finalize_output_persisted) (ground (arith, stored, s)),
      persisting r dict p (λ id' k x ne l. l),
    )
  ]
