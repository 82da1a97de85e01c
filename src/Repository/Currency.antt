-- ===== src/Repository/Currency.antt =====
-- in_memory_execution_repository.py: find_current after finalize_output_persisted.
use generic_ml_cache.Prelude.{
  String, ◌≡◌, refl, ◌≢◌, false, none, some, List, [], ◌∷◌, map, any, not, arith, eq_iff, eq_refl,
}
use generic_ml_cache.Dict.{IsDict}
use generic_ml_cache.Errors.{ok}
use generic_ml_cache.Domain.{Timestamp, ExecutionState, MlExecution, is_stored}
use generic_ml_cache.Repository.{
  Repository, is_servable, find_all, first_servable, find_current, supersede, find_by_id, locate,
  update_first, rewrite_located, set_persisted, supersede_history, finalize_output_persisted,
}
use generic_ml_cache.Repository.Tables.{
  locate-find_by_id, find_all-rewrite_located, find_all-supersede_history,
}

-- A row that the write path may finalize: a success, neither persisted nor superseded yet, with
-- every artifact stored.
pub record IsReady (e : MlExecution) : Type 0 where
  pub succeeded : e.execution_state ≡ ExecutionState.success
  pub unpersisted : e.output_persisted ≡ false
  pub current : e.superseded_at ≡ none
  pub resolved : any (λ a. not (is_stored a.status)) e.artifacts ≡ false

module _ (now : Timestamp) (id : String) (e : MlExecution) (ready : IsReady e) where
  first_servable-finalized :
      (h : List MlExecution)
      → find_by_id id h ≡ some e
      → first_servable (update_first id set_persisted (map (supersede now) h))
        ≡ some (set_persisted e)
  unfolding first_servable update_first supersede set_persisted is_servable find_by_id
  first_servable-finalized [] p = ground arith
  first_servable-finalized (x ∷ h) p =
      ground (arith, ready.succeeded, ready.unpersisted, ready.current, first_servable-finalized h)

pub first_servable-superseded :
    (now : Timestamp) (h : List MlExecution) → first_servable (map (supersede now) h) ≡ none
unfolding first_servable supersede is_servable
first_servable-superseded now [] = refl
first_servable-superseded now (x ∷ h) = ground (arith, first_servable-superseded now h)

-- Finalizing a successful row that is neither persisted nor superseded, all of whose artifacts are
-- stored, succeeds. Afterwards the row, now persisted, is the current execution of its key,
-- whatever was current before, and the histories of all other keys are as they were. The table
-- names no key twice, and the row is the one found under its id.
pub finalize-find_current :
    (now : Timestamp) (id key : String) (e : MlExecution) (r : Repository)
    → IsDict r.by_key
    → locate id r.by_key ≡ some (key, e)
    → IsReady e
    → (r' : Repository) × (finalize_output_persisted now id r ≡ ok r')
      × (find_current key r' ≡ some (set_persisted e))
      × ((k : String) → key ≢ k → find_all k r' ≡ find_all k r)
unfolding finalize_output_persisted find_current
finalize-find_current now id key e r dict found ready = (
  rewrite_located id set_persisted key (supersede_history now key r),
  rw (found, finalize_output_persisted) (ground (arith, ready.succeeded, ready.resolved)),
  rw
      (
        find_all-rewrite_located id set_persisted key key (supersede_history now key r),
        eq_refl key,
        find_all-supersede_history now key key r,
        eq_refl key,
      )
      (unfold find_all in
        first_servable-finalized now id e ready (find_all key r)
          (locate-find_by_id id key e r.by_key dict found)),
  λ k ne.
      rw
        (
          find_all-rewrite_located id set_persisted key k (supersede_history now key r),
          find_all-supersede_history now key k r,
        )
        (ground (arith, eq_iff key k)),
)
