-- ===== src/Repository/Tables.antt =====
-- How the changes of one history act on the table of histories.
use generic_ml_cache.Prelude.{
  String, ◌≡◌, some, List, [], ◌∷◌, map, arith, ◌==◌, eq_iff, eq_refl, if◌then◌else◌, All,
  Option-cases, inl, inr,
}
use generic_ml_cache.Dict.{Dict, lookup, insert, erase, IsDict, lookup-insert}
use generic_ml_cache.Domain.{Timestamp, MlExecution}
use generic_ml_cache.Repository.{
  Repository, or_empty, find_all, supersede, find_by_id, locate, update_first, rewrite_located,
  supersede_history,
}

-- A property of every history of a table.
abbrev pub AllHistories : (List MlExecution → Type 0) → Dict (List MlExecution) → Type 0
AllHistories P = All (λ entry. P entry.1)

module _ (P : List MlExecution → Type 0) where
  pub AllHistories-insert :
      (key : String) (h : List MlExecution) (d : Dict (List MlExecution))
      → AllHistories P d
      → P h
      → AllHistories P (insert key h d)
  unfolding insert
  AllHistories-insert key h [] all p = (p, tt)
  AllHistories-insert key h ((k, g) ∷ d) all p = ground (arith, AllHistories-insert key h d all.1 p)

  pub AllHistories-erase :
      (key : String) (d : Dict (List MlExecution)) → AllHistories P d → AllHistories P (erase key d)
  unfolding erase
  AllHistories-erase key [] all = tt
  AllHistories-erase key ((k, g) ∷ d) all = ground (arith, AllHistories-erase key d all.1)

  pub AllHistories-lookup :
      (key : String) (d : Dict (List MlExecution))
      → AllHistories P d
      → P []
      → P (or_empty (lookup key d))
  unfolding lookup
  AllHistories-lookup key [] all p = p
  AllHistories-lookup key ((k, g) ∷ d) all p = ground (arith, AllHistories-lookup key d all.1 p)

-- The located row is the first with its id in the history of the key that is returned.
pub locate-find_by_id :
    (id key : String) (e : MlExecution) (d : Dict (List MlExecution))
    → IsDict d
    → locate id d ≡ some (key, e)
    → find_by_id id (or_empty (lookup key d)) ≡ some e
unfolding locate lookup find_by_id
locate-find_by_id id key e [] h p = ground arith
locate-find_by_id id key e ((k, g) ∷ d) h p = elim (Option-cases (find_by_id id g)) [
  | inl missing ↦ ground (arith, missing, eq_iff k key, locate-find_by_id id key e d h.1)
  | inr (e', found) ↦ ground (arith, found, eq_iff k key, eq_refl k)
]

pub find_all-insert :
    (key k : String) (h : List MlExecution) (r : Repository)
    → find_all k (record r { by_key = insert key h r.by_key })
      ≡ (if key == k then h else find_all k r)
unfolding find_all
find_all-insert key k h r = rw (lookup-insert key k h r.by_key) (ground arith)

pub find_all-rewrite_located :
    (id : String) (f : MlExecution → MlExecution) (key k : String) (r : Repository)
    → find_all k (rewrite_located id f key r)
      ≡ (if key == k then update_first id f (find_all key r) else find_all k r)
unfolding rewrite_located
find_all-rewrite_located id f key k r = find_all-insert key k (update_first id f (find_all key r)) r

pub find_all-supersede_history :
    (now : Timestamp) (key k : String) (r : Repository)
    → find_all k (supersede_history now key r)
      ≡ (if key == k then map (supersede now) (find_all key r) else find_all k r)
unfolding supersede_history
find_all-supersede_history now key k r =
    find_all-insert key k (map (supersede now) (find_all key r)) r
