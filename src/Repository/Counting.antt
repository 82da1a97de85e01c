-- ===== src/Repository/Counting.antt =====
-- How many executions of a history can be served, under each change of the history.
use generic_ml_cache.Prelude.{
  ℕ, suc, ◌+◌, ◌≤◌, String, ◌≡◌, refl, false, some, List, [], ◌∷◌, ◌++◌, map, arith, if◌then◌else◌,
}
use generic_ml_cache.Domain.{Timestamp, Artifact, MlExecution}
use generic_ml_cache.Repository.{is_servable, supersede, find_by_id, update_first, remove_first}
use generic_ml_cache.Repository.Annotations.{add_input}
use generic_ml_cache.Repository.Retention.{release}

unfoldable pub servable_count : List MlExecution → ℕ
servable_count [] = 0
servable_count (e ∷ h) = let rest = servable_count h in if is_servable e then suc rest else rest

pub servable_count-append :
    (g h : List MlExecution) → servable_count (g ++ h) ≡ servable_count g + servable_count h
unfolding servable_count
servable_count-append [] h = omega arith
servable_count-append (e ∷ g) h = ground (arith, servable_count-append g h)

pub servable_count-supersede :
    (now : Timestamp) (h : List MlExecution) → servable_count (map (supersede now) h) ≡ 0
unfolding servable_count supersede is_servable
servable_count-supersede now [] = refl
servable_count-supersede now (e ∷ h) = ground (arith, servable_count-supersede now h)

pub servable_count-release : (h : List MlExecution) → servable_count (map release h) ≡ 0
unfolding servable_count release is_servable
servable_count-release [] = refl
servable_count-release (e ∷ h) = ground (arith, servable_count-release h)

pub servable_count-remove :
    (id : String) (h : List MlExecution) → servable_count (remove_first id h) ≤ servable_count h
unfolding servable_count remove_first
servable_count-remove id [] = omega arith
servable_count-remove id (e ∷ h) = ground (arith, servable_count-remove id h)

pub servable_count-add_input :
    (artifacts : List Artifact) (h : List MlExecution)
    → servable_count (add_input artifacts h) ≡ servable_count h
unfolding servable_count add_input is_servable
servable_count-add_input artifacts [] = refl
servable_count-add_input artifacts (e ∷ h) = ground (arith, servable_count-add_input artifacts h)

-- A change that does not make the located row servable adds no servable row.
pub servable_count-update :
    (id : String) (f : MlExecution → MlExecution) (e : MlExecution) (h : List MlExecution)
    → find_by_id id h ≡ some e
    → (is_servable e ≡ false → is_servable (f e) ≡ false)
    → servable_count (update_first id f h) ≤ servable_count h
unfolding servable_count update_first find_by_id
servable_count-update id f e [] p keep = omega arith
servable_count-update id f e (x ∷ h) p keep = ground (arith, servable_count-update id f e h)

-- Any change of one row adds at most one servable row.
pub servable_count-update_any :
    (id : String) (f : MlExecution → MlExecution) (h : List MlExecution)
    → servable_count (update_first id f h) ≤ servable_count h + 1
unfolding servable_count update_first
servable_count-update_any id f [] = omega arith
servable_count-update_any id f (x ∷ h) = ground (arith, servable_count-update_any id f h)
