-- ===== src/Repository/Annotations.antt =====
-- testing/in_memory_execution_repository.py: tags and back-filled input of the current execution,
-- and the runs that a repair has to look at.
use generic_ml_cache.Prelude.{
  String, Bool, true, Option, none, some, List, [], ◌∷◌, ◌++◌, map, any, ◌==◌, ◌||◌, if◌then◌else◌,
}
use generic_ml_cache.Dict.{Dict, lookup, insert}
use generic_ml_cache.Text.{sorted}
use generic_ml_cache.Domain.{Artifact, MlExecution, is_stored, is_input}
use generic_ml_cache.Repository.{
  Repository, is_servable, or_empty, find_all, find_current, drop_content,
}

unfoldable pub contains : String → List String → Bool
contains x xs = any (λ y. y == x) xs

-- set.update(tags)
unfoldable pub add_all : List String → List String → List String
unfolding contains
add_all [] seen = seen
add_all (t ∷ ts) seen = add_all ts (if contains t seen then seen else seen ++ t ∷ [])

-- One tag at least, and a current execution: otherwise nothing is written.
unfoldable pub add_tags : String → List String → Repository → Repository
unfolding find_current add_all
add_tags key [] r = r
add_tags key (t ∷ ts) r = elim (find_current key r) [
  | none ↦ r
  | some e ↦ record r {
    tags_by_execution_id =
        insert e.execution_id
          (add_all (t ∷ ts) (or_empty (lookup e.execution_id r.tags_by_execution_id)))
          r.tags_by_execution_id;
  }
]

unfoldable pub tags_for : String → Repository → List String
unfolding find_current sorted
tags_for key r = elim (find_current key r) [
  | none ↦ []
  | some e ↦ sorted (λ t. t) (or_empty (lookup e.execution_id r.tags_by_execution_id))
]

unfoldable pub has_input : MlExecution → Bool
has_input e = any (λ a. is_input a.artifact_type) e.artifacts

-- The loop stops at the first servable execution, whether or not it already carries input.
unfoldable pub add_input : List Artifact → List MlExecution → List MlExecution
unfolding is_servable has_input
add_input artifacts [] = []
add_input artifacts (e ∷ h) =
    if is_servable e
    then (if has_input e
        then e ∷ h
        else record e {
          artifacts = e.artifacts ++ map drop_content artifacts;
          input_persisted = true;
        }
          ∷ h)
    else e ∷ add_input artifacts h

unfoldable pub add_input_artifacts : String → List Artifact → Repository → Repository
unfolding find_all add_input
add_input_artifacts key [] r = r
add_input_artifacts key (a ∷ artifacts) r = elim (lookup key r.by_key) [
  | none ↦ r
  | some history ↦ record r { by_key = insert key (add_input (a ∷ artifacts) history) r.by_key }
]

pub record UnpersistedRun : Type 0 where
  pub execution_key : String
  pub execution_id : String
  pub blob_keys : List String

abbrev pub last : List MlExecution → Option MlExecution
last [] = none
last (e ∷ []) = some e
last (e ∷ f ∷ h) = last (f ∷ h)

-- The distinct blob keys of the artifacts that are not STORED, in order of first appearance.
unfoldable pub unresolved_keys : List Artifact → List String → List String
unfolding contains
unresolved_keys [] seen = seen
unresolved_keys (a ∷ r) seen =
    unresolved_keys r
      (if is_stored a.status || contains a.blob_key seen then seen else seen ++ a.blob_key ∷ [])

abbrev pub with_keys : String → String → List String → List UnpersistedRun
with_keys key id [] = []
with_keys key id (b ∷ bs) =
    record { execution_key = key; execution_id = id; blob_keys = b ∷ bs } ∷ []

unfoldable pub awaiting : String → Option MlExecution → List UnpersistedRun
unfolding unresolved_keys
awaiting key none = []
awaiting key (some e) =
    if e.output_persisted then [] else with_keys key e.execution_id (unresolved_keys e.artifacts [])

unfoldable pub runs_in : Dict (List MlExecution) → List UnpersistedRun
unfolding awaiting
runs_in [] = []
runs_in ((key, history) ∷ d) = awaiting key (last history) ++ runs_in d

unfoldable pub runs_awaiting_persistence : Repository → List UnpersistedRun
unfolding runs_in
runs_awaiting_persistence r = runs_in r.by_key
