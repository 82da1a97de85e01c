-- ===== src/Service/Artifacts/Frame.antt =====
-- What building, storing and hydrating artifacts leaves alone.
use generic_ml_cache.Prelude.{ℕ, String, Option, none, some, List, [], ◌∷◌}
use generic_ml_cache.Dict.{Dict}
use generic_ml_cache.Errors.{Result, ok, err}
use generic_ml_cache.Domain.{Bytes, Artifact, MlExecution}
use generic_ml_cache.Repository.{Repository}
use generic_ml_cache.World.{Environment, Event}
use generic_ml_cache.World.Keeps.{Keeps, Keeps-pure, Keeps-bind}
use generic_ml_cache.World.Frame.{Ran, Holds, ran_rules, holds_rules}
use generic_ml_cache.Service.Extension.{Hooks}
use generic_ml_cache.Service.Artifacts.{
  marked, written, store_blob, hydrated, hydrate_artifact, hydrate_all, hydrate, record_for,
}

module _ (env : Environment) {n : ℕ} where
  hydrated-Ran : (a : Artifact) (o : Option Bytes) → Keeps (Ran n) (hydrated env a o)
  unfolding hydrated
  hydrated-Ran a none = search ran_rules
  hydrated-Ran a (some content) = search ran_rules

  hydrate_artifact-Ran : (a : Artifact) → Keeps (Ran n) (hydrate_artifact env a)
  unfolding hydrate_artifact
  hydrate_artifact-Ran a = search (ran_rules, hydrated-Ran)

  hydrate_all-Ran : (artifacts : List Artifact) → Keeps (Ran n) (hydrate_all env artifacts)
  unfolding hydrate_all
  hydrate_all-Ran [] = search ran_rules
  hydrate_all-Ran (a ∷ artifacts) =
      Keeps-bind _ _ (hydrate_artifact-Ran a)
        (λ x. Keeps-bind _ _ (hydrate_all-Ran artifacts) (λ y. Keeps-pure _))

  pub hydrate-Ran : (e : MlExecution) → Keeps (Ran n) (hydrate env e)
  unfolding hydrate
  hydrate-Ran e = search (ran_rules, hydrate_all-Ran e.artifacts)

  marked-Ran :
      (id : String) (a : Artifact) (r : Result (Unit {0})) → Keeps (Ran n) (marked env id a r)
  unfolding marked
  marked-Ran id a (ok _) = search ran_rules
  marked-Ran id a (err e) = search ran_rules

  written-Ran :
      (id : String) (a : Artifact) (r : Result (Unit {0})) → Keeps (Ran n) (written env id a r)
  unfolding written
  written-Ran id a (ok _) = search (ran_rules, marked-Ran)
  written-Ran id a (err e) = search ran_rules

  pub store_blob-Ran : (id : String) (a : Artifact) → Keeps (Ran n) (store_blob env id a)
  unfolding store_blob
  store_blob-Ran id a = search (ran_rules, written-Ran)

module _ {Command : Type 0} (hooks : Hooks Command) (event : Event) (key : String)
    (c : Command) where
  pub record_for-Ran : {n : ℕ} → Keeps (Ran n) (record_for hooks event key c)
  unfolding record_for
  record_for-Ran = search ran_rules

  pub record_for-Holds :
      {r : Repository} {b : Dict Bytes} → Keeps (Holds r b) (record_for hooks event key c)
  unfolding record_for
  record_for-Holds = search holds_rules
