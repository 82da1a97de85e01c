-- ===== src/Service/Serving/Frame.antt =====
-- cached_ml_execution_service.py: the number of client runs while a stored execution is served.
use generic_ml_cache.Prelude.{ℕ, String, Option, none, some, List, [], ◌∷◌}
use generic_ml_cache.Errors.{Result, ok, err, cache_miss}
use generic_ml_cache.Domain.{Artifact, MlExecution}
use generic_ml_cache.World.{Environment}
use generic_ml_cache.World.Keeps.{Keeps, Keeps-bind}
use generic_ml_cache.World.Frame.{Ran, ran_rules}
use generic_ml_cache.Service.Extension.{Hooks}
use generic_ml_cache.Service.Artifacts.Frame.{hydrate-Ran, store_blob-Ran, record_for-Ran}
use generic_ml_cache.Service.Serving.{
  store_all, attach_input, backfill, serve_hit, offline_miss, offline_result, hit_if_some,
  serve_offline,
}

module _ (env : Environment) {Command : Type 0} (hooks : Hooks Command) {n : ℕ} where
  store_all-Ran :
      (id : String) (artifacts : List Artifact) → Keeps (Ran n) (store_all env hooks id artifacts)
  unfolding store_all
  store_all-Ran id [] = search ran_rules
  store_all-Ran id (a ∷ artifacts) =
      Keeps-bind _ _ (store_blob-Ran env id a) (λ _. store_all-Ran id artifacts)

  attach_input-Ran :
      (key id : String) (artifacts : List Artifact)
      → Keeps (Ran n) (attach_input env hooks key id artifacts)
  unfolding attach_input
  attach_input-Ran key id [] = search ran_rules
  attach_input-Ran key id (a ∷ artifacts) = search (ran_rules, store_all-Ran)

  backfill-Ran :
      (command : Command) (key : String) (fresh : Option MlExecution)
      → Keeps (Ran n) (backfill env hooks command key fresh)
  unfolding backfill
  backfill-Ran command key none = search ran_rules
  backfill-Ran command key (some e) = search (ran_rules, attach_input-Ran)

  serve_hit-Ran :
      (command : Command) (key : String) (e : MlExecution)
      → Keeps (Ran n) (serve_hit env hooks command key e)
  unfolding serve_hit
  serve_hit-Ran command key e =
      search (ran_rules, hydrate-Ran, record_for-Ran, backfill-Ran) depth 9

  offline_miss-Ran :
      (command : Command) (key : String) → Keeps (Ran n) (offline_miss env hooks command key)
  unfolding offline_miss
  offline_miss-Ran command key = search (ran_rules, record_for-Ran)

  offline_result-Ran :
      (command : Command) (key : String) (r : Result (Option MlExecution))
      → Keeps (Ran n) (offline_result env hooks command key r)
  unfolding offline_result
  offline_result-Ran command key (ok none) = search (ran_rules, record_for-Ran)
  offline_result-Ran command key (ok (some e)) = search ran_rules
  offline_result-Ran command key (err (cache_miss m)) = search (ran_rules, record_for-Ran)
  offline_result-Ran command key (err e) = search (ran_rules, record_for-Ran)

  hit_if_some-Ran :
      (command : Command) (key : String) (found : Option MlExecution)
      → Keeps (Ran n) (hit_if_some env hooks command key found)
  unfolding hit_if_some
  hit_if_some-Ran command key none = search ran_rules
  hit_if_some-Ran command key (some e) = search (ran_rules, serve_hit-Ran)

  pub serve_offline-Ran :
      (command : Command) (key : String) → Keeps (Ran n) (serve_offline env hooks command key)
  unfolding serve_offline
  serve_offline-Ran command key = search (ran_rules, hit_if_some-Ran, offline_result-Ran) depth 8
