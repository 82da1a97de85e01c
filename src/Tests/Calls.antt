-- ===== src/Tests/Calls.antt =====
-- Calls of `execute` on the test environment.
use generic_ml_cache.Prelude.{◌≡◌, refl, inl, inr, true, false, some, [], ◌∷◌, eq_refl}
use generic_ml_cache.Dict.{lookup}
use generic_ml_cache.Domain.{
  CacheMode, PersistenceDepth, Artifact, stores_output, stores_input, succeeded,
}
use generic_ml_cache.Domain.Identity.{generate_key}
use generic_ml_cache.Repository
use generic_ml_cache.World.{World}
use generic_ml_cache.Errors.{err, run_interrupted}
use generic_ml_cache.World.Runs.{Runs}
use generic_ml_cache.World.Raises.{Raises}
use generic_ml_cache.Service.Extension.{Hooks}
use generic_ml_cache.Service.Running.Failing.{SameAnswers}
use generic_ml_cache.Service.Failure.{execute-Raises}
use generic_ml_cache.Tests.Store.{two_keys-IsDict}
use generic_ml_cache.Service.{execute}
use generic_ml_cache.Service.Artifacts.{build_artifacts}
use generic_ml_cache.Service.Artifacts.Hydrating.{AreDocuments, CanRead}
use generic_ml_cache.Service.Running.Concluding.{IsRecorded}
use generic_ml_cache.Service.Running.Recording.{CanRecord, Records, documents}
use generic_ml_cache.Service.Running.Fresh.{missing, refreshing}
use generic_ml_cache.Service.Replay.{StoresOutput, execute-Records, execute-serves, execute-execute}
use generic_ml_cache.Service.Offline.{execute_offline}
use generic_ml_cache.Service.Unstored.{execute_unstored}
use generic_ml_cache.Tests.{
  digest, quiet_environment, call, greeting, hooks_at, row, stored_artifact, new_world, used_world,
}

readable : CanRead quiet_environment
readable = record { gets = λ n key. refl; rows = λ n key. refl }

stores_call :
    (mode : CacheMode)
    → StoresOutput quiet_environment (hooks_at PersistenceDepth.cache false) mode call
unfolding stores_output stores_input
stores_call mode = record {
  built = λ n. refl;
  cacheable = refl;
  output = refl;
  output_only = refl;
  gate_open = λ n. refl;
}

can_record :
    CanRecord quiet_environment
      (hooks_at PersistenceDepth.cache false)
      CacheMode.cache
      (generate_key digest call)
      greeting
      new_world
unfolding Repository.locate build_artifacts succeeded stores_input
can_record = record {
  able = record { puts = λ n key. refl; marks = λ n key. refl };
  answers = refl;
  success = refl;
  persists = refl;
  distinct = tt;
  fresh = λ n. refl;
  agree = λ n. (tt, ((λ p. refl, tt), tt));
  quiet = refl;
}

execute-execute_example :
    Runs
      (execute quiet_environment (hooks_at PersistenceDepth.cache false) CacheMode.cache)
      new_world
      (λ recorded w1.
        Runs
          (execute quiet_environment (hooks_at PersistenceDepth.cache false) CacheMode.offline)
          w1
          (λ replayed w2.
            AreDocuments replayed.artifacts (
              documents quiet_environment
                (hooks_at PersistenceDepth.cache false)
                CacheMode.cache
                recorded.execution_id
                greeting)
            × (w2.runs ≡ w1.runs)))
unfolding Repository.find_current Repository.find_all Repository.first_servable lookup
execute-execute_example =
    execute-execute quiet_environment readable (hooks_at PersistenceDepth.cache false)
      CacheMode.cache CacheMode.offline call (stores_call CacheMode.cache)
      (stores_call CacheMode.offline) greeting new_world can_record (missing refl refl) (inr refl)

execute-Records_example :
    Runs
      (execute quiet_environment (hooks_at PersistenceDepth.cache false) CacheMode.cache)
      new_world
      (Records quiet_environment
        (hooks_at PersistenceDepth.cache false)
        CacheMode.cache
        (generate_key digest call)
        greeting)
unfolding Repository.find_current Repository.find_all Repository.first_servable lookup
execute-Records_example =
    execute-Records quiet_environment (hooks_at PersistenceDepth.cache false) CacheMode.cache call
      (stores_call CacheMode.cache) readable greeting new_world can_record (missing refl refl)

-- A store in which row "a" is current, and its only blob has one byte.
abbrev recorded_world : World
recorded_world = record used_world {
  repository = record {
    by_key = (generate_key digest call, row "a" true ∷ []) ∷ [];
    tags_by_execution_id = [];
  };
}

abbrev document : Artifact
document = record (stored_artifact "a") { content = some (1 ∷ []) }

is_recorded : IsRecorded (generate_key digest call) (document ∷ []) recorded_world
unfolding Repository.find_current Repository.find_all Repository.first_servable
    Repository.is_servable lookup
is_recorded = record {
  row = row "a" true;
  current = rw (eq_refl (generate_key digest call)) refl;
  rows = (
    record { same_type = refl; same_name = refl; same_size = refl; same_key = refl; stored = refl },
    tt,
  );
  content = (refl, tt);
}

execute-serves_example :
    Runs
      (execute quiet_environment (hooks_at PersistenceDepth.cache false) CacheMode.cache)
      recorded_world
      (λ e w'. AreDocuments e.artifacts (document ∷ []) × (w'.runs ≡ recorded_world.runs))
execute-serves_example =
    execute-serves quiet_environment (hooks_at PersistenceDepth.cache false) CacheMode.cache call
      (stores_call CacheMode.cache) readable (document ∷ []) recorded_world is_recorded (inl refl)

abbrev interrupted_hooks : Hooks CacheMode
interrupted_hooks = record (hooks_at PersistenceDepth.cache false) {
  run_client = λ mode n. err (run_interrupted "stopped");
}

stores_interrupted : StoresOutput quiet_environment interrupted_hooks CacheMode.refresh call
unfolding stores_output stores_input
stores_interrupted = record {
  built = λ n. refl;
  cacheable = refl;
  output = refl;
  output_only = refl;
  gate_open = λ n. refl;
}

execute-Raises_example :
    Raises
      (run_interrupted "stopped")
      (execute quiet_environment interrupted_hooks CacheMode.refresh)
      used_world
      (SameAnswers used_world)
unfolding Repository.locate Repository.find_by_id
execute-Raises_example =
    execute-Raises quiet_environment readable interrupted_hooks CacheMode.refresh call
      stores_interrupted (run_interrupted "stopped") used_world refl (λ n. refl) two_keys-IsDict
      (refreshing refl)

execute_offline_example :
    (execute quiet_environment
      (hooks_at PersistenceDepth.cache false)
      CacheMode.offline
      used_world).1.runs
    ≡ 3
execute_offline_example =
    execute_offline quiet_environment (hooks_at PersistenceDepth.cache false) CacheMode.offline refl
      used_world

execute_unstored_example :
    let w' =
      (execute quiet_environment
        (hooks_at PersistenceDepth.cache true)
        CacheMode.refresh
        used_world).1 in
    (w'.repository ≡ used_world.repository) × (w'.blobs ≡ used_world.blobs)
execute_unstored_example =
    execute_unstored quiet_environment (hooks_at PersistenceDepth.cache true) CacheMode.refresh
      used_world (inl refl)
