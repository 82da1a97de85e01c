-- ===== src/Service/Replay.antt =====
-- cached_ml_execution_service.py: execute where it has to run the client, where the store has the
-- answer, and one after the other.
use generic_ml_cache.Prelude.{ℕ, suc, String, ◌≡◌, refl, ◌⊎◌, inl, inr, true, false, none, List}
use generic_ml_cache.Errors.{ok}
use generic_ml_cache.Domain.{
  CacheMode, ClientRunResult, MlExecution, Artifact, stores_output, stores_input,
}
use generic_ml_cache.Domain.Identity.{CallIdentity, generate_key}
use generic_ml_cache.Repository
use generic_ml_cache.World.{World, Environment}
use generic_ml_cache.World.Runs.{
  Runs, Runs-pure, Runs-ask, Runs-lift, Runs-bind, Runs-weaken, Runs-no_fault,
}
use generic_ml_cache.Service.Extension.{Hooks}
use generic_ml_cache.Service.Artifacts.Hydrating.{AreDocuments, CanRead}
use generic_ml_cache.Service.Serving.Replaying.{serve_offline-Runs, serve_current_if_healthy-Runs}
use generic_ml_cache.Service.Running.{run_fresh_locked}
use generic_ml_cache.Service.Running.Concluding.{IsRecorded}
use generic_ml_cache.Service.Running.Recording.{CanRecord, Records, documents}
use generic_ml_cache.Service.Running.Fresh.{
  SameStore, CanRecord-same, HasToRun, missing, refreshing, serve_current_if_healthy-miss-Runs,
  run_fresh_locked-Runs,
}
use generic_ml_cache.Service.{content_gate, fresh_unless, online, by_mode, execute_keyed, execute}

-- A command that stores its output, and only its output, under the key of `identity`.
pub record StoresOutput (env : Environment) {Command : Type 0} (hooks : Hooks Command)
    (command : Command) (identity : CallIdentity) : Type 0 where
  pub built : (n : ℕ) → hooks.build_identity command n ≡ ok identity
  pub cacheable : hooks.is_uncacheable command ≡ false
  pub output : stores_output (hooks.persistence_depth command) ≡ true
  pub output_only : stores_input (hooks.persistence_depth command) ≡ false
  pub gate_open : (n : ℕ) → env.content_gate n ≡ none

module _ (env : Environment) {Command : Type 0} (hooks : Hooks Command) (command : Command)
    (identity : CallIdentity) (stores : StoresOutput env hooks command identity) where
  -- The world as the mode is looked at: only the environment has been asked.
  abbrev opened : World → World
  opened w = record w { step = suc (suc w.step) }

  execute-Runs :
      {Q : MlExecution → World → Type 0} (w : World)
      → Runs
          (by_mode env hooks command identity
            (generate_key env.sha256 identity)
            (hooks.cache_mode command))
          (opened w)
          Q
      → Runs (execute env hooks command) w Q
  unfolding execute execute_keyed content_gate
  execute-Runs w r =
      Runs-bind {P = λ b w'. (b ≡ ok identity) × (w' ≡ record w { step = suc w.step })} _ _ w
        (Runs-ask _ w (stores.built w.step, refl))
        (λ b w1 h1.
          Runs-bind {P = λ i w'. (i ≡ identity) × (w' ≡ record w { step = suc w.step })} _ _ w1
            (Runs-lift identity b w1 h1.0 (refl, h1.1))
            (λ i w2 h2.
              rw (h2.0, h2.1, stores.cacheable, stores.output)
                (Runs-bind {P = λ _ w'. w' ≡ opened w} _ _ _
                  (Runs-bind {P = λ f w'. (f ≡ none) × (w' ≡ opened w)} _ _ _
                    (Runs-ask _ _ (stores.gate_open (suc w.step), refl))
                    (λ f w3 h3. Runs-no_fault f w3 h3.0 h3.1))
                  (λ _ w4 h4. rw h4 r))))

  module _ (able : CanRead env) where
    abbrev key : String
    key = generate_key env.sha256 identity

    module _ (result : ClientRunResult) (w : World)
        (can : CanRecord env hooks command key result w) where
      run_fresh-Runs :
          (w' : World)
          → SameStore w w'
          → HasToRun (hooks.cache_mode command) (Repository.find_current key w.repository)
          → Runs
              (run_fresh_locked env hooks command identity key)
              w'
              (Records env hooks command key result)
      run_fresh-Runs w' same why =
          run_fresh_locked-Runs env able hooks command stores.output_only identity result w'
            (CanRecord-same env hooks command key result w w' same can) (rw same.repository why)

      by_mode-Records :
          HasToRun (hooks.cache_mode command) (Repository.find_current key w.repository)
          → Runs
              (by_mode env hooks command identity key (hooks.cache_mode command))
              (opened w)
              (Records env hooks command key result)
      unfolding by_mode online fresh_unless
      by_mode-Records (missing cache empty) =
          rw (by_mode, cache, online, stores.output)
            (Runs-bind _ _ _
              (serve_current_if_healthy-miss-Runs env able hooks command key (opened w) empty)
              (λ o w1 h. rw h.0 (
                run_fresh-Runs w1
                  (record { repository = h.1.repository; runs = h.1.runs; blobs = h.1.blobs })
                  (missing cache empty))))
      by_mode-Records (refreshing refresh) =
          rw (by_mode, refresh, online, stores.output)
            (run_fresh-Runs (opened w) (record { repository = refl; runs = refl; blobs = refl })
              (refreshing refresh))

      -- For a cacheable command that stores its output and no input, where the encryption gate is open,
      -- no port fails, the client succeeds under an identifier that is not taken, the command persists
      -- the result, its documents of one blob key have one content and nothing follows a recording: a
      -- CACHE call with no current execution of its key, and a REFRESH call, return the client's
      -- documents as stored, and leave them as the current execution of the key, with their bytes.
      pub execute-Records :
          HasToRun (hooks.cache_mode command) (Repository.find_current key w.repository)
          → Runs (execute env hooks command) w (Records env hooks command key result)
      execute-Records why = execute-Runs w (by_mode-Records why)

    module _ (docs : List Artifact) (w : World) (recorded : IsRecorded key docs w) where
      by_mode-serves :
          (mode : CacheMode)
          → (mode ≡ CacheMode.cache) ⊎ (mode ≡ CacheMode.offline)
          → Runs
              (by_mode env hooks command identity key mode)
              (opened w)
              (λ e w'. AreDocuments e.artifacts docs × (w'.runs ≡ w.runs))
      unfolding by_mode online fresh_unless
      by_mode-serves mode (inl cache) =
          rw (by_mode, cache, online, stores.output)
            (Runs-bind _ _ _
              (serve_current_if_healthy-Runs env able hooks command key stores.output_only
                recorded.row docs (opened w) recorded.current recorded.rows recorded.content)
              (λ o w1 h. rw h.1 (Runs-pure h.0 w1 (h.2.0, h.2.1))))
      by_mode-serves mode (inr offline) =
          rw (by_mode, offline)
            (Runs-weaken _ _ (λ e w' h. (h.0, h.1))
              (serve_offline-Runs env able hooks command key stores.output_only recorded.row docs
                (opened w) recorded.current recorded.rows recorded.content))

      -- For a cacheable command that stores its output and no input, where the encryption gate is open
      -- and reads do not fail: if the key has a current execution whose documents are in the blob
      -- store, a CACHE and an OFFLINE call return these documents, with their types, names and bytes,
      -- and run no client.
      pub execute-serves :
          (hooks.cache_mode command ≡ CacheMode.cache)
            ⊎ (hooks.cache_mode command ≡ CacheMode.offline)
          → Runs
              (execute env hooks command)
              w
              (λ e w'. AreDocuments e.artifacts docs × (w'.runs ≡ w.runs))
      execute-serves mode = execute-Runs w (by_mode-serves (hooks.cache_mode command) mode)

module _ (env : Environment) (able : CanRead env) {Command : Type 0} (hooks : Hooks Command)
    (first later : Command) (identity : CallIdentity)
    (stores : StoresOutput env hooks first identity)
    (replays : StoresOutput env hooks later identity) (result : ClientRunResult) (w : World) where
  -- Record, then replay, for two cacheable commands of one identity that store their output and no
  -- input, where the encryption gate is open, no port fails, the client succeeds under an identifier
  -- that is not taken, the first command persists the result, its documents of one blob key have one
  -- content and nothing follows a recording. If the first has to run the client (a miss in CACHE mode,
  -- or REFRESH) and the second is a CACHE or OFFLINE call, then both return, and the second returns the
  -- documents that the client gave to the first, with their types, names and bytes, and runs no client.
  pub execute-execute :
      CanRecord env hooks first (generate_key env.sha256 identity) result w
      → HasToRun
          (hooks.cache_mode first)
          (Repository.find_current (generate_key env.sha256 identity) w.repository)
      → (hooks.cache_mode later ≡ CacheMode.cache) ⊎ (hooks.cache_mode later ≡ CacheMode.offline)
      → Runs (execute env hooks first) w (λ recorded w1.
        Runs (execute env hooks later) w1 (λ replayed w2.
          AreDocuments replayed.artifacts (documents env hooks first recorded.execution_id result)
          × (w2.runs ≡ w1.runs)))
  execute-execute can why mode =
      Runs-weaken _ w
        (λ recorded w1 h.
          execute-serves env hooks later identity replays able
            (documents env hooks first recorded.execution_id result) w1 h.2 mode)
        (execute-Records env hooks first identity stores able result w can why)
