-- ===== src/Service/Running/Fresh.antt =====
-- `_run_fresh_locked` on a key that has no current execution, or that is to be refreshed.
use generic_ml_cache.Prelude.{String, ◌≡◌, refl, ap, false, Option, none}
use generic_ml_cache.Errors.{ok}
use generic_ml_cache.Domain.{CacheMode, ClientRunResult, MlExecution, stores_input}
use generic_ml_cache.Domain.Identity.{CallIdentity, generate_key}
use generic_ml_cache.Repository
use generic_ml_cache.World.{World, Environment}
use generic_ml_cache.World.Runs.{Runs, Runs-pure, Runs-attempt, Runs-bind, Runs-find_current}
use generic_ml_cache.Service.Extension.{Hooks}
use generic_ml_cache.Service.Artifacts.Hydrating.{CanRead}
use generic_ml_cache.Service.Serving.{serve_current_if_healthy}
use generic_ml_cache.Service.Running.{require_healthy, recheck, run_unless_served, run_fresh_locked}
use generic_ml_cache.Service.Running.Recording.{CanRecord, Records, run_and_record-Runs}

-- The state of the world but for the number of calls of the environment.
pub record SameStore (w w' : World) : Type 0 where
  pub repository : w'.repository ≡ w.repository
  pub runs : w'.runs ≡ w.runs
  pub blobs : w'.blobs ≡ w.blobs

module _ (env : Environment) (able : CanRead env) {Command : Type 0} (hooks : Hooks Command)
    (command : Command) (key : String) where
  pub serve_current_if_healthy-miss-Runs :
      (w : World)
      → Repository.find_current key w.repository ≡ none
      → Runs
          (serve_current_if_healthy env hooks command key)
          w
          (λ o w'. (o ≡ none) × SameStore w w')
  unfolding serve_current_if_healthy
  serve_current_if_healthy-miss-Runs w empty =
      Runs-bind {P = λ r w'. (r ≡ ok none) × SameStore w w'} _ _ w
        (Runs-attempt _ w (
          Runs-find_current env key w (able.rows w.step key)
            (ap ok empty, record { repository = refl; runs = refl; blobs = refl })))
        (λ r w1 h. rw h.0 (Runs-pure none w1 (refl, h.1)))

pub CanRecord-same :
    (env : Environment) {Command : Type 0} (hooks : Hooks Command) (command : Command)
    (key : String) (result : ClientRunResult) (w w' : World)
    → SameStore w w'
    → CanRecord env hooks command key result w
    → CanRecord env hooks command key result w'
CanRecord-same env hooks command key result w w' same can = record {
  able = can.able;
  answers = rw same.runs can.answers;
  success = can.success;
  persists = can.persists;
  distinct = rw same.repository can.distinct;
  fresh = rw same.repository can.fresh;
  agree = can.agree;
  quiet = can.quiet;
}

-- Why the client has to run: there is no current execution of the key, or the call is to refresh it.
pub data HasToRun (mode : CacheMode) (found : Option MlExecution) : Type 0 where
  missing : mode ≡ CacheMode.cache → found ≡ none → HasToRun mode found
  refreshing : mode ≡ CacheMode.refresh → HasToRun mode found

module _ (env : Environment) (able : CanRead env) {Command : Type 0} (hooks : Hooks Command)
    (command : Command) (key : String) where
  pub recheck-Runs :
      (w : World)
      → HasToRun (hooks.cache_mode command) (Repository.find_current key w.repository)
      → Runs (recheck env hooks command key) w (λ o w'. (o ≡ none) × SameStore w w')
  unfolding recheck
  recheck-Runs w (missing cache empty) =
      rw (recheck, cache) (serve_current_if_healthy-miss-Runs env able hooks command key w empty)
  recheck-Runs w (refreshing refresh) =
      rw (recheck, refresh)
        (Runs-pure none w (refl, record { repository = refl; runs = refl; blobs = refl }))

module _ (env : Environment) (able : CanRead env) {Command : Type 0} (hooks : Hooks Command)
    (command : Command) (output_only : stores_input (hooks.persistence_depth command) ≡ false)
    (identity : CallIdentity) (result : ClientRunResult) (w : World)
    (can : CanRecord env hooks command (generate_key env.sha256 identity) result w) where
  abbrev key : String
  key = generate_key env.sha256 identity

  pub run_fresh_locked-Runs :
      HasToRun (hooks.cache_mode command) (Repository.find_current key w.repository)
      → Runs
          (run_fresh_locked env hooks command identity key)
          w
          (Records env hooks command key result)
  unfolding run_fresh_locked run_unless_served require_healthy
  run_fresh_locked-Runs has_to_run =
      Runs-bind _ _ w (recheck-Runs env able hooks command key w has_to_run) (λ o w1 h.
        rw (h.0, output_only)
          (Runs-bind {P = λ _ w'. w' ≡ w1} _ _ w1 (Runs-pure tt w1 refl) (λ _ w2 same. rw same (
            run_and_record-Runs env hooks command identity result w1
              (CanRecord-same env hooks command key result w w1 h.1 can)))))
