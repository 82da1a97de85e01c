-- ===== src/Service/Failure.antt =====
-- cached_ml_execution_service.py: execute with a client that raises.
use generic_ml_cache.Prelude.{ℕ, String, ◌≡◌, refl, ap, ◌∙◌, none}
use generic_ml_cache.Dict.{IsDict}
use generic_ml_cache.Errors.{Error, err, ok}
use generic_ml_cache.Domain.Identity.{CallIdentity, generate_key}
use generic_ml_cache.Repository
use generic_ml_cache.World.{World, Environment}
use generic_ml_cache.World.Runs.{Runs-pure, Runs-ask, Runs-lift, Runs-bind, Runs-no_fault}
use generic_ml_cache.World.Raises.{Raises, Raises-bind}
use generic_ml_cache.Service.Extension.{Hooks}
use generic_ml_cache.Service.Artifacts.Hydrating.{CanRead}
use generic_ml_cache.Service.Running.{
  run_unless_served, require_healthy, run_and_record, run_fresh_locked,
}
use generic_ml_cache.Service.Running.Failing.{SameAnswers, run_and_record-Raises}
use generic_ml_cache.Service.Running.Fresh.{
  SameStore, HasToRun, missing, refreshing, recheck-Runs, serve_current_if_healthy-miss-Runs,
}
use generic_ml_cache.Service.Replay.{StoresOutput}
use generic_ml_cache.Service.{content_gate, fresh_unless, online, by_mode, execute_keyed, execute}

SameAnswers-after : {u v w : World} → SameStore u v → SameAnswers v w → SameAnswers u w
SameAnswers-after store same = record {
  answers = λ k. same.answers k ∙ ap (Repository.find_current k) store.repository;
  blobs = same.blobs ∙ store.blobs;
}

SameStore-trans : {u v w : World} → SameStore u v → SameStore v w → SameStore u w
SameStore-trans p q = record {
  repository = q.repository ∙ p.repository;
  runs = q.runs ∙ p.runs;
  blobs = q.blobs ∙ p.blobs;
}

module _ (env : Environment) (able : CanRead env) {Command : Type 0} (hooks : Hooks Command)
    (command : Command) (identity : CallIdentity) (stores : StoresOutput env hooks command identity)
    (error : Error) (w : World) (answers : hooks.run_client command w.runs ≡ err error)
    (fresh : (n : ℕ) → Repository.locate (env.new_execution_id n) w.repository.by_key ≡ none)
    (dict : IsDict w.repository.by_key) where
  abbrev key : String
  key = generate_key env.sha256 identity

  run_fresh_locked-Raises :
      (w1 : World)
      → SameStore w w1
      → HasToRun (hooks.cache_mode command) (Repository.find_current key w.repository)
      → Raises error (run_fresh_locked env hooks command identity key) w1 (SameAnswers w)
  unfolding run_fresh_locked run_unless_served require_healthy
  run_fresh_locked-Raises w1 same why =
      Raises-bind error _ _ w1 (recheck-Runs env able hooks command key w1 (rw same.repository why))
        (λ o w2 h.
          let all = SameStore-trans same h.1 in
          rw (h.0, stores.output_only)
            (Raises-bind error {P = λ _ w'. w' ≡ w2} _ _ w2 (Runs-pure tt w2 refl)
              (λ _ w3 e. rw e (failed w2 all))))
    where
      failed :
          (w2 : World)
          → SameStore w w2
          → Raises error (run_and_record env hooks command identity key) w2 (SameAnswers w)
      failed w2 all =
          let r =
            run_and_record-Raises env hooks command identity error w2 (rw all.runs answers)
              (rw all.repository (fresh w2.step)) (rw all.repository dict) in
          record { after = r.after; raises = r.raises; holds = SameAnswers-after all r.holds }

  by_mode-Raises :
      (w1 : World)
      → SameStore w w1
      → HasToRun (hooks.cache_mode command) (Repository.find_current key w.repository)
      → Raises error
          (by_mode env hooks command identity key (hooks.cache_mode command))
          w1
          (SameAnswers w)
  unfolding by_mode online fresh_unless
  by_mode-Raises w1 same (missing cache empty) =
      rw (by_mode, cache, online, stores.output)
        (Raises-bind error _ _ w1
          (serve_current_if_healthy-miss-Runs env able hooks command key w1
            (rw same.repository empty))
          (λ o w2 h.
            rw h.0 (run_fresh_locked-Raises w2 (SameStore-trans same h.1) (missing cache empty))))
  by_mode-Raises w1 same (refreshing refresh) =
      rw (by_mode, refresh, online, stores.output)
        (run_fresh_locked-Raises w1 same (refreshing refresh))

  -- For a cacheable command that stores its output and no input, where the encryption gate is open,
  -- reads do not fail and new identifiers are not taken: if a CACHE call with no current execution, or a
  -- REFRESH call, has a client that raises, be it an interruption or a failure, then the call raises
  -- that error, every key has the answer that it had before, and the blob store the same bytes.
  pub execute-Raises :
      HasToRun (hooks.cache_mode command) (Repository.find_current key w.repository)
      → Raises error (execute env hooks command) w (SameAnswers w)
  unfolding execute execute_keyed content_gate
  execute-Raises why =
      Raises-bind error {P = λ b w'. (b ≡ ok identity) × SameStore w w'} _ _ w
        (Runs-ask _ w
          (stores.built w.step, record { repository = refl; runs = refl; blobs = refl }))
        (λ b w1 h1.
          Raises-bind error {P = λ i w'. (i ≡ identity) × SameStore w w'} _ _ w1
            (Runs-lift identity b w1 h1.0 (refl, h1.1))
            (λ i w2 h2.
              rw (h2.0, stores.cacheable, stores.output)
                (Raises-bind error {P = λ _ w'. SameStore w w'} _ _ w2
                  (Runs-bind {P = λ f w'. (f ≡ none) × SameStore w w'} _ _ w2
                    (Runs-ask _ w2 (
                      stores.gate_open w2.step,
                      record { repository = h2.1.repository; runs = h2.1.runs; blobs = h2.1.blobs },
                    ))
                    (λ f w3 h3. Runs-no_fault f w3 h3.0 h3.1))
                  (λ _ w4 h4. by_mode-Raises w4 h4 why))))
