-- ===== src/Service/Serving/Replaying.antt =====
-- cached_ml_execution_service.py: serving a recorded answer, in CACHE and in OFFLINE mode.
use generic_ml_cache.Prelude.{String, ◌≡◌, refl, ap, ◌∙◌, false, some, List}
use generic_ml_cache.Errors.{ok}
use generic_ml_cache.Domain.{Artifact, MlExecution, stores_input}
use generic_ml_cache.Repository
use generic_ml_cache.World.{World, Environment, hit, find_current}
use generic_ml_cache.World.Runs.{
  Runs, Runs-pure, Runs-modify, Runs-record_event, Runs-attempt, Runs-bind, Runs-weaken,
  Runs-find_current,
}
use generic_ml_cache.Service.Extension.{Hooks}
use generic_ml_cache.Service.Artifacts.{record_for}
use generic_ml_cache.Service.Artifacts.Storing.{AreRowsOf, HasContent}
use generic_ml_cache.Service.Artifacts.Hydrating.{AreDocuments, CanRead, hydrate-Runs}
use generic_ml_cache.Service.Serving.{
  accumulate_input, serve_hit, serve_current_if_healthy, serve_offline,
}

-- What a served call returns: the documents, and no client has run.
abbrev pub Serves : List Artifact → World → MlExecution → World → Type 0
Serves docs w e w' = AreDocuments e.artifacts docs × (w'.runs ≡ w.runs) × (w'.blobs ≡ w.blobs)

module _ (env : Environment) (able : CanRead env) {Command : Type 0} (hooks : Hooks Command)
    (command : Command) (key : String)
    (output_only : stores_input (hooks.persistence_depth command) ≡ false) where
  record_hit-Runs :
      (w : World)
      → Runs
          (record_for hooks hit key command)
          w
          (λ _ w'. (w'.runs ≡ w.runs) × (w'.blobs ≡ w.blobs))
  unfolding record_for
  record_hit-Runs w = Runs-record_event _ w (refl, refl)

  accumulate_input-Runs :
      (e : MlExecution) (w : World)
      → Runs (accumulate_input env hooks command key e) w (λ _ w'. w' ≡ w)
  unfolding accumulate_input
  accumulate_input-Runs e w = rw output_only (Runs-pure tt w refl)

  serve_hit-Runs :
      (row : MlExecution) (docs : List Artifact) (w : World)
      → AreRowsOf row.artifacts docs
      → HasContent w.blobs docs
      → Runs (serve_hit env hooks command key row) w (Serves docs w)
  unfolding serve_hit
  serve_hit-Runs row docs w rows has =
      Runs-bind _ _ w (hydrate-Runs env able row docs w rows has) (λ x w1 h1.
        Runs-bind _ _ w1 (record_hit-Runs w1) (λ _ w2 h2.
          Runs-bind {P = λ _ w'. (w'.runs ≡ w2.runs) × (w'.blobs ≡ w2.blobs)} _ _ w2
            (Runs-modify _ w2 (refl, refl))
            (λ _ w3 h3. Runs-bind _ _ w3 (accumulate_input-Runs row w3) (λ _ w4 h4. Runs-pure x w4 (
              h1.0,
              ap (λ (v : World). v.runs) h4 ∙ h3.0 ∙ h2.0 ∙ h1.1.runs,
              ap (λ (v : World). v.blobs) h4 ∙ h3.1 ∙ h2.1 ∙ h1.1.blobs,
            )))))

  module _ (row : MlExecution) (docs : List Artifact) (w : World)
      (current : Repository.find_current key w.repository ≡ some row)
      (rows : AreRowsOf row.artifacts docs) (has : HasContent w.blobs docs) where
    found-Runs :
        Runs
          (find_current env key)
          w
          (λ o w'. (o ≡ some row) × (w'.runs ≡ w.runs) × (w'.blobs ≡ w.blobs))
    found-Runs = Runs-find_current env key w (able.rows w.step key) (current, refl, refl)

    pub serve_offline-Runs : Runs (serve_offline env hooks command key) w (Serves docs w)
    unfolding serve_offline
    serve_offline-Runs =
        Runs-bind {P = λ r w'. (e : MlExecution) × (r ≡ ok (some e)) × Serves docs w e w'} _ _ w
          (Runs-attempt _ w (
            Runs-bind _ _ w found-Runs (λ o w1 h1. rw h1.0 (
              Runs-bind _ _ w1 (serve_hit-Runs row docs w1 rows (rw h1.2 has))
                (λ e w2 h2. Runs-pure _ w2 (e, refl, (h2.0, h2.1 ∙ h1.1, h2.2 ∙ h1.2)))))))
          (λ r w1 h1. rw h1.1 (Runs-pure _ w1 h1.2))

    pub serve_current_if_healthy-Runs :
        Runs
          (serve_current_if_healthy env hooks command key)
          w
          (λ o w'. (e : MlExecution) × (o ≡ some e) × Serves docs w e w')
    unfolding serve_current_if_healthy
    serve_current_if_healthy-Runs =
        Runs-bind {P = λ r w'. (r ≡ ok (some row)) × (w'.runs ≡ w.runs) × (w'.blobs ≡ w.blobs)} _ _
          w (Runs-attempt _ w (Runs-weaken _ w (λ o w' h. (ap ok h.0, h.1, h.2)) found-Runs))
          (λ r w1 h1. rw h1.0 (
            Runs-bind {P = λ q w'. (e : MlExecution) × (q ≡ ok e) × Serves docs w e w'} _ _ w1
              (Runs-attempt _ w1 (
                Runs-weaken _ w1 (λ e w' h. (e, refl, (h.0, h.1 ∙ h1.1, h.2 ∙ h1.2)))
                  (serve_hit-Runs row docs w1 rows (rw h1.2 has))))
              (λ q w2 h2. rw h2.1 (Runs-pure _ w2 (h2.0, refl, h2.2)))))
