-- ===== src/Service/Running/Concluding.antt =====
-- The end of a recording: finalizing, the journal and the tags.
use generic_ml_cache.Prelude.{
  String, ◌≡◌, refl, ap, ◌∙◌, true, false, not, none, some, List, [], ◌∷◌, any, arith,
}
use generic_ml_cache.Domain.{Artifact, MlExecution, ExecutionState, is_stored}
use generic_ml_cache.Repository
use generic_ml_cache.Repository.{
  Repository, locate, save, dehydrate, with_outcome, record_outcome, rewrite_located, find_all,
  first_servable, set_persisted, finalize_output_persisted,
}
use generic_ml_cache.Repository.Annotations.{add_tags}
use generic_ml_cache.Repository.Reachability.{add_tags-by_key}
use generic_ml_cache.Repository.Currency.{IsReady, finalize-find_current}
use generic_ml_cache.World.{World, Environment, Event, record_, pure}
use generic_ml_cache.World.Runs.{
  Runs, Runs-pure, Runs-ask, Runs-update, Runs-modify, Runs-record_event, Runs-bind,
}
use generic_ml_cache.Service.Extension.{Hooks}
use generic_ml_cache.Service.Artifacts.{record_for}
use generic_ml_cache.Service.Artifacts.Storing.{AreRowsOf, HasContent, Stage}
use generic_ml_cache.Service.Running.{conclude}

-- A current execution of this key, with the documents `docs` and their bytes in the blob store.
pub record IsRecorded (key : String) (docs : List Artifact) (w : World) : Type 0 where
  pub row : MlExecution
  pub current : Repository.find_current key w.repository ≡ some row
  pub rows : AreRowsOf row.artifacts docs
  pub content : HasContent w.blobs docs

AreRowsOf-resolved :
    (rows docs : List Artifact)
    → AreRowsOf rows docs
    → any (λ a. not (is_stored a.status)) rows ≡ false
AreRowsOf-resolved [] [] h = refl
AreRowsOf-resolved [] (d ∷ docs) h = absurd h
AreRowsOf-resolved (a ∷ rows) [] h = absurd h
AreRowsOf-resolved (a ∷ rows) (d ∷ docs) h =
    ground (arith, h.0.stored, AreRowsOf-resolved rows docs h.1)

find_current-add_tags :
    (key k : String) (tags : List String) (r : Repository)
    → Repository.find_current k (add_tags key tags r) ≡ Repository.find_current k r
unfolding Repository.find_current
find_current-add_tags key k tags r = unfold find_all in rw (add_tags-by_key key tags r)

module _ (env : Environment) {Command : Type 0} (hooks : Hooks Command) (command : Command) where
  record_for-Runs :
      (event : Event) (key : String) (w : World)
      → Runs
          (record_for hooks event key command)
          w
          (λ _ w'. (w'.repository ≡ w.repository) × (w'.blobs ≡ w.blobs))
  unfolding record_for
  record_for-Runs event key w = Runs-record_event _ w (refl, refl)

  -- `conclude`, after every document has been stored.
  pub conclude-Runs :
      (id key : String) (base : MlExecution) (docs : List Artifact) (w : World)
      → hooks.after_record key ≡ pure tt
      → base.execution_state ≡ ExecutionState.success
      → base.output_persisted ≡ false
      → base.superseded_at ≡ none
      → Stage id key base docs w
      → Runs (conclude env hooks command key id true) w (λ _ w'. IsRecorded key docs w')
  unfolding conclude
  conclude-Runs id key base docs w quiet success unpersisted current stage =
      let row = record base { artifacts = stage.rows } in
      let ready : IsReady row = record {
        succeeded = success;
        unpersisted = unpersisted;
        current = current;
        resolved = AreRowsOf-resolved stage.rows docs stage.matched;
      } in
      let done =
        finalize-find_current (env.now w.step) id key row w.repository stage.distinct stage.located
          ready in
      Runs-bind
        {P = λ now w'.
          (now ≡ env.now w.step) × (w'.repository ≡ w.repository) × (w'.blobs ≡ w.blobs)}
        _ _ w (Runs-ask env.now w (refl, refl, refl))
        (λ now w1 h1.
          Runs-bind {P = λ _ w'. (w'.repository ≡ done.0) × (w'.blobs ≡ w.blobs)} _ _ w1
            (Runs-update _ done.0 w1 (rw (h1.0, h1.1) done.1) (refl, h1.2))
            (λ _ w2 h2. Runs-bind _ _ w2 (record_for-Runs record_ key w2) (λ _ w3 h3.
              Runs-bind
                {P = λ _ w'.
                  (Repository.find_current key w'.repository ≡ some (set_persisted row))
                  × (w'.blobs ≡ w.blobs)}
                _ _ w3
                (Runs-modify _ w3 (
                  find_current-add_tags key key (hooks.execution_tags command) w3.repository
                      ∙ ap (Repository.find_current key) (h3.0 ∙ h2.0)
                      ∙ done.2,
                  h3.1 ∙ h2.1,
                ))
                (λ _ w4 h4. rw quiet (
                  Runs-pure _ w4 (record {
                    row = set_persisted row;
                    current = h4.0;
                    rows = unfold set_persisted in stage.matched;
                    content = rw h4.1 stage.written_;
                  }))))))
