-- ===== src/Service/Artifacts/Hydrating.antt =====
-- cached_ml_execution_service.py: hydration where the blob store answers.
use generic_ml_cache.Prelude.{ℕ, String, ◌≡◌, refl, ◌∙◌, none, some, List, [], ◌∷◌}
use generic_ml_cache.Dict.{lookup}
use generic_ml_cache.Domain.{Artifact, MlExecution}
use generic_ml_cache.World.{World, Environment}
use generic_ml_cache.World.Runs.{Runs, Runs-pure, Runs-bind, Runs-get_blob}
use generic_ml_cache.Service.Artifacts.{content_or_empty, hydrate_artifact, hydrate_all, hydrate}
use generic_ml_cache.Service.Artifacts.Storing.{IsRowOf, AreRowsOf, HasContent}

-- The type, the name and the bytes of the document `d`.
pub record IsDocument (a d : Artifact) : Type 0 where
  pub same_type : a.artifact_type ≡ d.artifact_type
  pub same_name : a.name ≡ d.name
  pub same_content : a.content ≡ some (content_or_empty d.content)

abbrev pub AreDocuments : List Artifact → List Artifact → Type 0
AreDocuments [] [] = Unit
AreDocuments [] (d ∷ docs) = ⊥
AreDocuments (a ∷ artifacts) [] = ⊥
AreDocuments (a ∷ artifacts) (d ∷ docs) = IsDocument a d × AreDocuments artifacts docs

-- The stored state and the number of client runs are as before.
pub record IsUntouched (w w' : World) : Type 0 where
  pub repository : w'.repository ≡ w.repository
  pub blobs : w'.blobs ≡ w.blobs
  pub runs : w'.runs ≡ w.runs

pub IsUntouched-trans : {u v w : World} → IsUntouched u v → IsUntouched v w → IsUntouched u w
IsUntouched-trans p q = record {
  repository = q.repository ∙ p.repository;
  blobs = q.blobs ∙ p.blobs;
  runs = q.runs ∙ p.runs;
}

-- Neither a blob nor a row fails to be read.
pub record CanRead (env : Environment) : Type 0 where
  pub gets : (n : ℕ) (key : String) → env.get_fault n key ≡ none
  pub rows : (n : ℕ) (key : String) → env.row_fault n key ≡ none

module _ (env : Environment) (able : CanRead env) where
  hydrate_artifact-Runs :
      (a d : Artifact) (w : World)
      → IsRowOf a d
      → lookup d.blob_key w.blobs ≡ some (content_or_empty d.content)
      → Runs (hydrate_artifact env a) w (λ x w'. IsDocument x d × IsUntouched w w')
  unfolding hydrate_artifact
  hydrate_artifact-Runs a d w row has =
      Runs-bind {P = λ o w'. (o ≡ some (content_or_empty d.content)) × IsUntouched w w'} _ _ w
        (Runs-get_blob env a.blob_key w (able.gets w.step a.blob_key)
          (rw row.same_key has, record { repository = refl; blobs = refl; runs = refl }))
        (λ o w1 h1. rw h1.0 (
          Runs-pure _ w1 (
            record { same_type = row.same_type; same_name = row.same_name; same_content = refl },
            h1.1,
          )))

  hydrate_all-Runs :
      (artifacts docs : List Artifact) (w : World)
      → AreRowsOf artifacts docs
      → HasContent w.blobs docs
      → Runs (hydrate_all env artifacts) w (λ xs w'. AreDocuments xs docs × IsUntouched w w')
  unfolding hydrate_all
  hydrate_all-Runs [] [] w rows has =
      Runs-pure _ w (tt, record { repository = refl; blobs = refl; runs = refl })
  hydrate_all-Runs [] (d ∷ docs) w rows has = absurd rows
  hydrate_all-Runs (a ∷ artifacts) [] w rows has = absurd rows
  hydrate_all-Runs (a ∷ artifacts) (d ∷ docs) w rows has =
      Runs-bind _ _ w (hydrate_artifact-Runs a d w rows.0 has.0) (λ x w1 h1.
        Runs-bind _ _ w1 (hydrate_all-Runs artifacts docs w1 rows.1 (rw h1.1.blobs has.1))
          (λ xs w2 h2. Runs-pure _ w2 ((h1.0, h2.0), IsUntouched-trans h1.1 h2.1)))

  pub hydrate-Runs :
      (e : MlExecution) (docs : List Artifact) (w : World)
      → AreRowsOf e.artifacts docs
      → HasContent w.blobs docs
      → Runs (hydrate env e) w (λ x w'. AreDocuments x.artifacts docs × IsUntouched w w')
  unfolding hydrate
  hydrate-Runs e docs w rows has =
      Runs-bind _ _ w (hydrate_all-Runs e.artifacts docs w rows has) (λ xs w1 h1. Runs-pure _ w1 h1)
