-- ===== src/Service/Artifacts.antt =====
-- cached_ml_execution_service.py: building, storing and hydrating the artifacts of an execution,
-- and the journal.
pub mod Frame
pub mod Storing
pub mod Hydrating
use Prim.Native.String.{◌++◌ as ◌⧺◌}
use generic_ml_cache.Prelude.{
  ℕ, suc, String, ◌≡◌, Bool, true, false, ◌&&◌, Option, none, some, List, [], ◌∷◌, ◌++◌, map,
  length, if◌then◌else◌,
}
use generic_ml_cache.Text.{utf8}
use generic_ml_cache.Checksum.{file_content_fingerprint}
use generic_ml_cache.Errors.{Error, Result, ok, err, message, artifact_blob_missing}
use generic_ml_cache.Domain.{
  Bytes, ArtifactType, ArtifactStatus, Artifact, MlExecution, GeneratedFile, ClientRunResult,
  is_stored,
}
use generic_ml_cache.Repository
use generic_ml_cache.World.{
  World, Environment, Exec, Event, pure, raise, lift, gets, attempt, ◌>>=◌, ◌>>◌, ask,
  update_repository, record_event, get_blob, put_blob, mark_stored,
}
use generic_ml_cache.Service.Extension.{Hooks}

module _ (sha256 : List ℕ → String) where
  -- BlobKey.for_execution
  unfoldable pub blob_key_for : String → Bytes → String
  unfolding file_content_fingerprint
  blob_key_for id content = id ⧺ ("_" ⧺ file_content_fingerprint sha256 content)

  -- `_make_artifact` and Artifact.from_content
  unfoldable pub make_artifact :
      String → ArtifactType → Option String → Bytes → ArtifactStatus → Artifact
  unfolding blob_key_for
  make_artifact id artifact_type name content status = record {
    artifact_type = artifact_type;
    blob_key = blob_key_for id content;
    size_bytes = length content;
    name = name;
    content = some content;
    status = status;
    persisted_at = none;
    status_detail = none;
  }

  unfoldable pub file_artifacts : String → ArtifactStatus → List GeneratedFile → List Artifact
  unfolding make_artifact
  file_artifacts id status [] = []
  file_artifacts id status (f ∷ files) =
      make_artifact id ArtifactType.output_file (some f.name) f.content status
      ∷ file_artifacts id status files

  -- `_build_artifacts`
  unfoldable pub build_artifacts : String → ClientRunResult → ArtifactStatus → List Artifact
  unfolding make_artifact file_artifacts
  build_artifacts id result status =
      make_artifact id ArtifactType.stdout none (utf8 result.stdout) status
      ∷ make_artifact id ArtifactType.stderr none (utf8 result.stderr) status
      ∷ file_artifacts id status result.files

  unfoldable pub part_artifacts :
      String → ArtifactStatus → List (ArtifactType × Option String × Bytes) → List Artifact
  unfolding make_artifact
  part_artifacts id status [] = []
  part_artifacts id status ((artifact_type, name, content) ∷ parts) =
      make_artifact id artifact_type name content status ∷ part_artifacts id status parts

abbrev pub content_or_empty : Option Bytes → Bytes
content_or_empty none = []
content_or_empty (some content) = content

module _ (env : Environment) where
  marked : String → Artifact → Result (Unit {0}) → Exec Artifact
  marked id a (ok _) = pure (record a { status = ArtifactStatus.stored })
  marked id a (err e) =
      pure (record a { status = ArtifactStatus.pending; status_detail = some (message e) })

  written : String → Artifact → Result (Unit {0}) → Exec Artifact
  unfolding marked
  written id a (ok _) = do outcome ← attempt (mark_stored env id a.blob_key); marked id a outcome
  written id a (err e) = do
    update_repository (Repository.mark_artifacts_failed id a.blob_key (message e))
    pure (record a { status = ArtifactStatus.failed; status_detail = some (message e) })

  -- `_store_blob`: a failed write is recorded as FAILED, a failed mark leaves the row PENDING.
  unfoldable pub store_blob : String → Artifact → Exec Artifact
  unfolding written
  store_blob id a = do
    outcome ← attempt (put_blob env a.blob_key (content_or_empty a.content))
    written id a outcome

  -- `_persist_documents`
  unfoldable pub persist_documents : String → List Artifact → Exec (List Artifact × Bool)
  persist_documents id [] = pure ([], true)
  persist_documents id (a ∷ artifacts) = do
    update_repository (Repository.persist_artifact id a)
    stored ← store_blob id a
    rest ← persist_documents id artifacts
    pure (stored ∷ rest.0, is_stored stored.status && rest.1)

  hydrated : Artifact → Option Bytes → Exec Artifact
  hydrated a none = raise (artifact_blob_missing "blob is missing from the blob store")
  hydrated a (some content) = pure (record a { content = some content })

  -- `_hydrate_artifact`
  unfoldable pub hydrate_artifact : Artifact → Exec Artifact
  unfolding hydrated
  hydrate_artifact a = do content ← get_blob env a.blob_key; hydrated a content

  unfoldable pub hydrate_all : List Artifact → Exec (List Artifact)
  unfolding hydrate_artifact
  hydrate_all [] = pure []
  hydrate_all (a ∷ artifacts) = do
    first ← hydrate_artifact a
    rest ← hydrate_all artifacts
    pure (first ∷ rest)

  -- `_hydrate`
  unfoldable pub hydrate : MlExecution → Exec MlExecution
  unfolding hydrate_all
  hydrate e = do artifacts ← hydrate_all e.artifacts; pure (record e { artifacts = artifacts })

module _ {Command : Type 0} (hooks : Hooks Command) where
  -- `_record_event`
  unfoldable pub record_for : Event → String → Command → Exec (Unit {0})
  unfolding record_event
  record_for event key command =
      let (client, model, effort) = hooks.journal_fields command in
      record_event (record {
        event = event;
        execution_key = key;
        client = client;
        model = model;
        effort = effort;
        session_id = hooks.session_id command;
      })
