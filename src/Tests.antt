-- ===== src/Tests.antt =====
-- A small environment, a client and a few rows, on which the other test modules run the definitions.
pub mod Calls
pub mod Encryption
pub mod Command
pub mod Sqlite
pub mod Store
pub mod Aggregates
use generic_ml_cache.Prelude.{
  ℕ, String, Bool, true, false, Option, none, some, List, [], ◌∷◌, length,
}
use generic_ml_cache.Text.{decimal}
use generic_ml_cache.Errors.{ok}
use generic_ml_cache.Domain.{
  CacheMode, PersistenceDepth, ExecutionState, ArtifactStatus, ArtifactType, Artifact, MlExecution,
  ClientRunResult, pos,
}
use generic_ml_cache.Domain.Kind.{ExecutionKind}
use generic_ml_cache.Domain.Identity.{CallIdentity}
use generic_ml_cache.Repository.{Repository, empty}
use generic_ml_cache.World.{World, Environment, pure}
use generic_ml_cache.Service.Extension.{Hooks}

-- A digest that tells texts of different lengths apart.
abbrev pub digest : List ℕ → String
digest bytes = decimal (length bytes)

abbrev pub quiet_environment : Environment
quiet_environment = record {
  sha256 = digest;
  new_execution_id = λ n. "e";
  now = λ n. n;
  healthy = λ n. true;
  content_gate = λ n. none;
  get_fault = λ n key. none;
  put_fault = λ n key. none;
  remove_fault = λ n key. none;
  row_fault = λ n key. none;
  mark_fault = λ n key. none;
}

abbrev pub call : CallIdentity
call = CallIdentity.passthrough (record { client = "claude"; native_args_fingerprint = "5" })

abbrev pub greeting : ClientRunResult
greeting = record {
  exit_code = pos 0;
  stdout = "hello";
  stderr = "hello";
  files = [];
  token_usage = none;
}

-- A command is its cache mode.
abbrev pub hooks_at : PersistenceDepth → Bool → Hooks CacheMode
hooks_at depth uncacheable = record {
  cache_mode = λ mode. mode;
  persistence_depth = λ mode. depth;
  session_id = λ mode. some "s";
  should_persist = λ mode succeeded. succeeded;
  build_identity = λ mode n. ok call;
  run_client = λ mode n. ok greeting;
  execution_kind = λ mode. ExecutionKind.local_passthrough;
  journal_fields = λ mode. ("claude", "", "");
  is_uncacheable = λ mode. uncacheable;
  after_record = λ key. pure tt;
  execution_tags = λ mode. "t" ∷ [];
  input_parts = λ mode. [];
}

abbrev pub new_world : World
new_world = record { repository = empty; blobs = []; journal = []; step = 0; runs = 0 }

abbrev pub stored_artifact : String → Artifact
stored_artifact blob_key = record {
  artifact_type = ArtifactType.stdout;
  blob_key = blob_key;
  size_bytes = 10;
  name = none;
  content = none;
  status = ArtifactStatus.stored;
  persisted_at = some 1;
  status_detail = none;
}

abbrev pub row : String → Bool → MlExecution
row id persisted = record {
  call_identity = call;
  execution_state = ExecutionState.success;
  execution_kind = ExecutionKind.local_passthrough;
  output_persisted = persisted;
  execution_id = id;
  input_persisted = false;
  artifacts = stored_artifact id ∷ [];
  token_usage = none;
  failure = none;
  superseded_at = none;
}

-- Under "k" a current row and one to finalize, under "l" a current row.
abbrev pub two_keys : Repository
two_keys = record {
  by_key = ("k", row "a" true ∷ row "b" false ∷ []) ∷ ("l", row "c" true ∷ []) ∷ [];
  tags_by_execution_id = [];
}

abbrev pub used_world : World
used_world = record {
  repository = two_keys;
  blobs = ("a", 1 ∷ []) ∷ [];
  journal = [];
  step = 0;
  runs = 3;
}
