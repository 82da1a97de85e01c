-- ===== src/Domain.antt =====
-- The domain model of packages/core (application/domain/model): the modes of a call, artifacts,
-- executions, the raw result of a client run, and the errors of common/errors.py that the modelled
-- code raises or catches. Timestamps are numbers; a byte string is a list of numbers.
pub mod Kind
pub mod Identity
use generic_ml_cache.Prelude.{
  ℕ, zero, suc, ◌+◌, String, Bool, true, false, Option, none, some, List, any, if◌then◌else◌,
}
use Prim.Native.String.{◌++◌ as ◌⧺◌}
use generic_ml_cache.Text.{decimal}
use Identity.{CallIdentity}
pub use Kind.{ExecutionKind}

abbrev pub Bytes : Type 0
Bytes = List ℕ

abbrev pub Timestamp : Type 0
Timestamp = ℕ

pub data CacheMode : Type 0 where
  cache offline refresh : CacheMode

pub data PersistenceDepth : Type 0 where
  meter cache dataset : PersistenceDepth

unfoldable pub stores_output : PersistenceDepth → Bool
stores_output PersistenceDepth.meter = false
stores_output PersistenceDepth.cache = true
stores_output PersistenceDepth.dataset = true

unfoldable pub stores_input : PersistenceDepth → Bool
stores_input PersistenceDepth.meter = false
stores_input PersistenceDepth.cache = false
stores_input PersistenceDepth.dataset = true

pub data ExecutionState : Type 0 where
  in_progress success failed : ExecutionState

pub data ArtifactStatus : Type 0 where
  pending stored failed : ArtifactStatus

abbrev pub is_stored : ArtifactStatus → Bool
is_stored ArtifactStatus.stored = true
is_stored ArtifactStatus.pending = false
is_stored ArtifactStatus.failed = false

abbrev pub is_success : ExecutionState → Bool
is_success ExecutionState.success = true
is_success ExecutionState.in_progress = false
is_success ExecutionState.failed = false

pub data ArtifactType : Type 0 where
  stdout stderr output_file : ArtifactType
  input_context input_prompt input_system input_messages input_args : ArtifactType

-- `artifact_type in INPUT_ARTIFACT_TYPES`
abbrev pub is_input : ArtifactType → Bool
is_input ArtifactType.stdout = false
is_input ArtifactType.stderr = false
is_input ArtifactType.output_file = false
is_input _ = true

pub data FailureReason : Type 0 where
  nonzero_exit client_error : FailureReason

-- An `int`: `negsuc n` is -(n + 1).
pub data ℤ : Type 0 where
  pos : ℕ → ℤ
  negsuc : ℕ → ℤ

-- str(n)
abbrev show_ℤ : ℤ → String
show_ℤ (pos n) = decimal n
show_ℤ (negsuc n) = "-" ⧺ decimal (n + 1)

pub record ExecutionFailure : Type 0 where
  pub reason : FailureReason
  pub message : String
  pub exit_code : Option ℤ

pub record TokenUsage : Type 0 where
  pub input_tokens : Option ℕ
  pub output_tokens : Option ℕ
  pub cache_read_tokens : Option ℕ
  pub cache_write_tokens : Option ℕ
  pub reasoning_tokens : Option ℕ

-- `encoding` is a function of the bytes that nothing modelled reads.
pub record Artifact : Type 0 where
  pub artifact_type : ArtifactType
  pub blob_key : String
  pub size_bytes : ℕ
  pub name : Option String
  pub content : Option Bytes
  pub status : ArtifactStatus
  pub persisted_at : Option Timestamp
  pub status_detail : Option String

pub record MlExecution : Type 0 where
  pub call_identity : CallIdentity
  pub execution_state : ExecutionState
  pub execution_kind : ExecutionKind
  pub output_persisted : Bool
  pub execution_id : String
  pub input_persisted : Bool
  pub artifacts : List Artifact
  pub token_usage : Option TokenUsage
  pub failure : Option ExecutionFailure
  pub superseded_at : Option Timestamp

abbrev is_failed : ArtifactStatus → Bool
is_failed ArtifactStatus.failed = true
is_failed _ = false

unfoldable pub has_failed_persistence : MlExecution → Bool
has_failed_persistence e = any (λ a. is_failed a.status) e.artifacts

pub record GeneratedFile : Type 0 where
  pub name : String
  pub content : Bytes

pub record ClientRunResult : Type 0 where
  pub exit_code : ℤ
  pub stdout : String
  pub stderr : String
  pub files : List GeneratedFile
  pub token_usage : Option TokenUsage

abbrev is_zero : ℤ → Bool
is_zero (pos zero) = true
is_zero (pos (suc n)) = false
is_zero (negsuc n) = false

unfoldable pub succeeded : ClientRunResult → Bool
succeeded r = is_zero r.exit_code

unfoldable pub outcome : ClientRunResult → ExecutionState
unfolding succeeded
outcome r = if succeeded r then ExecutionState.success else ExecutionState.failed

unfoldable pub failure_of : ClientRunResult → Option ExecutionFailure
unfolding succeeded
failure_of r =
    if succeeded r
    then none
    else some (record {
      reason = FailureReason.nonzero_exit;
      message = "client exited with status " ⧺ show_ℤ r.exit_code;
      exit_code = some r.exit_code;
    })
