-- ===== src/Command/Identity.antt =====
-- _build_identity of packages/core's application/usecase/run_ml_execution_service.py, and
-- call_identity_building.py.
use generic_ml_cache.Prelude.{String, List, [], ◌∷◌}
use generic_ml_cache.Dict.{Dict, insert}
use generic_ml_cache.Errors.{Result, ok, err}
use generic_ml_cache.Checksum.{text_checksum, file_content_fingerprint, fingerprint_arguments}
use generic_ml_cache.Domain.Kind.{ExecutionKind}
use generic_ml_cache.Domain.Identity.{
  CallIdentity, KeyedCallInputs, truthy, prompt_checksum, from_keyed_inputs,
}
use generic_ml_cache.Command.Managed.{RunMlExecutionCommand}
use generic_ml_cache.Prelude.{ℕ}

module _ (sha256 : List ℕ → String) (fingerprint : String → Result String) where
  abbrev pub with_fingerprint :
      String
      → Result String
      → (Dict String → Result (Dict String))
      → Dict String
      → Result (Dict String)
  with_fingerprint path (ok print) rest d = rest (insert path print d)
  with_fingerprint path (err e) rest d = err e

  -- {path: fingerprint(path) for path in paths}; the first file that cannot be read raises.
  unfoldable pub file_fingerprints : List String → Dict String → Result (Dict String)
  unfolding insert
  file_fingerprints [] d = ok d
  file_fingerprints (path ∷ paths) d =
      with_fingerprint path (fingerprint path) (file_fingerprints paths) d

  abbrev pub keyed_inputs : RunMlExecutionCommand → KeyedCallInputs
  keyed_inputs command = record {
    client = command.client;
    model = command.model;
    effort = command.effort;
    context = command.context;
    prompt = command.prompt;
    user_system_prompt = command.user_system_prompt;
    input_file_paths = command.input_file_paths;
    allow_paths = command.allow_paths;
    client_args = command.client_args;
    grants = command.grants;
  }

  abbrev pub managed_identity : RunMlExecutionCommand → Result (Dict String) → Result CallIdentity
  managed_identity command (err e) = err e
  managed_identity command (ok files) =
      ok (CallIdentity.managed (from_keyed_inputs sha256 (keyed_inputs command) files))

  unfoldable pub build_identity : RunMlExecutionCommand → Result CallIdentity
  unfolding file_fingerprints from_keyed_inputs prompt_checksum fingerprint_arguments text_checksum
      file_content_fingerprint
  build_identity command = elim command.execution_kind [
    | ExecutionKind.local_managed ↦
        managed_identity command (file_fingerprints command.input_file_paths [])
    | ExecutionKind.local_passthrough ↦ ok (
        CallIdentity.passthrough (record {
          client = command.client;
          native_args_fingerprint = fingerprint_arguments sha256 command.native_args;
        }))
    | ExecutionKind.api_passthrough ↦ ok (
        CallIdentity.api_passthrough (record {
          client = command.client;
          body_fingerprint = file_content_fingerprint sha256 command.raw_body;
        }))
    | ExecutionKind.api ↦ ok (
        CallIdentity.api (record {
          provider = command.client;
          model = command.model;
          context_fingerprint = text_checksum sha256 command.context;
          prompt_fingerprint = text_checksum sha256 command.prompt;
          system_fingerprint = prompt_checksum sha256 (truthy command.user_system_prompt);
          effort = command.effort;
        }))
  ]
