-- ===== src/Command.antt =====
-- The command of a run and the hooks of its service: packages/core's
-- application/port/inbound/run_ml_execution/run_ml_execution_command.py and
-- application/usecase/run_ml_execution_service.py, with call_identity_building.py.
--
-- The runners of the clients, the workspace and json.dumps are outside this model and come as
-- `Ports`; a call of the workspace or of a runner may raise, and which calls were made is kept.
pub mod Tags
pub mod Managed
pub mod Identity
pub mod Disposal
use generic_ml_cache.Prelude.{
  ℕ, String, Bool, true, false, ◌&&◌, ◌||◌, not, Option, none, some, List, [], ◌∷◌, ◌++◌, ◌==◌,
  if◌then◌else◌, map,
}
use generic_ml_cache.Dict.{Dict}
use generic_ml_cache.Text.{utf8}
use generic_ml_cache.Errors.{Error, Result, ok, err, unknown_client, unsupported_execution_mode}
use generic_ml_cache.Domain.{
  Bytes, CacheMode, PersistenceDepth, ArtifactType, ClientRunResult, stores_output,
}
use generic_ml_cache.Domain.Kind.{ExecutionKind}
use generic_ml_cache.Domain.Identity.{CallIdentity, KeyedCallInputs, is_empty, truthy}
use generic_ml_cache.Purge.{JournalPorts, evict_to_quota}
use generic_ml_cache.Service.Extension.{Hooks}
use generic_ml_cache.World
use generic_ml_cache.World.{Environment, Exec}
use Tags.{normalize_tags}
use Managed.{
  Runner, Workspace, RunMlExecutionCommand, run_managed, run_passthrough, run_api,
  run_api_passthrough,
}
use Identity.{build_identity}

-- cacheability.py
unfoldable pub is_call_uncacheable : List String → Bool → Bool
is_call_uncacheable allow_paths scan_trust = not (is_empty allow_paths) && not scan_trust

unfoldable pub is_uncacheable : RunMlExecutionCommand → Bool
unfolding is_call_uncacheable
is_uncacheable command = elim command.execution_kind [
  | ExecutionKind.local_managed ↦ is_call_uncacheable command.allow_paths command.scan_trust
  | ExecutionKind.local_passthrough ↦ false
  | ExecutionKind.api ↦ false
  | ExecutionKind.api_passthrough ↦ false
]

unfoldable pub should_persist : RunMlExecutionCommand → Bool → Bool
unfolding stores_output
should_persist command succeeded =
    if not (stores_output command.persistence_depth)
    then false
    else succeeded || command.record_on_error

unfoldable pub journal_fields : RunMlExecutionCommand → String × String × String
journal_fields command = elim command.execution_kind [
  | ExecutionKind.local_passthrough ↦ (command.client, "", "")
  | ExecutionKind.api_passthrough ↦ (command.client, "", "")
  | ExecutionKind.local_managed ↦ (command.client, command.model, command.effort)
  | ExecutionKind.api ↦ (command.client, command.model, command.effort)
]

abbrev pub Part : Type 0
Part = ArtifactType × Option String × Bytes

abbrev pub text_part : ArtifactType → Option String → List Part
text_part kind none = []
text_part kind (some text) = (kind, none, utf8 text) ∷ []

-- `dumps` stands for json.dumps of a list of texts.
unfoldable pub input_parts : (List String → String) → RunMlExecutionCommand → List Part
unfolding utf8
input_parts dumps command =
    let structured =
      text_part ArtifactType.input_context (truthy (some command.context))
      ++ (ArtifactType.input_prompt, none, utf8 command.prompt)
        ∷ text_part ArtifactType.input_system (truthy command.user_system_prompt) in
    elim command.execution_kind [
      | ExecutionKind.local_passthrough ↦
          (ArtifactType.input_args, none, utf8 (dumps command.native_args)) ∷ []
      | ExecutionKind.api_passthrough ↦ (ArtifactType.input_messages, none, command.raw_body) ∷ []
      | ExecutionKind.local_managed ↦ structured
      | ExecutionKind.api ↦ structured
    ]

pub record Ports : Type 0 where
  -- runners.get(client)
  pub runners : String → Option Runner
  pub workspace : Option Workspace
  -- FileFingerprintPort.fingerprint, at the time of the call
  pub fingerprint : ℕ → String → Result String
  pub dumps : List String → String
  -- the purge service, and the maximal size
  pub purge : Option JournalPorts
  pub max_size : Option ℕ

abbrev pub dispatch :
    Option Workspace → RunMlExecutionCommand → ℕ → Runner → ExecutionKind → Result ClientRunResult
dispatch workspace command n runner ExecutionKind.local_managed =
    (run_managed workspace command n runner []).0
dispatch workspace command n runner ExecutionKind.local_passthrough =
    run_passthrough command n runner
dispatch workspace command n runner ExecutionKind.api_passthrough =
    run_api_passthrough command n runner
dispatch workspace command n runner ExecutionKind.api = run_api command n runner

abbrev pub run_with :
    Option Workspace → RunMlExecutionCommand → ℕ → Option Runner → Result ClientRunResult
run_with workspace command n none = err (unknown_client "No runner registered for client")
run_with workspace command n (some runner) =
    dispatch workspace command n runner command.execution_kind

-- _run_client
unfoldable pub run_client : Ports → RunMlExecutionCommand → ℕ → Result ClientRunResult
unfolding run_managed run_passthrough run_api run_api_passthrough
run_client ports command n = run_with ports.workspace command n (ports.runners command.client)

module _ (env : Environment) where
  abbrev pub evict : Option JournalPorts → Option ℕ → Exec (Unit {0})
  evict (some journal) (some max_size) =
      World.◌>>=◌ (evict_to_quota env journal max_size) (λ report. World.pure tt)
  evict none max_size = World.pure tt
  evict (some journal) none = World.pure tt

  -- _after_record
  unfoldable pub after_record : Ports → String → Exec (Unit {0})
  unfolding evict_to_quota World.◌>>=◌ World.pure
  after_record ports key = evict ports.purge ports.max_size

  -- The hooks that RunMlExecutionService gives to the cached service.
  unfoldable pub hooks : Ports → Hooks RunMlExecutionCommand
  unfolding build_identity run_client is_uncacheable should_persist journal_fields input_parts
      normalize_tags after_record
  hooks ports = record {
    cache_mode = λ command. command.cache_mode;
    persistence_depth = λ command. command.persistence_depth;
    session_id = λ command. command.session_id;
    should_persist = should_persist;
    build_identity = λ command n. build_identity env.sha256 (ports.fingerprint n) command;
    run_client = run_client ports;
    execution_kind = λ command. command.execution_kind;
    journal_fields = journal_fields;
    is_uncacheable = is_uncacheable;
    after_record = after_record ports;
    execution_tags = λ command. normalize_tags command.tags;
    input_parts = input_parts ports.dumps;
  }
