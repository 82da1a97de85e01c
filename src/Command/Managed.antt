-- ===== src/Command/Managed.antt =====
-- The four ways to run a client, in packages/core's application/usecase/run_ml_execution_service.py.
use generic_ml_cache.Prelude.{ℕ, String, Bool, true, false, Option, none, some, List, [], ◌∷◌, ◌++◌}
use generic_ml_cache.Text.{sorted}
use generic_ml_cache.Errors.{Error, Result, ok, err, unsupported_execution_mode, other_error}
use generic_ml_cache.Domain.{
  Bytes, CacheMode, PersistenceDepth, ClientRunResult, GeneratedFile, TokenUsage, ℤ,
}
use generic_ml_cache.Domain.Kind.{ExecutionKind}
use generic_ml_cache.Domain.Identity.{frozenset}

pub record RunMlExecutionCommand : Type 0 where
  pub execution_kind : ExecutionKind
  pub client : String
  pub model : String
  pub effort : String
  pub context : String
  pub prompt : String
  pub user_system_prompt : Option String
  pub input_file_paths : List String
  pub allow_paths : List String
  pub scan_trust : Bool
  pub client_args : List String
  pub native_args : List String
  pub raw_body : Bytes
  pub forward_headers : List (String × String)
  pub grants : List String
  pub cache_mode : CacheMode
  pub persistence_depth : PersistenceDepth
  pub record_on_error : Bool
  pub tags : List String
  pub session_id : Option String

-- What a client answers.
pub record ClientAnswer : Type 0 where
  pub exit_code : ℤ
  pub stdout : String
  pub stderr : String
  pub token_usage : Option TokenUsage

pub record ManagedLocalRequest : Type 0 where
  pub model : String
  pub effort : String
  pub context : String
  pub prompt : String
  pub user_system_prompt : Option String
  pub allowed_read_paths : List String
  pub add_dir_paths : List String
  pub client_args : List String
  pub grants : List String

pub record MlRequest : Type 0 where
  pub model : String
  pub effort : String
  pub context : String
  pub prompt : String
  pub user_system_prompt : Option String
  pub input_file_paths : List String
  pub allow_paths : List String
  pub client_args : List String
  pub grants : List String

-- The capabilities that the service tests with isinstance; an answer is by the number of the run.
pub record Runner : Type 0 where
  pub managed : Option (ManagedLocalRequest → ℕ → Result (Unit {0}) × Result ClientAnswer)
  -- the grants file and the token files of a client that carries configuration
  pub config : Bool
  pub passthrough : Option (List String → ℕ → Result ClientAnswer)
  pub api : Option (MlRequest → ℕ → Result ClientRunResult)
  pub api_passthrough : Option (Bytes → List (String × String) → ℕ → Result ClientAnswer)

-- WorkspacePort: what may be raised, and the files that a run leaves.
pub record Workspace : Type 0 where
  pub create : ℕ → Result (Unit {0})
  pub write_config : ℕ → Result (Unit {0})
  pub seed_credentials : ℕ → Result (Unit {0})
  pub snapshot : ℕ → Result (Unit {0})
  pub capture : ℕ → Result (List GeneratedFile)
  pub dispose : ℕ → Result (Unit {0})

pub data Call : Type 0 where
  create write_config seed_credentials stage_inputs snapshot execute_managed capture dispose : Call

-- Calls so far, the last one first.
abbrev pub Traced : Type 0 → Type 0
Traced A = List Call → Result A × List Call

module _ {A : Type 0} where
  unfoldable pub pure : A → Traced A
  pure a calls = (ok a, calls)

  unfoldable pub raise : Error → Traced A
  raise e calls = (err e, calls)

  unfoldable pub invoke : Call → Result A → Traced A
  invoke call answer calls = (answer, call ∷ calls)

module _ {A B : Type 0} where
  abbrev pub continue : Result A → (A → Traced B) → Traced B
  continue (ok a) f calls = f a calls
  continue (err e) f calls = (err e, calls)

  infixl 10 ◌>>=◌
  unfoldable pub ◌>>=◌ : Traced A → (A → Traced B) → Traced B
  ◌>>=◌ m f calls = let (r, after) = m calls in continue r f after

  -- try: m finally: f; an error of `f` replaces that of `m`.
  abbrev pub concluded : Result A → Result B → Result A
  concluded r (ok b) = r
  concluded r (err e) = err e

  unfoldable pub ensure : Traced B → Traced A → Traced A
  ensure f m calls =
      let (r, between) = m calls in let (s, after) = f between in (concluded r s, after)

unfoldable pub managed_request : RunMlExecutionCommand → ManagedLocalRequest
unfolding sorted frozenset
managed_request command = record {
  model = command.model;
  effort = command.effort;
  context = command.context;
  prompt = command.prompt;
  user_system_prompt = command.user_system_prompt;
  allowed_read_paths = sorted (λ p. p) (command.input_file_paths ++ command.allow_paths);
  add_dir_paths = sorted (λ p. p) command.allow_paths;
  client_args = command.client_args;
  grants = frozenset command.grants;
}

unfoldable pub packaged : ClientAnswer → List GeneratedFile → ClientRunResult
packaged answer files = record {
  exit_code = answer.exit_code;
  stdout = answer.stdout;
  stderr = answer.stderr;
  files = files;
  token_usage = answer.token_usage;
}

abbrev pub configured : Workspace → ℕ → Bool → Traced (Unit {0})
configured workspace n false = pure tt
configured workspace n true = invoke Call.write_config (workspace.write_config n) >>= λ _.
    invoke Call.seed_credentials (workspace.seed_credentials n)

-- The body of the `try`, for the answers of the client to staging and execution.
unfoldable pub managed_body :
    Workspace → ℕ → Bool → Result (Unit {0}) × Result ClientAnswer → Traced ClientRunResult
unfolding pure invoke packaged ◌>>=◌
managed_body workspace n config (staged, answered) = configured workspace n config >>= λ _.
    invoke Call.stage_inputs staged >>= λ _. invoke Call.snapshot (workspace.snapshot n) >>= λ _.
    invoke Call.execute_managed answered >>= λ answer.
    invoke Call.capture (workspace.capture n) >>= λ files. pure (packaged answer files)

abbrev pub in_workspace :
    Workspace
    → RunMlExecutionCommand
    → ℕ
    → Runner
    → Option (ManagedLocalRequest → ℕ → Result (Unit {0}) × Result ClientAnswer)
    → Traced ClientRunResult
in_workspace workspace command n runner none =
    raise (unsupported_execution_mode "client does not support managed local execution")
in_workspace workspace command n runner (some client) =
    invoke Call.create (workspace.create n) >>= λ _.
    ensure (invoke Call.dispose (workspace.dispose n))
      (managed_body workspace n runner.config (client (managed_request command) n))

unfoldable pub run_managed :
    Option Workspace → RunMlExecutionCommand → ℕ → Runner → Traced ClientRunResult
unfolding raise invoke ensure managed_body managed_request ◌>>=◌
run_managed none command n runner =
    raise (other_error "managed execution requires a WorkspacePort; none was injected")
run_managed (some workspace) command n runner =
    in_workspace workspace command n runner runner.managed

abbrev pub packaged_answer : Result ClientAnswer → Result ClientRunResult
packaged_answer (ok answer) = ok (packaged answer [])
packaged_answer (err e) = err e

unfoldable pub run_passthrough : RunMlExecutionCommand → ℕ → Runner → Result ClientRunResult
unfolding packaged
run_passthrough command n runner = elim runner.passthrough [
  | none ↦ err (unsupported_execution_mode "client does not support passthrough local execution")
  | some execute ↦ packaged_answer (execute command.native_args n)
]

unfoldable pub api_request : RunMlExecutionCommand → MlRequest
unfolding frozenset
api_request command = record {
  model = command.model;
  effort = command.effort;
  context = command.context;
  prompt = command.prompt;
  user_system_prompt = command.user_system_prompt;
  input_file_paths = command.input_file_paths;
  allow_paths = command.allow_paths;
  client_args = command.client_args;
  grants = frozenset command.grants;
}

unfoldable pub run_api : RunMlExecutionCommand → ℕ → Runner → Result ClientRunResult
unfolding api_request
run_api command n runner = elim runner.api [
  | none ↦ err (unsupported_execution_mode "client does not support api execution")
  | some execute ↦ execute (api_request command) n
]

unfoldable pub run_api_passthrough : RunMlExecutionCommand → ℕ → Runner → Result ClientRunResult
unfolding packaged
run_api_passthrough command n runner = elim runner.api_passthrough [
  | none ↦ err (unsupported_execution_mode "client does not support API-passthrough execution")
  | some execute ↦ packaged_answer (execute command.raw_body command.forward_headers n)
]
