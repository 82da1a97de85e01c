-- ===== src/Tests/Command.antt =====
-- A managed run whose files cannot be captured.
use generic_ml_cache.Prelude.{ℕ, ◌≡◌, refl, true, false, none, some, [], ◌∷◌, any}
use generic_ml_cache.Errors.{Result, ok, err, other_error}
use generic_ml_cache.Domain.{CacheMode, PersistenceDepth, pos}
use generic_ml_cache.Domain.Kind.{ExecutionKind}
use generic_ml_cache.Command.Managed.{
  RunMlExecutionCommand, Runner, Workspace, ManagedLocalRequest, ClientAnswer, Call, run_managed,
  managed_body, managed_request, concluded,
}
use generic_ml_cache.Command.Disposal.{is_dispose, run_managed-dispose}
use generic_ml_cache.Command.Tags.{normalize_tags}

abbrev command : RunMlExecutionCommand
command = record {
  execution_kind = ExecutionKind.local_managed;
  client = "claude";
  model = "m";
  effort = "";
  context = "";
  prompt = "p";
  user_system_prompt = none;
  input_file_paths = [];
  allow_paths = [];
  scan_trust = false;
  client_args = [];
  native_args = [];
  raw_body = [];
  forward_headers = [];
  grants = [];
  cache_mode = CacheMode.cache;
  persistence_depth = PersistenceDepth.cache;
  record_on_error = false;
  tags = [];
  session_id = none;
}

abbrev client : ManagedLocalRequest → ℕ → Result (Unit {0}) × Result ClientAnswer
client request n =
    (ok tt, ok (record { exit_code = pos 0; stdout = "o"; stderr = ""; token_usage = none }))

abbrev runner : Runner
runner = record {
  managed = some client;
  config = true;
  passthrough = none;
  api = none;
  api_passthrough = none;
}

abbrev full_disk : Workspace
full_disk = record {
  create = λ n. ok tt;
  write_config = λ n. ok tt;
  seed_credentials = λ n. ok tt;
  snapshot = λ n. ok tt;
  capture = λ n. err (other_error "No space left on device");
  dispose = λ n. ok tt;
}

run_managed-dispose_example :
    let (outcome, before) =
      managed_body full_disk 0 true (client (managed_request command) 0) (Call.create ∷ []) in
    (run_managed (some full_disk) command 0 runner []
      ≡ (concluded outcome (ok tt), Call.dispose ∷ before))
    × (any is_dispose before ≡ false)
run_managed-dispose_example = run_managed-dispose full_disk command 0 runner client refl refl

normalize_tags_sorted : normalize_tags (" b" ∷ "a\t" ∷ "" ∷ "b" ∷ []) ≡ "a" ∷ "b" ∷ []
unfolding normalize_tags
normalize_tags_sorted = refl
