-- ===== src/Command/Disposal.antt =====
-- The workspace of a managed run, in packages/core's application/usecase/run_ml_execution_service.py.
use generic_ml_cache.Prelude.{
  ℕ, ◌≡◌, refl, ◌∙◌, Bool, true, false, some, List, [], ◌∷◌, any, ◌⊎◌, inl, inr,
}
use generic_ml_cache.Errors.{Error, Result, ok, err}
use generic_ml_cache.Command.Managed.{
  RunMlExecutionCommand, Runner, Workspace, ManagedLocalRequest, ClientAnswer, Call, Traced, invoke,
  managed_body, managed_request, pure, packaged, concluded, run_managed, ◌>>=◌,
}

abbrev pub is_dispose : Call → Bool
is_dispose Call.dispose = true
is_dispose _ = false

-- A call that another call follows only where it returned.
invoke-undisposed :
    {A B : Type 0} (call : Call) (answer : Result A) (f : A → Traced B) (calls : List Call)
    → is_dispose call ≡ false
    → ((a : A) (c : List Call) → any is_dispose (f a c).1 ≡ any is_dispose c)
    → any is_dispose ((invoke call answer >>= f) calls).1 ≡ any is_dispose calls
unfolding invoke ◌>>=◌
invoke-undisposed call (ok a) f calls e k = k a (call ∷ calls) ∙ rw e refl
invoke-undisposed call (err x) f calls e k = rw e refl

Result-cases : {A : Type 0} (r : Result A) → ((a : A) × (r ≡ ok a)) ⊎ ((e : Error) × (r ≡ err e))
Result-cases (ok a) = inl (a, refl)
Result-cases (err e) = inr (e, refl)

from_staging :
    (workspace : Workspace) (n : ℕ) (answers : Result (Unit {0}) × Result ClientAnswer)
    (calls : List Call)
    → any is_dispose (managed_body workspace n false answers calls).1 ≡ any is_dispose calls
unfolding managed_body
from_staging workspace n answers calls =
    invoke-undisposed Call.stage_inputs answers.0 _ calls refl (λ _ c.
      invoke-undisposed Call.snapshot (workspace.snapshot n) _ c refl (λ _ c.
        invoke-undisposed Call.execute_managed answers.1 _ c refl (λ answer c.
          invoke-undisposed Call.capture (workspace.capture n)
            (λ files. pure (packaged answer files)) c refl (λ files c. refl))))

body-undisposed :
    (workspace : Workspace) (n : ℕ) (config : Bool)
    (answers : Result (Unit {0}) × Result ClientAnswer) (calls : List Call)
    → any is_dispose (managed_body workspace n config answers calls).1 ≡ any is_dispose calls
unfolding managed_body
body-undisposed workspace n false answers calls = from_staging workspace n answers calls
body-undisposed workspace n true answers calls = elim (Result-cases (workspace.write_config n)) [
  | inl w ↦ elim (Result-cases (workspace.seed_credentials n)) [
    | inl s ↦
        rw (w.1, s.1)
          (from_staging workspace n answers (Call.seed_credentials ∷ Call.write_config ∷ calls))
    | inr s ↦ rw (w.1, s.1) refl
  ]
  | inr w ↦ rw w.1 refl
]

-- A workspace that a managed run has created is disposed of exactly once, as the last call, whether
-- a stage of the run raises or not; and what the run returns or raises is kept, where the disposal
-- does not raise itself.
pub run_managed-dispose :
    (workspace : Workspace) (command : RunMlExecutionCommand) (n : ℕ) (runner : Runner)
    (client : ManagedLocalRequest → ℕ → Result (Unit {0}) × Result ClientAnswer)
    → runner.managed ≡ some client
    → workspace.create n ≡ ok tt
    → let (outcome, before) =
        managed_body workspace n runner.config
          (client (managed_request command) n)
          (Call.create ∷ []) in
      (run_managed (some workspace) command n runner []
        ≡ (concluded outcome (workspace.dispose n), Call.dispose ∷ before))
      × (any is_dispose before ≡ false)
unfolding run_managed
run_managed-dispose workspace command n runner client m c =
    (rw (m, c) refl, body-undisposed workspace n runner.config _ (Call.create ∷ []))
