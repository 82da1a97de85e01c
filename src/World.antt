-- ===== src/World.antt =====
-- The ports that the use cases of packages/core call, and the state behind them: the execution
-- repository, the blob store (adapter/outbound/storage/filesystem_blob_store.py of
-- packages/adapters), the call journal, and what the outside world answers.
--
-- An `Environment` is what is not in the repository's source, as a function of the number of calls
-- made so far: the clock, fresh identifiers, faults of the disk and of the database.
pub mod Keeps
pub mod Frame
pub mod Runs
pub mod Raises
use generic_ml_cache.Prelude.{
  ℕ, suc, String, ◌≡◌, Bool, true, false, Option, none, some, List, [], ◌∷◌, ◌++◌,
}
use generic_ml_cache.Dict.{Dict, lookup, insert, erase}
use generic_ml_cache.Errors.{Error, Result, ok, err, store_unavailable}
use generic_ml_cache.Domain.{Bytes, Timestamp, MlExecution, Artifact}
use generic_ml_cache.Repository
use generic_ml_cache.Repository.{Repository}

pub data Event : Type 0 where
  hit record_ miss run would_hit would_miss : Event

pub record JournalEntry : Type 0 where
  pub event : Event
  pub execution_key : String
  pub client : String
  pub model : String
  pub effort : String
  pub session_id : Option String

pub record World : Type 0 where
  pub repository : Repository
  pub blobs : Dict Bytes
  -- the most recent entry first
  pub journal : List JournalEntry
  -- calls of the environment so far
  pub step : ℕ
  -- client runs so far
  pub runs : ℕ

pub record Environment : Type 0 where
  -- hashlib.sha256(…).hexdigest()
  pub sha256 : List ℕ → String
  -- uuid.uuid4()
  pub new_execution_id : ℕ → String
  -- clock.now()
  pub now : ℕ → Timestamp
  -- is_healthy(): the canary write
  pub healthy : ℕ → Bool
  -- ensure_available_for_content()
  pub content_gate : ℕ → Option Error
  -- an OSError on a blob, or a blob that cannot be decrypted
  pub get_fault : ℕ → String → Option Error
  pub put_fault : ℕ → String → Option Error
  pub remove_fault : ℕ → String → Option Error
  -- a row that cannot be read
  pub row_fault : ℕ → String → Option Error
  -- a database fault while a row is marked STORED
  pub mark_fault : ℕ → String → Option Error

-- A method call: what was written before a raise stays written.
abbrev pub Exec : Type 0 → Type 0
Exec A = World → Result A × World

module _ {A : Type 0} where
  unfoldable pub pure : A → Exec A
  pure a w = (ok a, w)

  unfoldable pub raise : Error → Exec A
  raise e w = (err e, w)

  unfoldable pub lift : Result A → Exec A
  lift r w = (r, w)

  unfoldable pub gets : (World → A) → Exec A
  gets f w = (ok (f w), w)

  -- `try: … except`: the outcome as a value
  unfoldable pub attempt : Exec A → Exec (Result A)
  attempt m w = let (r, w') = m w in (ok r, w')

module _ {A B : Type 0} where
  abbrev pub continue : Result A → (A → Exec B) → Exec B
  continue (ok a) f w = f a w
  continue (err e) f w = (err e, w)

  infixl 10 ◌>>=◌ ◌>>◌
  unfoldable pub ◌>>=◌ : Exec A → (A → Exec B) → Exec B
  unfolding pure raise lift gets attempt
  ◌>>=◌ m f w = let (r, w') = m w in continue r f w'

  abbrev pub ◌>>◌ : Exec A → Exec B → Exec B
  m >> n = m >>= λ _. n

-- One call of the environment: its answer, and the next step.
module _ {A : Type 0} where
  unfoldable pub ask : (ℕ → A) → Exec A
  ask f w = (ok (f w.step), record w { step = suc w.step })

unfoldable pub fail_on : Option Error → Exec (Unit {0})
unfolding pure raise
fail_on none = pure tt
fail_on (some e) = raise e

unfoldable pub set_repository : Repository → Exec (Unit {0})
set_repository r w = (ok tt, record w { repository = r })

-- A repository method that may raise.
unfoldable pub repository_result : Result Repository → Exec (Unit {0})
unfolding set_repository raise
repository_result (ok r) = set_repository r
repository_result (err e) = raise e

-- A change of the repository at the time that the clock shows.
unfoldable pub update_repository : (Repository → Result Repository) → Exec (Unit {0})
unfolding repository_result
update_repository f w = repository_result (f w.repository) w

unfoldable pub modify_repository : (Repository → Repository) → Exec (Unit {0})
modify_repository f w = (ok tt, record w { repository = f w.repository })

unfoldable pub record_event : JournalEntry → Exec (Unit {0})
record_event entry w = (ok tt, record w { journal = entry ∷ w.journal })

module _ (env : Environment) where
  -- FilesystemBlobStore.get
  unfoldable pub get_blob : String → Exec (Option Bytes)
  unfolding ask fail_on gets ◌>>=◌
  get_blob key = do
    fault ← ask (λ n. env.get_fault n key)
    fail_on fault
    gets (λ w. lookup key w.blobs)

  -- FilesystemBlobStore.put: a failed write leaves the store as it was.
  unfoldable pub put_blob : String → Bytes → Exec (Unit {0})
  unfolding ask fail_on ◌>>=◌
  put_blob key output = do
    fault ← ask (λ n. env.put_fault n key)
    fail_on fault
    λ w. (ok tt, record w { blobs = insert key output w.blobs })

  -- FilesystemBlobStore.remove
  unfoldable pub remove_blob : String → Exec (Unit {0})
  unfolding ask fail_on ◌>>=◌
  remove_blob key = do
    fault ← ask (λ n. env.remove_fault n key)
    fail_on fault
    λ w. (ok tt, record w { blobs = erase key w.blobs })

  unfoldable pub find_current : String → Exec (Option MlExecution)
  unfolding ask fail_on gets ◌>>=◌
  find_current key = do
    fault ← ask (λ n. env.row_fault n key)
    fail_on fault
    gets (λ w. Repository.find_current key w.repository)

  unfoldable pub mark_stored : String → String → Exec (Unit {0})
  unfolding ask fail_on update_repository ◌>>=◌
  mark_stored id blob_key = do
    fault ← ask (λ n. env.mark_fault n blob_key)
    fail_on fault
    now ← ask env.now
    update_repository (Repository.mark_artifacts_stored now id blob_key)
