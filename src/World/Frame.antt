-- ===== src/World/Frame.antt =====
-- What each port call leaves alone.
use generic_ml_cache.Prelude.{ℕ, String, ◌≡◌, arith}
use generic_ml_cache.Dict.{Dict}
use generic_ml_cache.Errors.{Result}
use generic_ml_cache.Domain.{Bytes}
use generic_ml_cache.Repository.{Repository}
use generic_ml_cache.World.{
  World, Environment, JournalEntry, ask, update_repository, modify_repository, record_event,
  get_blob, put_blob, remove_blob, find_current, mark_stored,
}
use generic_ml_cache.World.Keeps.{Keeps, keeps_rules, Keeps-bind}

-- The number of client runs.
abbrev pub Ran : ℕ → World → Type 0
Ran n w = w.runs ≡ n

-- The stored executions and the stored bytes.
abbrev pub Holds : Repository → Dict Bytes → World → Type 0
Holds r b w = (w.repository ≡ r) × (w.blobs ≡ b)

pub ask-Ran : {A : Type 0} (f : ℕ → A) {n : ℕ} → Keeps (Ran n) (ask f)
unfolding ask
ask-Ran f = record { at = λ w h. h }

pub ask-Holds :
    {A : Type 0} (f : ℕ → A) {r : Repository} {b : Dict Bytes} → Keeps (Holds r b) (ask f)
unfolding ask
ask-Holds f = record { at = λ w h. h }

pub record_event-Ran : (e : JournalEntry) {n : ℕ} → Keeps (Ran n) (record_event e)
unfolding record_event
record_event-Ran e = record { at = λ w h. h }

pub record_event-Holds :
    (e : JournalEntry) {r : Repository} {b : Dict Bytes} → Keeps (Holds r b) (record_event e)
unfolding record_event
record_event-Holds e = record { at = λ w h. h }

pub modify_repository-Ran :
    (f : Repository → Repository) {n : ℕ} → Keeps (Ran n) (modify_repository f)
unfolding modify_repository
modify_repository-Ran f = record { at = λ w h. h }

pub update_repository-Ran :
    (f : Repository → Result Repository) {n : ℕ} → Keeps (Ran n) (update_repository f)
unfolding update_repository
update_repository-Ran f = record { at = λ w h. ground arith }

ruleset ran = (keeps_rules, ask-Ran, update_repository-Ran)

module _ (env : Environment) (key : String) {n : ℕ} where
  pub get_blob-Ran : Keeps (Ran n) (get_blob env key)
  unfolding get_blob
  get_blob-Ran = search ran

  pub put_blob-Ran : (output : Bytes) → Keeps (Ran n) (put_blob env key output)
  unfolding put_blob
  put_blob-Ran output = record { at = λ w h. ground arith }

  pub remove_blob-Ran : Keeps (Ran n) (remove_blob env key)
  unfolding remove_blob
  remove_blob-Ran = record { at = λ w h. ground arith }

  pub find_current-Ran : Keeps (Ran n) (find_current env key)
  unfolding find_current
  find_current-Ran = search ran

  pub mark_stored-Ran : (id : String) → Keeps (Ran n) (mark_stored env id key)
  unfolding mark_stored
  mark_stored-Ran id = search ran

pub find_current-Holds :
    (env : Environment) (key : String) {r : Repository} {b : Dict Bytes}
    → Keeps (Holds r b) (find_current env key)
unfolding find_current
find_current-Holds env key = search (keeps_rules, ask-Holds)

pub ruleset ran_rules = (
  keeps_rules, ask-Ran, record_event-Ran, modify_repository-Ran, update_repository-Ran,
  get_blob-Ran, put_blob-Ran, remove_blob-Ran, find_current-Ran, mark_stored-Ran,
)

pub ruleset holds_rules = (keeps_rules, ask-Holds, record_event-Holds, find_current-Holds)
