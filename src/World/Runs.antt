-- ===== src/World/Runs.antt =====
-- Total correctness of a method call: it returns, and then `Q` holds of its value and of the state.
use generic_ml_cache.Prelude.{ℕ, suc, String, ◌≡◌, refl, ap, ◌∙◌, Option, none, ◌∷◌, arith}
use generic_ml_cache.Dict.{lookup, insert, erase}
use generic_ml_cache.Errors.{Error, Result, ok}
use generic_ml_cache.Domain.{Bytes, MlExecution}
use generic_ml_cache.Repository
use generic_ml_cache.Repository.{Repository}
use generic_ml_cache.World.{
  World, Environment, JournalEntry, Exec, pure, lift, gets, attempt, ◌>>=◌, ask, fail_on,
  update_repository, modify_repository, record_event, get_blob, put_blob, remove_blob, find_current,
}

pub record Runs {A : Type 0} (m : Exec A) (w : World) (Q : A → World → Type 0) : Type 0 where
  pub value : A
  pub after : World
  pub runs : m w ≡ (ok value, after)
  pub holds : Q value after

module _ {A : Type 0} {Q : A → World → Type 0} where
  pub Runs-pure : (a : A) (w : World) → Q a w → Runs (pure a) w Q
  unfolding pure
  Runs-pure a w q = record { value = a; after = w; runs = refl; holds = q }

  pub Runs-gets : (f : World → A) (w : World) → Q (f w) w → Runs (gets f) w Q
  unfolding gets
  Runs-gets f w q = record { value = f w; after = w; runs = refl; holds = q }

  pub Runs-ask :
      (f : ℕ → A) (w : World) → Q (f w.step) (record w { step = suc w.step }) → Runs (ask f) w Q
  unfolding ask
  Runs-ask f w q = record {
    value = f w.step;
    after = record w { step = suc w.step };
    runs = refl;
    holds = q;
  }

  pub Runs-lift : (a : A) (r : Result A) (w : World) → r ≡ ok a → Q a w → Runs (lift r) w Q
  unfolding lift
  Runs-lift a r w e q = record { value = a; after = w; runs = rw e; holds = q }

  pub Runs-weaken :
      {P : A → World → Type 0} (m : Exec A) (w : World)
      → ((a : A) (w' : World) → P a w' → Q a w')
      → Runs m w P
      → Runs m w Q
  Runs-weaken m w imp r = record {
    value = r.value;
    after = r.after;
    runs = r.runs;
    holds = imp r.value r.after r.holds;
  }

module _ {Q : Unit {0} → World → Type 0} where
  pub Runs-modify :
      (f : Repository → Repository) (w : World)
      → Q tt (record w { repository = f w.repository })
      → Runs (modify_repository f) w Q
  unfolding modify_repository
  Runs-modify f w q = record {
    value = tt;
    after = record w { repository = f w.repository };
    runs = refl;
    holds = q;
  }

  pub Runs-update :
      (f : Repository → Result Repository) (r : Repository) (w : World)
      → f w.repository ≡ ok r
      → Q tt (record w { repository = r })
      → Runs (update_repository f) w Q
  unfolding update_repository
  Runs-update f r w e q = record {
    value = tt;
    after = record w { repository = r };
    runs = ground arith;
    holds = q;
  }

  pub Runs-record_event :
      (entry : JournalEntry) (w : World)
      → Q tt (record w { journal = entry ∷ w.journal })
      → Runs (record_event entry) w Q
  unfolding record_event
  Runs-record_event entry w q = record {
    value = tt;
    after = record w { journal = entry ∷ w.journal };
    runs = refl;
    holds = q;
  }

pub Runs-no_fault :
    {Q : Unit {0} → World → Type 0} (f : Option Error) (w : World)
    → f ≡ none
    → Q tt w
    → Runs (fail_on f) w Q
unfolding fail_on pure
Runs-no_fault f w e q = record { value = tt; after = w; runs = rw e; holds = q }

module _ {A : Type 0} {Q : Result A → World → Type 0} where
  pub Runs-attempt :
      (m : Exec A) (w : World) → Runs m w (λ a w'. Q (ok a) w') → Runs (attempt m) w Q
  unfolding attempt
  Runs-attempt m w r = record {
    value = ok r.value;
    after = r.after;
    runs = ap (λ p. (ok p.0, p.1)) r.runs;
    holds = r.holds;
  }

module _ {A B : Type 0} where
  pub continue_at :
      (f : A → Exec B) (p : Result A × World) (a : A) (w : World)
      → p ≡ (ok a, w)
      → ((lift p.0 >>= f) p.1) ≡ f a w
  unfolding ◌>>=◌
  continue_at f p a w e = rw e

  pub Runs-bind :
      {R : B → World → Type 0} {P : A → World → Type 0} (m : Exec A) (f : A → Exec B) (w : World)
      → Runs m w P
      → ((a : A) (w' : World) → P a w' → Runs (f a) w' R)
      → Runs (m >>= f) w R
  unfolding ◌>>=◌
  Runs-bind m f w r k =
      let s = k r.value r.after r.holds in
      record {
        value = s.value;
        after = s.after;
        runs = continue_at f (m w) r.value r.after r.runs ∙ s.runs;
        holds = s.holds;
      }

-- The ports of an environment that answers without a fault.
module _ (env : Environment) (key : String) (w : World) where
  abbrev ticked : World
  ticked = record w { step = suc w.step }

  pub Runs-get_blob :
      {Q : Option Bytes → World → Type 0}
      → env.get_fault w.step key ≡ none
      → Q (lookup key w.blobs) ticked
      → Runs (get_blob env key) w Q
  unfolding get_blob
  Runs-get_blob quiet q = record {
    value = lookup key w.blobs;
    after = ticked;
    runs = rw quiet;
    holds = q;
  }

  pub Runs-put_blob :
      {Q : Unit {0} → World → Type 0} (output : Bytes)
      → env.put_fault w.step key ≡ none
      → Q tt (record ticked { blobs = insert key output w.blobs })
      → Runs (put_blob env key output) w Q
  unfolding put_blob
  Runs-put_blob output quiet q = record {
    value = tt;
    after = record ticked { blobs = insert key output w.blobs };
    runs = rw quiet;
    holds = q;
  }

  pub Runs-remove_blob :
      {Q : Unit {0} → World → Type 0}
      → env.remove_fault w.step key ≡ none
      → Q tt (record ticked { blobs = erase key w.blobs })
      → Runs (remove_blob env key) w Q
  unfolding remove_blob
  Runs-remove_blob quiet q = record {
    value = tt;
    after = record ticked { blobs = erase key w.blobs };
    runs = rw quiet;
    holds = q;
  }

  pub Runs-find_current :
      {Q : Option MlExecution → World → Type 0}
      → env.row_fault w.step key ≡ none
      → Q (Repository.find_current key w.repository) ticked
      → Runs (find_current env key) w Q
  unfolding find_current
  Runs-find_current quiet q = record {
    value = Repository.find_current key w.repository;
    after = ticked;
    runs = rw quiet;
    holds = q;
  }
