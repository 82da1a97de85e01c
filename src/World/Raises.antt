-- ===== src/World/Raises.antt =====
-- Calls that raise: the error, and what then holds of the state.
use generic_ml_cache.Prelude.{◌≡◌, refl, ◌∙◌}
use generic_ml_cache.Errors.{Error, err}
use generic_ml_cache.World.{World, Exec, raise, ◌>>=◌}
use generic_ml_cache.World.Runs.{Runs, continue_at}

pub record Raises {A : Type 0} (error : Error) (m : Exec A) (w : World) (Q : World → Type 0)
    : Type 0 where
  pub after : World
  pub raises : m w ≡ (err error, after)
  pub holds : Q after

module _ {A : Type 0} (error : Error) {Q : World → Type 0} where
  pub Raises-raise : (w : World) → Q w → Raises {A = A} error (raise error) w Q
  unfolding raise
  Raises-raise w q = record { after = w; raises = refl; holds = q }

module _ {A B : Type 0} (error : Error) {Q : World → Type 0} {P : A → World → Type 0} where
  pub Raises-bind :
      (m : Exec A) (f : A → Exec B) (w : World)
      → Runs m w P
      → ((a : A) (w' : World) → P a w' → Raises error (f a) w' Q)
      → Raises error (m >>= f) w Q
  unfolding ◌>>=◌
  Raises-bind m f w r k =
      let s = k r.value r.after r.holds in
      record {
        after = s.after;
        raises = continue_at f (m w) r.value r.after r.runs ∙ s.raises;
        holds = s.holds;
      }
