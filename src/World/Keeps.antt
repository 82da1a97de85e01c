-- ===== src/World/Keeps.antt =====
-- Invariants of method calls, one rule for each way to build a call.
use generic_ml_cache.Prelude.{Bool, true, false, Option, none, some, if◌then◌else◌}
use generic_ml_cache.Errors.{Error, Result, ok, err}
use generic_ml_cache.World.{World, Exec, pure, raise, lift, gets, attempt, ◌>>=◌, fail_on}

-- The call keeps `P`, whether it returns or raises.
pub record Keeps {A : Type 0} (P : World → Type 0) (m : Exec A) : Type 0 where
  pub at : (w : World) → P w → P (m w).1

module _ {A : Type 0} {P : World → Type 0} where
  pub Keeps-pure : (a : A) → Keeps P (pure a)
  unfolding pure
  Keeps-pure a = record { at = λ w h. h }

  pub Keeps-raise : (e : Error) → Keeps P (raise {A = A} e)
  unfolding raise
  Keeps-raise e = record { at = λ w h. h }

  pub Keeps-lift : (r : Result A) → Keeps P (lift r)
  unfolding lift
  Keeps-lift r = record { at = λ w h. h }

  pub Keeps-gets : (f : World → A) → Keeps P (gets f)
  unfolding gets
  Keeps-gets f = record { at = λ w h. h }

  pub Keeps-attempt : (m : Exec A) → Keeps P m → Keeps P (attempt m)
  unfolding attempt
  Keeps-attempt m k = record { at = λ w h. k.at w h }

  pub Keeps-if : (b : Bool) (m n : Exec A) → Keeps P m → Keeps P n → Keeps P (if b then m else n)
  Keeps-if true m n km kn = km
  Keeps-if false m n km kn = kn

module _ {P : World → Type 0} where
  pub Keeps-fail_on : (o : Option Error) → Keeps P (fail_on o)
  unfolding fail_on
  Keeps-fail_on none = Keeps-pure tt
  Keeps-fail_on (some e) = Keeps-raise e

module _ {A B : Type 0} {P : World → Type 0} where
  Keeps-continue :
      (r : Result A) (f : A → Exec B)
      → ((a : A) → Keeps P (f a))
      → (w : World) → P w
      → P ((lift r >>= f) w).1
  unfolding ◌>>=◌
  Keeps-continue (ok a) f kf w h = (kf a).at w h
  Keeps-continue (err e) f kf w h = h

  pub Keeps-bind :
      (m : Exec A) (f : A → Exec B) → Keeps P m → ((a : A) → Keeps P (f a)) → Keeps P (m >>= f)
  unfolding ◌>>=◌
  Keeps-bind m f km kf = record {
    at = λ w h. let (r, w') = m w in Keeps-continue r f kf w' (km.at w h);
  }

pub ruleset keeps_rules = (
  Keeps-pure, Keeps-raise, Keeps-lift, Keeps-gets, Keeps-attempt, Keeps-if, Keeps-fail_on,
  Keeps-bind,
)
