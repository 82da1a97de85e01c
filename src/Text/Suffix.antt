-- ===== src/Text/Suffix.antt =====
-- `text.endswith(suffix)`, as the file stores use it to tell scratch files from documents.
use Prim.Native.String.{◌++◌ as ◌⧺◌}
use Prim.Native.String.append
use generic_ml_cache.Prelude.{◌≡◌, refl, String, Bool, true, false, ◌||◌, arith, ◌==◌, eq_refl}

unfoldable pub ends_with : String → String → Bool
ends_with suffix String.[] = String.[] == suffix
ends_with suffix (String.◌∷◌ c s) = (String.◌∷◌ c s == suffix) || ends_with suffix s

ends_with_self : (s : String) → ends_with s s ≡ true
unfolding ends_with
ends_with_self String.[] = refl
ends_with_self (String.◌∷◌ c s) = ground (arith, eq_refl (String.◌∷◌ c s))

or_true : (a b : Bool) → b ≡ true → (a || b) ≡ true
or_true true b e = refl
or_true false b e = e

-- A text followed by a suffix ends with it.
pub ends_with-append : (suffix s : String) → ends_with suffix (s ⧺ suffix) ≡ true
unfolding ends_with
ends_with-append suffix String.[] = rw (append.nil suffix, ends_with_self suffix)
ends_with-append suffix (String.◌∷◌ c s) = rw (
  append.cons c s suffix,
  or_true (String.◌∷◌ c (s ⧺ suffix) == suffix) _ (ends_with-append suffix s),
)
