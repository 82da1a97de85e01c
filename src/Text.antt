-- ===== src/Text.antt =====
-- Text as the program's standard library handles it: `str.encode("utf-8")`, `str(n)` of a
-- natural number, `sep.join(texts)`, and `sorted` on texts, which compares code points.
pub mod Injectivity
pub mod Suffix
use Prim.Native.String.{◌++◌ as ◌⧺◌, compare}
use Prim.Native.Char.{code}
use generic_ml_cache.Prelude.{
  ℕ, zero, suc, ◌+◌, ◌/◌, ◌%◌, String, Bool, List, [], ◌∷◌, ◌++◌, ltb, if◌then◌else◌,
}
use text.Mathlib.Text.{is_le}

-- The UTF-8 bytes of one code point.
unfoldable pub encode_char : ℕ → List ℕ
encode_char c =
    if ltb c 128
    then c ∷ []
    else if ltb c 2048
    then (192 + c / 64) ∷ (128 + c % 64) ∷ []
    else if ltb c 65536
    then (224 + c / 4096) ∷ (128 + c / 64 % 64) ∷ (128 + c % 64) ∷ []
    else (240 + c / 262144) ∷ (128 + c / 4096 % 64) ∷ (128 + c / 64 % 64) ∷ (128 + c % 64) ∷ []

unfoldable pub utf8 : String → List ℕ
unfolding encode_char
utf8 String.[] = []
utf8 (String.◌∷◌ c s) = encode_char (code c) ++ utf8 s

abbrev digit : ℕ → String
digit zero = "0"
digit (suc zero) = "1"
digit (suc (suc zero)) = "2"
digit (suc (suc (suc zero))) = "3"
digit (suc (suc (suc (suc zero)))) = "4"
digit (suc (suc (suc (suc (suc zero))))) = "5"
digit (suc (suc (suc (suc (suc (suc zero)))))) = "6"
digit (suc (suc (suc (suc (suc (suc (suc zero))))))) = "7"
digit (suc (suc (suc (suc (suc (suc (suc (suc zero)))))))) = "8"
digit _ = "9"

-- The digits of `n`, on fuel: `n + 1` rounds are enough, since each divides by ten.
decimal_fuel : ℕ → ℕ → String
decimal_fuel zero n = ""
decimal_fuel (suc f) n =
    let rest = decimal_fuel f (n / 10) ⧺ digit (n % 10) in if ltb n 10 then digit n else rest

-- str(n)
unfoldable pub decimal : ℕ → String
unfolding decimal_fuel
decimal n = decimal_fuel (suc n) n

-- sep.join(texts)
unfoldable pub join : String → List String → String
join sep [] = ""
join sep (t ∷ []) = t
join sep (t ∷ u ∷ r) = t ⧺ sep ⧺ join sep (u ∷ r)

abbrev pub text_leb : String → String → Bool
text_leb s t = is_le (compare s t)

-- sorted(items, key=text)
module _ {ℓ} {A : Type ℓ} (key : A → String) where
  unfoldable pub insert_sorted : A → List A → List A
  insert_sorted a [] = a ∷ []
  insert_sorted a (b ∷ r) = if text_leb (key a) (key b) then a ∷ b ∷ r else b ∷ insert_sorted a r

  unfoldable pub sorted : List A → List A
  unfolding insert_sorted
  sorted [] = []
  sorted (a ∷ r) = insert_sorted a (sorted r)
