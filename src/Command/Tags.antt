-- ===== src/Command/Tags.antt =====
-- normalize_tags of packages/core's application/domain/model/execution/ml_execution.py, and str.strip.
use Prim.Native.Char.{code}
use generic_ml_cache.Prelude.{ℕ, String, Bool, ◌&&◌, ◌||◌, List, [], ◌∷◌, leb, ◌==◌, if◌then◌else◌}
use generic_ml_cache.Text.{sorted}
use generic_ml_cache.Domain.Identity.{frozenset}

abbrev between : ℕ → ℕ → ℕ → Bool
between low high c = leb low c && leb c high

-- str.isspace of one code point
unfoldable pub is_space : ℕ → Bool
is_space c =
    between 9 13 c
    || between 28 32 c
    || between 133 133 c
    || between 160 160 c
    || between 5760 5760 c
    || between 8192 8202 c
    || between 8232 8233 c
    || between 8239 8239 c
    || between 8287 8287 c
    || between 12288 12288 c

unfoldable pub lstrip : String → String
unfolding is_space
lstrip String.[] = String.[]
lstrip (String.◌∷◌ c s) = let rest = lstrip s in if is_space (code c) then rest else String.◌∷◌ c s

unfoldable pub rstrip : String → String
unfolding is_space
rstrip String.[] = String.[]
rstrip (String.◌∷◌ c s) =
    let rest = rstrip s in
    if (rest == "") && is_space (code c) then String.[] else String.◌∷◌ c rest

-- text.strip()
unfoldable pub strip : String → String
unfolding lstrip rstrip
strip text = rstrip (lstrip text)

unfoldable pub stripped : List String → List String
unfolding strip
stripped [] = []
stripped (t ∷ ts) = let rest = stripped ts in if strip t == "" then rest else strip t ∷ rest

unfoldable pub normalize_tags : List String → List String
unfolding stripped frozenset sorted
normalize_tags raw_tags = sorted (λ t. t) (frozenset (stripped raw_tags))
