-- ===== src/Checksum/Injectivity.antt =====
-- common/checksum.py: the length-prefixed form, and what can be read back from it.
use mathlib.Core.List.{append_assoc}
use generic_ml_cache.Prelude.{
  ℕ, ◌≤◌, String, ◌≡◌, refl, sym, ◌∙◌, ◌≢◌, List, [], ◌∷◌, ◌++◌, length, arith, All,
}
use generic_ml_cache.Dict.{Dict}
use generic_ml_cache.Text.{utf8, decimal}
use generic_ml_cache.Text.Injectivity.{utf8-injective, decimal-injective, decimal-digits}
use generic_ml_cache.Checksum.{field_sep, record_sep, field_bytes, serialize}

abbrev Lacks : ℕ → List ℕ → Type 0
Lacks b = All (λ c. c ≢ b)

-- Two lists cut at the first separator.
cut-injective :
    (b : ℕ) (xs ys r s : List ℕ)
    → Lacks b xs
    → Lacks b ys
    → xs ++ b ∷ r ≡ ys ++ b ∷ s
    → (xs ≡ ys) × (r ≡ s)
cut-injective b [] [] r s hx hy e = ground arith
cut-injective b [] (y ∷ ys) r s hx hy e = ground arith
cut-injective b (x ∷ xs) [] r s hx hy e = ground arith
cut-injective b (x ∷ xs) (y ∷ ys) r s hx hy e = ground (arith, cut-injective b xs ys r s hx.1 hy.1)

append-injective :
    (xs ys r s : List ℕ) → length xs ≡ length ys → xs ++ r ≡ ys ++ s → (xs ≡ ys) × (r ≡ s)
append-injective [] [] r s l e = (refl, e)
append-injective [] (y ∷ ys) r s l e = ground arith
append-injective (x ∷ xs) [] r s l e = ground arith
append-injective (x ∷ xs) (y ∷ ys) r s l e = ground (arith, append-injective xs ys r s)

Lacks-digits : (xs : List ℕ) → All (λ b. 48 ≤ b) xs → Lacks field_sep xs
Lacks-digits [] h = tt
Lacks-digits (x ∷ xs) h = (omega arith, Lacks-digits xs h.1)

-- A key that holds no unit separator.
abbrev pub IsPlain : String → Type 0
IsPlain key = Lacks field_sep (utf8 key)

field_bytes-append :
    (k v : String) (r : List ℕ)
    → field_bytes k v ++ r
      ≡ utf8 k
        ++ (field_sep
            ∷ (utf8 (decimal (length (utf8 v))) ++ (field_sep ∷ (utf8 v ++ (record_sep ∷ r)))))
unfolding field_bytes
field_bytes-append k v r = simp append_assoc

field_bytes-injective :
    (k l v w : String) (r s : List ℕ)
    → IsPlain k
    → IsPlain l
    → field_bytes k v ++ r ≡ field_bytes l w ++ s
    → (k ≡ l) × (v ≡ w) × (r ≡ s)
field_bytes-injective k l v w r s hk hl e =
    let e' = sym (field_bytes-append k v r) ∙ e ∙ field_bytes-append l w s in
    let (key, tail) = cut-injective field_sep (utf8 k) (utf8 l) _ _ hk hl e' in
    let (len, body) =
      cut-injective field_sep (utf8 (decimal (length (utf8 v)))) (utf8 (decimal (length (utf8 w))))
        _ _ (Lacks-digits _ (decimal-digits (length (utf8 v))))
        (Lacks-digits _ (decimal-digits (length (utf8 w)))) tail in
    let (val, rest) =
      append-injective (utf8 v) (utf8 w) (record_sep ∷ r) (record_sep ∷ s)
        (decimal-injective (length (utf8 v)) (length (utf8 w)) len) body in
    (utf8-injective k l key, utf8-injective v w val, ground arith)

append-cons-ne-nil : (xs : List ℕ) (b : ℕ) (r : List ℕ) → xs ++ b ∷ r ≢ []
append-cons-ne-nil [] b r e = ground arith
append-cons-ne-nil (x ∷ xs) b r e = ground arith

field_bytes-ne-nil : (k v : String) (r : List ℕ) → field_bytes k v ++ r ≢ []
field_bytes-ne-nil k v r e = append-cons-ne-nil (utf8 k) _ _ (sym (field_bytes-append k v r) ∙ e)

abbrev pub HasPlainKeys : Dict String → Type 0
HasPlainKeys = All (λ item. IsPlain item.0)

-- Two field lists whose keys hold no unit separator (0x1f) and that are fed to the digest as the
-- same bytes are the same fields: no text can move from one value, or one key, into the next.
pub serialize-injective :
    (xs ys : Dict String)
    → HasPlainKeys xs
    → HasPlainKeys ys
    → serialize xs ≡ serialize ys
    → xs ≡ ys
unfolding serialize
serialize-injective [] [] hx hy e = refl
serialize-injective [] ((l, w) ∷ ys) hx hy e =
    absurd (field_bytes-ne-nil l w (serialize ys) (sym e))
serialize-injective ((k, v) ∷ xs) [] hx hy e = absurd (field_bytes-ne-nil k v (serialize xs) e)
serialize-injective ((k, v) ∷ xs) ((l, w) ∷ ys) hx hy e =
    let (p, q, t) = field_bytes-injective k l v w (serialize xs) (serialize ys) hx.0 hy.0 e in
    cc (p, q, serialize-injective xs ys hx.1 hy.1 t)
