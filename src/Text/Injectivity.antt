-- ===== src/Text/Injectivity.antt =====
-- What can be read back from the bytes of a text and from the digits of a number.
use Prim.Native.String.{◌++◌ as ◌⧺◌}
use Prim.Native.String.append
use Prim.Native.Char.{code}
use text.Mathlib.TextEquality.{Char-path}
use mathlib.Core.List.{append_assoc}
use generic_ml_cache.Prelude.{
  ℕ, zero, suc, ◌+◌, ◌-◌, ◌*◌, ◌/◌, ◌%◌, ◌≤◌, ◌<◌, String, ◌≡◌, refl, sym, ap, ◌∙◌, ◌≢◌, inl, inr,
  Option, none, some, List, [], ◌∷◌, ◌++◌, ltb, if◌then◌else◌, arith, All, All-append, Bool-cases,
}
use generic_ml_cache.Text.{encode_char, utf8, digit, decimal_fuel, decimal}

-- One code point off the front of a byte string: the decoder of the language's runtime.
abbrev decode_rest : ℕ → List ℕ → Option (ℕ × List ℕ)
decode_rest b [] = none
decode_rest b (c ∷ []) = if ltb b 224 then some ((b - 192) * 64 + (c - 128), []) else none
decode_rest b (c ∷ d ∷ []) =
    if ltb b 224
    then some ((b - 192) * 64 + (c - 128), d ∷ [])
    else if ltb b 240
    then some ((b - 224) * 4096 + (c - 128) * 64 + (d - 128), [])
    else none
decode_rest b (c ∷ d ∷ e ∷ r) =
    if ltb b 224
    then some ((b - 192) * 64 + (c - 128), d ∷ e ∷ r)
    else if ltb b 240
    then some ((b - 224) * 4096 + (c - 128) * 64 + (d - 128), e ∷ r)
    else some ((b - 240) * 262144 + (c - 128) * 4096 + (d - 128) * 64 + (e - 128), r)

decode_char : List ℕ → Option (ℕ × List ℕ)
decode_char [] = none
decode_char (b ∷ r) = if ltb b 128 then some (b, r) else decode_rest b r

-- What `encode_char` writes, the decoder reads back, and leaves the rest.
decode_char-encode_char : (c : ℕ) (r : List ℕ) → decode_char (encode_char c ++ r) ≡ some (c, r)
unfolding decode_char encode_char
decode_char-encode_char c [] = ground arith
decode_char-encode_char c (x ∷ []) = ground arith
decode_char-encode_char c (x ∷ y ∷ r) = ground arith

pub encode_char-injective :
    (c d : ℕ) (r s : List ℕ) → encode_char c ++ r ≡ encode_char d ++ s → (c ≡ d) × (r ≡ s)
encode_char-injective c d r s e =
    let p : some (c, r) ≡ some (d, s) =
      sym (decode_char-encode_char c r) ∙ ap decode_char e ∙ decode_char-encode_char d s in
    ground (arith, p)

encode_char-ne-nil : (c : ℕ) (r : List ℕ) → encode_char c ++ r ≢ []
unfolding encode_char
encode_char-ne-nil c r e = ground arith

-- Different texts have different bytes.
pub utf8-injective : (s t : String) → utf8 s ≡ utf8 t → s ≡ t
unfolding utf8
utf8-injective String.[] String.[] e = refl
utf8-injective String.[] (String.◌∷◌ d t) e = absurd (encode_char-ne-nil (code d) (utf8 t) (sym e))
utf8-injective (String.◌∷◌ c s) String.[] e = absurd (encode_char-ne-nil (code c) (utf8 s) e)
utf8-injective (String.◌∷◌ c s) (String.◌∷◌ d t) e =
    let (p, q) = encode_char-injective (code c) (code d) (utf8 s) (utf8 t) e in
    cc (Char-path c d p, utf8-injective s t q)

pub utf8-append : (s t : String) → utf8 (s ⧺ t) ≡ utf8 s ++ utf8 t
unfolding utf8
utf8-append String.[] t = ap utf8 (append.nil t)
utf8-append (String.◌∷◌ c s) t =
    ap utf8 (append.cons c s t)
    ∙ ap (λ r. encode_char (code c) ++ r) (utf8-append s t)
    ∙ sym (append_assoc (encode_char (code c)) (utf8 s) (utf8 t))

-- The number that digits stand for.
value : ℕ → List ℕ → ℕ
value acc [] = acc
value acc (b ∷ r) = value (acc * 10 + (b - 48)) r

value-append : (acc : ℕ) (xs ys : List ℕ) → value acc (xs ++ ys) ≡ value (value acc xs) ys
unfolding value
value-append acc [] ys = refl
value-append acc (x ∷ xs) ys = value-append (acc * 10 + (x - 48)) xs ys

utf8-digit : (d : ℕ) → d < 10 → utf8 (digit d) ≡ (48 + d) ∷ []
unfolding utf8 encode_char
utf8-digit zero h = refl
utf8-digit (suc zero) h = refl
utf8-digit (suc (suc zero)) h = refl
utf8-digit (suc (suc (suc zero))) h = refl
utf8-digit (suc (suc (suc (suc zero)))) h = refl
utf8-digit (suc (suc (suc (suc (suc zero))))) h = refl
utf8-digit (suc (suc (suc (suc (suc (suc zero)))))) h = refl
utf8-digit (suc (suc (suc (suc (suc (suc (suc zero))))))) h = refl
utf8-digit (suc (suc (suc (suc (suc (suc (suc (suc zero)))))))) h = refl
utf8-digit (suc (suc (suc (suc (suc (suc (suc (suc (suc zero))))))))) h = refl
utf8-digit (suc (suc (suc (suc (suc (suc (suc (suc (suc (suc n)))))))))) h = absurd (omega arith)

value-digit : (acc d : ℕ) → d < 10 → value acc (utf8 (digit d)) ≡ acc * 10 + d
unfolding value
value-digit acc d h = rw (utf8-digit d h) (omega arith)

value-decimal_fuel : (f n : ℕ) → n < f → value 0 (utf8 (decimal_fuel f n)) ≡ n
unfolding decimal_fuel
value-decimal_fuel zero n h = absurd (omega arith)
value-decimal_fuel (suc f) n h = elim (Bool-cases (ltb n 10)) [
  | inl small ↦ rw (small, value-digit 0 n (ground arith)) (omega arith)
  | inr large ↦
      rw
        (
          large,
          utf8-append (decimal_fuel f (n / 10)) (digit (n % 10)),
          value-append 0 (utf8 (decimal_fuel f (n / 10))) (utf8 (digit (n % 10))),
          value-decimal_fuel f (n / 10) (ground arith),
          value-digit (n / 10) (n % 10) (omega arith),
        )
        (omega arith)
]

-- Different numbers print differently.
pub decimal-injective : (m n : ℕ) → utf8 (decimal m) ≡ utf8 (decimal n) → m ≡ n
unfolding decimal
decimal-injective m n e =
    sym (value-decimal_fuel (suc m) m (omega arith))
    ∙ ap (value 0) e
    ∙ value-decimal_fuel (suc n) n (omega arith)

-- A printed number consists of digits.
decimal_fuel-digits : (f n : ℕ) → All (λ b. 48 ≤ b) (utf8 (decimal_fuel f n))
unfolding decimal_fuel
decimal_fuel-digits zero n = unfold utf8 in tt
decimal_fuel-digits (suc f) n = elim (Bool-cases (ltb n 10)) [
  | inl small ↦ rw (small, utf8-digit n (ground arith)) (omega arith)
  | inr large ↦
      rw (large, utf8-append (decimal_fuel f (n / 10)) (digit (n % 10)))
        (All-append (λ b. 48 ≤ b) (utf8 (decimal_fuel f (n / 10))) (utf8 (digit (n % 10)))
          (decimal_fuel-digits f (n / 10)) (rw (utf8-digit (n % 10) (omega arith)) (omega arith)))
]

pub decimal-digits : (n : ℕ) → All (λ b. 48 ≤ b) (utf8 (decimal n))
unfolding decimal
decimal-digits n = decimal_fuel-digits (suc n) n
