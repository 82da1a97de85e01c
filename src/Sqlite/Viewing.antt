-- ===== src/Sqlite/Viewing.antt =====
-- What the statements of packages/adapters'
-- adapter/outbound/persistence/sqlite/execution_repository.py do to the rows that an execution owns.
use generic_ml_cache.Prelude.{
  ℕ, suc, ◌≤◌, String, ◌≡◌, refl, sym, ◌∙◌, ap, subst, Bool, true, false, ◌&&◌, Option, none, some,
  List, [], ◌∷◌, ◌++◌, map, any, ◌==◌, eq_iff, if◌then◌else◌, arith, All, Bool-cases, inl, inr,
  or-false,
}
use generic_ml_cache.Sqlite.Tables.{
  Row, Table, same, owned, rows_of, without, update_owned, max_id, next_id, find_row,
}

pub same_refl : (a : ℕ) → same a a ≡ true
same_refl a = ground arith

pub same-eq : (a b : ℕ) → same a b ≡ true → a ≡ b
same-eq a b h = ground arith

pub same_sym : (a b : ℕ) → same a b ≡ same b a
same_sym a b = ground arith

abbrev pub has_id : ℕ → List Row → Bool
has_id id rows = any (λ r. same id r.id) rows

pub any-All :
    {A : Type 0} (test : A → Bool) (xs : List A)
    → any test xs ≡ false
    → All (λ x. test x ≡ false) xs
any-All test [] h = tt
any-All test (x ∷ xs) h = let e = or-false (test x) (any test xs) h in (e.0, any-All test xs e.1)

pub All-imp :
    {A : Type 0} (P Q : A → Type 0) (xs : List A) → ((x : A) → P x → Q x) → All P xs → All Q xs
All-imp P Q [] f h = tt
All-imp P Q (x ∷ xs) f h = (f x h.0, All-imp P Q xs f h.1)

pub All-both :
    {A : Type 0} (P Q : A → Type 0) (xs : List A) → All P xs → All Q xs → All (λ x. P x × Q x) xs
All-both P Q [] h k = tt
All-both P Q (x ∷ xs) h k = ((h.0, k.0), All-both P Q xs h.1 k.1)

pub map-All :
    {A B : Type 0} (P : A → Type 0) (f g : A → B) (xs : List A)
    → ((x : A) → P x → f x ≡ g x)
    → All P xs
    → map f xs ≡ map g xs
map-All P f g [] k h = refl
map-All P f g (x ∷ xs) k h = rw (k x h.0, map-All P f g xs k h.1) refl

pub map-map :
    {A B C : Type 0} (f : A → B) (g : B → C) (xs : List A)
    → map g (map f xs) ≡ map (λ x. g (f x)) xs
map-map f g [] = refl
map-map f g (x ∷ xs) = ap (λ ys. g (f x) ∷ ys) (map-map f g xs)

module _ {A : Type 0} where
  pub owned-append : (id : ℕ) (xs ys : Table A) → owned id (xs ++ ys) ≡ owned id xs ++ owned id ys
  unfolding owned
  owned-append id [] ys = refl
  owned-append id ((owner, a) ∷ xs) ys = ground (arith, owned-append id xs ys)

  pub owned-rows_of :
      (id owner : ℕ) (as_ : List A)
      → owned id (rows_of owner as_) ≡ (if same id owner then as_ else [])
  unfolding owned rows_of
  owned-rows_of id owner [] = ground arith
  owned-rows_of id owner (a ∷ as_) = ground (arith, owned-rows_of id owner as_)

  pub owned-without :
      (id : ℕ) (gone : ℕ → Bool) (xs : Table A)
      → owned id (without gone xs) ≡ (if gone id then [] else owned id xs)
  unfolding owned without
  owned-without id gone [] = ground arith
  owned-without id gone ((owner, a) ∷ xs) = elim (Bool-cases (same id owner)) [
    | inl e ↦ ground (arith, owned-without id gone xs, ap gone (same-eq id owner e), e)
    | inr e ↦ ground (arith, owned-without id gone xs, e)
  ]

  pub owned-update :
      (id owner : ℕ) (f : A → A) (xs : Table A)
      → owned id (update_owned owner f xs)
        ≡ (if same id owner then map f (owned id xs) else owned id xs)
  unfolding owned update_owned
  owned-update id owner f [] = ground arith
  owned-update id owner f ((k, a) ∷ xs) = ground (arith, owned-update id owner f xs)

  -- The rows of the table belong to executions that exist.
  abbrev pub Refers : List Row → Table A → Type 0
  Refers rows table = All (λ x. has_id x.0 rows ≡ true) table

  pub owned-Refers :
      (id : ℕ) (rows : List Row) (table : Table A)
      → has_id id rows ≡ false
      → Refers rows table
      → owned id table ≡ []
  unfolding owned
  owned-Refers id rows [] e h = refl
  owned-Refers id rows ((owner, a) ∷ table) e h = elim (Bool-cases (same id owner)) [
    | inl k ↦ ground (arith, e, h.0, ap (λ i. has_id i rows) (same-eq id owner k))
    | inr k ↦ rw k (owned-Refers id rows table e h.1)
  ]

  -- A test on the owners sees what the owner owns.
  pub owned-any :
      (id : ℕ) (test : A → Bool) (table : Table A)
      → any (λ x. same id x.0 && test x.1) table ≡ any test (owned id table)
  unfolding owned
  owned-any id test [] = refl
  owned-any id test ((owner, a) ∷ table) = ground (arith, owned-any id test table)

  pub owned-none :
      (id : ℕ) (table : Table A) → any (λ x. same id x.0) table ≡ false → owned id table ≡ []
  unfolding owned
  owned-none id [] h = refl
  owned-none id ((owner, a) ∷ table) h = ground (arith, owned-none id table)

  pub owned-some :
      (id : ℕ) (table : Table A)
      → any (λ x. same id x.0) table ≡ true
      → (a : A) × (rest : List A) × (owned id table ≡ a ∷ rest)
  unfolding owned
  owned-some id [] h = ground arith
  owned-some id ((owner, a) ∷ table) h = elim (Bool-cases (same id owner)) [
    | inl e ↦ (a, owned id table, rw e refl)
    | inr e ↦ let r = owned-some id table (rw e at h) in (r.0, r.1, rw e r.2)
  ]

-- A new row has an id of its own.
has_id-bounded : (n : ℕ) (rows : List Row) → max_id rows ≤ n → has_id (suc n) rows ≡ false
has_id-bounded n [] h = refl
has_id-bounded n (r ∷ rows) h = ground (arith, has_id-bounded n rows)

pub has_id-next_id : (rows : List Row) → has_id (next_id rows) rows ≡ false
unfolding next_id
has_id-next_id rows = has_id-bounded (max_id rows) rows (omega arith)

-- Neither a row id nor an execution id stands twice.
pub record IsKeyed (r : Row) (rows : List Row) : Type 0 where
  pub id : has_id r.id rows ≡ false
  pub execution_id : any (λ s. s.execution_id == r.execution_id) rows ≡ false

unfoldable pub AreKeyed : List Row → Type 0
AreKeyed [] = Unit
AreKeyed (r ∷ rows) = IsKeyed r rows × AreKeyed rows

abbrev pub or_row : Row → Option Row → Row
or_row r none = r
or_row r (some s) = s

find_row-All :
    (P : Row → Type 0) (x : String) (rows : List Row) (r : Row)
    → find_row x rows ≡ some r
    → All P rows
    → P r
unfolding find_row
find_row-All P x [] r e h = ground arith
find_row-All P x (s ∷ rows) r e h = elim (Bool-cases (s.execution_id == x)) [
  | inl k ↦ subst P (ap (or_row s) (rw k at e)) h.0
  | inr k ↦ find_row-All P x rows r (rw k at e) h.1
]

-- The row of an execution is the one row that its row id selects.
pub find_row-selects :
    (x : String) (rows : List Row) (r : Row)
    → AreKeyed rows
    → find_row x rows ≡ some r
    → All (λ s. same r.id s.id ≡ (s.execution_id == x)) rows
unfolding find_row AreKeyed
find_row-selects x [] r h e = tt
find_row-selects x (t ∷ rows) r h e =
    let apart = any-All (λ s. same t.id s.id) rows h.0.id in
    elim (Bool-cases (t.execution_id == x)) [
      | inl k ↦
          let at_t : t ≡ r = ap (or_row t) (rw k at e) in
          let others = any-All (λ s. s.execution_id == t.execution_id) rows h.0.execution_id in
          (
            subst (λ u. same u.id t.id ≡ (t.execution_id == x)) at_t (same_refl t.id ∙ sym k),
            All-imp (λ s. (same t.id s.id ≡ false) × ((s.execution_id == t.execution_id) ≡ false))
                (λ s. same r.id s.id ≡ (s.execution_id == x)) rows
                (λ s q.
                  subst (λ u. same u.id s.id ≡ (s.execution_id == x)) at_t
                    (q.0
                      ∙ sym (
                          subst (λ y. (s.execution_id == y) ≡ false) ((eq_iff t.execution_id x).0 k)
                            q.1)))
                (All-both _ _ rows apart others),
          )
      | inr k ↦
          let later = rw k at e in
          (
            same_sym r.id t.id
                ∙ find_row-All (λ s. same t.id s.id ≡ false) x rows r later apart
                ∙ sym k,
            find_row-selects x rows r h.1 later,
          )
    ]
