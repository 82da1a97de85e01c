-- ===== src/Sqlite/Integrity.antt =====
-- The constraints of migrations/0001.initial-schema.sql that packages/adapters'
-- adapter/outbound/persistence/sqlite/execution_repository.py relies on: keys that are unique, and
-- references to executions that exist.
use generic_ml_cache.Prelude.{
  ℕ, String, ◌≡◌, refl, ◌∙◌, ap, Bool, true, false, ◌||◌, not, List, [], ◌∷◌, ◌++◌, map, any, ◌==◌,
  eq_iff, arith, All, Bool-cases, inl, inr, or-false,
}
use generic_ml_cache.Sqlite.{Database}
use generic_ml_cache.Sqlite.Tables.{Row, Table, same, rows_of, without, update_owned, keep_rows}
use generic_ml_cache.Sqlite.Viewing.{
  has_id, same-eq, same_sym, same_refl, Refers, AreKeyed, All-imp,
}

pub record Integrity (db : Database) : Type 0 where
  pub keyed : AreKeyed db.executions
  pub artifacts : Refers db.executions db.artifacts
  pub token_usage : Refers db.executions db.token_usage
  pub execution_tags : Refers db.executions db.execution_tags

-- Updates that keep the two keys of a row.
module _ (f : Row → Row) (ids : (r : Row) → (f r).id ≡ r.id)
    (execution_ids : (r : Row) → (f r).execution_id ≡ r.execution_id) where
  pub has_id-map : (id : ℕ) (rows : List Row) → has_id id (map f rows) ≡ has_id id rows
  has_id-map id [] = refl
  has_id-map id (r ∷ rows) = rw (ids r, has_id-map id rows) refl

  taken-map :
      (x : String) (rows : List Row)
      → any (λ s. s.execution_id == x) (map f rows) ≡ any (λ s. s.execution_id == x) rows
  taken-map x [] = refl
  taken-map x (r ∷ rows) = rw (execution_ids r, taken-map x rows) refl

  pub map-AreKeyed : (rows : List Row) → AreKeyed rows → AreKeyed (map f rows)
  unfolding AreKeyed
  map-AreKeyed [] h = tt
  map-AreKeyed (r ∷ rows) h = (
    record {
      id = rw (ids r, has_id-map r.id rows) h.0.id;
      execution_id = rw (execution_ids r, taken-map r.execution_id rows) h.0.execution_id;
    },
    map-AreKeyed rows h.1,
  )

  pub Refers-map :
      {A : Type 0} (rows : List Row) (table : Table A)
      → Refers rows table
      → Refers (map f rows) table
  Refers-map rows table h = All-imp _ _ table (λ x e. has_id-map x.0 rows ∙ e) h

-- An INSERT into executions.
has_id-append :
    (id : ℕ) (rows : List Row) (r : Row)
    → has_id id (rows ++ r ∷ []) ≡ (has_id id rows || same id r.id)
has_id-append id [] r = ground arith
has_id-append id (s ∷ rows) r = ground (arith, has_id-append id rows r)

taken-append :
    (x : String) (rows : List Row) (r : Row)
    → any (λ s. s.execution_id == x) (rows ++ r ∷ [])
      ≡ (any (λ s. s.execution_id == x) rows || (r.execution_id == x))
taken-append x [] r = ground arith
taken-append x (s ∷ rows) r = ground (arith, taken-append x rows r)

pub append-AreKeyed :
    (rows : List Row) (r : Row)
    → AreKeyed rows
    → has_id r.id rows ≡ false
    → any (λ s. s.execution_id == r.execution_id) rows ≡ false
    → AreKeyed (rows ++ r ∷ [])
unfolding AreKeyed
append-AreKeyed [] r h e k = (record { id = refl; execution_id = refl }, tt)
append-AreKeyed (s ∷ rows) r h e k = (
  record {
    id = has_id-append s.id rows r ∙ ground (arith, h.0.id, e, same_sym s.id r.id);
    execution_id =
        taken-append s.execution_id rows r
        ∙ ground (
          arith,
          h.0.execution_id,
          k,
          eq_iff r.execution_id s.execution_id,
          eq_iff s.execution_id r.execution_id,
        );
  },
  append-AreKeyed rows r h.1 (or-false (same r.id s.id) (has_id r.id rows) e).1
      (or-false (s.execution_id == r.execution_id) _ k).1,
)

module _ {A : Type 0} where
  pub Refers-append :
      (rows : List Row) (r : Row) (table : Table A)
      → Refers rows table
      → Refers (rows ++ r ∷ []) table
  Refers-append rows r table h = All-imp _ _ table (λ x e. has_id-append x.0 rows r ∙ rw e refl) h

  pub Refers-rows_of :
      (rows : List Row) (id : ℕ) (as_ : List A)
      → has_id id rows ≡ true
      → Refers rows (rows_of id as_)
  unfolding rows_of
  Refers-rows_of rows id [] e = tt
  Refers-rows_of rows id (a ∷ as_) e = (e, Refers-rows_of rows id as_ e)

  pub Refers-update_owned :
      (rows : List Row) (id : ℕ) (f : A → A) (table : Table A)
      → Refers rows table
      → Refers rows (update_owned id f table)
  unfolding update_owned
  Refers-update_owned rows id f [] h = tt
  Refers-update_owned rows id f (x ∷ table) h = (h.0, Refers-update_owned rows id f table h.1)

pub has_id-last : (rows : List Row) (r : Row) → has_id r.id (rows ++ r ∷ []) ≡ true
has_id-last rows r = has_id-append r.id rows r ∙ ground (arith, same_refl r.id)

-- A DELETE from executions, and from the tables that refer to them.
module _ (kept : Row → Bool) where
  has_id-kept :
      (id : ℕ) (rows : List Row) → has_id id rows ≡ false → has_id id (keep_rows kept rows) ≡ false
  unfolding keep_rows
  has_id-kept id [] h = refl
  has_id-kept id (r ∷ rows) h = ground (arith, has_id-kept id rows)

  taken-kept :
      (x : String) (rows : List Row)
      → any (λ s. s.execution_id == x) rows ≡ false
      → any (λ s. s.execution_id == x) (keep_rows kept rows) ≡ false
  unfolding keep_rows
  taken-kept x [] h = refl
  taken-kept x (r ∷ rows) h = ground (arith, taken-kept x rows)

  pub keep_rows-AreKeyed : (rows : List Row) → AreKeyed rows → AreKeyed (keep_rows kept rows)
  unfolding keep_rows AreKeyed
  keep_rows-AreKeyed [] h = tt
  keep_rows-AreKeyed (r ∷ rows) h = elim (Bool-cases (kept r)) [
    | inl e ↦ rw e (
      record {
        id = has_id-kept r.id rows h.0.id;
        execution_id = taken-kept r.execution_id rows h.0.execution_id;
      },
      keep_rows-AreKeyed rows h.1,
    )
    | inr e ↦ rw e (keep_rows-AreKeyed rows h.1)
  ]

  module _ (gone : ℕ → Bool) where
    -- A row goes exactly where its id is gone.
    has_id-survives :
        (id : ℕ) (rows : List Row)
        → All (λ r. gone r.id ≡ not (kept r)) rows
        → gone id ≡ false
        → has_id id rows ≡ true
        → has_id id (keep_rows kept rows) ≡ true
    unfolding keep_rows
    has_id-survives id [] a g h = h
    has_id-survives id (r ∷ rows) a g h = elim (Bool-cases (same id r.id)) [
      | inl e ↦ ground (arith, a.0, g, e, ap gone (same-eq id r.id e))
      | inr e ↦ ground (arith, has_id-survives id rows a.1 g, e, h)
    ]

    pub Refers-without :
        {A : Type 0} (rows : List Row) (table : Table A)
        → All (λ r. gone r.id ≡ not (kept r)) rows
        → Refers rows table
        → Refers (keep_rows kept rows) (without gone table)
    unfolding without
    Refers-without rows [] a h = tt
    Refers-without rows (x ∷ table) a h = elim (Bool-cases (gone x.0)) [
      | inl e ↦ rw e (Refers-without rows table a h.1)
      | inr e ↦ rw e (has_id-survives x.0 rows a e h.0, Refers-without rows table a h.1)
    ]
