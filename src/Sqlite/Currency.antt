-- ===== src/Sqlite/Currency.antt =====
-- find_current after finalize_output_persisted, on the tables of packages/adapters'
-- adapter/outbound/persistence/sqlite/execution_repository.py.
use generic_ml_cache.Prelude.{
  String, ◌≡◌, ◌≢◌, refl, ◌∙◌, ap, subst, Bool, true, false, ◌&&◌, not, Option, none, some, List,
  [], ◌∷◌, map, any, ◌==◌, eq_iff, eq_refl, arith, All, Bool-cases, Option-cases, inl, inr,
}
use generic_ml_cache.Dict.{lookup}
use generic_ml_cache.Errors.{Result, ok, err}
use generic_ml_cache.Domain.{Timestamp, MlExecution, ExecutionState, is_stored}
use generic_ml_cache.Sqlite.{
  Database, finalize_output_persisted, supersede_row, supersede_prior_current, promote, update_row,
}
use generic_ml_cache.Sqlite.Tables.{Row, same, owned, find_row, row_servable}
use generic_ml_cache.Sqlite.Queries.{
  select, last_row, current_row, found_execution, load_execution, load_optional, find_current,
}
use generic_ml_cache.Sqlite.Viewing.{
  same_refl, or_row, any-All, map-map, AreKeyed, find_row-selects,
}
use generic_ml_cache.Sqlite.Integrity.{Integrity}
use generic_ml_cache.Sqlite.Promotion.{promote_row}

abbrev serves : String → Row → Bool
serves key s = (s.execution_key == key) && row_servable s

-- A row of a transaction that supersedes the answer of a key, and promotes the row `r`.
abbrev changed : Row → Timestamp → Row → Row
changed r now s = promote_row r (supersede_row r.execution_key now s)

-- A row that can be promoted to the answer of its key.
pub record IsReady (r : Row) : Type 0 where
  pub succeeded : r.state ≡ ExecutionState.success
  pub unpersisted : r.output_persisted ≡ false
  pub current : r.superseded_at ≡ none

module _ (r : Row) (now : Timestamp) (ready : IsReady r) where
  unserved : (key : String) → serves key r ≡ false
  unfolding row_servable
  unserved key = ground (arith, ready.unpersisted)

  changed_self : changed r now r ≡ promote r
  changed_self = rw (unserved r.execution_key, same_refl r.id) refl

  promoted-serves : serves r.execution_key (promote r) ≡ true
  unfolding row_servable
  promoted-serves = rw (eq_refl r.execution_key, ready.succeeded, ready.current) refl

  -- Another row of the key is not served any more, and one of another key as before.
  other-unserved :
      (s : Row) → same r.id s.id ≡ false → serves r.execution_key (changed r now s) ≡ false
  unfolding row_servable
  other-unserved s e = ground (arith, e)

  others-unserved :
      (rows : List Row)
      → All (λ s. same r.id s.id ≡ false) rows
      → select (serves r.execution_key) (map (changed r now) rows) ≡ []
  unfolding select
  others-unserved [] h = refl
  others-unserved (s ∷ rows) h = rw (other-unserved s h.0, others-unserved rows h.1) refl

  select-promoted :
      (id : String) (rows : List Row)
      → AreKeyed rows
      → find_row id rows ≡ some r
      → All (λ s. same r.id s.id ≡ (s.execution_id == id)) rows
      → select (serves r.execution_key) (map (changed r now) rows) ≡ promote r ∷ []
  unfolding select find_row AreKeyed
  select-promoted id [] keyed found h = ground arith
  select-promoted id (t ∷ rows) keyed found h = elim (Bool-cases (t.execution_id == id)) [
    | inl k ↦
        let here : t ≡ r = ap (or_row t) (rw k at found) in
        let apart = any-All (λ s. same t.id s.id) rows keyed.0.id in
        rw (here, changed_self, promoted-serves)
          (rw
            (others-unserved rows (subst (λ u. All (λ s. same u.id s.id ≡ false) rows) here apart))
            refl)
    | inr k ↦
        rw (other-unserved t (h.0 ∙ k), select-promoted id rows keyed.1 (rw k at found) h.1) refl
  ]

  module _ (key : String) (other : r.execution_key ≢ key) where
    -- A row of another key keeps what serves that key.
    elsewhere :
        (s : Row)
        → same r.id s.id ≡ false
        → (serves key (changed r now s) ≡ serves key s)
          × (serves key s ≡ true → changed r now s ≡ s)
    unfolding row_servable
    elsewhere s e = (
      ground (arith, e, eq_iff s.execution_key r.execution_key, eq_iff s.execution_key key),
      λ k. ground (arith, e, k, eq_iff s.execution_key r.execution_key, eq_iff s.execution_key key),
    )

    not_here : (s : Row) → s.execution_key ≡ r.execution_key → serves key s ≡ false
    not_here s e = ground (arith, eq_iff s.execution_key key)

    elsewhere-select :
        (s : Row) (rows : List Row)
        → same r.id s.id ≡ false
        → select (serves key) (map (changed r now) rows) ≡ select (serves key) rows
        → select (serves key) (map (changed r now) (s ∷ rows)) ≡ select (serves key) (s ∷ rows)
    unfolding select
    elsewhere-select s rows e rest = elim (Bool-cases (serves key s)) [
      | inl k ↦ rw ((elsewhere s e).1 k, k, rest) refl
      | inr k ↦ rw ((elsewhere s e).0 ∙ k, k, rest) refl
    ]

    others-elsewhere :
        (rows : List Row)
        → All (λ s. same r.id s.id ≡ false) rows
        → select (serves key) (map (changed r now) rows) ≡ select (serves key) rows
    unfolding select
    others-elsewhere [] h = refl
    others-elsewhere (s ∷ rows) h = elsewhere-select s rows h.0 (others-elsewhere rows h.1)

    select-elsewhere :
        (id : String) (rows : List Row)
        → AreKeyed rows
        → find_row id rows ≡ some r
        → All (λ s. same r.id s.id ≡ (s.execution_id == id)) rows
        → select (serves key) (map (changed r now) rows) ≡ select (serves key) rows
    unfolding select find_row AreKeyed
    select-elsewhere id [] keyed found h = refl
    select-elsewhere id (t ∷ rows) keyed found h = elim (Bool-cases (t.execution_id == id)) [
      | inl k ↦
          let here : t ≡ r = ap (or_row t) (rw k at found) in
          let apart = any-All (λ s. same t.id s.id) rows keyed.0.id in
          rw (here, changed_self, not_here (promote r) refl, not_here r refl)
            (others-elsewhere rows (subst (λ u. All (λ s. same u.id s.id ≡ false) rows) here apart))
      | inr k ↦
          elsewhere-select t rows (h.0 ∙ k) (select-elsewhere id rows keyed.1 (rw k at found) h.1)
    ]

abbrev promoted_rows : Row → Timestamp → List Row → List Row
promoted_rows r now rows = map (changed r now) rows

promoted_rows_lem :
    (r : Row) (now : Timestamp) (rows : List Row)
    → update_row r.id promote (supersede_prior_current r.execution_key now rows)
      ≡ map (changed r now) rows
unfolding supersede_prior_current
promoted_rows_lem r now rows = map-map (supersede_row r.execution_key now) (promote_row r) rows

-- The rest of the tables gives the same execution, apart from the flag.
abbrev persisted : Result MlExecution → Result MlExecution
persisted (ok e) = ok (record e { output_persisted = true })
persisted (err x) = err x

module _ (db : Database) (rows : List Row) where
  load-promoted :
      (r : Row)
      → load_execution (record db { executions = rows }) (promote r)
        ≡ persisted (load_execution db r)
  unfolding load_execution
  load-promoted r = elim (Option-cases (lookup r.execution_key db.call_identities)) [
    | inl k ↦ rw k refl
    | inr k ↦ rw (k.1) refl
  ]

  load-kept : (r : Row) → load_execution (record db { executions = rows }) r ≡ load_execution db r
  unfolding load_execution
  load-kept r = elim (Option-cases (lookup r.execution_key db.call_identities)) [
    | inl k ↦ rw k refl
    | inr k ↦ rw (k.1) refl
  ]

  load_optional-kept :
      (o : Option Row) → load_optional (record db { executions = rows }) o ≡ load_optional db o
  load_optional-kept none = refl
  load_optional-kept (some r) = ap found_execution (load-kept r)

-- Where the row of an id is not persisted yet, not superseded and of a successful run, all its
-- artifacts are stored, and its identity is in the tables, finalizing it succeeds. The answer of its
-- key is then the execution that the row was, with its output persisted, and the answer of every
-- other key is what it was. The row ids and the execution ids are unique, and every artifact, usage
-- and tag belongs to an execution.
pub finalize-answers :
    (now : Timestamp) (id : String) (r : Row) (e : MlExecution) (db : Database)
    → Integrity db
    → find_row id db.executions ≡ some r
    → load_execution db r ≡ ok e
    → IsReady r
    → any (λ a. not (is_stored a.status)) (owned r.id db.artifacts) ≡ false
    → (db' : Database) × (finalize_output_persisted now id db ≡ ok db')
      × (find_current r.execution_key db' ≡ ok (some (record e { output_persisted = true })))
      × ((key : String) → r.execution_key ≢ key → find_current key db' ≡ find_current key db)
unfolding finalize_output_persisted find_current current_row last_row
finalize-answers now id r e db h found loaded ready stored =
    let rows = map (changed r now) db.executions in
    let selects = find_row-selects id db.executions r h.keyed found in
    let own : current_row r.execution_key rows ≡ some (promote r) =
      ap last_row (select-promoted r now ready id db.executions h.keyed found selects) in
    (
      record db { executions = rows },
      rw (found, stored, ready.succeeded)
          (ap {A = List Row} (λ rs. ok (record db { executions = rs }))
            (promoted_rows_lem r now db.executions)),
      ap (load_optional (record db { executions = rows })) own
          ∙ ap found_execution (load-promoted db rows r ∙ ap persisted loaded),
      λ key other.
          rw (select-elsewhere r now ready key other id db.executions h.keyed found selects)
            (load_optional-kept db rows (current_row key db.executions)),
    )
