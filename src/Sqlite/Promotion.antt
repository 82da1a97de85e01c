-- ===== src/Sqlite/Promotion.antt =====
-- save and finalize_output_persisted of packages/adapters'
-- adapter/outbound/persistence/sqlite/execution_repository.py, which supersede the prior answer of a
-- key, on the tables and on the log.
use generic_ml_cache.Prelude.{
  String, ◌≡◌, refl, sym, ◌∙◌, ap, true, ◌&&◌, not, some, List, [], ◌∷◌, map, any, ◌==◌,
  if◌then◌else◌, arith, All, Bool-cases, inl, inr,
}
use generic_ml_cache.Domain.{Timestamp, is_stored, is_success}
use generic_ml_cache.Sqlite
use generic_ml_cache.Sqlite.{
  Database, with_usage, insert_artifacts, insert_token_usage, insert_execution, update_row, promote,
  supersede_row, supersede_prior_current, new_row, upsert_identity,
}
use generic_ml_cache.Sqlite.Tables.{Row, same, owned, find_row, row_servable}
use generic_ml_cache.Sqlite.Log
use generic_ml_cache.Sqlite.Log.{
  Run, Log, view, log_of, change, run_servable, supersede_run, new_run,
}
use generic_ml_cache.Sqlite.Viewing.{map-All, map-map, find_row-selects}
use generic_ml_cache.Sqlite.Integrity.{Integrity, map-AreKeyed, Refers-map}
use generic_ml_cache.Sqlite.Refinement.{Matches, Matches-with, change-view}

-- An update of the executions that keeps their keys.
abbrev pub with_rows : Database → List Row → Database
with_rows db rows = record db { executions = rows }

pub with_rows-Integrity :
    (db : Database) (f : Row → Row)
    → ((r : Row) → (f r).id ≡ r.id)
    → ((r : Row) → (f r).execution_id ≡ r.execution_id)
    → Integrity db
    → Integrity (with_rows db (map f db.executions))
with_rows-Integrity db f e k h = record {
  keyed = map-AreKeyed f e k db.executions h.keyed;
  artifacts = Refers-map f e k db.executions _ h.artifacts;
  token_usage = Refers-map f e k db.executions _ h.token_usage;
  execution_tags = Refers-map f e k db.executions _ h.execution_tags;
}

everywhere : {A : Type 0} (xs : List A) → All (λ x. Unit {0}) xs
everywhere [] = tt
everywhere (x ∷ xs) = (tt, everywhere xs)

module _ (key : String) (now : Timestamp) where
  supersede-id : (r : Row) → (supersede_row key now r).id ≡ r.id
  supersede-id r = ground arith

  supersede-execution_id : (r : Row) → (supersede_row key now r).execution_id ≡ r.execution_id
  supersede-execution_id r = ground arith

  -- The row changes as its run does, whichever tables the rest is read from.
  supersede-view :
      (db : Database) (r : Row)
      → view db (supersede_row key now r) ≡ supersede_run key now (view db r)
  unfolding row_servable run_servable
  supersede-view db r = elim (Bool-cases ((r.execution_key == key) && row_servable r)) [
    | inl e ↦ rw e refl
    | inr e ↦ rw e refl
  ]

  pub supersede-log :
      (db : Database)
      → map (view db) (supersede_prior_current key now db.executions)
        ≡ map (supersede_run key now) (log_of db)
  unfolding supersede_prior_current
  supersede-log db =
      map-map (supersede_row key now) (view db) db.executions
      ∙ map-All (λ r. Unit {0}) _ _ db.executions (λ r u. supersede-view db r)
          (everywhere db.executions)
      ∙ sym (map-map (view db) (supersede_run key now) db.executions)

pub superseded-Integrity :
    (key : String) (now : Timestamp) (db : Database)
    → Integrity db
    → Integrity (with_rows db (supersede_prior_current key now db.executions))
unfolding supersede_prior_current
superseded-Integrity key now db h =
    with_rows-Integrity db (supersede_row key now) (supersede-id key now)
      (supersede-execution_id key now) h

promoted :
    (db : Database) (r : Row) (rows : List Row)
    → Integrity (with_rows db rows)
    → Integrity (with_rows db (update_row r.id promote rows))
promoted db r rows h =
    with_rows-Integrity (with_rows db rows) _ (λ s. ground arith) (λ s. ground arith) h

abbrev pub promote_row : Row → Row → Row
promote_row r s = if same r.id s.id then promote s else s

promote-view :
    (db : Database) (x key : String) (now : Timestamp) (r s : Row)
    → same r.id s.id ≡ (s.execution_id == x)
    → view db (promote_row r (supersede_row key now s))
      ≡ (λ (q : Run). if q.execution_id == x then record q { output_persisted = true } else q)
          (supersede_run key now (view db s))
unfolding row_servable run_servable
promote-view db x key now r s e = elim (Bool-cases ((s.execution_key == key) && row_servable s)) [
  | inl c ↦ rw c (elim (Bool-cases (same r.id s.id)) [
    | inl k ↦ rw (k, sym e ∙ k) refl
    | inr k ↦ rw (k, sym e ∙ k) refl
  ])
  | inr c ↦ rw c (elim (Bool-cases (same r.id s.id)) [
    | inl k ↦ rw (k, sym e ∙ k) refl
    | inr k ↦ rw (k, sym e ∙ k) refl
  ])
]

promote-finds :
    (db : Database) (x : String) (r : Row) (key : String) (now : Timestamp)
    → Integrity db
    → find_row x db.executions ≡ some r
    → log_of
        (with_rows db (update_row r.id promote (supersede_prior_current key now db.executions)))
      ≡ change x
          (λ s. record s { output_persisted = true })
          (map (supersede_run key now) (log_of db))
unfolding supersede_prior_current
promote-finds db x r key now h found =
    ap (map (view db)) (map-map (supersede_row key now) (promote_row r) db.executions)
    ∙ map-map _ (view db) db.executions
    ∙ map-All (λ s. same r.id s.id ≡ (s.execution_id == x)) _ _ db.executions
        (λ s e. promote-view db x key now r s e) (find_row-selects x db.executions r h.keyed found)
    ∙ sym (map-map (view db) _ db.executions)
    ∙ sym (map-map (supersede_run key now) _ (log_of db))

pub finalize_output_persisted-Matches :
    (now : Timestamp) (id : String) (db : Database)
    → Integrity db
    → Matches
        (Sqlite.finalize_output_persisted now id db)
        (Log.finalize_output_persisted now id (log_of db))
unfolding Sqlite.finalize_output_persisted Log.finalize_output_persisted
finalize_output_persisted-Matches now id db h = Matches-with _ db id _ _ (λ r found.
    elim (Bool-cases (any (λ a. not (is_stored a.status)) (owned r.id db.artifacts))) [
      | inl k ↦ rw k refl
      | inr k ↦ rw k (elim (Bool-cases (is_success r.state)) [
        | inl q ↦ rw q (
          promoted db r (supersede_prior_current r.execution_key now db.executions)
              (superseded-Integrity r.execution_key now db h),
          promote-finds db id r r.execution_key now h found,
        )
        | inr q ↦ rw q (
          promoted db r db.executions h,
          map-map (promote_row r) (view db) db.executions
              ∙ change-view db db id r h found (promote_row r) _ (λ s e. rw e refl)
                  (λ s e. rw e refl),
        )
      ])
    ])
