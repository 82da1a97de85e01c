-- ===== src/Sqlite/Refinement.antt =====
-- The operations of packages/adapters'
-- adapter/outbound/persistence/sqlite/execution_repository.py that name one execution, on the tables
-- and on the log.
use mathlib.Core.List.{append-nil}
use generic_ml_cache.Prelude.{
  ℕ, String, ◌≡◌, refl, sym, ◌∙◌, ap, subst, true, false, Option, none, some, List, [], ◌∷◌, ◌++◌,
  map, any, ◌==◌, if◌then◌else◌, arith, All-append, Bool-cases, Option-cases, inl, inr, is_some,
  or-true,
}
use generic_ml_cache.Errors.{Error, Result, ok, err}
use generic_ml_cache.Domain.{TokenUsage, Artifact, MlExecution}
use generic_ml_cache.Repository.{drop_content}
use generic_ml_cache.Sqlite
use generic_ml_cache.Sqlite.{
  Database, with_row, with_usage, insert_artifacts, insert_token_usage, outcome_row, update_row,
  update_artifacts, promote, supersede_row, supersede_prior_current,
}
use generic_ml_cache.Sqlite.Tables.{Row, Table, same, owned, rows_of, find_row, update_owned}
use generic_ml_cache.Sqlite.Queries.{first}
use generic_ml_cache.Sqlite.Log
use generic_ml_cache.Sqlite.Log.{
  Run, Log, view, log_of, find_run, with_run, change, or_usage, run_servable, supersede_run,
}
use generic_ml_cache.Sqlite.Viewing.{
  same_refl, same_sym, has_id, or_row, map-All, map-map, owned-append, owned-rows_of, owned-update,
  owned-any, owned-none, owned-some, Refers, find_row-selects,
}
use generic_ml_cache.Sqlite.Integrity.{
  Integrity, map-AreKeyed, Refers-map, Refers-rows_of, Refers-update_owned,
}

-- Both succeed, with tables that stand for the log, or both raise the same error.
abbrev pub Matches : Result Database → Result Log → Type 0
Matches (ok db) (ok log) = Integrity db × (log_of db ≡ log)
Matches (err e) (err f) = e ≡ f
Matches (ok db) (err f) = ⊥
Matches (err e) (ok log) = ⊥

abbrev view_found : Database → Option Row → Option Run
view_found db none = none
view_found db (some r) = some (view db r)

find_run-view :
    (db : Database) (x : String) (rows : List Row)
    → find_run x (map (view db) rows) ≡ view_found db (find_row x rows)
unfolding find_run find_row
find_run-view db x [] = refl
find_run-view db x (r ∷ rows) = elim (Bool-cases (r.execution_id == x)) [
  | inl e ↦ rw e refl
  | inr e ↦ rw e (find_run-view db x rows)
]

pub find_row-has_id :
    (x : String) (rows : List Row) (r : Row) → find_row x rows ≡ some r → has_id r.id rows ≡ true
unfolding find_row
find_row-has_id x [] r h = ground arith
find_row-has_id x (s ∷ rows) r h = elim (Bool-cases (s.execution_id == x)) [
  | inl e ↦
      subst (λ u. has_id u.id (s ∷ rows) ≡ true) (ap (or_row s) (rw e at h))
        (rw (same_refl s.id) refl)
  | inr e ↦ rw (find_row-has_id x rows r (rw e at h)) (or-true (same r.id s.id))
]

-- To relate an operation on a row: relate what it does once the row is found.
pub Matches-with :
    (missing : Error) (db : Database) (x : String) (f : Row → Result Database)
    (g : Run → Result Log)
    → ((r : Row) → find_row x db.executions ≡ some r → Matches (f r) (g (view db r)))
    → Matches
        (with_row missing (find_row x db.executions) f)
        (with_run missing (find_run x (log_of db)) g)
Matches-with missing db x f g k = elim (Option-cases (find_row x db.executions)) [
  | inl e ↦ rw (find_run-view db x db.executions, e) refl
  | inr s ↦ rw (find_run-view db x db.executions, s.1) (k s.0 s.1)
]

module _ (db db' : Database) (x : String) (r : Row) (h : Integrity db)
    (found : find_row x db.executions ≡ some r) (f : Row → Row) (g : Run → Run) where
  -- The named row changes as the run does, and the others are left.
  pub change-view :
      ((s : Row) → same r.id s.id ≡ true → view db' (f s) ≡ g (view db s))
      → ((s : Row) → same r.id s.id ≡ false → view db' (f s) ≡ view db s)
      → map (λ s. view db' (f s)) db.executions ≡ change x g (log_of db)
  change-view same_case other_case =
      map-All (λ s. same r.id s.id ≡ (s.execution_id == x)) _ _ db.executions
        (λ s e. elim (Bool-cases (same r.id s.id)) [
          | inl k ↦ same_case s k ∙ rw (sym e ∙ k) refl
          | inr k ↦ other_case s k ∙ rw (sym e ∙ k) refl
        ])
        (find_row-selects x db.executions r h.keyed found)
      ∙ sym (map-map (view db) _ db.executions)

pub persist_artifact-Matches :
    (id : String) (artifact : Artifact) (db : Database)
    → Integrity db
    → Matches
        (Sqlite.persist_artifact id artifact db)
        (Log.persist_artifact id artifact (log_of db))
unfolding Sqlite.persist_artifact Log.persist_artifact insert_artifacts
persist_artifact-Matches id artifact db h =
    let new : List Artifact = drop_content artifact ∷ [] in
    Matches-with _ db id _ _ (λ r e.
      let table = db.artifacts ++ rows_of r.id new in
      let after = record db { artifacts = table } in
      let owns : (s : Row)
          → owned s.id table ≡ owned s.id db.artifacts ++ (if same r.id s.id then new else []) =
        λ s.
          owned-append s.id db.artifacts (rows_of r.id new)
          ∙ rw (owned-rows_of s.id r.id new, same_sym s.id r.id) refl in
      (
        record {
          keyed = h.keyed;
          artifacts =
              All-append _ db.artifacts _ h.artifacts
                (Refers-rows_of db.executions r.id new (find_row-has_id id db.executions r e));
          token_usage = h.token_usage;
          execution_tags = h.execution_tags;
        },
        change-view db after id r h e (λ s. s) _ (λ s k. rw (owns s, k) refl)
            (λ s k. rw (owns s, k, append-nil (owned s.id db.artifacts)) refl),
      ))

pub update_artifacts-Matches :
    (id blob_key : String) (f : Artifact → Artifact) (db : Database)
    → Integrity db
    → Matches (update_artifacts id blob_key f db) (Log.update_artifacts id blob_key f (log_of db))
unfolding update_artifacts Log.update_artifacts
update_artifacts-Matches id blob_key f db h =
    let g : Artifact → Artifact = λ a. if a.blob_key == blob_key then f a else a in
    Matches-with _ db id _ _ (λ r e.
      rw (owned-any r.id (λ a. a.blob_key == blob_key) db.artifacts)
        (elim (Bool-cases (any (λ a. a.blob_key == blob_key) (owned r.id db.artifacts))) [
          | inl k ↦ rw k (
            record {
              keyed = h.keyed;
              artifacts = Refers-update_owned db.executions r.id g db.artifacts h.artifacts;
              token_usage = h.token_usage;
              execution_tags = h.execution_tags;
            },
            change-view db (record db { artifacts = update_owned r.id g db.artifacts }) id r h e
                (λ s. s) _
                (λ s q. rw (owned-update s.id r.id g db.artifacts, same_sym s.id r.id, q) refl)
                (λ s q. rw (owned-update s.id r.id g db.artifacts, same_sym s.id r.id, q) refl),
          )
          | inr k ↦ rw k refl
        ]))

-- The usage that is inserted is the run's, where it had none.
pub usage-inserted :
    (id owner : ℕ) (u : TokenUsage) (table : Table TokenUsage)
    → owned id (table ++ (owner, u) ∷ []) ≡ owned id table ++ (if same id owner then u ∷ [] else [])
unfolding rows_of owned
usage-inserted id owner u table =
    owned-append id table ((owner, u) ∷ [])
    ∙ ap (λ ys. owned id table ++ ys) (owned-rows_of id owner (u ∷ []))

first-append :
    (us : List TokenUsage) (u : TokenUsage) → first (us ++ u ∷ []) ≡ or_usage (first us) (some u)
first-append [] u = refl
first-append (t ∷ us) u = refl

or_usage-none : (o : Option TokenUsage) → or_usage o none ≡ o
or_usage-none none = refl
or_usage-none (some t) = refl

record_outcome-view :
    (db db' : Database) (e : MlExecution) (o : Option TokenUsage) (r : Row)
    → Integrity db
    → find_row e.execution_id db.executions ≡ some r
    → db'.executions ≡ update_row r.id (outcome_row e) db.executions
    → db'.artifacts ≡ db.artifacts
    → db'.execution_tags ≡ db.execution_tags
    → ((s : Row)
        → same r.id s.id ≡ true
        → first (owned s.id db'.token_usage) ≡ or_usage (first (owned s.id db.token_usage)) o)
    → ((s : Row) → same r.id s.id ≡ false → owned s.id db'.token_usage ≡ owned s.id db.token_usage)
    → log_of db'
      ≡ change e.execution_id
          (λ s. record s {
            state = e.execution_state;
            failure = e.failure;
            token_usage = or_usage s.token_usage o;
          })
          (log_of db)
record_outcome-view db db' e o r h found rows arts tags here there =
    ap (map (view db')) rows
    ∙ map-map _ (view db') db.executions
    ∙ change-view db db' e.execution_id r h found
        (λ s. if same r.id s.id then outcome_row e s else s) _
        (λ s q. rw (q, arts, tags, here s q) refl) (λ s q. rw (q, arts, tags, there s q) refl)

outcome-Integrity :
    (db : Database) (e : MlExecution) (id : ℕ) (table : Table TokenUsage)
    → Integrity db
    → Refers db.executions table
    → Integrity (record db {
      executions = update_row id (outcome_row e) db.executions;
      token_usage = table;
    })
outcome-Integrity db e id table h k = record {
  keyed = map-AreKeyed _ (λ r. ground arith) (λ r. ground arith) db.executions h.keyed;
  artifacts = Refers-map _ (λ r. ground arith) (λ r. ground arith) db.executions _ h.artifacts;
  token_usage = Refers-map _ (λ r. ground arith) (λ r. ground arith) db.executions table k;
  execution_tags =
      Refers-map _ (λ r. ground arith) (λ r. ground arith) db.executions _ h.execution_tags;
}

usage-any :
    (id : ℕ) (table : Table TokenUsage)
    → any (λ row. same id row.0) table ≡ is_some (first (owned id table))
usage-any id table = elim (Bool-cases (any (λ row. same id row.0) table)) [
  | inl e ↦ let o = owned-some id table e in rw (e, o.2) refl
  | inr e ↦ rw (e, owned-none id table e) refl
]

pub record_outcome-Matches :
    (e : MlExecution) (db : Database)
    → Integrity db
    → Matches (Sqlite.record_outcome e db) (Log.record_outcome e (log_of db))
unfolding Sqlite.record_outcome Log.record_outcome insert_token_usage
record_outcome-Matches e db h = Matches-with _ db e.execution_id _ _ (λ r found.
    elim (Option-cases e.token_usage) [
      | inl n ↦ rw n (
        outcome-Integrity db e r.id db.token_usage h h.token_usage,
        record_outcome-view db
            (record db { executions = update_row r.id (outcome_row e) db.executions }) e none r h
            found refl refl refl (λ s q. sym (or_usage-none (first (owned s.id db.token_usage))))
            (λ s q. refl),
      )
      | inr u ↦ rw u.1 (elim (Bool-cases (any (λ row. same r.id row.0) db.token_usage)) [
        | inl k ↦ rw (k, sym (usage-any r.id db.token_usage) ∙ k) refl
        | inr k ↦
            let table = db.token_usage ++ (r.id, u.0) ∷ [] in
            let after = record db {
              executions = update_row r.id (outcome_row e) db.executions;
              token_usage = table;
            } in
            rw (k, sym (usage-any r.id db.token_usage) ∙ k)
              (
                outcome-Integrity db e r.id table h (
                    All-append _ db.token_usage _ h.token_usage
                      (find_row-has_id e.execution_id db.executions r found, tt)),
                record_outcome-view db after e (some u.0) r h found refl refl refl
                    (λ s q.
                      rw (usage-inserted s.id r.id u.0 db.token_usage, same_sym s.id r.id, q)
                        (first-append (owned s.id db.token_usage) u.0))
                    (λ s q.
                      rw (usage-inserted s.id r.id u.0 db.token_usage, same_sym s.id r.id, q)
                        (append-nil (owned s.id db.token_usage))),
              )
      ])
    ])
