-- ===== src/Sqlite/Removal.antt =====
-- remove_execution, soft_purge_execution and hard_delete_execution of packages/adapters'
-- adapter/outbound/persistence/sqlite/execution_repository.py, on the tables and on the log.
use generic_ml_cache.Prelude.{
  ℕ, String, ◌≡◌, refl, sym, ◌∙◌, ap, Bool, true, false, ◌||◌, not, none, List, [], ◌∷◌, map, ◌==◌,
  arith, All, Bool-cases, Option-cases, inl, inr,
}
use generic_ml_cache.Errors.{ok}
use generic_ml_cache.Sqlite
use generic_ml_cache.Sqlite.{Database, remove_row, orphaned}
use generic_ml_cache.Sqlite.Tables.{Row, Table, same, without, keep_rows, find_row}
use generic_ml_cache.Sqlite.Annotations
use generic_ml_cache.Sqlite.Annotations.{in_key, unpersist}
use generic_ml_cache.Sqlite.Log
use generic_ml_cache.Sqlite.Log.{Run, Log, view, log_of, keep_runs}
use generic_ml_cache.Sqlite.Viewing.{
  same_refl, same_sym, has_id, map-All, map-map, All-imp, All-both, any-All, owned-without, Refers,
  AreKeyed, find_row-selects,
}
use generic_ml_cache.Sqlite.Integrity.{
  Integrity, map-AreKeyed, Refers-map, keep_rows-AreKeyed, Refers-without,
}
use generic_ml_cache.Sqlite.Refinement.{Matches}

-- A deletion that keeps a row where the log keeps its run.
keep_rows-view :
    (db db' : Database) (kept : Row → Bool) (kept' : Run → Bool) (rows : List Row)
    → All (λ s. (kept s ≡ kept' (view db s)) × (kept s ≡ true → view db' s ≡ view db s)) rows
    → map (view db') (keep_rows kept rows) ≡ keep_runs kept' (map (view db) rows)
unfolding keep_rows keep_runs
keep_rows-view db db' kept kept' [] h = refl
keep_rows-view db db' kept kept' (r ∷ rows) h =
    let rest = keep_rows-view db db' kept kept' rows h.1 in
    elim (Bool-cases (kept r)) [
      | inl e ↦ rw (e, sym h.0.0 ∙ e, h.0.1 e, rest) refl
      | inr e ↦ rw (e, sym h.0.0 ∙ e, rest) refl
    ]

-- The tables without the rows of the executions that go.
abbrev deleted : Database → (Row → Bool) → (ℕ → Bool) → Database
deleted db kept gone = record db {
  executions = keep_rows kept db.executions;
  artifacts = without gone db.artifacts;
  token_usage = without gone db.token_usage;
  execution_tags = without gone db.execution_tags;
}

module _ (db : Database) (kept : Row → Bool) (gone : ℕ → Bool) (h : Integrity db)
    (agree : All (λ r. gone r.id ≡ not (kept r)) db.executions) where
  deleted-Integrity : Integrity (deleted db kept gone)
  deleted-Integrity = record {
    keyed = keep_rows-AreKeyed kept db.executions h.keyed;
    artifacts = Refers-without kept gone db.executions db.artifacts agree h.artifacts;
    token_usage = Refers-without kept gone db.executions db.token_usage agree h.token_usage;
    execution_tags =
        Refers-without kept gone db.executions db.execution_tags agree h.execution_tags;
  }

  deleted-log :
      (kept' : Run → Bool)
      → All (λ s. kept s ≡ kept' (view db s)) db.executions
      → map (view (deleted db kept gone)) (keep_rows kept db.executions)
        ≡ keep_runs kept' (log_of db)
  deleted-log kept' same_choice =
      keep_rows-view db (deleted db kept gone) kept kept' db.executions (
        All-imp _ _ db.executions
          (λ s p. (
            p.0,
            λ k.
                let stays : gone s.id ≡ false = p.1 ∙ ap not k in
                rw
                  (
                    owned-without s.id gone db.artifacts,
                    owned-without s.id gone db.token_usage,
                    owned-without s.id gone db.execution_tags,
                    stays,
                  )
                  refl,
          ))
          (All-both _ _ db.executions same_choice agree))

not-not : (b : Bool) → b ≡ not (not b)
not-not true = refl
not-not false = refl

or_false : (b : Bool) → (b || false) ≡ b
or_false true = refl
or_false false = refl

keep_runs_id :
    (kept : Run → Bool) (db : Database) (rows : List Row)
    → All (λ r. kept (view db r) ≡ true) rows
    → keep_runs kept (map (view db) rows) ≡ map (view db) rows
unfolding keep_runs
keep_runs_id kept db [] h = refl
keep_runs_id kept db (r ∷ rows) h = rw (h.0, keep_runs_id kept db rows h.1) refl

find_row-none :
    (x : String) (rows : List Row)
    → find_row x rows ≡ none
    → All (λ r. (r.execution_id == x) ≡ false) rows
unfolding find_row
find_row-none x [] h = tt
find_row-none x (r ∷ rows) h = elim (Bool-cases (r.execution_id == x)) [
  | inl e ↦ ground (arith, rw e at h)
  | inr e ↦ (e, find_row-none x rows (rw e at h))
]

pub remove_execution-Matches :
    (id : String) (db : Database)
    → Integrity db
    → Matches (ok (Sqlite.remove_execution id db)) (ok (Log.remove_execution id (log_of db)))
unfolding Sqlite.remove_execution Log.remove_execution
remove_execution-Matches id db h = elim (Option-cases (find_row id db.executions)) [
  | inl e ↦ rw e (
    h,
    sym (
        keep_runs_id _ db db.executions
          (All-imp _ _ db.executions (λ r k. ap not k) (find_row-none id db.executions e))),
  )
  | inr s ↦ rw s.1 (
      let r = s.0 in
      let kept : Row → Bool = λ t. not (same r.id t.id) in
      let selects = find_row-selects id db.executions r h.keyed s.1 in
      let agree =
        All-imp _ (λ t. same r.id t.id ≡ not (kept t)) db.executions
          (λ t k. not-not (same r.id t.id)) selects in
      let d = deleted-Integrity db kept (same r.id) h agree in
      (
        record {
          keyed = d.keyed;
          artifacts = d.artifacts;
          token_usage = d.token_usage;
          execution_tags = d.execution_tags;
        },
        deleted-log db kept (same r.id) h agree (λ q. not (q.execution_id == id))
            (All-imp _ _ db.executions (λ t k. ap not k) selects),
      ))
]

-- The row ids of a key are those of its rows.
in_key-absent :
    (key : String) (id : ℕ) (rows : List Row) → has_id id rows ≡ false → in_key key rows id ≡ false
unfolding in_key
in_key-absent key id [] h = refl
in_key-absent key id (r ∷ rows) h = ground (arith, in_key-absent key id rows)

in_key-rows :
    (key : String) (rows : List Row)
    → AreKeyed rows
    → All (λ s. in_key key rows s.id ≡ (s.execution_key == key)) rows
unfolding in_key AreKeyed
in_key-rows key [] h = tt
in_key-rows key (r ∷ rows) h = (
  rw (same_refl r.id, in_key-absent key r.id rows h.0.id) (or_false (r.execution_key == key)),
  All-imp _ _ rows (λ s p. rw (same_sym s.id r.id, p.1) p.0)
      (All-both _ (λ s. same r.id s.id ≡ false) rows (in_key-rows key rows h.1)
        (any-All (λ s. same r.id s.id) rows h.0.id)),
)

pub hard_delete_execution-Matches :
    (key : String) (db : Database)
    → Integrity db
    → Matches
        (ok (Annotations.hard_delete_execution key db))
        (ok (Log.hard_delete_execution key (log_of db)))
unfolding Annotations.hard_delete_execution Log.hard_delete_execution
hard_delete_execution-Matches key db h =
    let kept : Row → Bool = λ r. not (r.execution_key == key) in
    let gone : ℕ → Bool = in_key key db.executions in
    let agree =
      All-imp _ (λ s. gone s.id ≡ not (kept s)) db.executions
        (λ s k. k ∙ not-not (s.execution_key == key)) (in_key-rows key db.executions h.keyed) in
    let d = deleted-Integrity db kept gone h agree in
    (
      record {
        keyed = d.keyed;
        artifacts = d.artifacts;
        token_usage = d.token_usage;
        execution_tags = d.execution_tags;
      },
      deleted-log db kept gone h agree (λ q. not (q.execution_key == key))
          (All-imp _ _ db.executions (λ s k. refl) agree),
    )

Refers-fewer :
    {A : Type 0} (rows : List Row) (gone : ℕ → Bool) (table : Table A)
    → Refers rows table
    → Refers rows (without gone table)
unfolding without
Refers-fewer rows gone [] h = tt
Refers-fewer rows gone (x ∷ table) h = elim (Bool-cases (gone x.0)) [
  | inl e ↦ rw e (Refers-fewer rows gone table h.1)
  | inr e ↦ rw e (h.0, Refers-fewer rows gone table h.1)
]

pub soft_purge_execution-Matches :
    (key : String) (db : Database)
    → Integrity db
    → Matches
        (ok (Annotations.soft_purge_execution key db))
        (ok (Log.soft_purge_execution key (log_of db)))
unfolding Annotations.soft_purge_execution Log.soft_purge_execution
soft_purge_execution-Matches key db h =
    let gone : ℕ → Bool = in_key key db.executions in
    let after = record db {
      executions = map (unpersist key) db.executions;
      artifacts = without gone db.artifacts;
    } in
    (
      record {
        keyed = map-AreKeyed _ (λ r. ground arith) (λ r. ground arith) db.executions h.keyed;
        artifacts =
            Refers-map _ (λ r. ground arith) (λ r. ground arith) db.executions _
              (Refers-fewer db.executions gone db.artifacts h.artifacts);
        token_usage =
            Refers-map _ (λ r. ground arith) (λ r. ground arith) db.executions _ h.token_usage;
        execution_tags =
            Refers-map _ (λ r. ground arith) (λ r. ground arith) db.executions _ h.execution_tags;
      },
      map-map (unpersist key) (view after) db.executions
          ∙ map-All (λ s. gone s.id ≡ (s.execution_key == key)) _ _ db.executions
              (λ s e. elim (Bool-cases (s.execution_key == key)) [
                | inl k ↦ rw (k, owned-without s.id gone db.artifacts, e ∙ k) refl
                | inr k ↦ rw (k, owned-without s.id gone db.artifacts, e ∙ k) refl
              ])
              (in_key-rows key db.executions h.keyed)
          ∙ sym (map-map (view db) _ db.executions),
    )
