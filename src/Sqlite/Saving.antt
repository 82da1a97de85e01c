-- ===== src/Sqlite/Saving.antt =====
-- save of packages/adapters' adapter/outbound/persistence/sqlite/execution_repository.py, on the
-- tables and on the log.
use mathlib.Core.List.{append-nil}
use generic_ml_cache.Prelude.{
  ℕ, String, ◌≡◌, refl, sym, ◌∙◌, ap, false, Option, none, some, List, [], ◌∷◌, ◌++◌, map, any,
  ◌==◌, if◌then◌else◌, arith, All-append, Bool-cases, inl, inr,
}
use generic_ml_cache.Errors.{ok, err, store_consistency}
use generic_ml_cache.Domain.{Timestamp, TokenUsage, MlExecution}
use generic_ml_cache.Domain.Identity.{generate_key}
use generic_ml_cache.Repository.{drop_content, is_servable}
use generic_ml_cache.Sqlite
use generic_ml_cache.Sqlite.{
  Database, with_usage, save_row, insert_artifacts, insert_token_usage, insert_execution, new_row,
  supersede_prior_current, upsert_identity,
}
use generic_ml_cache.Sqlite.Tables.{Row, Table, same, owned, rows_of, next_id}
use generic_ml_cache.Sqlite.Queries.{first}
use generic_ml_cache.Sqlite.Log
use generic_ml_cache.Sqlite.Log.{Run, Log, view, log_of, new_run, supersede_run}
use generic_ml_cache.Sqlite.Viewing.{
  same-eq, same_refl, same_sym, has_id, map-All, any-All, owned-append, owned-rows_of, owned-Refers,
  Refers, has_id-next_id,
}
use generic_ml_cache.Sqlite.Integrity.{
  Integrity, Refers-rows_of, append-AreKeyed, Refers-append, has_id-last,
}
use generic_ml_cache.Sqlite.Refinement.{Matches}
use generic_ml_cache.Sqlite.Promotion.{with_rows, superseded-Integrity, supersede-log}

taken-view :
    (db : Database) (x : String) (rows : List Row)
    → any (λ r. r.execution_id == x) (map (view db) rows) ≡ any (λ r. r.execution_id == x) rows
taken-view db x [] = refl
taken-view db x (r ∷ rows) = rw (taken-view db x rows) refl

map-append : (f : Row → Run) (xs ys : List Row) → map f (xs ++ ys) ≡ map f xs ++ map f ys
map-append f [] ys = refl
map-append f (x ∷ xs) ys = ap (λ zs. f x ∷ zs) (map-append f xs ys)

Refers-any :
    {A : Type 0} (id : ℕ) (rows : List Row) (table : Table A)
    → has_id id rows ≡ false
    → Refers rows table
    → any (λ x. same id x.0) table ≡ false
Refers-any id rows [] e h = refl
Refers-any id rows (x ∷ table) e h = elim (Bool-cases (same id x.0)) [
  | inl k ↦ ground (arith, e, h.0, ap (λ i. has_id i rows) (same-eq id x.0 k))
  | inr k ↦ rw k (Refers-any id rows table e h.1)
]

abbrev listed : Option TokenUsage → List TokenUsage
listed none = []
listed (some u) = u ∷ []

first-listed : (o : Option TokenUsage) → first (listed o) ≡ o
first-listed none = refl
first-listed (some u) = refl

insert_token_usage-fresh :
    (id : ℕ) (o : Option TokenUsage) (rows : List Row) (table : Table TokenUsage)
    → has_id id rows ≡ false
    → Refers rows table
    → insert_token_usage id o table ≡ ok (table ++ rows_of id (listed o))
unfolding insert_token_usage rows_of
insert_token_usage-fresh id none rows table e h = rw (append-nil table) refl
insert_token_usage-fresh id (some u) rows table e h = rw (Refers-any id rows table e h) refl

-- What a row owns in a table to which rows of another one were added.
module _ {A : Type 0} (table : Table A) (id : ℕ) (as_ : List A) where
  owned-others : (k : ℕ) → same id k ≡ false → owned k (table ++ rows_of id as_) ≡ owned k table
  owned-others k e =
      owned-append k table (rows_of id as_)
      ∙ rw (owned-rows_of k id as_, same_sym k id, e) (append-nil (owned k table))

  owned-new :
      (rows : List Row)
      → has_id id rows ≡ false
      → Refers rows table
      → owned id (table ++ rows_of id as_) ≡ as_
  owned-new rows e h =
      owned-append id table (rows_of id as_)
      ∙ rw (owned-rows_of id id as_, same_refl id, owned-Refers id rows table e h) refl

module _ (db : Database) (prior : List Row) (key : String) (now : Timestamp) (e : MlExecution)
    (h : Integrity (with_rows db prior)) where
  abbrev new_id : ℕ
  new_id = next_id prior

  abbrev saved : Database
  saved = record db {
    call_identities = upsert_identity key e.call_identity db.call_identities;
    executions = prior ++ new_row new_id key now e ∷ [];
    artifacts = db.artifacts ++ rows_of new_id (map drop_content e.artifacts);
    token_usage = db.token_usage ++ rows_of new_id (listed e.token_usage);
  }

  saved-Integrity : any (λ r. r.execution_id == e.execution_id) prior ≡ false → Integrity saved
  saved-Integrity free =
      let new = new_row new_id key now e in
      let here = has_id-last prior new in
      record {
        keyed = append-AreKeyed prior new h.keyed (has_id-next_id prior) free;
        artifacts =
            All-append _ db.artifacts _ (Refers-append prior new db.artifacts h.artifacts)
              (Refers-rows_of (prior ++ new ∷ []) new_id (map drop_content e.artifacts) here);
        token_usage =
            All-append _ db.token_usage _ (Refers-append prior new db.token_usage h.token_usage)
              (Refers-rows_of (prior ++ new ∷ []) new_id (listed e.token_usage) here);
        execution_tags = Refers-append prior new db.execution_tags h.execution_tags;
      }

  saved-log : log_of saved ≡ map (view db) prior ++ new_run key now e ∷ []
  saved-log =
      let fresh = has_id-next_id prior in
      map-append (view saved) prior (new_row new_id key now e ∷ [])
      ∙ rw
          (
            map-All (λ s. same new_id s.id ≡ false) (view saved) (view db) prior
                (λ s k.
                  rw
                    (
                      owned-others db.artifacts new_id (map drop_content e.artifacts) s.id k,
                      owned-others db.token_usage new_id (listed e.token_usage) s.id k,
                    )
                    refl)
                (any-All (λ s. same new_id s.id) prior fresh),
            owned-new db.artifacts new_id (map drop_content e.artifacts) prior fresh h.artifacts,
            owned-new db.token_usage new_id (listed e.token_usage) prior fresh h.token_usage,
            owned-Refers new_id prior db.execution_tags fresh h.execution_tags,
            first-listed e.token_usage,
          )
          refl

  save_row-Matches :
      Matches (save_row e.call_identity e key db (insert_execution key now e prior)) (
        if any (λ r. r.execution_id == e.execution_id) (map (view db) prior)
        then err (store_consistency "store integrity violation")
        else ok (map (view db) prior ++ new_run key now e ∷ []))
  unfolding insert_execution insert_artifacts
  save_row-Matches =
      rw (taken-view db e.execution_id prior)
        (elim (Bool-cases (any (λ r. r.execution_id == e.execution_id) prior)) [
          | inl k ↦ rw k refl
          | inr k ↦
              rw
                (
                  k,
                  insert_token_usage-fresh new_id e.token_usage prior db.token_usage
                      (has_id-next_id prior) h.token_usage,
                )
                (saved-Integrity k, saved-log)
        ])

taken-supersede :
    (x key : String) (now : Timestamp) (log : Log)
    → any (λ r. r.execution_id == x) (map (supersede_run key now) log)
      ≡ any (λ r. r.execution_id == x) log
taken-supersede x key now [] = refl
taken-supersede x key now (r ∷ log) = ground (arith, taken-supersede x key now log)

pub save-Matches :
    (sha256 : List ℕ → String) (now : Timestamp) (e : MlExecution) (db : Database)
    → Integrity db
    → Matches
        (Sqlite.save sha256 now e db)
        (Log.save (generate_key sha256 e.call_identity) now e (log_of db))
unfolding Sqlite.save Log.save
save-Matches sha256 now e db h =
    let key = generate_key sha256 e.call_identity in
    elim (Bool-cases (is_servable e)) [
      | inl k ↦
          rw
            (
              k,
              sym (taken-supersede e.execution_id key now (log_of db)),
              sym (supersede-log key now db),
            )
            (save_row-Matches db (supersede_prior_current key now db.executions) key now e
              (superseded-Integrity key now db h))
      | inr k ↦ rw k (save_row-Matches db db.executions key now e h)
    ]
