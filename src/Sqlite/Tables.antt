-- ===== src/Sqlite/Tables.antt =====
-- The rows and the statements that packages/adapters'
-- adapter/outbound/persistence/sqlite/execution_repository.py runs on them: SELECT, INSERT, UPDATE
-- and DELETE on the tables of migrations/0001.initial-schema.sql.
use Prim.Native.Nat.{compare, Ordering}
use Prim.Native.Char.{code}
use generic_ml_cache.Prelude.{
  ℕ, suc, String, Bool, true, false, ◌&&◌, not, Option, none, some, List, [], ◌∷◌, any, ◌==◌, ltb,
  leb, ◌+◌, is_some, if◌then◌else◌,
}
use generic_ml_cache.Domain.{Timestamp, ExecutionKind, ExecutionState, ExecutionFailure, is_success}

-- A row of `executions`; execution_id is never NULL in a row that this code writes.
pub record Row : Type 0 where
  pub id : ℕ
  pub execution_key : String
  pub kind : ExecutionKind
  pub state : ExecutionState
  pub output_persisted : Bool
  pub superseded_at : Option Timestamp
  pub failure : Option ExecutionFailure
  pub created_at : Timestamp
  pub execution_id : String

-- A table whose rows refer to an execution by its row id.
abbrev pub Table : Type 0 → Type 0
Table A = List (ℕ × A)

-- a = b
abbrev pub same : ℕ → ℕ → Bool
same a b = elim (compare a b) [ Ordering.eq ↦ true | _ ↦ false ]

module _ {A : Type 0} where
  -- SELECT … WHERE execution_id = ? ORDER BY id
  unfoldable pub owned : ℕ → Table A → List A
  owned id [] = []
  owned id ((owner, a) ∷ rows) =
      let rest = owned id rows in if same id owner then a ∷ rest else rest

  -- the values of an INSERT
  unfoldable pub rows_of : ℕ → List A → Table A
  rows_of id [] = []
  rows_of id (a ∷ as_) = (id, a) ∷ rows_of id as_

  -- DELETE FROM … WHERE the execution_id meets a condition
  unfoldable pub without : (ℕ → Bool) → Table A → Table A
  without gone [] = []
  without gone ((owner, a) ∷ rows) =
      let rest = without gone rows in if gone owner then rest else (owner, a) ∷ rest

  -- UPDATE … SET … WHERE execution_id = ?
  unfoldable pub update_owned : ℕ → (A → A) → Table A → Table A
  update_owned id f [] = []
  update_owned id f ((owner, a) ∷ rows) =
      (owner, (if same id owner then f a else a)) ∷ update_owned id f rows

abbrev pub max_id : List Row → ℕ
max_id [] = 0
max_id (r ∷ rows) = let rest = max_id rows in if ltb rest r.id then r.id else rest

-- The row id that SQLite gives to a new row: one more than the largest.
unfoldable pub next_id : List Row → ℕ
next_id rows = suc (max_id rows)

-- SELECT … FROM executions WHERE execution_id = ?
unfoldable pub find_row : String → List Row → Option Row
find_row execution_id [] = none
find_row execution_id (r ∷ rows) =
    if r.execution_id == execution_id then some r else find_row execution_id rows

-- DELETE FROM executions, with the condition that keeps a row
unfoldable pub keep_rows : (Row → Bool) → List Row → List Row
keep_rows kept [] = []
keep_rows kept (r ∷ rows) = let rest = keep_rows kept rows in if kept r then r ∷ rest else rest

-- The code of a character, where `LIKE` does not tell an ASCII capital from its small letter.
abbrev folded : ℕ → ℕ
folded c = if leb 65 c && leb c 90 then c + 32 else c

-- text LIKE prefix || '%', for a prefix without a wildcard
unfoldable pub like_prefix : String → String → Bool
like_prefix text String.[] = true
like_prefix String.[] (String.◌∷◌ c prefix) = false
like_prefix (String.◌∷◌ d text) (String.◌∷◌ c prefix) =
    let rest = like_prefix text prefix in same (folded (code d)) (folded (code c)) && rest

-- SELECT COUNT(*) FROM executions WHERE execution_key = ?, as a test
unfoldable pub has_key : String → List Row → Bool
has_key key rows = any (λ r. r.execution_key == key) rows

-- state = 'success' AND output_persisted = 1 AND superseded_at IS NULL
unfoldable pub row_servable : Row → Bool
row_servable r = is_success r.state && (r.output_persisted && not (is_some r.superseded_at))
