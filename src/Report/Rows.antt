-- ===== src/Report/Rows.antt =====
-- domain/model/session of packages/core: a journal event of a session, and the report's rows.
use generic_ml_cache.Prelude.{ℕ, String, Option, List}

pub record SessionEventRow : Type 0 where
  pub ts : String
  pub event : String
  pub client : String
  pub model : String
  pub execution_key : Option String

pub record ModelUsage : Type 0 where
  pub client : String
  pub model : String
  pub spent_input : ℕ
  pub spent_output : ℕ
  pub cache_read_tokens : ℕ
  pub cache_write_tokens : ℕ
  pub reasoning_tokens : ℕ
  pub saved_tokens : ℕ
  pub executions : ℕ
  pub hits : ℕ

pub record DayActivity : Type 0 where
  pub day : String
  pub invocations : ℕ
  pub executions : ℕ
  pub hits : ℕ

pub record SessionReport : Type 0 where
  pub session_id : String
  pub invocations : ℕ
  pub executions : ℕ
  pub hits : ℕ
  pub unknown_usage : ℕ
  pub span_start : Option String
  pub span_end : Option String
  pub by_model : List ModelUsage
  pub by_day : List DayActivity
  pub runs_with_failed_persistence : ℕ
