-- ===== src/Report.antt =====
-- domain/service/session_report.py of packages/core, with the rows of domain/model/session: the
-- roll-up of a session's journal events. An event is its text in the journal, and a row whose event
-- is none of the known ones counts as an invocation only.
mod Rows
pub mod Tables
pub mod Conservation
pub mod Sessions
use generic_ml_cache.Prelude.{
  ℕ, zero, suc, ◌+◌, String, Bool, true, false, ◌&&◌, ◌||◌, Option, none, some, List, [], ◌∷◌, map,
  ◌==◌, is_some, any, if◌then◌else◌,
}
pub use Rows.{SessionEventRow, ModelUsage, DayActivity, SessionReport}
use Tables.{change_default, sorted_table, same_axis, axis_before}
use generic_ml_cache.Dict.{Dict, lookup}
use generic_ml_cache.Text.{text_leb}
use generic_ml_cache.Domain.{TokenUsage}

-- EXECUTED_EVENTS
abbrev pub executed_events : List String
executed_events = "record" ∷ "run" ∷ "would_hit" ∷ "would_miss" ∷ []

-- `value or 0`
abbrev pub or_zero : Option ℕ → ℕ
or_zero none = 0
or_zero (some n) = n

-- `_tokens`
unfoldable pub tokens : Option TokenUsage → Option ℕ
tokens none = none
tokens (some u) =
    if is_some u.input_tokens || is_some u.output_tokens
    then some (or_zero u.input_tokens + or_zero u.output_tokens)
    else none

-- text[:n]
unfoldable pub take_chars : ℕ → String → String
take_chars zero s = ""
take_chars (suc n) String.[] = ""
take_chars (suc n) (String.◌∷◌ c s) = String.◌∷◌ c (take_chars n s)

-- The two inner dicts, with the names of their keys.
pub record ModelCounts : Type 0 where
  pub in_ : ℕ
  pub out : ℕ
  pub cache_read : ℕ
  pub cache_write : ℕ
  pub reasoning : ℕ
  pub saved : ℕ
  pub executions : ℕ
  pub hits : ℕ

pub record DayCounts : Type 0 where
  pub invocations : ℕ
  pub executions : ℕ
  pub hits : ℕ

abbrev pub no_model_counts : ModelCounts
no_model_counts = record {
  in_ = 0;
  out = 0;
  cache_read = 0;
  cache_write = 0;
  reasoning = 0;
  saved = 0;
  executions = 0;
  hits = 0;
}

abbrev pub no_day_counts : DayCounts
no_day_counts = record { invocations = 0; executions = 0; hits = 0 }

-- The local variables of the loop.
pub record Tally : Type 0 where
  pub models : List ((String × String) × ModelCounts)
  pub days : List (String × DayCounts)
  pub invocations : ℕ
  pub executions : ℕ
  pub hits : ℕ
  pub unknown : ℕ

abbrev pub start : Tally
start = record { models = []; days = []; invocations = 0; executions = 0; hits = 0; unknown = 0 }

-- `usage_by_key.get(row.execution_key) if row.execution_key else None`
unfoldable pub usage_of : Dict TokenUsage → Option String → Option TokenUsage
usage_of usage_by_key none = none
usage_of usage_by_key (some key) = if key == "" then none else lookup key usage_by_key

-- The three ways a row is counted.
pub data Kind : Type 0 where
  hit executed other : Kind

unfoldable pub kind_of : String → Kind
kind_of event =
    if event == "hit"
    then hit
    else if any (λ e. event == e) executed_events
    then executed
    else other

unfoldable pub count_day : Kind → DayCounts → DayCounts
count_day hit d = record d { invocations = suc d.invocations; hits = suc d.hits }
count_day executed d = record d { invocations = suc d.invocations; executions = suc d.executions }
count_day other d = record d { invocations = suc d.invocations }

spend : Option TokenUsage → ModelCounts → ModelCounts
spend none m = m
spend (some u) m = record m {
  in_ = m.in_ + or_zero u.input_tokens;
  out = m.out + or_zero u.output_tokens;
  cache_read = m.cache_read + or_zero u.cache_read_tokens;
  cache_write = m.cache_write + or_zero u.cache_write_tokens;
  reasoning = m.reasoning + or_zero u.reasoning_tokens;
}

unfoldable pub count_model : Kind → Option TokenUsage → ModelCounts → ModelCounts
unfolding tokens spend
count_model hit usage m = record m { hits = suc m.hits; saved = m.saved + or_zero (tokens usage) }
count_model executed usage m =
    let counted = record m { executions = suc m.executions } in
    if is_some (tokens usage) then spend usage counted else counted
count_model other usage m = m

unfoldable pub count_totals : Kind → Option TokenUsage → Tally → Tally
unfolding tokens
count_totals hit usage t = record t { hits = suc t.hits }
count_totals executed usage t = record t {
  executions = suc t.executions;
  unknown = (if is_some (tokens usage) then t.unknown else suc t.unknown);
}
count_totals other usage t = t

-- The row, entered in the tables of days and of models.
unfoldable pub enter_row : Kind → Option TokenUsage → SessionEventRow → Tally → Tally
unfolding take_chars change_default count_day count_model
enter_row kind usage row t = record t {
  invocations = suc t.invocations;
  days =
      change_default (λ a b. a == b) (take_chars 10 row.ts) no_day_counts (count_day kind) t.days;
  models =
      change_default same_axis (row.client, row.model) no_model_counts (count_model kind usage)
        t.models;
}

-- One round of the loop.
unfoldable pub count_row : Dict TokenUsage → SessionEventRow → Tally → Tally
unfolding enter_row kind_of count_totals usage_of
count_row usage_by_key row t =
    let kind = kind_of row.event in
    let usage = usage_of usage_by_key row.execution_key in
    count_totals kind usage (enter_row kind usage row t)

unfoldable pub count_rows : Dict TokenUsage → List SessionEventRow → Tally → Tally
unfolding count_row
count_rows usage_by_key [] t = t
count_rows usage_by_key (row ∷ rows) t = count_rows usage_by_key rows (count_row usage_by_key row t)

unfoldable pub model_usage : (String × String) × ModelCounts → ModelUsage
model_usage ((client, model), counts) = record {
  client = client;
  model = model;
  spent_input = counts.in_;
  spent_output = counts.out;
  cache_read_tokens = counts.cache_read;
  cache_write_tokens = counts.cache_write;
  reasoning_tokens = counts.reasoning;
  saved_tokens = counts.saved;
  executions = counts.executions;
  hits = counts.hits;
}

unfoldable pub day_activity : String × DayCounts → DayActivity
day_activity (day, counts) = record {
  day = day;
  invocations = counts.invocations;
  executions = counts.executions;
  hits = counts.hits;
}

abbrev pub first_day : List DayActivity → Option String
first_day [] = none
first_day (d ∷ days) = some d.day

abbrev pub last_day : List DayActivity → Option String
last_day [] = none
last_day (d ∷ []) = some d.day
last_day (d ∷ e ∷ days) = last_day (e ∷ days)

unfoldable pub build_session_report :
    String → List SessionEventRow → Dict TokenUsage → ℕ → SessionReport
unfolding count_rows sorted_table model_usage day_activity
build_session_report session_id events usage_by_key failed_persistence_count =
    let t = count_rows usage_by_key events start in
    let by_day = map day_activity (sorted_table text_leb t.days) in
    record {
      session_id = session_id;
      invocations = t.invocations;
      executions = t.executions;
      hits = t.hits;
      unknown_usage = t.unknown;
      span_start = first_day by_day;
      span_end = last_day by_day;
      by_model = map model_usage (sorted_table axis_before t.models);
      by_day = by_day;
      runs_with_failed_persistence = failed_persistence_count;
    }
