-- ===== src/Report/Conservation.antt =====
-- session_report.py: the totals of a report and the sums over its rows.
use generic_ml_cache.Prelude.{
  ℕ, ◌+◌, ◌≤◌, ◌≡◌, refl, ◌∙◌, String, Option, List, [], ◌∷◌, arith, sum_of, length,
}
use generic_ml_cache.Dict.{Dict}
use generic_ml_cache.Domain.{TokenUsage}
use generic_ml_cache.Report.Tables.Sums.{table_sum, sum-change_default, sum-sorted_table, sum-map}
use generic_ml_cache.Report.{
  SessionEventRow, SessionReport, ModelUsage, DayActivity, ModelCounts, DayCounts, Tally, Kind, hit,
  executed, other, start, count_day, count_model, count_totals, enter_row, count_row, count_rows,
  model_usage, day_activity, build_session_report, kind_of, usage_of, no_model_counts,
  no_day_counts, spend,
}

-- The totals of the loop are the sums of the two tables.
record IsBalanced (t : Tally) : Type 0 where
  pub executions_by_model : table_sum (λ (m : ModelCounts). m.executions) t.models ≡ t.executions
  pub hits_by_model : table_sum (λ (m : ModelCounts). m.hits) t.models ≡ t.hits
  pub invocations_by_day : table_sum (λ (d : DayCounts). d.invocations) t.days ≡ t.invocations
  pub executions_by_day : table_sum (λ (d : DayCounts). d.executions) t.days ≡ t.executions
  pub hits_by_day : table_sum (λ (d : DayCounts). d.hits) t.days ≡ t.hits
  pub known : t.unknown ≤ t.executions
  pub bounded : t.executions + t.hits ≤ t.invocations

abbrev hit_count : Kind → ℕ
hit_count hit = 1
hit_count executed = 0
hit_count other = 0

abbrev executed_count : Kind → ℕ
executed_count hit = 0
executed_count executed = 1
executed_count other = 0

count_day-lem :
    (k : Kind) (d : DayCounts)
    → ((count_day k d).invocations ≡ 1 + d.invocations)
      × ((count_day k d).executions ≡ executed_count k + d.executions)
      × ((count_day k d).hits ≡ hit_count k + d.hits)
unfolding count_day
count_day-lem hit d = (omega arith, omega arith, omega arith)
count_day-lem executed d = (omega arith, omega arith, omega arith)
count_day-lem other d = (omega arith, omega arith, omega arith)

count_model-lem :
    (k : Kind) (u : Option TokenUsage) (m : ModelCounts)
    → ((count_model k u m).executions ≡ executed_count k + m.executions)
      × ((count_model k u m).hits ≡ hit_count k + m.hits)
unfolding count_model spend
count_model-lem hit u m = (omega arith, omega arith)
count_model-lem executed (Option.none) m = (omega arith, omega arith)
count_model-lem executed (Option.some u) m = (ground arith, ground arith)
count_model-lem other u m = (omega arith, omega arith)

-- What the kind of a row adds to the totals.
record IsCounted (k : Kind) (t t' : Tally) : Type 0 where
  pub models : t'.models ≡ t.models
  pub days : t'.days ≡ t.days
  pub invocations : t'.invocations ≡ t.invocations
  pub executions : t'.executions ≡ executed_count k + t.executions
  pub hits : t'.hits ≡ hit_count k + t.hits
  pub unknown : t'.unknown ≤ executed_count k + t.unknown

count_totals-lem :
    (k : Kind) (u : Option TokenUsage) (t : Tally) → IsCounted k t (count_totals k u t)
unfolding count_totals
count_totals-lem hit u t = record {
  models = refl;
  days = refl;
  invocations = refl;
  executions = omega arith;
  hits = omega arith;
  unknown = omega arith;
}
count_totals-lem executed u t = record {
  models = refl;
  days = refl;
  invocations = refl;
  executions = omega arith;
  hits = omega arith;
  unknown = ground arith;
}
count_totals-lem other u t = record {
  models = refl;
  days = refl;
  invocations = refl;
  executions = omega arith;
  hits = omega arith;
  unknown = omega arith;
}

kind_bound : (k : Kind) → executed_count k + hit_count k ≤ 1
kind_bound hit = omega arith
kind_bound executed = omega arith
kind_bound other = omega arith

module _ (usage_by_key : Dict TokenUsage) where
  count_row-IsBalanced :
      (row : SessionEventRow) (t : Tally) → IsBalanced t → IsBalanced (count_row usage_by_key row t)
  unfolding count_row enter_row
  count_row-IsBalanced row t b =
      let k = kind_of row.event in
      let u = usage_of usage_by_key row.execution_key in
      let c = count_totals-lem k u (enter_row k u row t) in
      record {
        executions_by_model =
            rw (c.models, c.executions)
              (omega (
                arith,
                b.executions_by_model,
                sum-change_default (λ (m : ModelCounts). m.executions) _ _ no_model_counts
                    (count_model k u) (executed_count k) t.models (λ m. (count_model-lem k u m).0)
                    refl,
              ));
        hits_by_model =
            rw (c.models, c.hits)
              (omega (
                arith,
                b.hits_by_model,
                sum-change_default (λ (m : ModelCounts). m.hits) _ _ no_model_counts
                    (count_model k u) (hit_count k) t.models (λ m. (count_model-lem k u m).1) refl,
              ));
        invocations_by_day =
            rw (c.days, c.invocations)
              (omega (
                arith,
                b.invocations_by_day,
                sum-change_default (λ (d : DayCounts). d.invocations) _ _ no_day_counts
                    (count_day k) 1 t.days (λ d. (count_day-lem k d).0) refl,
              ));
        executions_by_day =
            rw (c.days, c.executions)
              (omega (
                arith,
                b.executions_by_day,
                sum-change_default (λ (d : DayCounts). d.executions) _ _ no_day_counts (count_day k)
                    (executed_count k) t.days (λ d. (count_day-lem k d).1) refl,
              ));
        hits_by_day =
            rw (c.days, c.hits)
              (omega (
                arith,
                b.hits_by_day,
                sum-change_default (λ (d : DayCounts). d.hits) _ _ no_day_counts (count_day k)
                    (hit_count k) t.days (λ d. (count_day-lem k d).2) refl,
              ));
        known = omega (arith, b.known, c.unknown, c.executions);
        bounded = omega (arith, b.bounded, c.executions, c.hits, c.invocations, kind_bound k);
      }

  count_rows-IsBalanced :
      (rows : List SessionEventRow) (t : Tally)
      → IsBalanced t
      → IsBalanced (count_rows usage_by_key rows t)
  unfolding count_rows
  count_rows-IsBalanced [] t b = b
  count_rows-IsBalanced (row ∷ rows) t b =
      count_rows-IsBalanced rows (count_row usage_by_key row t) (count_row-IsBalanced row t b)

  count_rows-invocations :
      (rows : List SessionEventRow) (t : Tally)
      → (count_rows usage_by_key rows t).invocations ≡ length rows + t.invocations
  unfolding count_rows count_row enter_row
  count_rows-invocations [] t = omega arith
  count_rows-invocations (row ∷ rows) t = omega (
    arith,
    count_rows-invocations rows (count_row usage_by_key row t),
    (count_totals-lem (kind_of row.event) (usage_of usage_by_key row.execution_key) (
        enter_row (kind_of row.event) (usage_of usage_by_key row.execution_key) row t)).invocations,
  )

-- What a reader may add up in a report of `events`.
pub record AddsUp (events : List SessionEventRow) (report : SessionReport) : Type 0 where
  pub invocations : report.invocations ≡ length events
  pub executions_by_model :
      sum_of (λ (m : ModelUsage). m.executions) report.by_model ≡ report.executions
  pub hits_by_model : sum_of (λ (m : ModelUsage). m.hits) report.by_model ≡ report.hits
  pub invocations_by_day :
      sum_of (λ (d : DayActivity). d.invocations) report.by_day ≡ report.invocations
  pub executions_by_day :
      sum_of (λ (d : DayActivity). d.executions) report.by_day ≡ report.executions
  pub hits_by_day : sum_of (λ (d : DayActivity). d.hits) report.by_day ≡ report.hits
  pub unknown_usage : report.unknown_usage ≤ report.executions
  pub bounded : report.executions + report.hits ≤ report.invocations

-- A report counts each event once: its invocations are the events, the executions and the hits of its
-- models and of its days add up to its totals, as do the invocations of its days, no more executions
-- have unknown usage than there are, and executions and hits together are no more than invocations.
pub build_session_report-AddsUp :
    (session_id : String) (events : List SessionEventRow) (usage_by_key : Dict TokenUsage)
    (failed : ℕ)
    → AddsUp events (build_session_report session_id events usage_by_key failed)
unfolding build_session_report model_usage day_activity
build_session_report-AddsUp session_id events usage_by_key failed =
    let t = count_rows usage_by_key events start in
    let b = count_rows-IsBalanced usage_by_key events start (record {
      executions_by_model = refl;
      hits_by_model = refl;
      invocations_by_day = refl;
      executions_by_day = refl;
      hits_by_day = refl;
      known = omega arith;
      bounded = omega arith;
    }) in
    record {
      invocations = omega (arith, count_rows-invocations usage_by_key events start);
      executions_by_model =
          sum-map model_usage _ _
          ∙ sum-sorted_table (λ (m : ModelCounts). m.executions) _ _
          ∙ b.executions_by_model;
      hits_by_model =
          sum-map model_usage _ _
          ∙ sum-sorted_table (λ (m : ModelCounts). m.hits) _ _
          ∙ b.hits_by_model;
      invocations_by_day =
          sum-map day_activity _ _
          ∙ sum-sorted_table (λ (d : DayCounts). d.invocations) _ _
          ∙ b.invocations_by_day;
      executions_by_day =
          sum-map day_activity _ _
          ∙ sum-sorted_table (λ (d : DayCounts). d.executions) _ _
          ∙ b.executions_by_day;
      hits_by_day =
          sum-map day_activity _ _
          ∙ sum-sorted_table (λ (d : DayCounts). d.hits) _ _
          ∙ b.hits_by_day;
      unknown_usage = b.known;
      bounded = b.bounded;
    }
