-- ===== src/Report/Sessions.antt =====
-- application/usecase/session_report_service.py of packages/core: a report on one session, or on all
-- the sessions that carry a tag. The journal's queries are the ports' answers. A set of keys is a
-- list without duplicates: only lookups and the size of an intersection depend on it.
use generic_ml_cache.Prelude.{
  ℕ, suc, String, Option, none, some, List, [], ◌∷◌, ◌++◌, ◌==◌, length, any, if◌then◌else◌,
}
use generic_ml_cache.Dict.{Dict, insert}
use generic_ml_cache.Domain.{TokenUsage, MlExecution}
use generic_ml_cache.Domain.Identity.{frozenset}
use generic_ml_cache.Repository.{Repository, find_current}
use generic_ml_cache.Repository.Annotations.{UnpersistedRun, runs_awaiting_persistence}
use generic_ml_cache.Report.{SessionEventRow, SessionReport, build_session_report}

pub record TagSessionReport : Type 0 where
  pub tag : String
  pub report : SessionReport
  pub session_count : ℕ

pub record ReportPorts : Type 0 where
  pub session_events : String → List SessionEventRow
  pub session_ids_for_tag : String → List String

abbrev with_key : Option String → List String → List String
with_key none keys = keys
with_key (some key) keys = if key == "" then keys else key ∷ keys

event_keys : List SessionEventRow → List String
event_keys [] = []
event_keys (e ∷ events) = with_key e.execution_key (event_keys events)

-- {e.execution_key for e in events if e.execution_key}
unfoldable pub session_keys : List SessionEventRow → List String
unfolding event_keys frozenset
session_keys events = frozenset (event_keys events)

abbrev put_usage : String → Option MlExecution → Dict TokenUsage → Dict TokenUsage
put_usage key none usage = usage
put_usage key (some e) usage = elim e.token_usage [ none ↦ usage | some u ↦ insert key u usage ]

usages : Repository → List String → Dict TokenUsage
unfolding find_current insert
usages r [] = []
usages r (key ∷ keys) = put_usage key (find_current key r) (usages r keys)

-- `_usage_by_key`
unfoldable pub usage_by_key : Repository → List SessionEventRow → Dict TokenUsage
unfolding usages session_keys
usage_by_key r events = usages r (session_keys events)

count_awaiting : List UnpersistedRun → List String → ℕ
count_awaiting runs [] = 0
count_awaiting runs (key ∷ keys) =
    let rest = count_awaiting runs keys in
    if any (λ run. run.execution_key == key) runs then suc rest else rest

-- `_failed_persistence_count`
unfoldable pub failed_persistence_count : Repository → List SessionEventRow → ℕ
unfolding count_awaiting session_keys runs_awaiting_persistence
failed_persistence_count r events =
    count_awaiting (runs_awaiting_persistence r) (session_keys events)

report_on : Repository → String → List SessionEventRow → SessionReport
unfolding build_session_report usage_by_key failed_persistence_count
report_on r name events =
    build_session_report name events (usage_by_key r events) (failed_persistence_count r events)

unfoldable pub report_for_session : ReportPorts → Repository → String → SessionReport
unfolding report_on
report_for_session ports r session_id = report_on r session_id (ports.session_events session_id)

all_events : ReportPorts → List String → List SessionEventRow
all_events ports [] = []
all_events ports (id ∷ ids) = ports.session_events id ++ all_events ports ids

unfoldable pub report_for_tag : ReportPorts → Repository → String → TagSessionReport
unfolding report_on all_events
report_for_tag ports r tag =
    let session_ids = ports.session_ids_for_tag tag in
    record {
      tag = tag;
      report = report_on r tag (all_events ports session_ids);
      session_count = length session_ids;
    }
