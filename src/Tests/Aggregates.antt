-- ===== src/Tests/Aggregates.antt =====
-- Reports, keys and eviction order on small inputs.
use mathlib.Core.List.{Perm}
use generic_ml_cache.Prelude.{
  ℕ, String, ◌≡◌, refl, none, some, List, [], ◌∷◌, ◌++◌, ◌-◌, ◌<◌, map, arith,
}
use generic_ml_cache.Dict.{Dict}
use generic_ml_cache.Text.{utf8}
use generic_ml_cache.Checksum.Injectivity.{HasPlainKeys, serialize-injective}
use generic_ml_cache.Domain.{TokenUsage}
use generic_ml_cache.Domain.Identity.{ManagedCallIdentity, managed, generate_key}
use generic_ml_cache.Domain.Identity.Collision.{joined, generate_key-joined}
use generic_ml_cache.Tests.{digest}
use generic_ml_cache.Repository.Retention.{ExecutionSizeEntry}
use generic_ml_cache.Purge.Eviction.{keys_to_evict, sorted_entries}
use generic_ml_cache.Purge.Eviction.Order.{AreOlder, keys_to_evict-AreOlder}
use generic_ml_cache.Repository.Sizes.{entry_bytes}
use generic_ml_cache.Report.{SessionEventRow, build_session_report}
use generic_ml_cache.Report.Conservation.{AddsUp, build_session_report-AddsUp}

abbrev event : String → String → String → SessionEventRow
event ts name model = record {
  ts = ts;
  event = name;
  client = "claude";
  model = model;
  execution_key = some "k";
}

abbrev events : List SessionEventRow
events =
    event "2026-01-01T10" "record" "m"
    ∷ event "2026-01-01T11" "hit" "m"
    ∷ event "2026-01-02T09" "run" "n"
    ∷ []

abbrev usage : Dict TokenUsage
usage =
    (
      "k",
      record {
        input_tokens = some 7;
        output_tokens = none;
        cache_read_tokens = none;
        cache_write_tokens = none;
        reasoning_tokens = none;
      },
    )
    ∷ []

build_session_report-AddsUp_example : AddsUp events (build_session_report "s" events usage 0)
build_session_report-AddsUp_example = build_session_report-AddsUp "s" events usage 0

abbrev entry : String → ℕ → ExecutionSizeEntry
entry key size = record { execution_key = key; total_size_bytes = size; created_at = "" }

abbrev accesses : Dict ℕ
accesses = ("k", 5) ∷ ("l", 3) ∷ []

abbrev entries : List ExecutionSizeEntry
entries = entry "k" 10 ∷ entry "l" 20 ∷ []

keys_to_evict-AreOlder_example :
    (evicted kept : List ExecutionSizeEntry) × Perm (evicted ++ kept) entries
    × (keys_to_evict 15 30 (sorted_entries (λ text. none) accesses entries)
        ≡ map (λ e. e.execution_key) evicted)
    × AreOlder (λ text. none) accesses evicted kept
    × ((before after : List ExecutionSizeEntry) (e : ExecutionSizeEntry)
        → evicted ≡ before ++ e ∷ after
        → 15 < 30 - entry_bytes before)
keys_to_evict-AreOlder_example = keys_to_evict-AreOlder (λ text. none) accesses 15 30 entries

abbrev fields : Dict String
fields = ("a", "api") ∷ ("b", "m") ∷ []

fields-HasPlainKeys : HasPlainKeys fields
unfolding utf8
fields-HasPlainKeys = ((λ p. omega (arith, p), tt), ((λ p. omega (arith, p), tt), tt))

serialize-injective_example : fields ≡ fields
serialize-injective_example =
    serialize-injective fields fields fields-HasPlainKeys fields-HasPlainKeys refl

abbrev managed_call : ManagedCallIdentity
managed_call = record {
  client = "claude";
  model = "m";
  effort = "high";
  context_fingerprint = "c";
  prompt_fingerprint = "p";
  input_file_fingerprints = [];
  client_args_fingerprint = none;
  system_fingerprint = none;
  grants = [];
  allow_paths = [];
}

generate_key-joined_example :
    generate_key digest
      (managed (record managed_call { allow_paths = joined ("a" ∷ "b" ∷ []) ∷ [] }))
    ≡ generate_key digest (managed (record managed_call { allow_paths = "a" ∷ "b" ∷ [] }))
generate_key-joined_example = generate_key-joined digest managed_call "a" ("b" ∷ [])
