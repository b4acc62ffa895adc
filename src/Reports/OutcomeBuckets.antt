-- ===== src/Reports/OutcomeBuckets.antt =====
-- mcp_fuzzer/reports/outcome_buckets.py: the runs of a tool, counted by what was observed. An outcome of
-- the enumeration stands as its text, which is what `_normalized_outcome` takes it for; an exception
-- object in a run stands as any true value.
pub mod Counts
use mcp_server_fuzzer.Prelude.{
  ℕ, suc, ◌+◌, String, Bool, true, false, not, ◌||◌, ◌&&◌, List, [], ◌∷◌, Option, none, some, any,
  ◌==◌, if◌then◌else◌,
}
use mcp_server_fuzzer.Json.{Value, Fields, null, str, obj, get, truthy, equals_text}

pub data Bucket : Type 0 where
  server_rejected accepted_malformed anomaly crashed exceptions safety_blocked : Bucket

pub record Buckets : Type 0 where
  pub rejected_runs : ℕ
  pub accepted_runs : ℕ
  pub anomalous_runs : ℕ
  pub crashed_runs : ℕ
  pub exception_runs : ℕ
  pub blocked_runs : ℕ

abbrev pub no_runs : Buckets
no_runs = record {
  rejected_runs = 0;
  accepted_runs = 0;
  anomalous_runs = 0;
  crashed_runs = 0;
  exception_runs = 0;
  blocked_runs = 0;
}

-- buckets[name] += 1
abbrev pub increment : Bucket → Buckets → Buckets
increment server_rejected b = record b { rejected_runs = suc b.rejected_runs }
increment accepted_malformed b = record b { accepted_runs = suc b.accepted_runs }
increment anomaly b = record b { anomalous_runs = suc b.anomalous_runs }
increment crashed b = record b { crashed_runs = suc b.crashed_runs }
increment exceptions b = record b { exception_runs = suc b.exception_runs }
increment safety_blocked b = record b { blocked_runs = suc b.blocked_runs }

-- _ANOMALY_OUTCOMES
abbrev pub anomaly_outcomes : List String
anomaly_outcomes =
    "transport_error" ∷ "timeout" ∷ "phase_failed" ∷ "mutation_failed" ∷ "oversized_response" ∷ []

-- _normalized_outcome(run) == name
abbrev pub is_outcome : Fields → String → Bool
is_outcome run name = equals_text (get run "outcome") name

abbrev pub run_has_exception : Fields → Bool
run_has_exception run =
    if truthy (get run "safety_blocked") then false else truthy (get run "exception")

-- The bucket that a run counts in; some runs count in none.
pub bucket_of : Value → Option Bucket
bucket_of (obj run) =
    if truthy (get run "safety_blocked") || is_outcome run "safety_blocked"
    then some safety_blocked
    else if is_outcome run "crashed" || equals_text (get run "error") "server_crashed"
    then some crashed
    else if is_outcome run "server_rejected"
    then some server_rejected
    else if is_outcome run "accepted_malformed" || truthy (get run "accepted_malformed")
    then some accepted_malformed
    else if run_has_exception run
    then some exceptions
    else if truthy (get run "error")
        || (truthy (get run "server_error") || any (is_outcome run) anomaly_outcomes)
    then some anomaly
    else none
bucket_of _ = some anomaly

count_run : Value → Buckets → Buckets
unfolding bucket_of
count_run run buckets = elim (bucket_of run) [
  | none ↦ buckets
  | some bucket ↦ increment bucket buckets
]

count_runs : List Value → Buckets → Buckets
unfolding count_run
count_runs [] buckets = buckets
count_runs (run ∷ runs) buckets = count_runs runs (count_run run buckets)

pub summarize_tool_outcomes : List Value → Buckets
unfolding count_runs
summarize_tool_outcomes runs = count_runs runs no_runs
