-- ===== src/Reports/SpecSummary.antt =====
-- `_collect_spec_checks` and `_build_spec_summary` of mcp_fuzzer/reports/collector.py: the checks of the
-- specification, counted in all and by specification.
pub mod Balance
use mcp_server_fuzzer.Prelude.{
  ℕ, suc, ◌+◌, String, Bool, true, false, ◌||◌, List, [], ◌∷◌, ◌++◌, any, ◌==◌, if◌then◌else◌,
  Result, ok, err, ◌>>=◌,
}
use mcp_server_fuzzer.Json.{Value, Fields, str, arr, obj, elems, get, has, truthy, is_hashable}
use mcp_server_fuzzer.Json.Keys.{Keys}
use mcp_server_fuzzer.Reports.Collector.{Runs, ReportCollector}

-- The exceptions that the summary can raise: a check that is no dict, an id that cannot be hashed.
pub data SummaryError : Type 0 where
  attribute_error : SummaryError
  type_error : SummaryError

pub record Counts : Type 0 where
  pub total : ℕ
  pub failed : ℕ
  pub warned : ℕ
  pub passed : ℕ

abbrev pub no_counts : Counts
no_counts = record { total = 0; failed = 0; warned = 0; passed = 0 }

pub data Verdict : Type 0 where
  is_failed : Verdict
  is_warned : Verdict
  is_passed : Verdict

unfoldable pub verdict_of : String → Verdict
verdict_of status =
    if any (λ s. s == status) ("FAIL" ∷ "FAILURE" ∷ "ERROR" ∷ [])
    then is_failed
    else if any (λ s. s == status) ("WARN" ∷ "WARNING" ∷ [])
    then is_warned
    else is_passed

-- total and one of the others
abbrev pub count_verdict : Verdict → Counts → Counts
count_verdict is_failed c = record c { total = suc c.total; failed = suc c.failed }
count_verdict is_warned c = record c { total = suc c.total; warned = suc c.warned }
count_verdict is_passed c = record c { total = suc c.total; passed = suc c.passed }

-- A bucket of by_spec_id.
pub record SpecBucket : Type 0 where
  pub spec_url : Value
  pub counts : Counts

pub record SpecSummary : Type 0 where
  pub totals : Counts
  pub by_spec_id : List (Value × SpecBucket)

abbrev payload_checks : Value → List Value
payload_checks (arr checks) = elems checks
payload_checks _ = []

unfoldable pub checks_of_runs : List Fields → List Value
checks_of_runs [] = []
checks_of_runs (run ∷ runs) = payload_checks (get run "spec_checks") ++ checks_of_runs runs

unfoldable pub checks_of_results : Runs → List Value
checks_of_results [] = []
checks_of_results ((name, runs) ∷ results) = checks_of_runs runs ++ checks_of_results results

pub collect_spec_checks : ReportCollector → List Value
collect_spec_checks c =
    c.spec_checks ++ (checks_of_results c.tool_results ++ checks_of_results c.protocol_results)

-- check.get("spec_id") or "UNKNOWN"
abbrev pub spec_id_of : Fields → Value
spec_id_of check = if truthy (get check "spec_id") then get check "spec_id" else str "UNKNOWN"

-- `upper_text` is Python's str and upper.
module _ (keys : Keys) (upper_text : Value → String) where
  abbrev pub verdict_on : Fields → Verdict
  verdict_on check =
      verdict_of (upper_text (if has check "status" then get check "status" else str ""))

  abbrev counted : Fields → SpecBucket → SpecBucket
  counted check bucket = record bucket { counts = count_verdict (verdict_on check) bucket.counts }

  -- setdefault(spec_id, ...) and the counters of the bucket
  unfoldable pub count_in_bucket :
      Value → Fields → List (Value × SpecBucket) → List (Value × SpecBucket)
  count_in_bucket spec_id check [] =
      (spec_id, counted check (record { spec_url = get check "spec_url"; counts = no_counts })) ∷ []
  count_in_bucket spec_id check ((k, bucket) ∷ buckets) =
      if keys.same k spec_id
      then (k, counted check bucket) ∷ buckets
      else (k, bucket) ∷ count_in_bucket spec_id check buckets

  abbrev pub count_dict : Fields → SpecSummary → SpecSummary
  count_dict check s = record {
    totals = count_verdict (verdict_on check) s.totals;
    by_spec_id = count_in_bucket (spec_id_of check) check s.by_spec_id;
  }

  abbrev pub count_check : Value → SpecSummary → Result SummaryError SpecSummary
  count_check (obj check) s =
      if is_hashable (spec_id_of check) then ok (count_dict check s) else err type_error
  count_check _ s = err attribute_error

  unfoldable pub count_checks : List Value → SpecSummary → Result SummaryError SpecSummary
  count_checks [] s = ok s
  count_checks (check ∷ checks) s = do next ← count_check check s; count_checks checks next

  unfoldable pub build_spec_summary : ReportCollector → Result SummaryError SpecSummary
  build_spec_summary c =
      count_checks (collect_spec_checks c) (record { totals = no_counts; by_spec_id = [] })
