-- ===== src/Reports/Collector.antt =====
-- mcp_fuzzer/reports/collector.py and the records of models.py: collecting runs, and summing them up.
pub mod Totals
use mcp_server_fuzzer.Prelude.{
  ℕ, suc, ◌+◌, ◌-◌, String, Bool, true, false, not, ◌&&◌, ◌||◌, List, [], ◌∷◌, ◌++◌, Option, none,
  some, any, length, ltb, ◌==◌, if◌then◌else◌, Result, ok, err, ◌>>=◌,
}
use mcp_server_fuzzer.Json.{
  pos, Value, Fields, end, field, int, str, arr, obj, elems, get, has, truthy, is_hashable,
}
use mcp_server_fuzzer.Json.Keys.{Keys}
use mcp_server_fuzzer.Json.Table.{lookup, insert}

-- `RunRecord` is its payload.
abbrev pub has_exception : Fields → Bool
has_exception run = has run "exception"

-- not payload.get("success", True)
abbrev pub has_no_success : Fields → Bool
has_no_success run = has run "success" && not (truthy (get run "success"))

unfoldable pub has_error : Fields → Bool
has_error run =
    if has_exception run
    then true
    else if has_no_success run
    then true
    else truthy (get run "error")

abbrev pub is_safety_blocked : Fields → Bool
is_safety_blocked run = truthy (get run "safety_blocked")

-- dict[str, list[RunRecord]]
abbrev pub Runs : Type 0
Runs = List (String × List Fields)

pub record ReportCollector : Type 0 where
  pub tool_results : Runs
  pub protocol_results : Runs
  pub spec_checks : List Value

abbrev or_nil : Option (List Fields) → List Fields
or_nil none = []
or_nil (some runs) = runs

-- results.setdefault(name, []).extend(runs)
unfoldable pub add_runs : String → List Fields → Runs → Runs
add_runs name runs results = insert name (or_nil (lookup name results) ++ runs) results

pub add_tool_results : String → List Fields → ReportCollector → ReportCollector
add_tool_results name runs c = record c { tool_results = add_runs name runs c.tool_results }

pub add_protocol_results : String → List Fields → ReportCollector → ReportCollector
add_protocol_results name runs c = record c {
  protocol_results = add_runs name runs c.protocol_results;
}

pub add_spec_checks : List Value → ReportCollector → ReportCollector
add_spec_checks checks c = record c { spec_checks = c.spec_checks ++ checks }

-- `ToolSummary` and `ProtocolSummary`, without the rate: runs, errors and exceptions.
pub record Summary : Type 0 where
  pub names : ℕ
  pub total_runs : ℕ
  pub with_errors : ℕ
  pub with_exceptions : ℕ

-- The counters of one run of a tool.
abbrev pub count_tool_run : Fields → Summary → Summary
count_tool_run run s = record s {
  with_errors =
      if has_error run && not (has_exception run) then suc s.with_errors else s.with_errors;
  with_exceptions = if has_exception run then suc s.with_exceptions else s.with_exceptions;
}

-- The counters of one run of a protocol type.
abbrev pub count_protocol_run : Fields → Summary → Summary
count_protocol_run run s =
    if has_exception run
    then record s { with_exceptions = suc s.with_exceptions }
    else if has_no_success run || truthy (get run "error")
    then record s { with_errors = suc s.with_errors }
    else s

unfoldable pub count_each : (Fields → Summary → Summary) → List Fields → Summary → Summary
count_each count [] s = s
count_each count (run ∷ runs) s = count_each count runs (count run s)

abbrev pub add_total : ℕ → Summary → Summary
add_total n s = record s { total_runs = s.total_runs + n }

unfoldable pub count_all : (Fields → Summary → Summary) → Runs → Summary → Summary
count_all count [] s = s
count_all count ((name, runs) ∷ results) s =
    count_all count results (count_each count runs (add_total (length runs) s))

abbrev pub empty_summary : ℕ → Summary
empty_summary names = record { names = names; total_runs = 0; with_errors = 0; with_exceptions = 0 }

unfoldable pub tool_summary : ReportCollector → Summary
tool_summary c = count_all count_tool_run c.tool_results (empty_summary (length c.tool_results))

unfoldable pub protocol_summary : ReportCollector → Summary
protocol_summary c =
    count_all count_protocol_run c.protocol_results (empty_summary (length c.protocol_results))

-- max(total_runs - failures, 0), the successes that `_success_rate` divides by total_runs
unfoldable pub successes : Summary → ℕ
successes s = s.total_runs - (s.with_errors + s.with_exceptions)

-- The keys and values of an error that `collect_errors` lists; `str_of` is Python's str.
module _ (str_of : Value → String) where
  abbrev exception_or_error : Fields → Value
  exception_or_error run =
      if has run "exception"
      then get run "exception"
      else if has run "error"
      then get run "error"
      else str "Unknown tool error"

  pub tool_error : String → ℕ → Fields → Fields
  tool_error name number run = field "type" (str "tool_error") (
      field "tool_name" (str name) (
        field "run_number" (int (pos number)) (
          field "severity" (str (if has_exception run then "high" else "medium")) (
            field "message" (str (str_of (exception_or_error run)))
              (field "arguments" (if has run "args" then get run "args" else obj end) end)))))

  pub protocol_error : String → ℕ → Fields → Fields
  protocol_error name number run = field "type" (str "protocol_error") (
      field "protocol_type" (str name) (
        field "run_number" (int (pos number)) (
          field "severity" (str "medium") (
            field "message"
              (if has run "error" then get run "error" else str "Unknown protocol error")
              (field "details" (obj run) end)))))

  -- for idx, run in enumerate(runs), the runs that the test passes
  unfoldable pub list_errors :
      (Fields → Bool) → (ℕ → Fields → Fields) → ℕ → List Fields → List Fields
  list_errors is_listed error number [] = []
  list_errors is_listed error number (run ∷ runs) =
      let rest = list_errors is_listed error (suc number) runs in
      if is_listed run then error number run ∷ rest else rest

  unfoldable pub list_all : (Fields → Bool) → (String → ℕ → Fields → Fields) → Runs → List Fields
  list_all is_listed error [] = []
  list_all is_listed error ((name, runs) ∷ results) =
      list_errors is_listed (error name) 1 runs ++ list_all is_listed error results

  unfoldable pub collect_errors : ReportCollector → List Fields
  unfolding tool_error protocol_error
  collect_errors c =
      list_all (λ run. has_exception run || has_error run) tool_error c.tool_results
      ++ list_all has_error protocol_error c.protocol_results

-- `ReportSnapshot`: the number of runs, and of those without an error and not blocked.
unfoldable pub total_tests : Runs → ℕ
total_tests [] = 0
total_tests ((name, runs) ∷ results) = length runs + total_tests results

abbrev pub is_successful : Fields → Bool
is_successful run = not (has_error run) && not (is_safety_blocked run)

-- How many runs pass a test.
unfoldable pub count_where : (Fields → Bool) → List Fields → ℕ
count_where p [] = 0
count_where p (run ∷ runs) = let rest = count_where p runs in if p run then suc rest else rest

unfoldable pub count_all_where : (Fields → Bool) → Runs → ℕ
count_all_where p [] = 0
count_all_where p ((name, runs) ∷ results) = count_where p runs + count_all_where p results
