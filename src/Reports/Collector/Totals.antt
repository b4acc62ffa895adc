-- ===== src/Reports/Collector/Totals.antt =====
-- The summary's counters agree with the runs, with the listed errors and with each other.
use mcp_server_fuzzer.Prelude.{
  ℕ, suc, ◌+◌, ◌≡◌, refl, Bool, not, ◌||◌, String, List, [], ◌∷◌, arith, length, length-append,
  if◌then◌else◌,
}
use mcp_server_fuzzer.Json.{Value, Fields}
use mcp_server_fuzzer.Reports.Collector.{
  Runs, ReportCollector, Summary, has_exception, has_error, count_tool_run, count_protocol_run,
  count_each, count_all, add_total, empty_summary, tool_summary, protocol_summary, successes,
  tool_error, protocol_error, list_errors, list_all, collect_errors, total_tests, count_where,
  count_all_where,
}

-- What a run adds to the failures of a summary.
abbrev pub failures : Summary → ℕ
failures s = s.with_errors + s.with_exceptions

-- A counter adds a failure for a run with an error, and leaves the number of runs.
abbrev CountsFailures : (Fields → Summary → Summary) → Type 0
CountsFailures count =
    (run : Fields) (s : Summary)
    → (failures (count run s) ≡ (if has_error run then suc (failures s) else failures s))
      × ((count run s).total_runs ≡ s.total_runs)

count_tool_run-CountsFailures : CountsFailures count_tool_run
unfolding has_error
count_tool_run-CountsFailures run s = ground arith

count_protocol_run-CountsFailures : CountsFailures count_protocol_run
unfolding has_error
count_protocol_run-CountsFailures run s = ground arith

module _ (count : Fields → Summary → Summary) (law : CountsFailures count) where
  failures-count_each :
      (runs : List Fields) (s : Summary)
      → (failures (count_each count runs s) ≡ count_where has_error runs + failures s)
        × ((count_each count runs s).total_runs ≡ s.total_runs)
  unfolding count_each count_where
  failures-count_each [] s = (omega arith, refl)
  failures-count_each (run ∷ runs) s =
      ground (arith, law run s, failures-count_each runs (count run s))

  failures-count_all :
      (results : Runs) (s : Summary)
      → (failures (count_all count results s) ≡ count_all_where has_error results + failures s)
        × ((count_all count results s).total_runs ≡ total_tests results + s.total_runs)
  unfolding count_all count_all_where total_tests
  failures-count_all [] s = (omega arith, omega arith)
  failures-count_all ((name, runs) ∷ results) s =
      let next = count_each count runs (add_total (length runs) s) in
      let (each, kept) = failures-count_each runs (add_total (length runs) s) in
      let (all_failures, runs_counted) = failures-count_all results next in
      (omega (arith, each, all_failures), omega (arith, kept, runs_counted))

count_where-not :
    (p : Fields → Bool) (runs : List Fields)
    → count_where p runs + count_where (λ run. not (p run)) runs ≡ length runs
unfolding count_where
count_where-not p [] = omega arith
count_where-not p (run ∷ runs) = ground (arith, count_where-not p runs)

count_all_where-not :
    (p : Fields → Bool) (results : Runs)
    → count_all_where p results + count_all_where (λ run. not (p run)) results ≡ total_tests results
unfolding count_all_where total_tests
count_all_where-not p [] = omega arith
count_all_where-not p ((name, runs) ∷ results) =
    omega (arith, count_where-not p runs, count_all_where-not p results)

-- The counters of a summary of some results.
abbrev pub AddsUp : Runs → Summary → Type 0
AddsUp results s =
    (s.total_runs ≡ total_tests results)
    × (failures s ≡ count_all_where has_error results)
    × (successes s ≡ count_all_where (λ run. not (has_error run)) results)

count_all-AddsUp :
    (count : Fields → Summary → Summary) (results : Runs) (names : ℕ)
    → CountsFailures count
    → AddsUp results (count_all count results (empty_summary names))
unfolding successes
count_all-AddsUp count results names law =
    let (failed, counted) = failures-count_all count law results (empty_summary names) in
    (
      omega (arith, counted),
      omega (arith, failed),
      omega (arith, failed, counted, count_all_where-not has_error results),
    )

-- In the summary of the tools and in that of the protocol types: the runs are all the runs, the errors
-- and exceptions together are the runs with an error, and the successes are the runs without.
pub tool_summary-AddsUp :
    (c : ReportCollector)
    → AddsUp c.tool_results (tool_summary c) × AddsUp c.protocol_results (protocol_summary c)
unfolding tool_summary protocol_summary
tool_summary-AddsUp c = (
  count_all-AddsUp count_tool_run c.tool_results (length c.tool_results)
      count_tool_run-CountsFailures,
  count_all-AddsUp count_protocol_run c.protocol_results (length c.protocol_results)
      count_protocol_run-CountsFailures,
)

module _ (is_listed : Fields → Bool) (same : (run : Fields) → is_listed run ≡ has_error run) where
  length-list_errors :
      (error : ℕ → Fields → Fields) (number : ℕ) (runs : List Fields) (str_of : Value → String)
      → length (list_errors str_of is_listed error number runs) ≡ count_where has_error runs
  unfolding list_errors count_where
  length-list_errors error number [] str_of = refl
  length-list_errors error number (run ∷ runs) str_of =
      ground (arith, same run, length-list_errors error (suc number) runs str_of)

  length-list_all :
      (error : String → ℕ → Fields → Fields) (results : Runs) (str_of : Value → String)
      → length (list_all str_of is_listed error results) ≡ count_all_where has_error results
  unfolding list_all count_all_where
  length-list_all error [] str_of = refl
  length-list_all error ((name, runs) ∷ results) str_of = omega (
    arith,
    length-append (list_errors str_of is_listed (error name) 1 runs)
        (list_all str_of is_listed error results),
    length-list_errors (error name) 1 runs str_of,
    length-list_all error results str_of,
  )

listed_is_error : (run : Fields) → (has_exception run || has_error run) ≡ has_error run
unfolding has_error
listed_is_error run = ground arith

-- collect_errors lists as many errors as the two summaries count errors and exceptions.
pub length-collect_errors :
    (str_of : Value → String) (c : ReportCollector)
    → length (collect_errors str_of c) ≡ failures (tool_summary c) + failures (protocol_summary c)
unfolding collect_errors
length-collect_errors str_of c =
    let ((runs, tool_failures, good), (protocol_runs, protocol_failures, fine)) =
      tool_summary-AddsUp c in
    let is_listed = λ (run : Fields). has_exception run || has_error run in
    omega (
      arith,
      tool_failures,
      protocol_failures,
      length-append (list_all str_of is_listed (tool_error str_of) c.tool_results)
          (list_all str_of has_error (protocol_error str_of) c.protocol_results),
      length-list_all is_listed listed_is_error (tool_error str_of) c.tool_results str_of,
      length-list_all has_error (λ run. refl) (protocol_error str_of) c.protocol_results str_of,
    )
