-- ===== src/Reports/Tests.antt =====
-- Three runs: one that the server rejected, one that crashed it, and one with a valid response.
use mcp_server_fuzzer.Prelude.{
  ℕ, none, some, ◌≡◌, ◌+◌, ◌⊎◌, String, Any, true, length, ok, err, List, [], ◌∷◌,
}
use mcp_server_fuzzer.Json.{Value, bool, str, obj, field, end}
use mcp_server_fuzzer.Json.Kinds.{keys}
use mcp_server_fuzzer.Reports.Collector.{
  ReportCollector, tool_summary, protocol_summary, collect_errors,
}
use mcp_server_fuzzer.Reports.Collector.Totals.{
  failures, AddsUp, tool_summary-AddsUp, length-collect_errors,
}
use mcp_server_fuzzer.Reports.SpecSummary.{
  SpecSummary, SummaryError, collect_spec_checks, build_spec_summary,
}
use mcp_server_fuzzer.Reports.SpecSummary.Balance.{
  IsBalanced, IsRefused, build_spec_summary-IsBalanced,
}
use mcp_server_fuzzer.Reports.OutcomeBuckets.{crashed, summarize_tool_outcomes}
use mcp_server_fuzzer.Reports.OutcomeBuckets.Counts.{
  count_in, total, CountsAs, Tally, summarize_tool_outcomes-Tally,
}

abbrev runs : List Value
runs =
    obj (field "outcome" (str "server_rejected") end)
    ∷ obj (field "error" (str "server_crashed") end)
    ∷ obj (field "outcome" (str "valid_response") end)
    ∷ []

summarize_tool_outcomes-Tally_example :
    Tally (CountsAs (some crashed)) runs (count_in crashed (summarize_tool_outcomes runs))
    × ((rest : ℕ) × Tally (CountsAs none) runs rest
        × (total (summarize_tool_outcomes runs) + rest ≡ length runs))
summarize_tool_outcomes-Tally_example = summarize_tool_outcomes-Tally crashed runs

abbrev collector : ReportCollector
collector = record {
  tool_results =
      ("echo", field "exception" (str "x") end ∷ field "success" (bool true) end ∷ []) ∷ [];
  protocol_results = ("ping", field "error" (str "no") end ∷ []) ∷ [];
  spec_checks = obj (field "status" (str "FAIL") end) ∷ [];
}

tool_summary-AddsUp_example :
    AddsUp collector.tool_results (tool_summary collector)
    × AddsUp collector.protocol_results (protocol_summary collector)
tool_summary-AddsUp_example = tool_summary-AddsUp collector

abbrev text_of : Value → String
text_of (str s) = s
text_of _ = ""

length-collect_errors_example :
    length (collect_errors text_of collector)
    ≡ failures (tool_summary collector) + failures (protocol_summary collector)
length-collect_errors_example = length-collect_errors text_of collector

build_spec_summary-IsBalanced_example :
    ((s : SpecSummary) × (build_spec_summary keys text_of collector ≡ ok s)
      × IsBalanced (length (collect_spec_checks collector)) s)
    ⊎ (Any (IsRefused keys text_of) (collect_spec_checks collector)
        × ((e : SummaryError) × (build_spec_summary keys text_of collector ≡ err e)))
build_spec_summary-IsBalanced_example = build_spec_summary-IsBalanced keys text_of collector
