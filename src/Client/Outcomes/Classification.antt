-- ===== src/Client/Outcomes/Classification.antt =====
-- What the classification says of a run.
use mcp_server_fuzzer.Prelude.{◌≡◌, ◌≢◌, ◌↔◌, ◌⊎◌, false, none, arith}
use mcp_server_fuzzer.Json.{null}
use mcp_server_fuzzer.Client.Outcomes.{
  accepted_malformed, safety_blocked, crashed, oversized_response, ToolRun, reports_error,
  classify_tool_run, outcome_to_error_type,
}

-- A tool run is the finding `accepted_malformed` exactly if nothing blocked it, no exception was
-- raised, and the server returned a result that does not report an error.
pub classify_tool_run-accepted_iff :
    (run : ToolRun)
    → ((classify_tool_run run).1 ≡ accepted_malformed) ↔ (
        (run.safety_blocked ≡ false)
        × (run.mutation_failed ≡ false)
        × (run.timeout ≡ false)
        × (run.exception ≡ none)
        × (run.result ≢ null)
        × (reports_error run.result ≡ false))
unfolding classify_tool_run
classify_tool_run-accepted_iff run = ground arith

-- A failed tool run has no error type exactly if it was blocked, crashed the server or had an
-- oversized response.
pub untyped_failure_iff :
    (run : ToolRun)
    → (((classify_tool_run run).0 ≡ false)
        × (outcome_to_error_type (classify_tool_run run).1 ≡ none))
      ↔ (((classify_tool_run run).1 ≡ safety_blocked)
          ⊎ (((classify_tool_run run).1 ≡ crashed)
              ⊎ ((classify_tool_run run).1 ≡ oversized_response)))
unfolding classify_tool_run outcome_to_error_type
untyped_failure_iff run = ground arith
