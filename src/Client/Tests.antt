-- ===== src/Client/Tests.antt =====
-- Concrete runs, and what the theorems on their classification say.
use mcp_server_fuzzer.Prelude.{◌≡◌, ◌↔◌, true, false, none, some}
use mcp_server_fuzzer.Json.{Value, negsuc, null, int, obj, end, field}
use mcp_server_fuzzer.Errors.{server_error}
use mcp_server_fuzzer.Client.Outcomes.{
  server_rejected, transport_error, Exc, ToolRun, ProtocolRun, classify_tool_run,
  classify_protocol_run,
}
use mcp_server_fuzzer.Client.Outcomes.Verdicts.{
  ToolOutcome, ProtocolOutcome, classify_tool_run-ToolOutcome,
  classify_protocol_run-ProtocolOutcome,
}

abbrev rejection : Exc
rejection = record {
  error_class = some server_error;
  context_error = obj (field "code" (int (negsuc 32601)) end);
}

abbrev rejected_run : ToolRun
rejected_run = record {
  result = null;
  exception = some rejection;
  safety_blocked = false;
  timeout = false;
  mutation_failed = false;
}

classify_tool_run-ToolOutcome_example :
    (((classify_tool_run rejected_run).1 ≡ server_rejected)
      ↔ ToolOutcome rejected_run server_rejected)
    × (((classify_tool_run rejected_run).0 ≡ true) ↔ ToolOutcome rejected_run server_rejected)
classify_tool_run-ToolOutcome_example = classify_tool_run-ToolOutcome rejected_run server_rejected

abbrev error_response : Value
error_response = obj (field "error" (obj (field "code" (int (negsuc 32000)) end)) end)

abbrev heard_run : ProtocolRun
heard_run = record {
  server_response = error_response;
  has_server_error = false;
  exception = none;
  safety_blocked = false;
}

classify_protocol_run-ProtocolOutcome_example :
    (((classify_protocol_run heard_run).1 ≡ transport_error)
      ↔ ProtocolOutcome heard_run transport_error)
    × (((classify_protocol_run heard_run).0 ≡ true) ↔ ProtocolOutcome heard_run server_rejected)
classify_protocol_run-ProtocolOutcome_example =
    classify_protocol_run-ProtocolOutcome heard_run transport_error
