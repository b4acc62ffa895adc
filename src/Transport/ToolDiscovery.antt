-- ===== src/Transport/ToolDiscovery.antt =====
-- Fetching the list of tools: `JsonRpcAdapter.get_tools` of
-- mcp_fuzzer/transport/interfaces/rpc_adapter.py, and the reports of
-- mcp_fuzzer/diagnostics/tool_discovery.py. The adapter has a transport.
pub mod Reports
mod Tests
use mcp_server_fuzzer.Prelude.{
  ℕ, suc, String, Bool, true, false, not, ◌&&◌, ◌||◌, List, [], ◌∷◌, Option, none, some, any, ltb,
  ◌==◌, if◌then◌else◌, Result, ok, err,
}
use mcp_server_fuzzer.Prelude.Text.{◌+++◌, show}
use text.Mathlib.Text.{find?}
use mcp_server_fuzzer.Json.{
  ℤ, pos, negsuc, int_beq, Float, Value, Fields, end, field, null, bool, int, float, str, arr, obj,
  Items, nil, cons, get, has, truthy, is_dict,
}

-- `ToolDiscoveryFailure`: the members that the code sets
pub data Failure : Type 0 where
  no_failure : Failure
  connection_failed : Failure
  auth_required : Failure
  empty_tools_list : Failure
  server_error : Failure
  stdio_parse_error : Failure
  process_crashed : Failure
  unknown : Failure

pub record Report : Type 0 where
  pub failure : Failure
  pub detail : String
  pub tool_count : ℕ

abbrev is_no_failure : Failure → Bool
is_no_failure no_failure = true
is_no_failure _ = false

-- `ToolDiscoveryReport.ok`
abbrev pub is_ok : Report → Bool
is_ok report = is_no_failure report.failure && ltb 0 report.tool_count

abbrev pub success : ℕ → Report
success tool_count = record {
  failure = no_failure;
  detail = "Discovered " +++ (show tool_count +++ " tool(s)");
  tool_count = tool_count;
}

abbrev pub failed : Failure → String → Report
failed code detail = record { failure = code; detail = detail; tool_count = 0 }

abbrev pub is_in : String → String → Bool
is_in part whole = elim (find? whole part) [ none ↦ false | some i ↦ true ]

abbrev any_in : List String → String → Bool
any_in parts whole = any (λ part. is_in part whole) parts

-- Python's own: text.lower(), str(v), type(v).__name__, list(d.keys()) as a text, len(text), and the text
-- of the TypeError that len raises; and == between a float and an int.
pub record Python : Type 0 where
  pub lower : String → String
  pub str_of : Value → String
  pub type_name : Value → String
  pub keys_text : Fields → String
  pub char_count : String → ℕ
  pub no_length : Value → String
  pub float_is : Float → ℤ → Bool

abbrev count_items : Items → ℕ
count_items nil = 0
count_items (cons v vs) = suc (count_items vs)

abbrev count_fields : Fields → ℕ
count_fields end = 0
count_fields (field k v d) = suc (count_fields d)

-- The report by what the message says: no JSON, no answer, no connection, a crash, no access.
unfoldable pub report_by : (garbled silent unconnected crashed denied : Bool) → String → Report
report_by garbled silent unconnected crashed denied exc =
    if garbled
    then failed stdio_parse_error
        "Server stdout was not valid JSON-RPC (log lines on stdout break stdio MCP)"
    else if silent
    then failed stdio_parse_error
        "No JSON-RPC response on stdio (server may still be starting or logging to stdout)"
    else if unconnected
    then failed connection_failed exc
    else if crashed
    then failed process_crashed exc
    else if denied
    then failed auth_required exc
    else failed unknown exc

module _ (python : Python) where
  -- The tests of the message, in the order of the code.
  unfoldable pub classify_tool_discovery_error : String → Report
  classify_tool_discovery_error exc =
      let message = python.lower exc in
      report_by (any_in ("failed to receive message" ∷ "expecting value" ∷ []) message)
        (is_in "no response received" message)
        (any_in ("connection failed" ∷ "connect" ∷ []) message)
        (any_in ("terminated abnormally" ∷ "crashed" ∷ []) message)
        (any_in ("401" ∷ "403" ∷ "unauthorized" ∷ []) message) exc

  -- code in (-32001, 401, 403): a boolean is 0 or 1
  abbrev pub is_auth_code : Value → Bool
  is_auth_code (int n) = int_beq n (negsuc 32000) || (int_beq n (pos 401) || int_beq n (pos 403))
  is_auth_code (float x) =
      python.float_is x (negsuc 32000)
      || (python.float_is x (pos 401) || python.float_is x (pos 403))
  is_auth_code _ = false

  -- str(error.get("message", error))
  abbrev pub message_of : Fields → String
  message_of error = python.str_of (if has error "message" then get error "message" else obj error)

  abbrev pub classify_error_value : Value → Report
  classify_error_value (obj error) =
      if is_auth_code (get error "code") || is_in "unauthorized" (python.lower (message_of error))
      then failed auth_required (message_of error)
      else failed server_error (message_of error)
  classify_error_value error = failed server_error (python.str_of error)

  unfoldable pub classify_tools_list_response : Fields → Option Report
  classify_tools_list_response response =
      if has response "error" then some (classify_error_value (get response "error")) else none

  -- len(v), or the text of the TypeError
  abbrev pub length_of : Value → Result String ℕ
  length_of (arr items) = ok (count_items items)
  length_of (obj d) = ok (count_fields d)
  length_of (str s) = ok (python.char_count s)
  length_of v = err (python.no_length v)

  abbrev or_failed : Option Report → Value → Report
  or_failed none error = failed server_error (python.str_of error)
  or_failed (some report) error = report

  -- The report on a response without tools.
  abbrev pub without_tools : Fields → Report
  without_tools response =
      if has response "error"
      then or_failed (classify_tools_list_response response) (get response "error")
      else failed server_error
          ("tools/list response missing tools (keys: " +++ (python.keys_text response +++ ")"))

  abbrev pub tools_in_result : Fields → Value → Result Report Value
  tools_in_result response (obj result) =
      if has result "tools" then ok (get result "tools") else err (without_tools response)
  tools_in_result response _ = err (without_tools response)

  -- The tools of a response, or else the report.
  abbrev pub tools_in : Fields → Result Report Value
  tools_in response =
      if has response "tools"
      then ok (get response "tools")
      else tools_in_result response (get response "result")

  -- An exception, by its text, gives an empty list.
  abbrev pub counted : Value → Result String ℕ → Value × Report
  counted tools (ok n) = (tools, success n)
  counted tools (err exc) = (arr nil, classify_tool_discovery_error exc)

  abbrev pub report_tools : Result Report Value → Value × Report
  report_tools (err report) = (arr nil, report)
  report_tools (ok tools) =
      if truthy tools
      then counted tools (length_of tools)
      else (arr nil, failed empty_tools_list "Server returned an empty tools list")

  -- The list that is returned and `last_tool_discovery`, from what `send_request("tools/list")` gives.
  unfoldable pub get_tools : Result String Value → Value × Report
  get_tools (err exc) = (arr nil, classify_tool_discovery_error exc)
  get_tools (ok (obj response)) = report_tools (tools_in response)
  get_tools (ok v) = (
    arr nil,
    failed server_error ("tools/list returned " +++ (python.type_name v +++ ", expected object")),
  )
