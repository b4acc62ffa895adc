-- ===== src/Transport/ServerRequests.antt =====
-- mcp_fuzzer/transport/interfaces/server_requests.py: what the client answers to the server's own
-- requests and notifications. This file has the messages; its children have the parts of the handler.
pub mod Forms
pub mod Builders
pub mod TaskManager
pub mod Handler
pub mod Responses
pub mod Steps
pub mod Lifetime
pub mod Results
pub mod Conformance
pub mod Methods
pub mod Effects
mod Tests
use mcp_server_fuzzer.Prelude.{
  String, Bool, true, false, not, ◌&&◌, ◌||◌, Option, none, some, if◌then◌else◌,
}
use mcp_server_fuzzer.Json.{
  ℤ, negsuc, Value, Fields, end, field, null, int, str, obj, get, has, equals_text, is_null,
}

-- JSONRPC_CANCELLED, JSONRPC_INVALID_PARAMS, JSONRPC_METHOD_NOT_FOUND
abbrev pub cancelled_code : ℤ
cancelled_code = negsuc 32799

abbrev pub invalid_params_code : ℤ
invalid_params_code = negsuc 32601

abbrev pub method_not_found_code : ℤ
method_not_found_code = negsuc 32600

unfoldable pub is_server_request : Value → Bool
is_server_request (obj payload) =
    equals_text (get payload "jsonrpc") "2.0"
    && (has payload "method"
        && (has payload "id" && (not (has payload "result") && not (has payload "error"))))
is_server_request _ = false

unfoldable pub is_server_notification : Value → Bool
is_server_notification (obj payload) =
    equals_text (get payload "jsonrpc") "2.0"
    && (has payload "method"
        && (not (has payload "id") && (not (has payload "result") && not (has payload "error"))))
is_server_notification _ = false

unfoldable pub jsonrpc_result : Value → Fields → Fields
jsonrpc_result request_id result =
    field "jsonrpc" (str "2.0") (field "id" request_id (field "result" (obj result) end))

-- `data` is left out where it is None.
abbrev pub error_object : ℤ → String → Value → Fields
error_object code message extra =
    field "code" (int code)
      (field "message" (str message) (if is_null extra then end else field "data" extra end))

unfoldable pub jsonrpc_error : Value → ℤ → String → Value → Fields
jsonrpc_error request_id code message extra =
    field "jsonrpc" (str "2.0")
      (field "id" request_id (field "error" (obj (error_object code message extra)) end))
