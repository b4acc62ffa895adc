-- ===== src/Transport/JsonRpc.antt =====
-- mcp_fuzzer/transport/interfaces/behaviors.py, `DriverBaseBehavior`: building, validating and
-- reading JSON-RPC payloads.
pub mod Payloads
use mcp_server_fuzzer.Prelude.{
  String, ◌≡◌, Bool, true, false, not, ◌&&◌, ◌||◌, List, [], ◌∷◌, Option, none, some, if◌then◌else◌,
  Result, ok, err, ◌>>=◌, ◌>>◌, raise_if,
}
use mcp_server_fuzzer.Json.{
  Value, Fields, end, field, null, str, obj, get, has, put, is_null, is_str, is_int, is_dict,
  is_list, is_text, equals_text,
}

-- `PayloadValidationError`, a constructor for each `raise`.
pub data PayloadError : Type 0 where
  method_not_text : PayloadError
  payload_not_dict : PayloadError
  invalid_version : PayloadError
  invalid_params : PayloadError
  invalid_id : PayloadError
  missing_id : PayloadError
  not_one_of_result_and_error : PayloadError
  response_without_id : PayloadError
  invalid_error : PayloadError
  invalid_error_fields : PayloadError

-- params or {}
abbrev or_empty : Option Fields → Fields
or_empty none = end
or_empty (some d) = d

pub create_jsonrpc_notification : Value → Option Fields → Result PayloadError Fields
create_jsonrpc_notification method params = do
  raise_if (not (is_text method)) method_not_text
  ok (
      field "jsonrpc" (str "2.0")
        (field "method" method (field "params" (obj (or_empty params)) end)))

abbrev with_id : Value → Fields → Fields
with_id request_id payload = if is_null request_id then payload else put payload "id" request_id

unfoldable pub create_jsonrpc_request : Value → Option Fields → Value → Result PayloadError Fields
create_jsonrpc_request method params request_id = do
  raise_if (not (is_text method)) method_not_text
  ok (
      with_id request_id (
        field "jsonrpc" (str "2.0")
          (field "method" method (field "params" (obj (or_empty params)) end))))

-- isinstance(v, (str, int)) or v is None
abbrev pub is_id : Value → Bool
is_id v = is_str v || is_int v || is_null v

validate_request : Bool → Fields → Result PayloadError (Unit {0})
validate_request strict payload = do
  raise_if (not (is_text (get payload "method"))) method_not_text
  raise_if
      (has payload "params"
        && not (is_list (get payload "params") || is_dict (get payload "params")))
      invalid_params
  raise_if (has payload "id" && not (is_id (get payload "id"))) invalid_id
  raise_if (strict && not (has payload "id")) missing_id

validate_error : Value → Result PayloadError (Unit {0})
validate_error (obj e) = do
  raise_if (not (has e "code") || not (has e "message")) invalid_error
  raise_if (not (is_int (get e "code")) || not (is_str (get e "message"))) invalid_error_fields
validate_error _ = err invalid_error

abbrev same_bool : Bool → Bool → Bool
same_bool true b = b
same_bool false b = not b

validate_response : Fields → Result PayloadError (Unit {0})
unfolding validate_error
validate_response payload = do
  raise_if (same_bool (has payload "result") (has payload "error")) not_one_of_result_and_error
  raise_if (not (has payload "id")) response_without_id
  raise_if (not (is_id (get payload "id"))) invalid_id
  if has payload "error" then validate_error (get payload "error") else ok tt

unfoldable pub validate_jsonrpc_payload : Bool → Value → Result PayloadError (Unit {0})
unfolding validate_request validate_response
validate_jsonrpc_payload strict (obj payload) = do
  raise_if (not (equals_text (get payload "jsonrpc") "2.0")) invalid_version
  if has payload "method" then validate_request strict payload else validate_response payload
validate_jsonrpc_payload strict _ = err payload_not_dict

-- `TransportError` with the error that the server sent.
pub data ServerFailure : Type 0 where
  server_error : Value → ServerFailure

-- data.get("result", data)
unfoldable pub extract_result_from_response : Bool → Value → Result ServerFailure Value
extract_result_from_response normalize_non_dict (obj d) =
    if has d "error"
    then err (server_error (get d "error"))
    else ok (if has d "result" then get d "result" else obj d)
extract_result_from_response normalize_non_dict v =
    ok (if normalize_non_dict then obj (field "result" v end) else v)
