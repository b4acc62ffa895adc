-- ===== src/Transport/JsonRpc/Payloads.antt =====
-- The payloads that the transports build pass their own validation, and the two validators of the
-- program agree on responses.
use mcp_server_fuzzer.Prelude.{
  ◌≡◌, ◌↔◌, ◌⊎◌, Bool, true, false, ◌&&◌, Option, none, arith, ok, err, if◌then◌else◌,
}
use mcp_server_fuzzer.Json.{
  Value, Fields, end, field, null, bool, str, obj, get, has, put, is_null, is_int, is_text, is_bool,
}
use mcp_server_fuzzer.Json.Laws.{equals_text_iff}
use mcp_server_fuzzer.SpecGuard.Shape.{IsBoolean, is_str_iff}
use mcp_server_fuzzer.Executor.Invariants.{
  check_response_validity, check_error_type_correctness, verify_response_invariants,
  code_not_integer,
}
use mcp_server_fuzzer.Executor.Invariants.Acceptance.{
  IsResponseId-iff, check_response_validity-eq-ok_iff,
}
use mcp_server_fuzzer.Transport.JsonRpc.{
  missing_id, or_empty, with_id, is_id, create_jsonrpc_request, validate_jsonrpc_payload,
}

-- The payload of a request, once its method has been accepted.
abbrev request_payload : Value → Option Fields → Value → Fields
request_payload method params request_id = with_id request_id (
    field "jsonrpc" (str "2.0")
      (field "method" method (field "params" (obj (or_empty params)) end)))

create_jsonrpc_request-eq :
    (method : Value) (params : Option Fields) (request_id : Value) (payload : Fields)
    → create_jsonrpc_request method params request_id ≡ ok payload
    → (is_text method ≡ true) × (payload ≡ request_payload method params request_id)
unfolding create_jsonrpc_request
create_jsonrpc_request-eq method params request_id payload e = ground arith

request_payload-IsValid :
    (strict : Bool) (method : Value) (params : Option Fields) (request_id : Value)
    → is_text method ≡ true
    → is_id request_id ≡ true
    → validate_jsonrpc_payload strict (obj (request_payload method params request_id))
      ≡ (if strict && is_null request_id then err missing_id else ok tt)
unfolding validate_jsonrpc_payload get has put
request_payload-IsValid strict method params null m h = ground arith
request_payload-IsValid strict method params _ m h = ground arith

-- A request that the transport builds passes validation, and strict validation exactly if it was
-- given an id: without one, strict validation raises `missing_id`.
pub create_jsonrpc_request-IsValid :
    (strict : Bool) (method : Value) (params : Option Fields) (request_id : Value)
    (payload : Fields)
    → is_id request_id ≡ true
    → create_jsonrpc_request method params request_id ≡ ok payload
    → validate_jsonrpc_payload strict (obj payload)
      ≡ (if strict && is_null request_id then err missing_id else ok tt)
create_jsonrpc_request-IsValid strict method params request_id payload h e =
    let (m, same) = create_jsonrpc_request-eq method params request_id payload e in
    rw same (request_payload-IsValid strict method params request_id m h)

-- A response without an error member passes the transport's validation exactly if it passes the
-- executor's envelope check and has a result.
pub validators_agree :
    (strict : Bool) (d : Fields)
    → has d "method" ≡ false
    → has d "error" ≡ false
    → (validate_jsonrpc_payload strict (obj d) ≡ ok tt)
      ↔ ((check_response_validity (obj d) ≡ ok true) × (has d "result" ≡ true))
unfolding validate_jsonrpc_payload
validators_agree strict d m e = ground (
  arith,
  check_response_validity-eq-ok_iff (obj d),
  equals_text_iff (get d "jsonrpc") "2.0",
  IsResponseId-iff (get d "id"),
)

error_code_cases :
    (v : Value) → is_int v ≡ true → (is_bool v ≡ false) ⊎ ((is_bool v ≡ true) × IsBoolean v)
error_code_cases (bool b) h = ground arith
error_code_cases _ h = ground arith

-- An error response that passes the transport's validation passes the executor's checks, or its code
-- is a boolean.
pub validated_error_verifies :
    (strict : Bool) (d e : Fields)
    → has d "method" ≡ false
    → has d "error" ≡ true
    → get d "error" ≡ obj e
    → validate_jsonrpc_payload strict (obj d) ≡ ok tt
    → (verify_response_invariants none (obj d) none none ≡ ok true)
      ⊎ ((verify_response_invariants none (obj d) none none ≡ err code_not_integer)
          × IsBoolean (get e "code"))
unfolding validate_jsonrpc_payload verify_response_invariants check_error_type_correctness
validated_error_verifies strict d e m h g v = ground (
  arith,
  check_response_validity-eq-ok_iff (obj d),
  equals_text_iff (get d "jsonrpc") "2.0",
  IsResponseId-iff (get d "id"),
  error_code_cases (get e "code"),
  is_str_iff (get e "message"),
)
