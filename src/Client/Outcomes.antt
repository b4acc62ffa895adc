-- ===== src/Client/Outcomes.antt =====
-- mcp_fuzzer/client/outcomes.py: the classification of fuzz runs.
pub mod Classification
pub mod Verdicts
use mcp_server_fuzzer.Prelude.{
  ℕ, suc, String, Bool, true, false, not, ◌&&◌, ◌||◌, List, [], ◌∷◌, Option, none, some, any,
  if◌then◌else◌,
}
use mcp_server_fuzzer.Json.{
  ℤ, negsuc, int_beq, Value, null, bool, int, obj, get, has, is_dict, is_int, truthy, pos,
}
use mcp_server_fuzzer.Errors.{
  ErrorClass, server_error, server_crash_error, oversized_response_error, is_subclass,
}

pub data FuzzOutcome : Type 0 where
  server_rejected accepted_malformed transport_error timeout safety_blocked : FuzzOutcome
  mutation_failed phase_failed valid_response crashed oversized_response : FuzzOutcome

-- The members of `ErrorType` that the outcomes map to.
pub data ErrorType : Type 0 where
  tool_call_failed tool_timeout tool_mutation_failed phase_execution_failed : ErrorType

-- An exception: its class, if it is one of the program's, and its context's `error`.
pub record Exc : Type 0 where
  pub error_class : Option ErrorClass
  pub context_error : Value

abbrev pub is_instance : Exc → ErrorClass → Bool
is_instance e d = elim e.error_class [ none ↦ false | some c ↦ is_subclass c d ]

-- -32700, -32600, -32601, -32602, -32603
abbrev pub rejection_codes : List ℤ
rejection_codes = negsuc 32699 ∷ negsuc 32599 ∷ negsuc 32600 ∷ negsuc 32601 ∷ negsuc 32602 ∷ []

-- code in _REJECTION_CODES: `True` and `False` count as 1 and 0, which are none of them
abbrev pub is_rejection_code : Value → Bool
is_rejection_code (int n) = any (int_beq n) rejection_codes
is_rejection_code _ = false

pub jsonrpc_error_code_of : Value → Value
jsonrpc_error_code_of (obj error) = if is_int (get error "code") then get error "code" else null
jsonrpc_error_code_of _ = null

-- The code, or `None`.
pub jsonrpc_error_code : Value → Value
unfolding jsonrpc_error_code_of
jsonrpc_error_code (obj payload) = jsonrpc_error_code_of (get payload "error")
jsonrpc_error_code _ = null

rejects : Value → Bool
rejects (obj error) = is_int (get error "code") && is_rejection_code (get error "code")
rejects _ = true

pub is_server_rejection_error : Exc → Bool
unfolding rejects
is_server_rejection_error e = if is_instance e server_error then rejects e.context_error else false

classify_exception : Exc → Bool × FuzzOutcome
unfolding is_server_rejection_error
classify_exception e =
    if is_instance e server_crash_error
    then (false, crashed)
    else if is_instance e oversized_response_error
    then (false, oversized_response)
    else if is_server_rejection_error e
    then (true, server_rejected)
    else (false, transport_error)

-- result is a dict with a true `isError`
pub reports_error : Value → Bool
reports_error (obj result) = truthy (get result "isError")
reports_error _ = false

abbrev pub is_none : Value → Bool
is_none null = true
is_none _ = false

pub record ToolRun : Type 0 where
  pub result : Value
  pub exception : Option Exc
  pub safety_blocked : Bool
  pub timeout : Bool
  pub mutation_failed : Bool

classify_result : Value → Bool × FuzzOutcome
unfolding reports_error
classify_result result =
    if reports_error result
    then (true, server_rejected)
    else if not (is_none result)
    then (false, accepted_malformed)
    else (false, transport_error)

unfoldable pub classify_tool_run : ToolRun → Bool × FuzzOutcome
unfolding classify_exception classify_result
classify_tool_run run =
    if run.safety_blocked
    then (false, safety_blocked)
    else if run.mutation_failed
    then (false, mutation_failed)
    else if run.timeout
    then (false, timeout)
    else elim run.exception [ some e ↦ classify_exception e | none ↦ classify_result run.result ]

-- The server error is a text; an empty one counts as none.
pub record ProtocolRun : Type 0 where
  pub server_response : Value
  pub has_server_error : Bool
  pub exception : Option Exc
  pub safety_blocked : Bool

classify_response : Value → Bool × FuzzOutcome
unfolding jsonrpc_error_code
classify_response (obj response) =
    if not (is_none (jsonrpc_error_code (obj response)))
    then (if is_rejection_code (jsonrpc_error_code (obj response))
        then (true, server_rejected)
        else (false, transport_error))
    else if not (has response "error")
    then (false, accepted_malformed)
    else (true, server_rejected)
classify_response _ = (false, transport_error)

unfoldable pub classify_protocol_run : ProtocolRun → Bool × FuzzOutcome
unfolding classify_exception classify_response
classify_protocol_run run =
    if run.safety_blocked then (false, safety_blocked) else elim run.exception [
      | some e ↦ classify_exception e
      | none ↦
          if run.has_server_error
          then (true, server_rejected)
          else classify_response run.server_response
    ]

pub outcome_to_error_type : FuzzOutcome → Option ErrorType
outcome_to_error_type accepted_malformed = some tool_call_failed
outcome_to_error_type transport_error = some tool_call_failed
outcome_to_error_type timeout = some tool_timeout
outcome_to_error_type mutation_failed = some tool_mutation_failed
outcome_to_error_type phase_failed = some phase_execution_failed
outcome_to_error_type _ = none
