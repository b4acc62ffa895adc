-- ===== src/Client/Outcomes/Verdicts.antt =====
-- The outcome of a run, told from what the run is.
use mcp_server_fuzzer.Prelude.{
  ◌≡◌, ◌≢◌, ◌↔◌, ◌⊎◌, inl, inr, Bool, true, false, Option, Option-cases, Bool-cases, if◌then◌else◌,
  none, some, arith,
}
use mcp_server_fuzzer.Json.{pos, negsuc, Value, null, int, obj, get, has, is_int, truthy}
use mcp_server_fuzzer.Json.Laws.{get-eq-null_of_not_has}
use mcp_server_fuzzer.Errors.{
  ErrorClass, server_error, server_crash_error, oversized_response_error, is_subclass,
}
use mcp_server_fuzzer.Client.Outcomes.{
  FuzzOutcome, server_rejected, accepted_malformed, transport_error, timeout, safety_blocked,
  mutation_failed, crashed, oversized_response, Exc, ToolRun, ProtocolRun, is_instance, is_none,
  is_rejection_code, rejects, is_server_rejection_error, classify_exception, classify_result,
  classify_tool_run, classify_response, classify_protocol_run, jsonrpc_error_code,
  jsonrpc_error_code_of,
}

-- The exception is of a class, or of a class below it.
abbrev pub IsRaised : Exc → ErrorClass → Type 0
IsRaised e d = (c : ErrorClass) × (e.error_class ≡ some c) × (is_subclass c d ≡ true)

-- The codes from the parse error to the internal error of JSON-RPC.
abbrev pub IsRejectionCode : Value → Type 0
IsRejectionCode v =
    (v ≡ int (negsuc 32699))
    ⊎ ((v ≡ int (negsuc 32599))
        ⊎ ((v ≡ int (negsuc 32600)) ⊎ ((v ≡ int (negsuc 32601)) ⊎ (v ≡ int (negsuc 32602)))))

-- The error in the exception's context, if it is an object, has such a code.
abbrev pub Rejects : Value → Type 0
Rejects (obj error) = IsRejectionCode (get error "code")
Rejects _ = Unit

abbrev pub ExceptionOutcome : Exc → FuzzOutcome → Type 0
ExceptionOutcome e crashed = IsRaised e server_crash_error
ExceptionOutcome e oversized_response =
    (¬ IsRaised e server_crash_error) × IsRaised e oversized_response_error
ExceptionOutcome e server_rejected =
    (¬ IsRaised e server_crash_error)
    × (¬ IsRaised e oversized_response_error)
    × IsRaised e server_error
    × Rejects e.context_error
ExceptionOutcome e transport_error =
    (¬ IsRaised e server_crash_error)
    × (¬ IsRaised e oversized_response_error)
    × (¬ (IsRaised e server_error × Rejects e.context_error))
ExceptionOutcome e _ = ⊥

-- A result whose `isError` is true.
abbrev pub ReportsError : Value → Type 0
ReportsError (obj result) = truthy (get result "isError") ≡ true
ReportsError _ = ⊥

abbrev pub ResultOutcome : Value → FuzzOutcome → Type 0
ResultOutcome v server_rejected = ReportsError v
ResultOutcome v accepted_malformed = (¬ ReportsError v) × (v ≢ null)
ResultOutcome v transport_error = v ≡ null
ResultOutcome v _ = ⊥

is_instance_iff : (e : Exc) (d : ErrorClass) → (is_instance e d ≡ true) ↔ IsRaised e d
is_instance_iff e d = elim (Option-cases e.error_class) [
  | inl none_of ↦ ground (arith, none_of)
  | inr (c, is_c) ↦ ground (arith, is_c)
]

is_rejection_code_iff : (v : Value) → (is_rejection_code v ≡ true) ↔ IsRejectionCode v
is_rejection_code_iff (int (pos n)) = ground arith
is_rejection_code_iff (int (negsuc n)) = ground arith
is_rejection_code_iff _ = ground arith

rejects_iff : (v : Value) → (rejects v ≡ true) ↔ Rejects v
unfolding rejects
rejects_iff (obj error) = ground (arith, is_rejection_code_iff (get error "code"))
rejects_iff _ = ground arith

classify_exception_iff :
    (e : Exc) (o : FuzzOutcome) → ((classify_exception e).1 ≡ o) ↔ ExceptionOutcome e o
unfolding classify_exception is_server_rejection_error
classify_exception_iff e o = ground (
  arith,
  is_instance_iff e server_crash_error,
  is_instance_iff e oversized_response_error,
  is_instance_iff e server_error,
  rejects_iff e.context_error,
)

classify_result_iff :
    (v : Value) (o : FuzzOutcome) → ((classify_result v).1 ≡ o) ↔ ResultOutcome v o
unfolding classify_result
classify_result_iff v o = ground arith

-- What an exception, or else a returned result, makes of a run.
abbrev pub Ended : Option Exc → Value → FuzzOutcome → Type 0
Ended (some e) result o = ExceptionOutcome e o
Ended none result o = ResultOutcome result o

abbrev pub ToolOutcome : ToolRun → FuzzOutcome → Type 0
ToolOutcome run safety_blocked = run.safety_blocked ≡ true
ToolOutcome run mutation_failed = (run.safety_blocked ≡ false) × (run.mutation_failed ≡ true)
ToolOutcome run timeout =
    (run.safety_blocked ≡ false) × (run.mutation_failed ≡ false) × (run.timeout ≡ true)
ToolOutcome run o =
    (run.safety_blocked ≡ false)
    × (run.mutation_failed ≡ false)
    × (run.timeout ≡ false)
    × Ended run.exception run.result o

-- The error is an object with an integer for its code.
abbrev pub HasCode : Value → Type 0
HasCode (obj error) = is_int (get error "code") ≡ true
HasCode _ = ⊥

abbrev pub HasRejectionCode : Value → Type 0
HasRejectionCode (obj error) = IsRejectionCode (get error "code")
HasRejectionCode _ = ⊥

abbrev pub ResponseOutcome : Value → FuzzOutcome → Type 0
ResponseOutcome (obj response) server_rejected =
    HasRejectionCode (get response "error")
    ⊎ ((¬ HasCode (get response "error")) × (has response "error" ≡ true))
ResponseOutcome (obj response) accepted_malformed = has response "error" ≡ false
ResponseOutcome (obj response) transport_error =
    HasCode (get response "error") × (¬ HasRejectionCode (get response "error"))
ResponseOutcome (obj response) _ = ⊥
ResponseOutcome v transport_error = Unit
ResponseOutcome v _ = ⊥

-- The error text that the server has given decides, if there is one.
abbrev pub Answered : Bool → Value → FuzzOutcome → Type 0
Answered true response server_rejected = Unit
Answered true response _ = ⊥
Answered false response o = ResponseOutcome response o

abbrev pub Heard : Option Exc → Bool → Value → FuzzOutcome → Type 0
Heard (some e) has_server_error response o = ExceptionOutcome e o
Heard none has_server_error response o = Answered has_server_error response o

abbrev pub ProtocolOutcome : ProtocolRun → FuzzOutcome → Type 0
ProtocolOutcome run safety_blocked = run.safety_blocked ≡ true
ProtocolOutcome run o =
    (run.safety_blocked ≡ false) × Heard run.exception run.has_server_error run.server_response o

-- Which verdicts are a success.
classify_exception-success :
    (e : Exc) → ((classify_exception e).0 ≡ true) ↔ ((classify_exception e).1 ≡ server_rejected)
unfolding classify_exception
classify_exception-success e = ground arith

classify_result-success :
    (v : Value) → ((classify_result v).0 ≡ true) ↔ ((classify_result v).1 ≡ server_rejected)
unfolding classify_result
classify_result-success v = ground arith

classify_response-success :
    (v : Value) → ((classify_response v).0 ≡ true) ↔ ((classify_response v).1 ≡ server_rejected)
unfolding classify_response
classify_response-success (obj d) = ground arith
classify_response-success _ = ground arith

code_iff :
    (v : Value)
    → let code = if is_int v then v else null in
      ((is_none code ≡ false) ↔ (is_int v ≡ true))
      × ((is_rejection_code code ≡ true) ↔ IsRejectionCode v)
      × (IsRejectionCode v → is_int v ≡ true)
code_iff (int n) = ground (arith, is_rejection_code_iff (int n))
code_iff _ = ground arith

-- The code that is read, and what it says.
jsonrpc_error_code_of_iff :
    (v : Value)
    → ((is_none (jsonrpc_error_code_of v) ≡ false) ↔ HasCode v)
      × ((is_rejection_code (jsonrpc_error_code_of v) ≡ true) ↔ HasRejectionCode v)
      × (HasRejectionCode v → HasCode v)
unfolding jsonrpc_error_code_of
jsonrpc_error_code_of_iff (obj error) = code_iff (get error "code")
jsonrpc_error_code_of_iff _ = ground arith

classify_response_iff :
    (v : Value) (o : FuzzOutcome) → ((classify_response v).1 ≡ o) ↔ ResponseOutcome v o
unfolding classify_response jsonrpc_error_code
classify_response_iff (obj response) o =
    let (coded, rejecting, is_coded) = jsonrpc_error_code_of_iff (get response "error") in
    elim (Bool-cases (has response "error")) [
      | inl there ↦ ground (arith, coded, rejecting, is_coded, there)
      | inr missing ↦
          let absent = get-eq-null_of_not_has response "error" missing in
          ground (arith, coded, rejecting, is_coded, missing, absent)
    ]
classify_response_iff _ o = ground arith

-- The outcome of a tool run is told by the run: blocked by the safety system; else a failed mutation;
-- else a timeout; else what its exception says, by its classes in the order crash, oversized
-- response, rejection by the server, and otherwise a transport error; else, without an exception, a
-- rejection if the result reports an error, an accepted input if there is a result, and a transport
-- error if there is none. It is a success exactly if it is a rejection by the server.
pub classify_tool_run-ToolOutcome :
    (run : ToolRun) (o : FuzzOutcome)
    → (((classify_tool_run run).1 ≡ o) ↔ ToolOutcome run o)
      × (((classify_tool_run run).0 ≡ true) ↔ ToolOutcome run server_rejected)
unfolding classify_tool_run
classify_tool_run-ToolOutcome run o = elim (Option-cases run.exception) [
  | inl returned ↦ ground (
    arith,
    returned,
    classify_result_iff run.result o,
    classify_result_iff run.result server_rejected,
    classify_result-success run.result,
  )
  | inr (e, raised) ↦ ground (
    arith,
    raised,
    classify_exception_iff e o,
    classify_exception_iff e server_rejected,
    classify_exception-success e,
  )
]

-- The outcome of a protocol run is told by the run: blocked by the safety system; else what its
-- exception says; else a rejection if the server gave an error text; else what the response says: a
-- response with an error is a rejection if its code is one of the five or it has no integer code,
-- and a transport error with any other code; one without an error is an accepted input; and what is
-- no object is a transport error. It is a success exactly if it is a rejection by the server.
pub classify_protocol_run-ProtocolOutcome :
    (run : ProtocolRun) (o : FuzzOutcome)
    → (((classify_protocol_run run).1 ≡ o) ↔ ProtocolOutcome run o)
      × (((classify_protocol_run run).0 ≡ true) ↔ ProtocolOutcome run server_rejected)
unfolding classify_protocol_run
classify_protocol_run-ProtocolOutcome run o = elim (Option-cases run.exception) [
  | inl returned ↦ ground (
    arith,
    returned,
    classify_response_iff run.server_response o,
    classify_response_iff run.server_response server_rejected,
    classify_response-success run.server_response,
  )
  | inr (e, raised) ↦ ground (
    arith,
    raised,
    classify_exception_iff e o,
    classify_exception_iff e server_rejected,
    classify_exception-success e,
  )
]
