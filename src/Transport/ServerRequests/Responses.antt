-- ===== src/Transport/ServerRequests/Responses.antt =====
-- The responses of the handler are valid JSON-RPC, and when it raises instead.
use mcp_server_fuzzer.Prelude.{
  String, ◌≡◌, true, false, Option, none, some, both, arith, ◌==◌, Result, ok, err,
}
use mcp_server_fuzzer.Json.{ℤ, Value, Fields, null, str, obj, arr, get, has, PyError}
use mcp_server_fuzzer.Json.Table.{lookup}
use mcp_server_fuzzer.Transport.JsonRpc.{is_id, validate_jsonrpc_payload}
use mcp_server_fuzzer.Transport.ServerRequests.{jsonrpc_result, jsonrpc_error}
use mcp_server_fuzzer.Transport.ServerRequests.Builders.{params_of, build_elicitation_create_result}
use mcp_server_fuzzer.Transport.ServerRequests.TaskManager.{
  TaskError, TaskRecord, Tasks, with_record, with_task, result_or_error, get_response,
  result_response, cancel_response, list_response, task_aware_by, task_aware_result,
}
use mcp_server_fuzzer.Transport.ServerRequests.Handler.{
  Outside, Handler, Outcome, Request, request_of, answer, answer_elicitation, respond, dispatch_by,
  dispatch, handle_elicitation_create, handle_request,
}

-- A response that the transport accepts and that answers the request.
abbrev pub IsReply : Value → Fields → Type 0
IsReply request_id r =
    (get r "id" ≡ request_id)
    × (validate_jsonrpc_payload false (obj r) ≡ ok tt)
    × (validate_jsonrpc_payload true (obj r) ≡ ok tt)

abbrev pub RepliesTo : Value → Outcome → Type 0
RepliesTo request_id (h, ok r) = IsReply request_id r
RepliesTo request_id (h, err e) = Unit

module _ (request_id : Value) (id : is_id request_id ≡ true) where
  jsonrpc_result-IsReply : (result : Fields) → IsReply request_id (jsonrpc_result request_id result)
  unfolding jsonrpc_result validate_jsonrpc_payload get has
  jsonrpc_result-IsReply result = ground arith

  jsonrpc_error-IsReply :
      (code : ℤ) (message : String)
      → IsReply request_id (jsonrpc_error request_id code message null)
  unfolding jsonrpc_error validate_jsonrpc_payload get has
  jsonrpc_error-IsReply code message = ground arith

  with_record-IsReply :
      (found : TaskRecord → Fields)
      → ((r : TaskRecord) → IsReply request_id (found r))
      → (r : Option TaskRecord) → IsReply request_id (with_record request_id found r)
  with_record-IsReply found f none = jsonrpc_error-IsReply _ "Unknown taskId"
  with_record-IsReply found f (some r) = f r

  with_task-IsReply :
      (missing : String) (found : TaskRecord → Fields)
      → ((r : TaskRecord) → IsReply request_id (found r))
      → (tasks : Tasks) (task_id : Option String)
      → IsReply request_id (with_task request_id missing found tasks task_id)
  with_task-IsReply missing found f tasks none = jsonrpc_error-IsReply _ missing
  with_task-IsReply missing found f tasks (some task_id) =
      with_record-IsReply found f (lookup task_id tasks)

  result_or_error-IsReply :
      (result : Option Fields) (error : Option TaskError)
      → IsReply request_id (result_or_error request_id result error)
  result_or_error-IsReply result none = jsonrpc_result-IsReply _
  result_or_error-IsReply result (some e) = jsonrpc_error-IsReply e.code e.message

  module _ (outside : Outside) (params : Fields) where
    task_aware_by-IsReply :
        (uuid now origin : String) (result : Fields) (task : Value) (tasks : Tasks)
        → IsReply request_id (task_aware_by uuid now request_id origin result task tasks).1
    unfolding task_aware_by
    task_aware_by-IsReply uuid now origin result (obj meta) tasks = jsonrpc_result-IsReply _
    task_aware_by-IsReply uuid now origin result _ tasks = jsonrpc_result-IsReply _

    answer-RepliesTo :
        (origin : String) (result : Fields) (h : Handler)
        → RepliesTo request_id (answer outside request_id params origin result h)
    unfolding answer task_aware_result
    answer-RepliesTo origin result h =
        task_aware_by-IsReply outside.uuid outside.now origin result (get params "task") h.tasks

    answer_elicitation-RepliesTo :
        (result : Result PyError Fields) (h : Handler)
        → RepliesTo request_id (answer_elicitation outside request_id params result h)
    answer_elicitation-RepliesTo (err e) h = tt
    answer_elicitation-RepliesTo (ok result) h = answer-RepliesTo _ result h

    respond-RepliesTo :
        (request : Request) (h : Handler)
        → RepliesTo request_id (respond outside request_id params request h)
    unfolding respond handle_elicitation_create list_response get_response result_response
        cancel_response
    respond-RepliesTo Request.roots_list h = jsonrpc_result-IsReply _
    respond-RepliesTo Request.sampling_create_message h = answer-RepliesTo _ _ h
    respond-RepliesTo Request.elicitation_create h =
        answer_elicitation-RepliesTo (build_elicitation_create_result params) _
    respond-RepliesTo Request.tasks_list h = jsonrpc_result-IsReply _
    respond-RepliesTo Request.tasks_get h =
        with_task-IsReply _ _ (λ r. jsonrpc_result-IsReply r.task) h.tasks _
    respond-RepliesTo Request.tasks_result h =
        with_task-IsReply _ _ (λ r. result_or_error-IsReply r.result r.error) h.tasks _
    respond-RepliesTo Request.tasks_cancel h =
        with_task-IsReply _ _ (λ r. jsonrpc_result-IsReply _) h.tasks _

    dispatch_by-RepliesTo :
        (method : String) (request : Option Request) (h : Handler)
        → RepliesTo request_id (dispatch_by outside request_id params method request h)
    dispatch_by-RepliesTo method (some request) h = respond-RepliesTo request h
    dispatch_by-RepliesTo method none h =
        both (IsReply request_id) (method == "") _ _ (λ _. jsonrpc_error-IsReply _ _)
          (λ _. jsonrpc_error-IsReply _ _)

    dispatch-RepliesTo :
        (method : Value) (h : Handler)
        → RepliesTo request_id (dispatch outside request_id params method h)
    unfolding dispatch
    dispatch-RepliesTo (str method) h = dispatch_by-RepliesTo method (request_of method) h
    dispatch-RepliesTo (arr items) h = tt
    dispatch-RepliesTo (obj d) h = tt
    dispatch-RepliesTo _ h = jsonrpc_error-IsReply _ _

-- If the id of a payload is a text, an int or None, then what handle_request returns for the payload,
-- if it returns a response, has that id and passes the transport's validation, strict or not.
pub handle_request-RepliesTo :
    (outside : Outside) (payload : Fields) (h : Handler) {outcome : Outcome}
    → is_id (get payload "id") ≡ true
    → handle_request outside (obj payload) h ≡ some outcome
    → RepliesTo (get payload "id") outcome
unfolding handle_request
handle_request-RepliesTo outside payload h id e = ground (
  arith,
  dispatch-RepliesTo (get payload "id") id outside (params_of (get payload "params"))
      (get payload "method") h,
)
