-- ===== src/Transport/ServerRequests/Handler.antt =====
-- `ServerRequestHandler`: its state, and what a request or a notification of the server does to it.
use mcp_server_fuzzer.Prelude.{
  String, Bool, true, false, not, ◌&&◌, List, [], ◌∷◌, ◌++◌, Option, none, some, any, ◌==◌,
  if◌then◌else◌, Result, ok, err,
}
use mcp_server_fuzzer.Prelude.Text.{◌+++◌}
use mcp_server_fuzzer.Json.{
  Value, Fields, field, end, null, str, obj, arr, Items, nil, cons, get, is_hashable, PyError,
  type_error,
}
use mcp_server_fuzzer.Transport.ServerRequests.{
  is_server_request, is_server_notification, method_not_found_code, jsonrpc_result, jsonrpc_error,
}
use mcp_server_fuzzer.Transport.ServerRequests.Builders.{
  params_of, build_sampling_create_message_result, build_elicitation_create_result,
}
use mcp_server_fuzzer.Transport.ServerRequests.TaskManager.{
  Tasks, list_response, get_response, result_response, cancel, cancel_response, task_aware_result,
  extract_task_id, update_status,
}

-- What the code takes from outside on a call: `uuid.uuid4()`, the start of its hex form,
-- `_utc_now()` and `_default_roots()`.
pub record Outside : Type 0 where
  pub uuid : String
  pub hex : String
  pub now : String
  pub default_roots : Items

-- The two sets of `ElicitationTracker`.
pub record Elicitations : Type 0 where
  pub pending : List String
  pub completed : List String

-- `NotificationLog`
pub record NotificationLog : Type 0 where
  pub logs : List Fields
  pub methods : List String

pub record Handler : Type 0 where
  pub roots : Items
  pub tasks : Tasks
  pub elicitation : Elicitations
  pub notifications : NotificationLog

-- roots or default
abbrev pub or_default : Items → Items → Items
or_default nil default_roots = default_roots
or_default (cons v vs) default_roots = cons v vs

unfoldable pub new_handler : Items → Items → Handler
new_handler roots default_roots = record {
  roots = or_default roots default_roots;
  tasks = [];
  elicitation = record { pending = []; completed = [] };
  notifications = record { logs = []; methods = [] };
}

-- s in texts
abbrev pub is_member : String → List String → Bool
is_member s texts = any (λ t. t == s) texts

abbrev add_member : String → List String → List String
add_member s texts = if is_member s texts then texts else s ∷ texts

unfoldable pub discard : String → List String → List String
discard s [] = []
discard s (t ∷ texts) = if t == s then discard s texts else t ∷ discard s texts

unfoldable pub record_request : Fields → Elicitations → Elicitations
record_request params e = elim (get params "elicitationId") [
  | str i ↦ if i == "" then e else record e { pending = add_member i e.pending }
  | _ ↦ e
]

unfoldable pub complete : Fields → Elicitations → Elicitations
complete params e = elim (get params "elicitationId") [
  | str i ↦
      if is_member i e.pending && not (is_member i e.completed)
      then record e { pending = discard i e.pending; completed = i ∷ e.completed }
      else e
  | _ ↦ e
]

unfoldable pub log_notification : String → Fields → NotificationLog → NotificationLog
log_notification method params log = record {
  logs = if method == "notifications/message" then log.logs ++ (params ∷ []) else log.logs;
  methods = log.methods ++ (method ∷ []);
}

-- The methods of `_request_handlers`.
pub data Request : Type 0 where
  roots_list : Request
  sampling_create_message : Request
  elicitation_create : Request
  tasks_list : Request
  tasks_get : Request
  tasks_result : Request
  tasks_cancel : Request

unfoldable pub request_of : String → Option Request
request_of method =
    if method == "roots/list"
    then some roots_list
    else if method == "sampling/createMessage"
    then some sampling_create_message
    else if method == "elicitation/create"
    then some elicitation_create
    else if method == "tasks/list"
    then some tasks_list
    else if method == "tasks/get"
    then some tasks_get
    else if method == "tasks/result"
    then some tasks_result
    else if method == "tasks/cancel"
    then some tasks_cancel
    else none

-- A call leaves a state also where it raises.
abbrev pub Outcome : Type 0
Outcome = Handler × Result PyError Fields

module _ (outside : Outside) (request_id : Value) (params : Fields) where
  -- `task_aware_result` on the handler's tasks
  unfoldable pub answer : String → Fields → Handler → Outcome
  answer origin_method final_result h =
      let after =
        task_aware_result outside.uuid outside.now request_id params origin_method final_result
          h.tasks in
      (record h { tasks = after.0 }, ok after.1)

  abbrev pub answer_elicitation : Result PyError Fields → Handler → Outcome
  answer_elicitation (err e) h = (h, err e)
  answer_elicitation (ok final_result) h = answer "elicitation/create" final_result h

  -- `_handle_elicitation_create`: the request is recorded before its form is filled in.
  unfoldable pub handle_elicitation_create : Handler → Outcome
  handle_elicitation_create h =
      answer_elicitation (build_elicitation_create_result params)
        (record h { elicitation = record_request params h.elicitation })

  unfoldable pub respond : Request → Handler → Outcome
  respond roots_list h = (
    h,
    ok (
        jsonrpc_result request_id
          (field "roots" (arr (or_default h.roots outside.default_roots)) end)),
  )
  respond sampling_create_message h =
      answer "sampling/createMessage"
        (build_sampling_create_message_result outside.hex "mcp-fuzzer"
          "mcp-fuzzer sampling response" params)
        h
  respond elicitation_create h = handle_elicitation_create h
  respond tasks_list h = (h, ok (list_response request_id h.tasks))
  respond tasks_get h = (h, ok (get_response request_id h.tasks (extract_task_id params)))
  respond tasks_result h = (h, ok (result_response request_id h.tasks (extract_task_id params)))
  respond tasks_cancel h = (
    record h { tasks = cancel outside.now h.tasks (extract_task_id params) },
    ok (cancel_response request_id outside.now h.tasks (extract_task_id params)),
  )

abbrev pub unknown_method : Value → Fields
unknown_method request_id = jsonrpc_error request_id method_not_found_code "Unknown method" null

abbrev pub dispatch_by : Outside → Value → Fields → String → Option Request → Handler → Outcome
dispatch_by outside request_id params method (some request) h =
    respond outside request_id params request h
dispatch_by outside request_id params method none h = (
  h,
  ok (
      if method == ""
      then unknown_method request_id
      else jsonrpc_error request_id method_not_found_code ("Unknown method: " +++ method) null),
)

unfoldable pub dispatch : Outside → Value → Fields → Value → Handler → Outcome
dispatch outside request_id params (str method) h =
    dispatch_by outside request_id params method (request_of method) h
dispatch outside request_id params method h =
    (h, if is_hashable method then ok (unknown_method request_id) else err type_error)

-- `None` for a payload that is no request.
unfoldable pub handle_request : Outside → Value → Handler → Option Outcome
handle_request outside (obj payload) h =
    if is_server_request (obj payload)
    then some (
        dispatch outside (get payload "id") (params_of (get payload "params"))
          (get payload "method") h)
    else none
handle_request outside _ h = none

abbrev pub tracked_notifications : List String
tracked_notifications =
    "notifications/prompts/list_changed" ∷ "notifications/resources/list_changed"
    ∷ "notifications/resources/updated" ∷ "notifications/roots/list_changed"
    ∷ "notifications/tools/list_changed" ∷ "notifications/elicitation/complete"
    ∷ "notifications/message" ∷ "notifications/progress" ∷ "notifications/tasks/status" ∷ []

-- The method's own handler, where it has one; each of them returns True.
unfoldable pub note : String → Fields → Handler → Handler
note method params h =
    let logged = record h { notifications = log_notification method params h.notifications } in
    if method == "notifications/elicitation/complete"
    then record logged { elicitation = complete params h.elicitation }
    else if method == "notifications/tasks/status"
    then record logged { tasks = update_status params h.tasks }
    else logged

abbrev pub notify : Fields → Value → Handler → Handler × Bool
notify params (str method) h =
    if is_member method tracked_notifications then (note method params h, true) else (h, false)
notify params method h = (h, false)

unfoldable pub handle_notification : Value → Handler → Handler × Bool
handle_notification (obj payload) h =
    if is_server_notification (obj payload)
    then notify (params_of (get payload "params")) (get payload "method") h
    else (h, false)
handle_notification _ h = (h, false)
