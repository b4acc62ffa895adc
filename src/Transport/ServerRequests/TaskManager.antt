-- ===== src/Transport/ServerRequests/TaskManager.antt =====
-- The tasks that the client keeps for the server, by their ids.
use mcp_server_fuzzer.Prelude.{String, List, [], ◌∷◌, Option, none, some, ◌==◌, if◌then◌else◌}
use mcp_server_fuzzer.Prelude.Text.{◌+++◌}
use mcp_server_fuzzer.Json.{
  ℤ, pos, Value, Fields, end, field, null, int, str, obj, arr, get, has, put, is_int, items_of,
}
use mcp_server_fuzzer.Json.Table.{lookup, insert}
use mcp_server_fuzzer.Transport.ServerRequests.{
  cancelled_code, invalid_params_code, jsonrpc_result, jsonrpc_error,
}

-- `error` in a record: only its code and its message are ever set.
pub record TaskError : Type 0 where
  pub code : ℤ
  pub message : String

pub record TaskRecord : Type 0 where
  pub task : Fields
  pub result : Option Fields
  pub error : Option TaskError
  pub origin_method : String

-- `TaskManager.tasks`, in the order of insertion
abbrev pub Tasks : Type 0
Tasks = List (String × TaskRecord)

unfoldable pub tasks_of : Tasks → List Value
tasks_of [] = []
tasks_of ((task_id, r) ∷ rest) = obj r.task ∷ tasks_of rest

unfoldable pub list_response : Value → Tasks → Fields
list_response request_id tasks =
    jsonrpc_result request_id (field "tasks" (arr (items_of (tasks_of tasks))) end)

-- A response about the record that was found, if there is one.
abbrev pub with_record : Value → (TaskRecord → Fields) → Option TaskRecord → Fields
with_record request_id found none =
    jsonrpc_error request_id invalid_params_code "Unknown taskId" null
with_record request_id found (some r) = found r

-- A response to a request with a task id, where `missing` is said if there is no valid one.
abbrev pub with_task : Value → String → (TaskRecord → Fields) → Tasks → Option String → Fields
with_task request_id missing found tasks none =
    jsonrpc_error request_id invalid_params_code missing null
with_task request_id missing found tasks (some task_id) =
    with_record request_id found (lookup task_id tasks)

unfoldable pub get_response : Value → Tasks → Option String → Fields
get_response request_id =
    with_task request_id "tasks/get requires a valid taskId" (λ r. jsonrpc_result request_id r.task)

abbrev pub or_empty_dict : Option Fields → Fields
or_empty_dict none = end
or_empty_dict (some d) = d

-- The record's error, if it has one, goes before its result.
abbrev pub result_or_error : Value → Option Fields → Option TaskError → Fields
result_or_error request_id result none = jsonrpc_result request_id (or_empty_dict result)
result_or_error request_id result (some e) = jsonrpc_error request_id e.code e.message null

abbrev pub result_of : Value → TaskRecord → Fields
result_of request_id r = result_or_error request_id r.result r.error

unfoldable pub result_response : Value → Tasks → Option String → Fields
result_response request_id =
    with_task request_id "tasks/result requires a valid taskId" (result_of request_id)

unfoldable pub cancelled : String → TaskRecord → TaskRecord
cancelled now r = record r {
  task =
      put
        (put (put r.task "status" (str "cancelled")) "statusMessage"
          (str "Cancelled by mcp-fuzzer"))
        "lastUpdatedAt" (str now);
  error = some (record { code = cancelled_code; message = "Task cancelled" });
}

-- What the store becomes where the record changes by `change`, if there is one.
abbrev pub modify : String → (TaskRecord → TaskRecord) → Option TaskRecord → Tasks → Tasks
modify task_id change none tasks = tasks
modify task_id change (some r) tasks = insert task_id (change r) tasks

-- `now` is the time.
unfoldable pub cancel : String → Tasks → Option String → Tasks
cancel now tasks none = tasks
cancel now tasks (some task_id) = modify task_id (cancelled now) (lookup task_id tasks) tasks

unfoldable pub cancel_response : Value → String → Tasks → Option String → Fields
cancel_response request_id now =
    with_task request_id "tasks/cancel requires a valid taskId"
      (λ r. jsonrpc_result request_id (cancelled now r).task)

-- ttl if isinstance(ttl, int) else 60000
abbrev pub ttl_value : Value → Value
ttl_value ttl = if is_int ttl then ttl else int (pos 60000)

abbrev task_status : Option TaskError → String
task_status none = "completed"
task_status (some e) = "failed"

abbrev task_message : Option TaskError → String
task_message none = "Completed by mcp-fuzzer"
task_message (some e) = e.message

unfoldable pub new_task : String → String → Value → Option TaskError → Fields
new_task task_id now ttl error = field "taskId" (str task_id) (
    field "status" (str (task_status error)) (
      field "statusMessage" (str (task_message error)) (
        field "createdAt" (str now) (
          field "lastUpdatedAt" (str now)
            (field "ttl" (ttl_value ttl) (field "pollInterval" (int (pos 250)) end))))))

-- f"task-{uuid.uuid4()}"
abbrev pub task_id_of : String → String
task_id_of uuid = "task-" +++ uuid

unfoldable pub create_task :
    String → String → String → Value → Option Fields → Option TaskError → Tasks → Tasks
create_task uuid now origin_method ttl result error = insert (task_id_of uuid) (record {
  task = new_task (task_id_of uuid) now ttl error;
  result = some (or_empty_dict result);
  error = error;
  origin_method = origin_method;
})

-- The response of a request whose `task` member is given, and the store that it leaves.
unfoldable pub task_aware_by :
    String → String → Value → String → Fields → Value → Tasks → Tasks × Fields
task_aware_by uuid now request_id origin_method final_result (obj task_meta) tasks = (
  create_task uuid now origin_method (get task_meta "ttl") (some final_result) none tasks,
  jsonrpc_result request_id
      (field "task" (obj (new_task (task_id_of uuid) now (get task_meta "ttl") none)) end),
)
task_aware_by uuid now request_id origin_method final_result _ tasks =
    (tasks, jsonrpc_result request_id final_result)

unfoldable pub task_aware_result :
    String → String → Value → Fields → String → Fields → Tasks → Tasks × Fields
unfolding task_aware_by
task_aware_result uuid now request_id params origin_method final_result tasks =
    task_aware_by uuid now request_id origin_method final_result (get params "task") tasks

-- A task id is a text that is not empty.
unfoldable pub extract_task_id : Fields → Option String
extract_task_id params = elim (get params "taskId") [
  | str task_id ↦ if task_id == "" then none else some task_id
  | _ ↦ none
]

-- if key in params: record.task[key] = params[key]
abbrev pub copy_key : Fields → String → Fields → Fields
copy_key params key task = if has params key then put task key (get params key) else task

-- The loop over the keys of a status notification.
unfoldable pub copy_keys : Fields → List String → Fields → Fields
copy_keys params [] task = task
copy_keys params (key ∷ keys) task = copy_keys params keys (copy_key params key task)

abbrev pub status_keys : List String
status_keys =
    "createdAt" ∷ "lastUpdatedAt" ∷ "pollInterval" ∷ "status" ∷ "statusMessage" ∷ "taskId" ∷ "ttl"
    ∷ []

-- The record of the task that a status notification is about.
unfoldable pub with_status : Fields → TaskRecord → TaskRecord
with_status params r = record r { task = copy_keys params status_keys r.task }

abbrev pub update_task : Fields → Value → Tasks → Tasks
update_task params (str task_id) tasks =
    modify task_id (with_status params) (lookup task_id tasks) tasks
update_task params _ tasks = tasks

unfoldable pub update_status : Fields → Tasks → Tasks
update_status params tasks = update_task params (get params "taskId") tasks
