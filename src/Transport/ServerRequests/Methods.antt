-- ===== src/Transport/ServerRequests/Methods.antt =====
-- The methods of the server, and the texts that name them.
use mcp_server_fuzzer.Prelude.{
  String, ◌≡◌, ◌≢◌, ◌↔◌, refl, sym, ◌∙◌, ap, Option, none, some, arith, ◌==◌, eq_iff, if◌then◌else◌,
}
use mcp_server_fuzzer.Json.{Value, Fields, str, get}
use mcp_server_fuzzer.Transport.ServerRequests.TaskManager.{extract_task_id}
use mcp_server_fuzzer.Transport.ServerRequests.Handler.{Request, request_of}

-- The method of a request.
abbrev pub name_of : Request → String
name_of Request.roots_list = "roots/list"
name_of Request.sampling_create_message = "sampling/createMessage"
name_of Request.elicitation_create = "elicitation/create"
name_of Request.tasks_list = "tasks/list"
name_of Request.tasks_get = "tasks/get"
name_of Request.tasks_result = "tasks/result"
name_of Request.tasks_cancel = "tasks/cancel"

pub request_of-name_of : (r : Request) → request_of (name_of r) ≡ some r
unfolding request_of
request_of-name_of Request.roots_list = refl
request_of-name_of Request.sampling_create_message = refl
request_of-name_of Request.elicitation_create = refl
request_of-name_of Request.tasks_list = refl
request_of-name_of Request.tasks_get = refl
request_of-name_of Request.tasks_result = refl
request_of-name_of Request.tasks_cancel = refl

pub name_of-request_of :
    (method : String) (r : Request) → request_of method ≡ some r → method ≡ name_of r
unfolding request_of
name_of-request_of method r e = ground (
  arith,
  e,
  eq_iff method "roots/list",
  eq_iff method "sampling/createMessage",
  eq_iff method "elicitation/create",
  eq_iff method "tasks/list",
  eq_iff method "tasks/get",
  eq_iff method "tasks/result",
  eq_iff method "tasks/cancel",
)

pub unnamed :
    {method : String} (r : Request) → request_of method ≡ none → str method ≢ str (name_of r)
unnamed {method} r e h =
    let same : method ≡ name_of r = cc h in
    let named = ap request_of same ∙ request_of-name_of r in cc (e, named)

pub names_differ : (r s : Request) → r ≢ s → str (name_of r) ≢ str (name_of s)
names_differ r s other h =
    let same : name_of r ≡ name_of s = cc h in
    let one = sym (request_of-name_of r) ∙ (ap request_of same ∙ request_of-name_of s) in
    other (cc one)

pub form_no_cancel : str "elicitation/create" ≢ str "tasks/cancel"
form_no_cancel = names_differ Request.elicitation_create Request.tasks_cancel (λ h. cc h)

pub form_no_sample : str "elicitation/create" ≢ str "sampling/createMessage"
form_no_sample = names_differ Request.elicitation_create Request.sampling_create_message (λ h. cc h)

pub sample_no_cancel : str "sampling/createMessage" ≢ str "tasks/cancel"
sample_no_cancel = names_differ Request.sampling_create_message Request.tasks_cancel (λ h. cc h)

abbrev task_id_in : Value → Option String
task_id_in (str i) = if i == "" then none else some i
task_id_in _ = none

task_id_in_iff :
    (v : Value) (task_id : String)
    → (task_id_in v ≡ some task_id) ↔ ((v ≡ str task_id) × (task_id ≢ ""))
task_id_in_iff (str i) task_id = ground (arith, eq_iff i "")
task_id_in_iff _ task_id = ground arith

pub extract_task_id_iff :
    (params : Fields) (task_id : String)
    → (extract_task_id params ≡ some task_id)
      ↔ ((get params "taskId" ≡ str task_id) × (task_id ≢ ""))
unfolding extract_task_id
extract_task_id_iff params task_id = task_id_in_iff (get params "taskId") task_id
