-- ===== src/Transport/ServerRequests/Tests.antt =====
-- A handler with one task, and what the theorems on the handler say of it.
use mcp_server_fuzzer.Prelude.{◌≡◌, ◌↔◌, ◌⊎◌, refl, true, false, [], some, none, eq_iff, arith, ok}
use mcp_server_fuzzer.Json.{
  pos, Fields, field, end, bool, int, str, obj, nil, cons, get, has, put, is_bool,
}
use mcp_server_fuzzer.Json.Table.{lookup, insert}
use mcp_server_fuzzer.SpecGuard.{Env}
use mcp_server_fuzzer.SpecGuard.Misc.{check_create_message_result}
use mcp_server_fuzzer.SpecGuard.Tasks.{check_task_shape}
use mcp_server_fuzzer.Transport.ServerRequests.{is_server_request, jsonrpc_result}
use mcp_server_fuzzer.Transport.ServerRequests.Forms.{form_content_from_schema}
use mcp_server_fuzzer.Transport.ServerRequests.Builders.{
  build_sampling_create_message_result, build_elicitation_create_result,
}
use mcp_server_fuzzer.Transport.ServerRequests.TaskManager.{
  TaskRecord, new_task, task_aware_result, task_aware_by, create_task, get_response,
  result_response, cancel,
}
use mcp_server_fuzzer.Transport.ServerRequests.Handler.{
  Outside, Handler, Outcome, new_handler, request_of, answer, respond, dispatch, handle_request,
}
use mcp_server_fuzzer.Transport.ServerRequests.Responses.{RepliesTo, handle_request-RepliesTo}
use mcp_server_fuzzer.Transport.ServerRequests.Steps.{created_record}
use mcp_server_fuzzer.Transport.ServerRequests.Effects.{Effect, handle_request-Effect}
use mcp_server_fuzzer.Transport.ServerRequests.Lifetime.{Run, begin, request, IsSound, Run-IsSound}
use mcp_server_fuzzer.Transport.ServerRequests.Results.{
  IsOther, cancelled_result, Run-result_response, cancel-is_final, task_aware_result-stored,
}
use mcp_server_fuzzer.Transport.ServerRequests.Conformance.{
  build_sampling_create_message_result-passes, new_task-passes_iff,
}

abbrev first : Outside
first = record {
  uuid = "a";
  hex = "0a";
  now = "2026-01-01T00:00:00Z";
  default_roots = cons (obj end) nil;
}

abbrev second : Outside
second = record {
  uuid = "b";
  hex = "0b";
  now = "2026-01-02T00:00:00Z";
  default_roots = cons (obj end) nil;
}

abbrev with_task_member : Fields
with_task_member = field "task" (obj (field "ttl" (int (pos 5)) end)) end

abbrev sampling : Fields
sampling = field "jsonrpc" (str "2.0") (
    field "id" (int (pos 1))
      (field "method" (str "sampling/createMessage") (field "params" (obj with_task_member) end)))

abbrev cancelling : Fields
cancelling = field "jsonrpc" (str "2.0") (
    field "id" (int (pos 2)) (
      field "method" (str "tasks/cancel")
        (field "params" (obj (field "taskId" (str "task-a") end)) end)))

abbrev idle : Handler
idle = new_handler nil first.default_roots

abbrev sampled : Outcome
sampled = dispatch first (int (pos 1)) with_task_member (str "sampling/createMessage") idle

abbrev after_cancel : Outcome
after_cancel =
    dispatch second (int (pos 2)) (field "taskId" (str "task-a") end) (str "tasks/cancel") sampled.0

sampling_handled : handle_request first (obj sampling) idle ≡ some sampled
unfolding handle_request is_server_request get has
sampling_handled = refl

cancel_handled : handle_request second (obj cancelling) sampled.0 ≡ some after_cancel
unfolding handle_request is_server_request get has
cancel_handled = refl

handle_request-RepliesTo_example : RepliesTo (int (pos 1)) sampled
unfolding get
handle_request-RepliesTo_example =
    handle_request-RepliesTo first sampling idle refl sampling_handled

handle_request-Effect_example :
    Effect first
      (str "sampling/createMessage")
      with_task_member
      "task-a"
      (lookup "task-a" idle.tasks)
      (lookup "task-a" (sampled.0).tasks)
unfolding get
handle_request-Effect_example = handle_request-Effect first "task-a" sampling idle sampling_handled

sampled-Run : Run (λ _. Unit) idle sampled.0
sampled-Run = request first (obj sampling) sampled begin tt sampling_handled

abbrev sample : Fields
sample =
    build_sampling_create_message_result "0a" "mcp-fuzzer" "mcp-fuzzer sampling response"
      with_task_member

abbrev stored : TaskRecord
stored =
    created_record "task-a" "2026-01-01T00:00:00Z" "sampling/createMessage" (int (pos 5)) sample

is_stored : lookup "task-a" (sampled.0).tasks ≡ some stored
unfolding lookup insert dispatch request_of respond answer task_aware_result task_aware_by
    create_task get new_handler
is_stored = refl

Run-IsSound_example : IsSound "task-a" stored
Run-IsSound_example = Run-IsSound nil first.default_roots "task-a" stored sampled-Run is_stored

cancelling-Run : Run (IsOther "task-a") sampled.0 after_cancel.0
cancelling-Run =
    request second (obj cancelling) after_cancel begin
      (λ e. ground (arith, e, eq_iff "task-b" "task-a")) cancel_handled

Run-result_response_example :
    (result_response (int (pos 3)) (after_cancel.0).tasks (some "task-a")
      ≡ jsonrpc_result (int (pos 3)) sample)
    ⊎ (result_response (int (pos 3)) (after_cancel.0).tasks (some "task-a")
        ≡ cancelled_result (int (pos 3)))
Run-result_response_example =
    Run-result_response (int (pos 3)) "task-a" stored sample sampled.0 is_stored refl refl
      cancelling-Run

abbrev cancelled_handler : Handler
cancelled_handler = record sampled.0 { tasks = cancel "now" (sampled.0).tasks (some "task-a") }

abbrev cancelled_again : Outcome
cancelled_again =
    dispatch second (int (pos 2)) (field "taskId" (str "task-a") end) (str "tasks/cancel")
      cancelled_handler

again_handled : handle_request second (obj cancelling) cancelled_handler ≡ some cancelled_again
unfolding handle_request is_server_request get has
again_handled = refl

again-Run : Run (IsOther "task-a") cancelled_handler cancelled_again.0
again-Run =
    request second (obj cancelling) cancelled_again begin
      (λ e. ground (arith, e, eq_iff "task-b" "task-a")) again_handled

cancel-is_final_example :
    result_response (int (pos 3)) (cancelled_again.0).tasks (some "task-a")
    ≡ cancelled_result (int (pos 3))
cancel-is_final_example =
    cancel-is_final (int (pos 3)) "now" "task-a" stored sampled.0 is_stored again-Run

task_aware_result-stored_example :
    let after =
      task_aware_result "a" "now" (int (pos 1)) with_task_member "elicitation/create" sample [] in
    (task : Fields) × (after.1 ≡ jsonrpc_result (int (pos 1)) (field "task" (obj task) end))
    × (get task "taskId" ≡ str "task-a")
    × (get_response (int (pos 2)) after.0 (some "task-a") ≡ jsonrpc_result (int (pos 2)) task)
    × (result_response (int (pos 2)) after.0 (some "task-a") ≡ jsonrpc_result (int (pos 2)) sample)
unfolding get
task_aware_result-stored_example =
    task_aware_result-stored "a" "now" "elicitation/create" (int (pos 1)) (int (pos 2))
      with_task_member sample (field "ttl" (int (pos 5)) end) [] refl

abbrev env : Env
env = record { import_version = "2025-11-25"; version = "2025-11-25"; iso_date = λ _. none }

build_sampling_create_message_result-passes_example :
    check_create_message_result env (obj sample) ≡ []
build_sampling_create_message_result-passes_example =
    build_sampling_create_message_result-passes env "0a" "mcp-fuzzer" "mcp-fuzzer sampling response"
      with_task_member (λ e. ground (arith, e, eq_iff "mcp-fuzzer" ""))

abbrev form : Fields
form =
    field "requestedSchema"
      (obj
        (field "properties" (obj (field "age" (obj (field "type" (str "integer") end)) end)) end))
      end

abbrev filled_form : Fields
filled_form =
    field "action" (str "accept") (field "content" (obj (field "age" (int (pos 0)) end)) end)

form_filled : build_elicitation_create_result form ≡ ok filled_form
unfolding build_elicitation_create_result form_content_from_schema get has put
form_filled = refl

new_task-passes_iff_example :
    (check_task_shape env "task" (obj (new_task "task-a" "now" (bool true) none)) ≡ [])
    ↔ (is_bool (bool true) ≡ false)
new_task-passes_iff_example =
    new_task-passes_iff env "task" "task-a" "now" (bool true)
      (λ e. ground (arith, e, eq_iff "task-a" "")) (λ e. ground (arith, e, eq_iff "now" ""))
