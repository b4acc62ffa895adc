-- ===== src/Transport/ServerRequests/Results.antt =====
-- What a client of the handler's tasks sees: a created task, its result, and its cancellation.
use mathlib.Core.Path.{subst}
use text.Mathlib.TextPositions.{eq_refl}
use mcp_server_fuzzer.Prelude.{String, ◌≡◌, ◌≢◌, refl, sym, ◌⊎◌, inl, inr, Option, none, some}
use mcp_server_fuzzer.Json.{Value, Fields, str, obj, get, field, end, null}
use mcp_server_fuzzer.Json.Table.{lookup, lookup-insert}
use mcp_server_fuzzer.Transport.ServerRequests.{jsonrpc_result, jsonrpc_error, cancelled_code}
use mcp_server_fuzzer.Transport.ServerRequests.TaskManager.{
  TaskRecord, Tasks, cancelled, with_status, new_task, task_id_of, cancel, get_response,
  result_response, with_record, result_or_error, task_aware_by, task_aware_result, create_task,
}
use mcp_server_fuzzer.Transport.ServerRequests.Handler.{Outside, Handler}
use mcp_server_fuzzer.Transport.ServerRequests.Steps.{
  Change, kept, created, cancelled_by, noted, created_record,
}
use mcp_server_fuzzer.Transport.ServerRequests.Lifetime.{Run, Run-keeps, cancellation}

-- The request does not create a task with this id.
abbrev pub IsOther : String → Outside → Type 0
IsOther task_id outside = task_id_of outside.uuid ≢ task_id

-- A record with this result and no error but a cancellation.
abbrev HasResult : Fields → Option TaskRecord → Type 0
HasResult result none = ⊥
HasResult result (some r) =
    (r.result ≡ some result) × ((r.error ≡ none) ⊎ (r.error ≡ some cancellation))

abbrev IsCancelled : Option TaskRecord → Type 0
IsCancelled none = ⊥
IsCancelled (some r) = r.error ≡ some cancellation

Change-HasResult :
    {New : Type 0} (task_id : String) (result : Fields) {before after : Option TaskRecord}
    → (New → ⊥)
    → Change New task_id before after
    → HasResult result before
    → HasResult result after
unfolding cancelled with_status
Change-HasResult task_id result old (kept same) h = rw same h
Change-HasResult task_id result old (created now origin ttl final new e) h = absurd (old new)
Change-HasResult task_id result old (cancelled_by now r e f) h =
    rw f ((subst (HasResult result) e h).0, inr refl)
Change-HasResult task_id result old (noted params r i e f) h = rw f (subst (HasResult result) e h)

Change-IsCancelled :
    {New : Type 0} (task_id : String) {before after : Option TaskRecord}
    → (New → ⊥)
    → Change New task_id before after
    → IsCancelled before
    → IsCancelled after
unfolding cancelled with_status
Change-IsCancelled task_id old (kept same) h = rw same h
Change-IsCancelled task_id old (created now origin ttl final new e) h = absurd (old new)
Change-IsCancelled task_id old (cancelled_by now r e f) h = rw f refl
Change-IsCancelled task_id old (noted params r i e f) h = rw f (subst IsCancelled e h)

not_new :
    {New : Type 0} (task_id : String)
    → (New → (outside : Outside) × IsOther task_id outside × (task_id ≡ task_id_of outside.uuid))
    → New
    → ⊥
not_new task_id from new = let (outside, other, same) = from new in other (sym same)

-- The answer to tasks/result for a cancelled task.
abbrev pub cancelled_result : Value → Fields
cancelled_result request_id = jsonrpc_error request_id cancelled_code "Task cancelled" null

result_of_HasResult :
    (request_id : Value) (result : Fields) (found : Option TaskRecord)
    → HasResult result found
    → (with_record request_id (λ r. result_or_error request_id r.result r.error) found
        ≡ jsonrpc_result request_id result)
      ⊎ (with_record request_id (λ r. result_or_error request_id r.result r.error) found
          ≡ cancelled_result request_id)
result_of_HasResult request_id result none h = absurd h
result_of_HasResult request_id result (some r) (e, inl f) = inl (rw (e, f) refl)
result_of_HasResult request_id result (some r) (e, inr f) = inr (rw f refl)

-- Once tasks/result answers for a task id with a result that is stored, it answers with this result or
-- with the error that the task was cancelled after every run of messages, if no request in the run
-- creates a task with the same id.
pub Run-result_response :
    (request_id : Value) (task_id : String) (r : TaskRecord) (result : Fields) (h : Handler)
    {later : Handler}
    → lookup task_id h.tasks ≡ some r
    → r.result ≡ some result
    → r.error ≡ none
    → Run (IsOther task_id) h later
    → (result_response request_id later.tasks (some task_id) ≡ jsonrpc_result request_id result)
      ⊎ (result_response request_id later.tasks (some task_id) ≡ cancelled_result request_id)
unfolding result_response
Run-result_response request_id task_id r result h found e none_yet run =
    result_of_HasResult request_id result _ (
      Run-keeps task_id (HasResult result)
        (λ _ _ _ from change. Change-HasResult task_id result (not_new task_id from) change) run
        (rw found (e, inl none_yet)))

result_of_IsCancelled :
    (request_id : Value) (found : Option TaskRecord)
    → IsCancelled found
    → with_record request_id (λ r. result_or_error request_id r.result r.error) found
      ≡ cancelled_result request_id
result_of_IsCancelled request_id none h = absurd h
result_of_IsCancelled request_id (some r) h = rw h refl

cancel-IsCancelled :
    (now task_id : String) (r : TaskRecord) (tasks : Tasks)
    → lookup task_id tasks ≡ some r
    → IsCancelled (lookup task_id (cancel now tasks (some task_id)))
unfolding cancel cancelled
cancel-IsCancelled now task_id r tasks found =
    rw (found, lookup-insert task_id task_id (cancelled now r) tasks, eq_refl task_id) refl

-- After tasks/cancel for a stored task, tasks/result answers for it with the error that it was
-- cancelled after every run of messages, if no request in the run creates a task with the same id.
pub cancel-is_final :
    (request_id : Value) (now task_id : String) (r : TaskRecord) (h : Handler) {later : Handler}
    → lookup task_id h.tasks ≡ some r
    → Run (IsOther task_id) (record h { tasks = cancel now h.tasks (some task_id) }) later
    → result_response request_id later.tasks (some task_id) ≡ cancelled_result request_id
unfolding result_response
cancel-is_final request_id now task_id r h found run = result_of_IsCancelled request_id _ (
    Run-keeps task_id IsCancelled
      (λ _ _ _ from change. Change-IsCancelled task_id (not_new task_id from) change) run
      (cancel-IsCancelled now task_id r h.tasks found))

stored-create :
    (uuid now origin : String) (ttl : Value) (final : Fields) (tasks : Tasks)
    → lookup (task_id_of uuid) (create_task uuid now origin ttl (some final) none tasks)
      ≡ some (created_record (task_id_of uuid) now origin ttl final)
unfolding create_task
stored-create uuid now origin ttl final tasks =
    rw
      (
        lookup-insert (task_id_of uuid) (task_id_of uuid)
            (created_record (task_id_of uuid) now origin ttl final) tasks,
        eq_refl (task_id_of uuid),
      )
      refl

-- A request that asks for a task is answered with a task whose id then finds that task by tasks/get
-- and the final result by tasks/result.
pub task_aware_result-stored :
    (uuid now origin : String) (request_id query_id : Value) (params final meta : Fields)
    (tasks : Tasks)
    → get params "task" ≡ obj meta
    → let after = task_aware_result uuid now request_id params origin final tasks in
      (task : Fields) × (after.1 ≡ jsonrpc_result request_id (field "task" (obj task) end))
      × (get task "taskId" ≡ str (task_id_of uuid))
      × (get_response query_id after.0 (some (task_id_of uuid)) ≡ jsonrpc_result query_id task)
      × (result_response query_id after.0 (some (task_id_of uuid)) ≡ jsonrpc_result query_id final)
unfolding task_aware_result task_aware_by get_response result_response new_task get
task_aware_result-stored uuid now origin request_id query_id params final meta tasks e = rw e (
  new_task (task_id_of uuid) now (get meta "ttl") none,
  refl,
  refl,
  rw (stored-create uuid now origin (get meta "ttl") final tasks) refl,
  rw (stored-create uuid now origin (get meta "ttl") final tasks) refl,
)
