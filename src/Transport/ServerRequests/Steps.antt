-- ===== src/Transport/ServerRequests/Steps.antt =====
-- What one message of the server can do to one task of the handler.
use mcp_server_fuzzer.Prelude.{
  String, ◌≡◌, refl, sym, ◌∙◌, ap, ◌⊎◌, inl, inr, Bool, Bool-cases, Option, Option-cases, none,
  some, both, guarded, arith, ◌==◌, eq_iff, Result, ok, err,
}
use mcp_server_fuzzer.Json.{Value, Fields, str, obj, get, PyError}
use mcp_server_fuzzer.Json.Table.{lookup, lookup-insert}
use mcp_server_fuzzer.Transport.ServerRequests.{is_server_request, is_server_notification}
use mcp_server_fuzzer.Transport.ServerRequests.Builders.{params_of, build_elicitation_create_result}
use mcp_server_fuzzer.Transport.ServerRequests.TaskManager.{
  TaskRecord, Tasks, new_task, task_id_of, cancelled, with_status, modify, cancel, create_task,
  task_aware_by, task_aware_result, extract_task_id, update_task, update_status,
}
use mcp_server_fuzzer.Transport.ServerRequests.Handler.{
  Outside, Handler, Outcome, Request, request_of, answer, answer_elicitation, respond, dispatch_by,
  dispatch, handle_elicitation_create, handle_request, note, notify, handle_notification, is_member,
  tracked_notifications,
}

-- The record of a task that is created with its result.
abbrev pub created_record : String → String → String → Value → Fields → TaskRecord
created_record task_id now origin ttl result = record {
  task = new_task task_id now ttl none;
  result = some result;
  error = none;
  origin_method = origin;
}

-- The ways in which the record under an id can change: `New` tells when it can be created.
pub data Change (New : Type 0) (task_id : String) (before after : Option TaskRecord) : Type 0 where
  kept : after ≡ before → Change New task_id before after
  created :
      (now origin : String) (ttl : Value) (result : Fields)
      → New
      → after ≡ some (created_record task_id now origin ttl result)
      → Change New task_id before after
  cancelled_by :
      (now : String) (r : TaskRecord)
      → before ≡ some r
      → after ≡ some (cancelled now r)
      → Change New task_id before after
  noted :
      (params : Fields) (r : TaskRecord)
      → get params "taskId" ≡ str task_id
      → before ≡ some r
      → after ≡ some (with_status params r)
      → Change New task_id before after

lookup-modify :
    (key task_id : String) (change : TaskRecord → TaskRecord) (tasks : Tasks)
    → (lookup task_id (modify key change (lookup key tasks) tasks) ≡ lookup task_id tasks)
      ⊎ ((key ≡ task_id)
          × ((r : TaskRecord) × (lookup task_id tasks ≡ some r)
              × (lookup task_id (modify key change (lookup key tasks) tasks) ≡ some (change r))))
lookup-modify key task_id change tasks = elim (Option-cases (lookup key tasks)) [
  | inl missing ↦ inl (ground (arith, missing))
  | inr (r, found) ↦ elim (Bool-cases (key == task_id)) [
    | inl same ↦
        ground (arith, found, same, eq_iff key task_id, lookup-insert key task_id (change r) tasks)
    | inr other ↦ ground (arith, found, other, lookup-insert key task_id (change r) tasks)
  ]
]

update_task-Change :
    {New : Type 0} (task_id : String) (params : Fields) (key : Value) (tasks : Tasks)
    → get params "taskId" ≡ key
    → Change New task_id (lookup task_id tasks) (lookup task_id (update_task params key tasks))
update_task-Change task_id params (str key) tasks e =
    elim (lookup-modify key task_id (with_status params) tasks) [
      | inl same ↦ kept same
      | inr (same, (r, found, changed)) ↦ noted params r (e ∙ ap str same) found changed
    ]
update_task-Change task_id params _ tasks e = kept refl

module _ (outside : Outside) (task_id : String) where
  cancel-Change :
      (tasks : Tasks) (key : Option String)
      → Change
          (task_id ≡ task_id_of outside.uuid)
          task_id
          (lookup task_id tasks)
          (lookup task_id (cancel outside.now tasks key))
  unfolding cancel
  cancel-Change tasks none = kept refl
  cancel-Change tasks (some key) = elim (lookup-modify key task_id (cancelled outside.now) tasks) [
    | inl same ↦ kept same
    | inr (same, (r, found, changed)) ↦ cancelled_by outside.now r found changed
  ]

  create_task-Change :
      (origin : String) (ttl : Value) (result : Fields) (tasks : Tasks)
      → Change (task_id ≡ task_id_of outside.uuid) task_id (lookup task_id tasks) (
          lookup task_id (create_task outside.uuid outside.now origin ttl (some result) none tasks))
  unfolding create_task
  create_task-Change origin ttl result tasks =
      let now_there =
        lookup-insert (task_id_of outside.uuid) task_id
          (created_record (task_id_of outside.uuid) outside.now origin ttl result) tasks in
      elim (Bool-cases (task_id_of outside.uuid == task_id)) [
        | inl same ↦
            let id = (eq_iff (task_id_of outside.uuid) task_id).0 same in
            created outside.now origin ttl result (sym id) (ground (arith, now_there, same, id))
        | inr other ↦ kept (ground (arith, now_there, other))
      ]

  task_aware_by-Change :
      (request_id : Value) (origin : String) (result : Fields) (task : Value) (tasks : Tasks)
      → Change (task_id ≡ task_id_of outside.uuid) task_id (lookup task_id tasks) (
          lookup task_id
            (task_aware_by outside.uuid outside.now request_id origin result task tasks).0)
  unfolding task_aware_by
  task_aware_by-Change request_id origin result (obj meta) tasks =
      create_task-Change origin (get meta "ttl") result tasks
  task_aware_by-Change request_id origin result _ tasks = kept refl

  abbrev ChangesTo : Handler → Handler → Type 0
  ChangesTo h later =
      Change (task_id ≡ task_id_of outside.uuid) task_id (lookup task_id h.tasks)
        (lookup task_id later.tasks)

  module _ (request_id : Value) (params : Fields) where
    answer-Change :
        (origin : String) (result : Fields) (h : Handler)
        → ChangesTo h (answer outside request_id params origin result h).0
    unfolding answer task_aware_result
    answer-Change origin result h =
        task_aware_by-Change request_id origin result (get params "task") h.tasks

    answer_elicitation-Change :
        (result : Result PyError Fields) (h : Handler)
        → ChangesTo h (answer_elicitation outside request_id params result h).0
    answer_elicitation-Change (err e) h = kept refl
    answer_elicitation-Change (ok result) h = answer-Change "elicitation/create" result h

    respond-Change :
        (request : Request) (h : Handler)
        → ChangesTo h (respond outside request_id params request h).0
    unfolding respond handle_elicitation_create
    respond-Change Request.sampling_create_message h = answer-Change _ _ h
    respond-Change Request.elicitation_create h =
        answer_elicitation-Change (build_elicitation_create_result params) _
    respond-Change Request.tasks_cancel h = cancel-Change h.tasks (extract_task_id params)
    respond-Change _ h = kept refl

    dispatch_by-Change :
        (method : String) (request : Option Request) (h : Handler)
        → ChangesTo h (dispatch_by outside request_id params method request h).0
    dispatch_by-Change method (some request) h = respond-Change request h
    dispatch_by-Change method none h = kept refl

    dispatch-Change :
        (method : Value) (h : Handler) → ChangesTo h (dispatch outside request_id params method h).0
    unfolding dispatch
    dispatch-Change (str method) h = dispatch_by-Change method (request_of method) h
    dispatch-Change _ h = kept refl

  -- A request leaves the record under an id as it was, creates it if the id is the one made of the new
  -- uuid, cancels it, or notes a status in it.
  pub handle_request-Change :
      (payload : Value) (h : Handler) {outcome : Outcome}
      → handle_request outside payload h ≡ some outcome
      → Change
          (task_id ≡ task_id_of outside.uuid)
          task_id
          (lookup task_id h.tasks)
          (lookup task_id (outcome.0).tasks)
  unfolding handle_request
  handle_request-Change (obj payload) h e =
      guarded (λ (outcome : Outcome). ChangesTo h outcome.0) (is_server_request (obj payload)) _
        (dispatch-Change (get payload "id") (params_of (get payload "params"))
          (get payload "method") h)
        e
  handle_request-Change _ h e = ground arith

module _ (task_id : String) where
  abbrev Noted : Handler → Handler → Type 0
  Noted h later = Change ⊥ task_id (lookup task_id h.tasks) (lookup task_id later.tasks)

  note-Change : (method : String) (params : Fields) (h : Handler) → Noted h (note method params h)
  unfolding note update_status
  note-Change method params h =
      both (Noted h) (method == "notifications/elicitation/complete") _ _ (λ _. kept refl)
        (λ _.
          both (Noted h) (method == "notifications/tasks/status") _ _
            (λ _. update_task-Change task_id params (get params "taskId") h.tasks refl)
            (λ _. kept refl))

  notify-Change :
      (params : Fields) (method : Value) (h : Handler) → Noted h (notify params method h).0
  notify-Change params (str method) h =
      both (λ (after : Handler × Bool). Noted h after.0) (is_member method tracked_notifications) _
        _ (λ _. note-Change method params h) (λ _. kept refl)
  notify-Change params _ h = kept refl

  pub handle_notification-Change :
      (payload : Value) (h : Handler)
      → Change ⊥ task_id
          (lookup task_id h.tasks)
          (lookup task_id ((handle_notification payload h).0).tasks)
  unfolding handle_notification
  handle_notification-Change (obj payload) h =
      both (λ (after : Handler × Bool). Noted h after.0) (is_server_notification (obj payload)) _ _
        (λ _. notify-Change (params_of (get payload "params")) (get payload "method") h)
        (λ _. kept refl)
  handle_notification-Change _ h = kept refl
