-- ===== src/Transport/ServerRequests/Effects.antt =====
-- What each method of the server does to one task of the handler.
use mathlib.Core.Path.{subst}
use mcp_server_fuzzer.Prelude.{
  String, ◌≡◌, ◌≢◌, refl, sym, ◌∙◌, ap, inl, inr, Bool-cases, Option, Option-cases, none, some,
  guarded, arith, ◌==◌, eq_iff, Result, ok, err,
}
use mcp_server_fuzzer.Prelude.Text.{◌+++◌}
use mcp_server_fuzzer.Json.{Value, Fields, str, obj, get, PyError}
use mcp_server_fuzzer.Json.Table.{lookup, lookup-insert}
use mcp_server_fuzzer.Transport.ServerRequests.{is_server_request}
use mcp_server_fuzzer.Transport.ServerRequests.Builders.{
  params_of, build_sampling_create_message_result, build_elicitation_create_result,
}
use mcp_server_fuzzer.Transport.ServerRequests.TaskManager.{
  TaskRecord, Tasks, task_id_of, cancelled, cancel, create_task, task_aware_by, task_aware_result,
  extract_task_id,
}
use mcp_server_fuzzer.Transport.ServerRequests.Handler.{
  Outside, Handler, Outcome, Request, request_of, answer, answer_elicitation, respond, dispatch_by,
  dispatch, handle_elicitation_create, handle_request,
}
use mcp_server_fuzzer.Transport.ServerRequests.Methods.{
  name_of, name_of-request_of, unnamed, names_differ, form_no_cancel, form_no_sample,
  sample_no_cancel, extract_task_id_iff,
}
use mcp_server_fuzzer.Transport.ServerRequests.Steps.{created_record}

module _ (outside : Outside) (method : Value) (params : Fields) (task_id : String) where
  -- The request asks to cancel the task with this id.
  abbrev pub Cancels : Type 0
  Cancels = (method ≡ str "tasks/cancel") × (get params "taskId" ≡ str task_id) × (task_id ≢ "")

  -- The request has the result, which is to be kept in a task.
  pub data Offers (origin : String) (result : Fields) : Type 0 where
    sampling :
        method ≡ str "sampling/createMessage"
        → origin ≡ "sampling/createMessage"
        → build_sampling_create_message_result outside.hex "mcp-fuzzer"
            "mcp-fuzzer sampling response" params
          ≡ result
        → Offers origin result
    elicitation :
        method ≡ str "elicitation/create"
        → origin ≡ "elicitation/create"
        → build_elicitation_create_result params ≡ ok result
        → Offers origin result

  -- The request makes a task of this id, with the time to live that its `task` member asks for.
  pub record Creates (origin : String) (result meta : Fields) : Type 0 where
    pub offered : Offers origin result
    pub asked : get params "task" ≡ obj meta
    pub named : task_id ≡ "task-" +++ outside.uuid

  -- What becomes of the record under the id.
  pub data Effect (before after : Option TaskRecord) : Type 0 where
    kept :
        ¬ (Cancels × (before ≢ none))
        → ¬ ((origin : String) × (result : Fields) × (meta : Fields) × Creates origin result meta)
        → after ≡ before
        → Effect before after
    cancels :
        (r : TaskRecord)
        → Cancels
        → before ≡ some r
        → after ≡ some (cancelled outside.now r)
        → Effect before after
    creates :
        (origin : String) (result meta : Fields)
        → Creates origin result meta
        → after ≡ some (created_record task_id outside.now origin (get meta "ttl") result)
        → Effect before after

module _ (outside : Outside) (params : Fields) (task_id : String) where
  not_creating :
      {method : Value}
      → method ≢ str "sampling/createMessage"
      → method ≢ str "elicitation/create"
      → ¬ (
          (origin : String) × (result : Fields) × (meta : Fields) × Creates outside method params
            task_id origin result meta)
  not_creating no_sample no_form (origin, result, meta, c) = elim (c.offered) [
    | sampling m o r ↦ no_sample m
    | elicitation m o r ↦ no_form m
  ]

  cancel-Effect :
      (key : Option String) (tasks : Tasks)
      → extract_task_id params ≡ key
      → Effect outside
          (str "tasks/cancel")
          params
          task_id
          (lookup task_id tasks)
          (lookup task_id (cancel outside.now tasks key))
  unfolding cancel
  cancel-Effect none tasks e =
      kept
        (λ (c, there).
          let asked = (extract_task_id_iff params task_id).1 (c.1, c.2) in cc (asked, e))
        (not_creating (λ h. cc h) (λ h. cc h)) refl
  cancel-Effect (some key) tasks e = elim (Option-cases (lookup key tasks)) [
    | inl missing ↦
        kept
          (λ (c, there).
            let asked = (extract_task_id_iff params task_id).1 (c.1, c.2) in
            let same : key ≡ task_id = cc (asked, e) in
            there (ap (λ i. lookup i tasks) (sym same) ∙ missing))
          (not_creating (λ h. cc h) (λ h. cc h)) (ground (arith, missing))
    | inr (r, found) ↦ elim (Bool-cases (key == task_id)) [
      | inl equal ↦
          let same = (eq_iff key task_id).0 equal in
          let asked = (extract_task_id_iff params task_id).0 (e ∙ ap some same) in
          cancels r (refl, asked.0, asked.1) (ap (λ i. lookup i tasks) (sym same) ∙ found)
            (ground
              (arith, found, equal, lookup-insert key task_id (cancelled outside.now r) tasks))
      | inr different ↦
          kept
            (λ (c, there).
              let asked = (extract_task_id_iff params task_id).1 (c.1, c.2) in
              let equal = (eq_iff key task_id).1 (cc (asked, e)) in cc (equal, different))
            (not_creating (λ h. cc h) (λ h. cc h))
            (ground
              (arith, found, different, lookup-insert key task_id (cancelled outside.now r) tasks))
    ]
  ]

  task_aware_by-Effect :
      (method request_id : Value) (origin : String) (result : Fields) (task : Value) (tasks : Tasks)
      → method ≢ str "tasks/cancel"
      → Offers outside method params task_id origin result
      → get params "task" ≡ task
      → Effect outside method params task_id (lookup task_id tasks) (
          lookup task_id
            (task_aware_by outside.uuid outside.now request_id origin result task tasks).0)
  unfolding task_aware_by create_task
  task_aware_by-Effect method request_id origin result (obj meta) tasks other offered e =
      let now_there =
        lookup-insert (task_id_of outside.uuid) task_id
          (created_record (task_id_of outside.uuid) outside.now origin (get meta "ttl") result)
          tasks in
      elim (Bool-cases (task_id_of outside.uuid == task_id)) [
        | inl same ↦
            let id = (eq_iff (task_id_of outside.uuid) task_id).0 same in
            creates origin result meta (record { offered = offered; asked = e; named = sym id })
              (ground (arith, now_there, same, id))
        | inr different ↦
            kept (λ h. other (h.0).0)
              (λ (o, r, m, c).
                let id = (eq_iff (task_id_of outside.uuid) task_id).1 (sym c.named) in
                cc (id, different))
              (ground (arith, now_there, different))
      ]
  task_aware_by-Effect method request_id origin result _ tasks other offered e =
      kept (λ h. other (h.0).0) (λ (o, r, m, c). cc (c.asked, e)) refl

  abbrev AffectedBy : Value → Handler → Handler → Type 0
  AffectedBy method h later =
      Effect outside method params task_id (lookup task_id h.tasks) (lookup task_id later.tasks)

  -- A method that neither cancels nor offers a result leaves the tasks.
  untouched :
      (method : Value) (h : Handler)
      → method ≢ str "tasks/cancel"
      → method ≢ str "sampling/createMessage"
      → method ≢ str "elicitation/create"
      → AffectedBy method h h
  untouched method h no_cancel no_sample no_form =
      kept (λ d. no_cancel (d.0).0) (not_creating no_sample no_form) refl

  module _ (request_id : Value) where
    answer-Effect :
        (method : Value) (origin : String) (result : Fields) (h : Handler)
        → method ≢ str "tasks/cancel"
        → Offers outside method params task_id origin result
        → AffectedBy method h (answer outside request_id params origin result h).0
    unfolding answer task_aware_result
    answer-Effect method origin result h other offered =
        task_aware_by-Effect method request_id origin result (get params "task") h.tasks other
          offered refl

    answer_elicitation-Effect :
        (method : Value) (result : Result PyError Fields) (h : Handler)
        → method ≡ str "elicitation/create"
        → build_elicitation_create_result params ≡ result
        → AffectedBy method h (answer_elicitation outside request_id params result h).0
    answer_elicitation-Effect method (err e) h m raised =
        kept (λ d. form_no_cancel (sym m ∙ (d.0).0))
          (λ (o, r, meta, c). elim c.offered [
            | sampling m' o' r' ↦ form_no_sample (sym m ∙ m')
            | elicitation m' o' built ↦ cc (built, raised)
          ])
          refl
    answer_elicitation-Effect method (ok result) h m built =
        answer-Effect method "elicitation/create" result h (λ c. form_no_cancel (sym m ∙ c))
          (elicitation m refl built)

    respond-Effect :
        (r : Request) (h : Handler)
        → AffectedBy (str (name_of r)) h (respond outside request_id params r h).0
    unfolding respond handle_elicitation_create
    respond-Effect Request.sampling_create_message h =
        answer-Effect (str "sampling/createMessage") "sampling/createMessage" _ h sample_no_cancel
          (sampling refl refl refl)
    respond-Effect Request.elicitation_create h =
        answer_elicitation-Effect (str "elicitation/create")
          (build_elicitation_create_result params) _ refl refl
    respond-Effect Request.tasks_cancel h = cancel-Effect (extract_task_id params) h.tasks refl
    respond-Effect r h =
        untouched (str (name_of r)) h (names_differ r Request.tasks_cancel (λ h. cc h))
          (names_differ r Request.sampling_create_message (λ h. cc h))
          (names_differ r Request.elicitation_create (λ h. cc h))

    dispatch_by-Effect :
        (method : String) (request : Option Request) (h : Handler)
        → request_of method ≡ request
        → AffectedBy (str method) h (dispatch_by outside request_id params method request h).0
    dispatch_by-Effect method (some r) h e =
        subst (λ (m : String). AffectedBy (str m) h (respond outside request_id params r h).0)
          (sym (name_of-request_of method r e)) (respond-Effect r h)
    dispatch_by-Effect method none h e =
        untouched (str method) h (unnamed Request.tasks_cancel e)
          (unnamed Request.sampling_create_message e) (unnamed Request.elicitation_create e)

    dispatch-Effect :
        (method : Value) (h : Handler)
        → AffectedBy method h (dispatch outside request_id params method h).0
    unfolding dispatch
    dispatch-Effect (str method) h = dispatch_by-Effect method (request_of method) h refl
    dispatch-Effect method h = untouched method h (λ h. cc h) (λ h. cc h) (λ h. cc h)

-- A request of the server changes the record under an id in two cases only, and then as its method
-- says: `tasks/cancel` with this id cancels it; `sampling/createMessage` and `elicitation/create` with
-- a dict for the `task` member create it, with the result that is built, if the id is the one made
-- of the new uuid. Every other request, every other id and every other method leave it as it was.
pub handle_request-Effect :
    (outside : Outside) (task_id : String) (payload : Fields) (h : Handler) {outcome : Outcome}
    → handle_request outside (obj payload) h ≡ some outcome
    → Effect outside
        (get payload "method")
        (params_of (get payload "params"))
        task_id
        (lookup task_id h.tasks)
        (lookup task_id (outcome.0).tasks)
unfolding handle_request
handle_request-Effect outside task_id payload h e =
    let params = params_of (get payload "params") in
    guarded
      (λ (outcome : Outcome). AffectedBy outside params task_id (get payload "method") h outcome.0)
      (is_server_request (obj payload)) _
      (dispatch-Effect outside params task_id (get payload "id") (get payload "method") h) e
