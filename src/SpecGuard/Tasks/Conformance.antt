-- ===== src/SpecGuard/Tasks/Conformance.antt =====
-- When the checks of tasks report nothing.
use mcp_server_fuzzer.Prelude.{String, ◌≡◌, ◌↔◌, [], arith, nil_and3, nil_and4}
use mcp_server_fuzzer.Prelude.Text.{◌+++◌, show}
use mcp_server_fuzzer.Json.{Value, Fields, null, obj, get, is_text}
use mcp_server_fuzzer.SpecGuard.{Env}
use mcp_server_fuzzer.SpecGuard.Shape.{
  ArrayOf, ObjectWith, IfObject, IsText, IsInteger, NullOr, Decides, is_text_iff,
  check_items-eq-nil_iff, unless-eq-nil_iff, unless_null-eq-nil_iff,
}
use mcp_server_fuzzer.SpecGuard.Tasks.{
  is_integer, check_task_field, check_task_shape, check_tasks_list, check_task_result,
  check_task_status_notification,
}

is_integer_iff : Decides is_integer IsInteger
is_integer_iff null = ground arith
is_integer_iff _ = ground arith

pub record TaskMembers (d : Fields) : Type 0 where
  pub task_id : IsText (get d "taskId")
  pub status : IsText (get d "status")
  pub created_at : IsText (get d "createdAt")
  pub last_updated_at : IsText (get d "lastUpdatedAt")
  pub ttl : IsInteger (get d "ttl")
  pub poll_interval : NullOr IsInteger (get d "pollInterval")

abbrev pub Task : Value → Type 0
Task = ObjectWith TaskMembers

module _ (env : Env) where
  check_task_field-eq-nil_iff :
      (prefix : String) (d : Fields) (name : String)
      → (check_task_field env prefix d name ≡ []) ↔ IsText (get d name)
  unfolding check_task_field
  check_task_field-eq-nil_iff prefix d name =
      unless-eq-nil_iff {P = IsText} is_text _ is_text_iff (get d name)

  -- A task has no finding exactly if it is an object with texts as its four text members, an integer
  -- as its ttl, and an integer as its pollInterval if that is not null.
  pub check_task_shape-eq-nil_iff :
      (prefix : String) (v : Value) → (check_task_shape env prefix v ≡ []) ↔ Task v
  unfolding check_task_shape
  check_task_shape-eq-nil_iff prefix (obj d) =
      let field = λ (name : String). check_task_field-eq-nil_iff prefix d name in
      let parts = nil_and4 (field "taskId") (field "status") (field "createdAt") (
        nil_and3 (field "lastUpdatedAt")
          (unless-eq-nil_iff {P = IsInteger} is_integer _ is_integer_iff (get d "ttl"))
          (unless_null-eq-nil_iff IsInteger is_integer _ is_integer_iff (get d "pollInterval"))) in
      (
        (λ e.
            let (a, b, c, (l, t, p)) = parts.0 e in
            record {
              task_id = a;
              status = b;
              created_at = c;
              last_updated_at = l;
              ttl = t;
              poll_interval = p;
            }),
        (λ h.
            parts.1
              (h.task_id, h.status, h.created_at, (h.last_updated_at, h.ttl, h.poll_interval))),
      )
  check_task_shape-eq-nil_iff prefix _ = ground arith

  -- A tasks/list result has no finding exactly if it is no object, or its `tasks` is an array of
  -- well-formed tasks.
  pub check_tasks_list-eq-nil_iff :
      (v : Value) → (check_tasks_list env v ≡ []) ↔ IfObject (λ d. ArrayOf Task (get d "tasks")) v
  unfolding check_tasks_list
  check_tasks_list-eq-nil_iff (obj d) =
      check_items-eq-nil_iff Task _ _ _
        (λ i v. check_task_shape-eq-nil_iff ("tasks-list-" +++ show i) v) (get d "tasks")
  check_tasks_list-eq-nil_iff _ = ground arith

  -- A task result has no finding exactly if it is a well-formed task.
  pub check_task_result-eq-nil_iff : (v : Value) → (check_task_result env v ≡ []) ↔ Task v
  unfolding check_task_result
  check_task_result-eq-nil_iff v = check_task_shape-eq-nil_iff "task" v

  -- A task-status notification has no finding exactly if its params are a well-formed task.
  pub check_task_status_notification-eq-nil_iff :
      (payload : Fields)
      → (check_task_status_notification env payload ≡ []) ↔ Task (get payload "params")
  unfolding check_task_status_notification
  check_task_status_notification-eq-nil_iff payload =
      check_task_shape-eq-nil_iff "tasks-status" (get payload "params")
