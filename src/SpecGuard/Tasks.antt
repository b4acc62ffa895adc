-- ===== src/SpecGuard/Tasks.antt =====
-- mcp_fuzzer/spec_guard/spec_checks_tasks.py: the shapes of tasks.
pub mod Conformance
use mcp_server_fuzzer.Prelude.{
  ℕ, String, Bool, true, false, not, ◌&&◌, ◌||◌, List, [], ◌∷◌, ◌++◌, extend_from, if◌then◌else◌,
}
use mcp_server_fuzzer.Prelude.Text.{◌+++◌, show}
use mcp_server_fuzzer.Json.{
  Value, Fields, null, arr, obj, elems, get, has, is_null, is_text, is_int, is_bool,
}
use mcp_server_fuzzer.SpecGuard.{Env, SpecCheck, fail, when, check_items, tasks_spec}
use mcp_server_fuzzer.SpecGuard.Content.{check_tool_result_content}

-- isinstance(v, int) and not isinstance(v, bool)
abbrev pub is_integer : Value → Bool
is_integer v = is_int v && not (is_bool v)

module _ (env : Env) where
  -- One round of the loop over the four text fields.
  check_task_field : String → Fields → String → List SpecCheck
  check_task_field prefix task name =
      when (not (is_text (get task name)))
        (fail env (prefix +++ "-" +++ name) ("Task missing valid " +++ name) tasks_spec)

  pub check_task_shape : String → Value → List SpecCheck
  unfolding check_task_field
  check_task_shape prefix (obj task) =
      check_task_field prefix task "taskId"
      ++ (check_task_field prefix task "status"
          ++ (check_task_field prefix task "createdAt"
              ++ (check_task_field prefix task "lastUpdatedAt"
                  ++ (when (not (is_integer (get task "ttl")))
                        (fail env (prefix +++ "-ttl") "Task ttl must be an integer" tasks_spec)
                      ++ when
                          (not (is_null (get task "pollInterval"))
                            && not (is_integer (get task "pollInterval")))
                          (fail env (prefix +++ "-poll-interval")
                            "Task pollInterval must be an integer" tasks_spec)))))
  check_task_shape prefix _ = fail env (prefix +++ "-type") "Task is not an object" tasks_spec ∷ []

  pub check_tasks_list : Value → List SpecCheck
  unfolding check_task_shape
  check_tasks_list (obj result) =
      check_items (fail env "tasks-list-missing" "Missing tasks array" tasks_spec)
        (fail env "tasks-list-type" "tasks is not an array" tasks_spec)
        (λ idx task. check_task_shape ("tasks-list-" +++ show idx) task) (get result "tasks")
  check_tasks_list _ = []

  pub check_task_result : Value → List SpecCheck
  unfolding check_task_shape
  check_task_result result = check_task_shape "task" result

  pub check_task_payload_result : Value → List SpecCheck
  check_task_payload_result (obj result) =
      if has result "content" then check_tool_result_content env (obj result) else []
  check_task_payload_result _ =
      fail env "tasks-result-type" "tasks/result payload is not an object" tasks_spec ∷ []

  -- The payload of a notification is a dict by its type.
  pub check_task_status_notification : Fields → List SpecCheck
  unfolding check_task_shape
  check_task_status_notification payload = check_task_shape "tasks-status" (get payload "params")
