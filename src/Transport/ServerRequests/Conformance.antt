-- ===== src/Transport/ServerRequests/Conformance.antt =====
-- What the handler answers, checked by the program's own checks of the specification, and when it
-- raises instead.
use mcp_server_fuzzer.Prelude.{
  String, ◌≡◌, ◌≢◌, refl, ◌↔◌, inl, inr, Bool-cases, false, [], none, arith, eq_iff, Result-cases,
  ok,
}
use mcp_server_fuzzer.Json.{Value, Fields, end, field, bool, obj, get, has, is_bool}
use mcp_server_fuzzer.SpecGuard.{Env}
use mcp_server_fuzzer.SpecGuard.Shape.{IsInteger}
use mcp_server_fuzzer.SpecGuard.Misc.{check_create_message_result, check_elicit_result}
use mcp_server_fuzzer.SpecGuard.Tasks.{check_task_shape}
use mcp_server_fuzzer.SpecGuard.Tasks.Conformance.{check_task_shape-eq-nil_iff}
use mcp_server_fuzzer.Transport.ServerRequests.Forms.{form_content_from_schema}
use mcp_server_fuzzer.Transport.ServerRequests.Builders.{
  is_url_mode, elicit_result, build_sampling_create_message_result, build_elicitation_create_result,
}
use mcp_server_fuzzer.Transport.ServerRequests.TaskManager.{ttl_value, new_task}

-- A built sample has no finding in check_create_message_result, if the model's name is not empty.
pub build_sampling_create_message_result-passes :
    (env : Env) (hex model text : String) (params : Fields)
    → model ≢ ""
    → check_create_message_result env
        (obj (build_sampling_create_message_result hex model text params))
      ≡ []
unfolding build_sampling_create_message_result check_create_message_result get
build_sampling_create_message_result-passes env hex model text params named =
    ground (arith, eq_iff model "")

elicit_result-passes :
    (env : Env) (content : Fields) → check_elicit_result env (obj (elicit_result content)) ≡ ok []
unfolding check_elicit_result get has
elicit_result-passes env end = refl
elicit_result-passes env (field k v rest) = refl

-- An elicitation result that is built has no finding in check_elicit_result.
pub build_elicitation_create_result-passes :
    (env : Env) (params : Fields) {result : Fields}
    → build_elicitation_create_result params ≡ ok result
    → check_elicit_result env (obj result) ≡ ok []
unfolding build_elicitation_create_result
build_elicitation_create_result-passes env params e = elim (Bool-cases (is_url_mode params)) [
  | inl url ↦ ground (arith, e, url, elicit_result-passes env end)
  | inr form ↦ elim (Result-cases (form_content_from_schema (get params "requestedSchema"))) [
    | inl (content, filled) ↦ ground (arith, e, form, filled, elicit_result-passes env content)
    | inr (exception, raised) ↦ ground (arith, e, form, raised)
  ]
]

ttl-IsInteger_iff : (ttl : Value) → IsInteger (ttl_value ttl) ↔ (is_bool ttl ≡ false)
ttl-IsInteger_iff (bool b) = ground arith
ttl-IsInteger_iff _ = ground arith

-- A new task has no finding in check_task_shape exactly if the ttl that was asked for is no boolean,
-- where its id and the time are not empty.
pub new_task-passes_iff :
    (env : Env) (prefix task_id now : String) (ttl : Value)
    → task_id ≢ ""
    → now ≢ ""
    → (check_task_shape env prefix (obj (new_task task_id now ttl none)) ≡ [])
      ↔ (is_bool ttl ≡ false)
unfolding new_task get
new_task-passes_iff env prefix task_id now ttl named timed =
    let iff = check_task_shape-eq-nil_iff env prefix (obj (new_task task_id now ttl none)) in
    let ttl_iff = ttl-IsInteger_iff ttl in
    (
      (λ e. ttl_iff.0 ((iff.0 e).ttl)),
      (λ h. iff.1 (record {
        task_id = named;
        status = ground (arith, eq_iff "completed" "");
        created_at = timed;
        last_updated_at = timed;
        ttl = ttl_iff.1 h;
        poll_interval = tt;
      })),
    )
