-- ===== src/SpecGuard/Notifications.antt =====
-- mcp_fuzzer/spec_guard/spec_checks_notifications.py: the shapes of notification payloads, which are
-- dicts by their type.
pub mod Conformance
use mcp_server_fuzzer.Prelude.{
  Bool, true, false, not, ◌&&◌, ◌||◌, List, [], ◌∷◌, ◌++◌, if◌then◌else◌,
}
use mcp_server_fuzzer.Json.{
  Value, Fields, null, obj, get, has, is_null, is_text, is_dict, is_str, is_int, is_bool, is_float,
}
use mcp_server_fuzzer.SpecGuard.{
  Env, SpecCheck, fail, when, logging_spec, protocol_spec, elicitation_spec,
}

-- isinstance(v, (str, int)) and not isinstance(v, bool)
abbrev pub is_token : Value → Bool
is_token v = (is_str v || is_int v) && not (is_bool v)

-- isinstance(v, (int, float)) and not isinstance(v, bool)
abbrev pub is_number : Value → Bool
is_number v = (is_int v || is_float v) && not (is_bool v)

-- A member that must be there and pass a test: one report for each way to fail.
abbrev required : SpecCheck → SpecCheck → (Value → Bool) → Value → List SpecCheck
required missing wrong_type test v =
    if is_null v then missing ∷ [] else when (not (test v)) wrong_type

module _ (env : Env) where
  check_logging_params : Value → List SpecCheck
  check_logging_params null =
      fail env "logging-params-missing" "Logging notification params missing" logging_spec ∷ []
  check_logging_params (obj params) =
      (if not (has params "level")
        then fail env "logging-level-missing" "Logging notification level missing" logging_spec ∷ []
        else when (not (is_str (get params "level"))) (
            fail env "logging-level-type" "Logging notification level is not a string"
              logging_spec))
      ++ (when (not (has params "data"))
            (fail env "logging-data-missing" "Logging notification data missing" logging_spec)
          ++ when (has params "logger" && not (is_str (get params "logger"))) (
              fail env "logging-logger-type" "Logging notification logger is not a string"
                logging_spec))
  check_logging_params _ =
      fail env "logging-params-type" "Logging notification params is not an object" logging_spec
      ∷ []

  pub check_logging_notification : Fields → List SpecCheck
  unfolding check_logging_params
  check_logging_notification payload = check_logging_params (get payload "params")

  check_complete_params : Value → List SpecCheck
  check_complete_params (obj params) = when (not (is_text (get params "elicitationId"))) (
      fail env "elicitation-complete-id" "Elicitation completion missing elicitationId"
        elicitation_spec)
  check_complete_params _ =
      fail env "elicitation-complete-params" "Elicitation completion params missing"
        elicitation_spec
      ∷ []

  pub check_elicitation_complete_notification : Fields → List SpecCheck
  unfolding check_complete_params
  check_elicitation_complete_notification payload = check_complete_params (get payload "params")

  check_progress_params : Value → List SpecCheck
  check_progress_params (obj params) =
      required
        (fail env "progress-token-missing" "notifications/progress missing progressToken"
          protocol_spec)
        (fail env "progress-token-type"
          "notifications/progress progressToken must be string or integer" protocol_spec)
        is_token (get params "progressToken")
      ++ (required
            (fail env "progress-value-missing" "notifications/progress missing progress value"
              protocol_spec)
            (fail env "progress-value-type" "notifications/progress progress must be a number"
              protocol_spec)
            is_number (get params "progress")
          ++ when (not (is_null (get params "total")) && not (is_number (get params "total"))) (
              fail env "progress-total-type" "notifications/progress total must be a number"
                protocol_spec))
  check_progress_params _ =
      fail env "progress-params-type" "notifications/progress params is not an object" protocol_spec
      ∷ []

  pub check_progress_notification : Fields → List SpecCheck
  unfolding check_progress_params
  check_progress_notification payload = check_progress_params (get payload "params")

  check_cancelled_params : Value → List SpecCheck
  check_cancelled_params (obj params) =
      required
        (fail env "cancelled-request-id-missing" "notifications/cancelled missing requestId"
          protocol_spec)
        (fail env "cancelled-request-id-type"
          "notifications/cancelled requestId must be string or integer" protocol_spec)
        is_token (get params "requestId")
      ++ when (not (is_null (get params "reason")) && not (is_str (get params "reason"))) (
          fail env "cancelled-reason-type" "notifications/cancelled reason must be a string"
            protocol_spec)
  check_cancelled_params _ =
      fail env "cancelled-params-type" "notifications/cancelled params is not an object"
        protocol_spec
      ∷ []

  pub check_cancelled_notification : Fields → List SpecCheck
  unfolding check_cancelled_params
  check_cancelled_notification payload = check_cancelled_params (get payload "params")

  pub check_list_changed_notification : Fields → List SpecCheck
  check_list_changed_notification payload =
      when (not (is_null (get payload "params")) && not (is_dict (get payload "params"))) (
        fail env "list-changed-params-type"
          "list_changed notification params must be an object when present" protocol_spec)
