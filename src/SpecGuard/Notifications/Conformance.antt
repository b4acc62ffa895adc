-- ===== src/SpecGuard/Notifications/Conformance.antt =====
-- When the checks of notification payloads report nothing.
use mcp_server_fuzzer.Prelude.{◌≡◌, ◌↔◌, true, [], arith, nil_and, nil_and3}
use mcp_server_fuzzer.Json.{Value, Fields, null, obj, get, has, is_str, is_dict}
use mcp_server_fuzzer.SpecGuard.{Env, SpecCheck}
use mcp_server_fuzzer.SpecGuard.Shape.{
  ObjectWith, IsText, IsString, IsObject, IsNumber, IsToken, NullOr, IfMember, is_text_iff,
  is_str_iff, is_dict_iff, unless_null-eq-nil_iff,
}
use mcp_server_fuzzer.SpecGuard.Notifications.{
  is_token, is_number, required, check_logging_params, check_logging_notification,
  check_complete_params, check_elicitation_complete_notification, check_progress_params,
  check_progress_notification, check_cancelled_params, check_cancelled_notification,
  check_list_changed_notification,
}

is_token_iff : (v : Value) → (is_token v ≡ true) ↔ IsToken v
is_token_iff null = ground arith
is_token_iff _ = ground arith

is_number_iff : (v : Value) → (is_number v ≡ true) ↔ IsNumber v
is_number_iff null = ground arith
is_number_iff _ = ground arith

module _ (missing wrong_type : SpecCheck) where
  required-IsToken-eq-nil_iff :
      (v : Value) → (required missing wrong_type is_token v ≡ []) ↔ IsToken v
  required-IsToken-eq-nil_iff null = ground arith
  required-IsToken-eq-nil_iff _ = ground arith

  required-IsNumber-eq-nil_iff :
      (v : Value) → (required missing wrong_type is_number v ≡ []) ↔ IsNumber v
  required-IsNumber-eq-nil_iff null = ground arith
  required-IsNumber-eq-nil_iff _ = ground arith

abbrev pub LoggingParams : Fields → Type 0
LoggingParams d =
    (has d "level" ≡ true)
    × IsString (get d "level")
    × (has d "data" ≡ true)
    × IfMember "logger" IsString d

abbrev pub ProgressParams : Fields → Type 0
ProgressParams d =
    IsToken (get d "progressToken") × IsNumber (get d "progress") × NullOr IsNumber (get d "total")

abbrev pub CancelledParams : Fields → Type 0
CancelledParams d = IsToken (get d "requestId") × NullOr IsString (get d "reason")

module _ (env : Env) where
  check_logging_params-eq-nil_iff :
      (v : Value) → (check_logging_params env v ≡ []) ↔ ObjectWith LoggingParams v
  unfolding check_logging_params
  check_logging_params-eq-nil_iff (obj d) =
      ground (arith, is_str_iff (get d "level"), is_str_iff (get d "logger"))
  check_logging_params-eq-nil_iff _ = ground arith

  -- A logging notification has no finding exactly if its params are an object with a text as its
  -- level, with data, and with a text as its logger if it has one.
  pub check_logging_notification-eq-nil_iff :
      (payload : Fields)
      → (check_logging_notification env payload ≡ [])
        ↔ ObjectWith LoggingParams (get payload "params")
  unfolding check_logging_notification
  check_logging_notification-eq-nil_iff payload =
      check_logging_params-eq-nil_iff (get payload "params")

  check_complete_params-eq-nil_iff :
      (v : Value)
      → (check_complete_params env v ≡ []) ↔ ObjectWith (λ d. IsText (get d "elicitationId")) v
  unfolding check_complete_params
  check_complete_params-eq-nil_iff (obj d) = ground (arith, is_text_iff (get d "elicitationId"))
  check_complete_params-eq-nil_iff _ = ground arith

  -- An elicitation-complete notification has no finding exactly if its params are an object with a
  -- non-empty text as its elicitationId.
  pub check_elicitation_complete_notification-eq-nil_iff :
      (payload : Fields)
      → (check_elicitation_complete_notification env payload ≡ [])
        ↔ ObjectWith (λ d. IsText (get d "elicitationId")) (get payload "params")
  unfolding check_elicitation_complete_notification
  check_elicitation_complete_notification-eq-nil_iff payload =
      check_complete_params-eq-nil_iff (get payload "params")

  check_progress_params-eq-nil_iff :
      (v : Value) → (check_progress_params env v ≡ []) ↔ ObjectWith ProgressParams v
  unfolding check_progress_params
  check_progress_params-eq-nil_iff (obj d) =
      nil_and3 (required-IsToken-eq-nil_iff _ _ (get d "progressToken"))
        (required-IsNumber-eq-nil_iff _ _ (get d "progress"))
        (unless_null-eq-nil_iff IsNumber is_number _ is_number_iff (get d "total"))
  check_progress_params-eq-nil_iff _ = ground arith

  -- A progress notification has no finding exactly if its params are an object with a text or an
  -- integer as its token, a number as its progress, and a number as its total if that is not null.
  pub check_progress_notification-eq-nil_iff :
      (payload : Fields)
      → (check_progress_notification env payload ≡ [])
        ↔ ObjectWith ProgressParams (get payload "params")
  unfolding check_progress_notification
  check_progress_notification-eq-nil_iff payload =
      check_progress_params-eq-nil_iff (get payload "params")

  check_cancelled_params-eq-nil_iff :
      (v : Value) → (check_cancelled_params env v ≡ []) ↔ ObjectWith CancelledParams v
  unfolding check_cancelled_params
  check_cancelled_params-eq-nil_iff (obj d) =
      nil_and (required-IsToken-eq-nil_iff _ _ (get d "requestId"))
        (unless_null-eq-nil_iff IsString is_str _ is_str_iff (get d "reason"))
  check_cancelled_params-eq-nil_iff _ = ground arith

  -- A cancelled notification has no finding exactly if its params are an object with a text or an
  -- integer as its requestId, and a text as its reason if that is not null.
  pub check_cancelled_notification-eq-nil_iff :
      (payload : Fields)
      → (check_cancelled_notification env payload ≡ [])
        ↔ ObjectWith CancelledParams (get payload "params")
  unfolding check_cancelled_notification
  check_cancelled_notification-eq-nil_iff payload =
      check_cancelled_params-eq-nil_iff (get payload "params")

  -- A list-changed notification has no finding exactly if its params are absent, null or an object.
  pub check_list_changed_notification-eq-nil_iff :
      (payload : Fields)
      → (check_list_changed_notification env payload ≡ []) ↔ NullOr IsObject (get payload "params")
  unfolding check_list_changed_notification
  check_list_changed_notification-eq-nil_iff payload =
      unless_null-eq-nil_iff IsObject is_dict _ is_dict_iff (get payload "params")
