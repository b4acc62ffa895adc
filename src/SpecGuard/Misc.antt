-- ===== src/SpecGuard/Misc.antt =====
-- mcp_fuzzer/spec_guard/spec_checks_misc.py: roots, sampling, elicitation and completions.
-- (`check_sse_event_text` is not modelled.)
pub mod Conformance
use mcp_server_fuzzer.Prelude.{
  ℕ, String, Bool, true, false, not, ◌&&◌, ◌||◌, List, [], ◌∷◌, ◌++◌, Option, none, some, leb,
  extend_from, if◌then◌else◌, Result, ok, err, ◌>>=◌,
}
use mcp_server_fuzzer.Prelude.Text.{◌+++◌, show, text_lt}
use mcp_server_fuzzer.Json.{
  Value, Fields, null, arr, obj, elems, get, has, truthy, is_null, is_text, is_dict, is_list,
  is_str, is_int, is_bool, PyError, in_set,
}
use mcp_server_fuzzer.SpecGuard.{
  Env, SpecCheck, fail, when, check_items, roots_spec, sampling_spec, elicitation_spec,
  completions_spec,
}

-- `>=` on the dates, and on the texts where one is no date
later_than : Bool → Option ℕ → Option ℕ → Bool
later_than as_text (some current) (some target) = leb target current
later_than as_text _ _ = as_text

module _ (env : Env) where
  unfoldable pub spec_at_least : String → Bool
  unfolding later_than
  spec_at_least target =
      later_than (not (text_lt env.version target)) (env.iso_date env.version) (env.iso_date target)

  -- One round of the loop of `check_roots_list`.
  check_root : ℕ → Value → List SpecCheck
  check_root idx (obj root) =
      when (not (is_text (get root "uri")))
        (fail env "roots-list-uri" ("Root " +++ show idx +++ " missing uri") roots_spec)
  check_root idx _ =
      fail env "roots-list-item" ("Root " +++ show idx +++ " is not an object") roots_spec ∷ []

  pub check_roots_list : Value → List SpecCheck
  unfolding check_root
  check_roots_list (obj result) =
      check_items (fail env "roots-list-missing" "Missing roots array" roots_spec)
        (fail env "roots-list-type" "roots is not an array" roots_spec) check_root
        (get result "roots")
  check_roots_list _ = []

  unfoldable pub check_create_message_result : Value → List SpecCheck
  check_create_message_result (obj result) =
      when (not (is_text (get result "model")))
        (fail env "sampling-model" "CreateMessageResult missing model" sampling_spec)
      ++ (when (not (is_null (get result "role")) && not (is_text (get result "role")))
            (fail env "sampling-role" "CreateMessageResult missing role" sampling_spec)
          ++ (when (not (is_dict (get result "content") || is_list (get result "content"))) (
                fail env "sampling-content" "CreateMessageResult content must be an object or array"
                  sampling_spec)
              ++ when
                  (not (is_null (get result "stopReason"))
                    && not (is_str (get result "stopReason")))
                  (fail env "sampling-stop-reason" "CreateMessageResult stopReason is not a string"
                    sampling_spec)))
  check_create_message_result _ = []

  -- `get(...) not in {...}` raises where the action is a list or a dict.
  unfoldable pub check_elicit_result : Value → Result PyError (List SpecCheck)
  check_elicit_result (obj result) = do
    known ← in_set (get result "action") ("accept" ∷ "cancel" ∷ "decline" ∷ [])
    ok (
        when (not known)
          (fail env "elicitation-action" "ElicitResult action is invalid" elicitation_spec)
        ++ when (has result "content" && not (is_dict (get result "content"))) (
            fail env "elicitation-content" "ElicitResult content must be an object when present"
              elicitation_spec))
  check_elicit_result _ = ok []

  -- One round of the loop over `values`.
  check_completion_value : ℕ → Value → List SpecCheck
  check_completion_value idx value = when (not (is_str value)) (
      fail env "completion-values-item"
        ("completion/complete result values[" +++ show idx +++ "] is not a string")
        completions_spec)

  check_completion : Value → List SpecCheck
  unfolding check_completion_value
  check_completion null =
      fail env "completion-missing" "completion/complete result missing completion object"
        completions_spec
      ∷ []
  check_completion (obj completion) =
      check_items
        (fail env "completion-values-missing" "completion/complete result missing values array"
          completions_spec)
        (fail env "completion-values-type" "completion/complete result values is not an array"
          completions_spec)
        check_completion_value (get completion "values")
      ++ (when
            (not (is_null (get completion "hasMore")) && not (is_bool (get completion "hasMore")))
            (fail env "completion-has-more-type"
              "completion/complete result hasMore is not a boolean" completions_spec)
          ++ when
              (not (is_null (get completion "total"))
                && (not (is_int (get completion "total")) || is_bool (get completion "total")))
              (fail env "completion-total-type" "completion/complete result total is not an integer"
                completions_spec))
  check_completion _ =
      fail env "completion-type" "completion/complete result completion is not an object"
        completions_spec
      ∷ []

  pub check_completion_complete : Value → List SpecCheck
  unfolding check_completion
  check_completion_complete (obj result) = check_completion (get result "completion")
  check_completion_complete _ = []
