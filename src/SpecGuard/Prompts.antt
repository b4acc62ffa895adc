-- ===== src/SpecGuard/Prompts.antt =====
-- mcp_fuzzer/spec_guard/spec_checks_prompts.py: the shapes of prompt responses.
pub mod Conformance
use mcp_server_fuzzer.Prelude.{
  ℕ, String, Bool, true, false, not, List, [], ◌∷◌, ◌++◌, extend_from, if◌then◌else◌,
}
use mcp_server_fuzzer.Prelude.Text.{◌+++◌, show}
use mcp_server_fuzzer.Json.{Value, null, arr, obj, nil, cons, elems, get, truthy}
use mcp_server_fuzzer.SpecGuard.{Env, SpecCheck, fail, warn, when, check_items, prompts_spec}

module _ (env : Env) where
  -- One round of the loop of `check_prompts_list`.
  check_listed_prompt : ℕ → Value → List SpecCheck
  check_listed_prompt idx (obj prompt) =
      when (not (truthy (get prompt "name")))
        (fail env "prompts-list-name" ("Prompt " +++ show idx +++ " missing name") prompts_spec)
  check_listed_prompt idx _ =
      fail env "prompts-list-item" ("Prompt " +++ show idx +++ " is not an object") prompts_spec
      ∷ []

  pub check_prompts_list : Value → List SpecCheck
  unfolding check_listed_prompt
  check_prompts_list (obj result) =
      check_items (fail env "prompts-list-missing" "Missing prompts array" prompts_spec)
        (fail env "prompts-list-type" "prompts is not an array" prompts_spec) check_listed_prompt
        (get result "prompts")
  check_prompts_list _ = []

  -- One round of the loop of `check_prompts_get`.
  check_prompt_message : ℕ → Value → List SpecCheck
  check_prompt_message idx (obj message) =
      when (not (truthy (get message "role")))
        (fail env "prompts-get-role" ("Message " +++ show idx +++ " missing role") prompts_spec)
      ++ when (not (truthy (get message "content"))) (
          fail env "prompts-get-content" ("Message " +++ show idx +++ " missing content")
            prompts_spec)
  check_prompt_message idx _ =
      fail env "prompts-get-item" ("Message " +++ show idx +++ " is not an object") prompts_spec
      ∷ []

  check_messages : Value → List SpecCheck
  unfolding check_prompt_message
  check_messages (arr nil) =
      warn env "prompts-get-empty" "messages array is empty" prompts_spec ∷ []
  check_messages messages =
      check_items (fail env "prompts-get-missing" "Missing messages array" prompts_spec)
        (fail env "prompts-get-type" "messages is not an array" prompts_spec) check_prompt_message
        messages

  pub check_prompts_get : Value → List SpecCheck
  unfolding check_messages
  check_prompts_get (obj result) = check_messages (get result "messages")
  check_prompts_get _ = []
