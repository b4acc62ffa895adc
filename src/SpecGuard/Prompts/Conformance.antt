-- ===== src/SpecGuard/Prompts/Conformance.antt =====
-- When the checks of prompt responses report nothing.
use mcp_server_fuzzer.Prelude.{ℕ, ◌≡◌, ◌↔◌, [], ◌∷◌, arith, extend_from-eq-nil_iff}
use mcp_server_fuzzer.Json.{Value, arr, obj, nil, cons, elems, get}
use mcp_server_fuzzer.SpecGuard.{Env}
use mcp_server_fuzzer.SpecGuard.Shape.{
  ArrayOf, NonEmptyArrayOf, ObjectWith, IfObject, IsPresent, check_items-eq-nil_iff,
}
use mcp_server_fuzzer.SpecGuard.Prompts.{
  check_listed_prompt, check_prompts_list, check_prompt_message, check_messages, check_prompts_get,
}

abbrev pub ListedPrompt : Value → Type 0
ListedPrompt = ObjectWith (IsPresent "name")

abbrev pub PromptMessage : Value → Type 0
PromptMessage = ObjectWith (λ m. IsPresent "role" m × IsPresent "content" m)

module _ (env : Env) where
  check_listed_prompt-eq-nil_iff :
      (i : ℕ) (v : Value) → (check_listed_prompt env i v ≡ []) ↔ ListedPrompt v
  unfolding check_listed_prompt
  check_listed_prompt-eq-nil_iff i (obj d) = ground arith
  check_listed_prompt-eq-nil_iff i _ = ground arith

  -- A prompts/list result has no finding exactly if it is no object, or its `prompts` is an array of
  -- objects that each have a name.
  pub check_prompts_list-eq-nil_iff :
      (v : Value)
      → (check_prompts_list env v ≡ []) ↔ IfObject (λ d. ArrayOf ListedPrompt (get d "prompts")) v
  unfolding check_prompts_list
  check_prompts_list-eq-nil_iff (obj d) =
      check_items-eq-nil_iff ListedPrompt _ _ _ check_listed_prompt-eq-nil_iff (get d "prompts")
  check_prompts_list-eq-nil_iff _ = ground arith

  check_prompt_message-eq-nil_iff :
      (i : ℕ) (v : Value) → (check_prompt_message env i v ≡ []) ↔ PromptMessage v
  unfolding check_prompt_message
  check_prompt_message-eq-nil_iff i (obj d) = ground arith
  check_prompt_message-eq-nil_iff i _ = ground arith

  check_messages-eq-nil_iff :
      (v : Value) → (check_messages env v ≡ []) ↔ NonEmptyArrayOf PromptMessage v
  unfolding check_messages
  check_messages-eq-nil_iff (arr nil) = ground arith
  check_messages-eq-nil_iff (arr (cons v vs)) =
      extend_from-eq-nil_iff PromptMessage (check_prompt_message env)
        check_prompt_message-eq-nil_iff 0 (v ∷ elems vs)
  check_messages-eq-nil_iff _ = ground arith

  -- A prompts/get result has no finding exactly if it is no object, or its `messages` is a non-empty
  -- array of objects that each have a role and a content.
  pub check_prompts_get-eq-nil_iff :
      (v : Value)
      → (check_prompts_get env v ≡ [])
        ↔ IfObject (λ d. NonEmptyArrayOf PromptMessage (get d "messages")) v
  unfolding check_prompts_get
  check_prompts_get-eq-nil_iff (obj d) = check_messages-eq-nil_iff (get d "messages")
  check_prompts_get-eq-nil_iff _ = ground arith
