-- ===== src/SpecGuard/Misc/Conformance.antt =====
-- When the checks of roots, sampling, elicitation and completion results report nothing, and when
-- the elicitation check raises.
use mcp_server_fuzzer.Prelude.{
  ℕ, String, ◌≡◌, ◌↔◌, ◌⊎◌, false, not, ◌&&◌, ◌||◌, List, [], ◌∷◌, arith, nil_and3, nil_and4, ok,
  err,
}
use mcp_server_fuzzer.Json.{
  Value, Fields, null, obj, get, is_str, is_text, is_dict, is_bool, is_int, is_null, is_list,
  type_error,
}
use mcp_server_fuzzer.SpecGuard.{Env}
use mcp_server_fuzzer.SpecGuard.Shape.{
  ArrayOf, ObjectWith, IfObject, IsText, IsString, IsObject, IsArray, IsBoolean, IsInteger, NullOr,
  IfMember, Decides, is_text_iff, is_str_iff, is_dict_iff, check_items-eq-nil_iff,
  unless-eq-nil_iff, unless_null-eq-nil_iff, IsUnhashable, IsOneOf, in_set-eq-err_iff,
  in_set-eq-true_iff,
}
use mcp_server_fuzzer.SpecGuard.Misc.{
  check_root, check_roots_list, check_create_message_result, check_elicit_result,
  check_completion_value, check_completion, check_completion_complete,
}

is_container_iff : Decides (λ v. is_dict v || is_list v) (λ v. IsObject v ⊎ IsArray v)
is_container_iff null = ground arith
is_container_iff _ = ground arith

is_bool_iff : Decides is_bool IsBoolean
is_bool_iff null = ground arith
is_bool_iff _ = ground arith

IsInteger-iff :
    (v : Value) → (not (is_null v) && (not (is_int v) || is_bool v) ≡ false) ↔ NullOr IsInteger v
IsInteger-iff null = ground arith
IsInteger-iff _ = ground arith

abbrev pub Root : Value → Type 0
Root = ObjectWith (λ r. IsText (get r "uri"))

abbrev pub CreatedMessage : Fields → Type 0
CreatedMessage d =
    IsText (get d "model")
    × NullOr IsText (get d "role")
    × (IsObject (get d "content") ⊎ IsArray (get d "content"))
    × NullOr IsString (get d "stopReason")

abbrev pub Completion : Fields → Type 0
Completion d =
    ArrayOf IsString (get d "values")
    × NullOr IsBoolean (get d "hasMore")
    × NullOr IsInteger (get d "total")

abbrev pub actions : List String
actions = "accept" ∷ "cancel" ∷ "decline" ∷ []

module _ (env : Env) where
  check_root-eq-nil_iff : (i : ℕ) (v : Value) → (check_root env i v ≡ []) ↔ Root v
  unfolding check_root
  check_root-eq-nil_iff i (obj d) = ground (arith, is_text_iff (get d "uri"))
  check_root-eq-nil_iff i _ = ground arith

  -- A roots/list result has no finding exactly if it is no object, or its `roots` is an array of
  -- objects that each have a non-empty text as their uri.
  pub check_roots_list-eq-nil_iff :
      (v : Value) → (check_roots_list env v ≡ []) ↔ IfObject (λ d. ArrayOf Root (get d "roots")) v
  unfolding check_roots_list
  check_roots_list-eq-nil_iff (obj d) =
      check_items-eq-nil_iff Root _ _ _ check_root-eq-nil_iff (get d "roots")
  check_roots_list-eq-nil_iff _ = ground arith

  -- A sampling result has no finding exactly if it is no object, or it has a non-empty text as its
  -- model, an object or an array as its content, and non-empty text and text as its role and
  -- stopReason where these are not null.
  pub check_create_message_result-eq-nil_iff :
      (v : Value) → (check_create_message_result env v ≡ []) ↔ IfObject CreatedMessage v
  unfolding check_create_message_result
  check_create_message_result-eq-nil_iff (obj d) =
      nil_and4 (unless-eq-nil_iff {P = IsText} is_text _ is_text_iff (get d "model"))
        (unless_null-eq-nil_iff IsText is_text _ is_text_iff (get d "role"))
        (unless-eq-nil_iff {P = λ v. IsObject v ⊎ IsArray v} (λ v. is_dict v || is_list v) _
          is_container_iff (get d "content"))
        (unless_null-eq-nil_iff IsString is_str _ is_str_iff (get d "stopReason"))
  check_create_message_result-eq-nil_iff _ = ground arith

  -- The elicitation check raises TypeError exactly for an object whose `action` is an array or an
  -- object.
  pub check_elicit_result-eq-err_iff :
      (v : Value)
      → (check_elicit_result env v ≡ err type_error)
        ↔ ObjectWith (λ d. IsUnhashable (get d "action")) v
  unfolding check_elicit_result
  check_elicit_result-eq-err_iff (obj d) =
      ground (arith, in_set-eq-err_iff (get d "action") actions)
  check_elicit_result-eq-err_iff _ = ground arith

  -- The elicitation check returns no finding exactly for a value that is no object, or one whose
  -- `action` is "accept", "cancel" or "decline", and whose `content` is an object if it is there.
  pub check_elicit_result-eq-nil_iff :
      (v : Value)
      → (check_elicit_result env v ≡ ok [])
        ↔ IfObject (λ d. IsOneOf actions (get d "action") × IfMember "content" IsObject d) v
  unfolding check_elicit_result
  check_elicit_result-eq-nil_iff (obj d) =
      ground (arith, in_set-eq-true_iff (get d "action") actions, is_dict_iff (get d "content"))
  check_elicit_result-eq-nil_iff _ = ground arith

  check_completion_value-eq-nil_iff :
      (i : ℕ) (v : Value) → (check_completion_value env i v ≡ []) ↔ IsString v
  unfolding check_completion_value
  check_completion_value-eq-nil_iff i v = ground (arith, is_str_iff v)

  check_completion-eq-nil_iff :
      (v : Value) → (check_completion env v ≡ []) ↔ ObjectWith Completion v
  unfolding check_completion
  check_completion-eq-nil_iff (obj d) =
      nil_and3
        (check_items-eq-nil_iff IsString _ _ _ check_completion_value-eq-nil_iff (get d "values"))
        (unless_null-eq-nil_iff IsBoolean is_bool _ is_bool_iff (get d "hasMore"))
        (ground (arith, IsInteger-iff (get d "total")))
  check_completion-eq-nil_iff _ = ground arith

  -- A completion result has no finding exactly if it is no object, or its `completion` is an object
  -- with an array of texts as its values, and a boolean and an integer as its hasMore and total
  -- where these are not null.
  pub check_completion_complete-eq-nil_iff :
      (v : Value)
      → (check_completion_complete env v ≡ [])
        ↔ IfObject (λ d. ObjectWith Completion (get d "completion")) v
  unfolding check_completion_complete
  check_completion_complete-eq-nil_iff (obj d) = check_completion-eq-nil_iff (get d "completion")
  check_completion_complete-eq-nil_iff _ = ground arith
