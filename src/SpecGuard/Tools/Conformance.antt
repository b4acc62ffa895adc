-- ===== src/SpecGuard/Tools/Conformance.antt =====
-- When the checks of tool definitions report nothing, and when they raise.
use mcp_server_fuzzer.Prelude.{
  ℕ, String, ◌≡◌, ◌↔◌, ◌⊎◌, true, ◌||◌, List, [], ◌∷◌, ◌++◌, arith, nil_and3, Result, ok, err,
  ◌>>=◌, All, Any, extend_from-eq-nil_iff, append-eq-nil_iff,
}
use mcp_server_fuzzer.Json.{
  Value, Fields, null, arr, obj, elems, get, has, is_str, is_text, is_dict, is_bool, PyError,
  type_error,
}
use mcp_server_fuzzer.SpecGuard.{Env, SpecCheck}
use mcp_server_fuzzer.SpecGuard.Shape.{
  ArrayOf, ArraySome, ObjectWith, IfObject, IsText, IsString, IsObject, IsBoolean, NullOr, IfMember,
  Decides, is_text_iff, is_str_iff, is_dict_iff, unless_null-eq-nil_iff, unless_member-eq-nil_iff,
  IsUnhashable, IsOneOf, in_set-eq-err_iff, in_set-eq-true_iff,
}
use mcp_server_fuzzer.SpecGuard.Tools.{
  check_name, check_input_schema, check_icon, check_icons, check_execution,
  check_tool_schema_fields, check_listed_tool, check_each_tool, check_tools, check_tools_list,
}

is_open_iff : Decides (λ v. is_bool v || is_dict v) (λ v. IsBoolean v ⊎ IsObject v)
is_open_iff null = ground arith
is_open_iff _ = ground arith

abbrev pub InputSchema : Fields → Type 0
InputSchema d =
    IfMember "$schema" IsString d
    × IfMember "$defs" IsObject d
    × IfMember "additionalProperties" (λ v. IsBoolean v ⊎ IsObject v) d

abbrev pub Icon : Value → Type 0
Icon = ObjectWith (λ icon. IsText (get icon "src"))

abbrev pub task_supports : List String
task_supports = "forbidden" ∷ "optional" ∷ "required" ∷ []

abbrev pub Execution : Value → Type 0
Execution = NullOr (ObjectWith (IfMember "taskSupport" (IsOneOf task_supports)))

-- The definitions that `check_tool_schema_fields` accepts.
abbrev pub ToolMembers : Fields → Type 0
ToolMembers d =
    NullOr IsText (get d "name")
    × IfObject InputSchema (get d "inputSchema")
    × NullOr (ArrayOf Icon) (get d "icons")
    × Execution (get d "execution")

abbrev pub RaisingExecution : Value → Type 0
RaisingExecution =
    ObjectWith (λ e. (has e "taskSupport" ≡ true) × IsUnhashable (get e "taskSupport"))

-- The definitions on which it raises.
abbrev pub RaisingTool : Value → Type 0
RaisingTool = ObjectWith (λ d. RaisingExecution (get d "execution"))

module _ (env : Env) where
  check_input_schema-eq-nil_iff :
      (v : Value) → (check_input_schema env v ≡ []) ↔ IfObject InputSchema v
  unfolding check_input_schema
  check_input_schema-eq-nil_iff (obj d) =
      nil_and3 (unless_member-eq-nil_iff {P = IsString} is_str _ is_str_iff "$schema" d)
        (unless_member-eq-nil_iff {P = IsObject} is_dict _ is_dict_iff "$defs" d)
        (unless_member-eq-nil_iff {P = λ v. IsBoolean v ⊎ IsObject v} (λ v. is_bool v || is_dict v)
          _ is_open_iff "additionalProperties" d)
  check_input_schema-eq-nil_iff _ = ground arith

  check_icon-eq-nil_iff : (i : ℕ) (v : Value) → (check_icon env i v ≡ []) ↔ Icon v
  unfolding check_icon
  check_icon-eq-nil_iff i (obj d) = ground (arith, is_text_iff (get d "src"))
  check_icon-eq-nil_iff i _ = ground arith

  check_icons-eq-nil_iff : (v : Value) → (check_icons env v ≡ []) ↔ NullOr (ArrayOf Icon) v
  unfolding check_icons
  check_icons-eq-nil_iff (arr xs) =
      extend_from-eq-nil_iff Icon (check_icon env) check_icon-eq-nil_iff 0 (elems xs)
  check_icons-eq-nil_iff _ = ground arith

  check_execution-eq-nil_iff : (v : Value) → (check_execution env v ≡ ok []) ↔ Execution v
  unfolding check_execution
  check_execution-eq-nil_iff (obj e) =
      ground (arith, in_set-eq-true_iff (get e "taskSupport") task_supports)
  check_execution-eq-nil_iff _ = ground arith

  check_execution-eq-err_iff :
      (v : Value) → (check_execution env v ≡ err type_error) ↔ RaisingExecution v
  unfolding check_execution
  check_execution-eq-err_iff (obj e) =
      ground (arith, in_set-eq-err_iff (get e "taskSupport") task_supports)
  check_execution-eq-err_iff _ = ground arith

  -- The check of a tool definition raises TypeError exactly for a tool whose `execution` is an
  -- object with an array or an object as its `taskSupport`.
  pub check_tool_schema_fields-eq-err_iff :
      (v : Value) → (check_tool_schema_fields env v ≡ err type_error) ↔ RaisingTool v
  unfolding check_tool_schema_fields
  check_tool_schema_fields-eq-err_iff (obj d) =
      ground (arith, check_execution-eq-err_iff (get d "execution"))
  check_tool_schema_fields-eq-err_iff _ = ground arith

  check_name-eq-nil_iff : (v : Value) → (check_name env v ≡ []) ↔ NullOr IsText v
  unfolding check_name
  check_name-eq-nil_iff v = unless_null-eq-nil_iff IsText is_text _ is_text_iff v

  bind_parts-eq-nil_iff :
      (xs ys zs : List SpecCheck) (r : Result PyError (List SpecCheck))
      → ((r >>= λ ws. ok (xs ++ (ys ++ (zs ++ ws)))) ≡ ok [])
        ↔ ((xs ≡ []) × (ys ≡ []) × (zs ≡ []) × (r ≡ ok []))
  bind_parts-eq-nil_iff xs ys zs (ok ws) = ground (
    arith,
    append-eq-nil_iff xs (ys ++ (zs ++ ws)),
    append-eq-nil_iff ys (zs ++ ws),
    append-eq-nil_iff zs ws,
  )
  bind_parts-eq-nil_iff xs ys zs (err e) = ground arith

  -- The check of a tool definition returns no finding exactly for a value that is no object or a
  -- well-formed definition.
  pub check_tool_schema_fields-eq-nil_iff :
      (v : Value) → (check_tool_schema_fields env v ≡ ok []) ↔ IfObject ToolMembers v
  unfolding check_tool_schema_fields
  check_tool_schema_fields-eq-nil_iff (obj d) = ground (
    arith,
    bind_parts,
    check_name-eq-nil_iff (get d "name"),
    check_input_schema-eq-nil_iff (get d "inputSchema"),
    check_icons-eq-nil_iff (get d "icons"),
    check_execution-eq-nil_iff (get d "execution"),
  )
    where
      bind_parts : (check_tool_schema_fields env (obj d) ≡ ok []) ↔ (
          (check_name env (get d "name") ≡ [])
          × (check_input_schema env (get d "inputSchema") ≡ [])
          × (check_icons env (get d "icons") ≡ [])
          × (check_execution env (get d "execution") ≡ ok []))
      bind_parts =
          bind_parts-eq-nil_iff (check_name env (get d "name"))
            (check_input_schema env (get d "inputSchema")) (check_icons env (get d "icons"))
            (check_execution env (get d "execution"))
  check_tool_schema_fields-eq-nil_iff _ = ground arith

  check_listed_tool-eq-nil_iff :
      (v : Value) → (check_listed_tool env v ≡ ok []) ↔ ObjectWith ToolMembers v
  unfolding check_listed_tool
  check_listed_tool-eq-nil_iff (obj d) = check_tool_schema_fields-eq-nil_iff (obj d)
  check_listed_tool-eq-nil_iff _ = ground arith

  check_listed_tool-eq-err_iff :
      (v : Value) → (check_listed_tool env v ≡ err type_error) ↔ RaisingTool v
  unfolding check_listed_tool
  check_listed_tool-eq-err_iff (obj d) = check_tool_schema_fields-eq-err_iff (obj d)
  check_listed_tool-eq-err_iff _ = ground arith

  check_each_tool-eq-nil_iff :
      (vs : List Value) → (check_each_tool env vs ≡ ok []) ↔ All (ObjectWith ToolMembers) vs
  unfolding check_each_tool
  check_each_tool-eq-nil_iff [] = ground arith
  check_each_tool-eq-nil_iff (v ∷ vs) =
      grind
        (arith, check_listed_tool-eq-nil_iff v, check_each_tool-eq-nil_iff vs, append-eq-nil_iff)

  check_each_tool-eq-err_iff :
      (vs : List Value) → (check_each_tool env vs ≡ err type_error) ↔ Any RaisingTool vs
  unfolding check_each_tool
  check_each_tool-eq-err_iff [] = ground arith
  check_each_tool-eq-err_iff (v ∷ vs) =
      ground (arith, check_listed_tool-eq-err_iff v, check_each_tool-eq-err_iff vs)

  -- A tools/list result passes exactly if it is no object, or its `tools` is an array of well-formed
  -- tool definitions.
  pub check_tools_list-eq-nil_iff :
      (v : Value)
      → (check_tools_list env v ≡ ok [])
        ↔ IfObject (λ d. ArrayOf (ObjectWith ToolMembers) (get d "tools")) v
  unfolding check_tools_list
  check_tools_list-eq-nil_iff (obj d) = check_tools-eq-nil_iff (get d "tools")
    where
      check_tools-eq-nil_iff :
          (v : Value) → (check_tools env v ≡ ok []) ↔ ArrayOf (ObjectWith ToolMembers) v
      check_tools-eq-nil_iff (arr xs) = check_each_tool-eq-nil_iff (elems xs)
      check_tools-eq-nil_iff _ = ground arith
  check_tools_list-eq-nil_iff _ = ground arith

  -- The check of a tools/list result raises TypeError exactly for an object whose `tools` is an array
  -- with a tool on which the check of its definition raises.
  pub check_tools_list-eq-err_iff :
      (v : Value)
      → (check_tools_list env v ≡ err type_error)
        ↔ ObjectWith (λ d. ArraySome RaisingTool (get d "tools")) v
  unfolding check_tools_list
  check_tools_list-eq-err_iff (obj d) = check_tools-eq-err_iff (get d "tools")
    where
      check_tools-eq-err_iff :
          (v : Value) → (check_tools env v ≡ err type_error) ↔ ArraySome RaisingTool v
      check_tools-eq-err_iff (arr xs) = check_each_tool-eq-err_iff (elems xs)
      check_tools-eq-err_iff _ = ground arith
  check_tools_list-eq-err_iff _ = ground arith
