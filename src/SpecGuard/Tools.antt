-- ===== src/SpecGuard/Tools.antt =====
-- mcp_fuzzer/spec_guard/spec_checks_tools.py: tool definitions and the tools/list response.
-- (`check_tool_result_content` is in SpecGuard/Content.antt.)
pub mod Conformance
use mcp_server_fuzzer.Prelude.{
  ℕ, String, Bool, true, false, not, ◌&&◌, ◌||◌, List, [], ◌∷◌, ◌++◌, Option, none, some, any,
  extend_from, if◌then◌else◌, Result, ok, err, ◌>>=◌,
}
use mcp_server_fuzzer.Prelude.Text.{◌+++◌, show}
use mcp_server_fuzzer.Json.{
  Value, Fields, null, arr, obj, elems, get, has, truthy, is_null, is_text, is_dict, is_str,
  is_bool, PyError, in_set,
}
use mcp_server_fuzzer.SpecGuard.{
  Env, Spec, SpecCheck, template, fail, when, spec_variant, tools_spec, schema_spec,
}

-- `_TOOLS_SPEC` and `_SCHEMA_SPEC` of the file.
abbrev pub tools_call_spec : Env → Spec
tools_call_spec env =
    spec_variant env tools_spec (some "MCP-Tools-Call")
      (some
        (template "https://modelcontextprotocol.io/specification/" "/server/tools#calling-tools"))
      none

abbrev pub json_schema_spec : Env → Spec
json_schema_spec env = spec_variant env schema_spec (some "MCP-JSON-Schema") none none

module _ (env : Env) where
  check_name : Value → List SpecCheck
  check_name name =
      when (not (is_null name) && not (is_text name))
        (fail env "tool-name" "Tool is missing a non-empty name" (tools_call_spec env))

  check_input_schema : Value → List SpecCheck
  check_input_schema (obj schema) =
      when (has schema "$schema" && not (is_str (get schema "$schema"))) (
        fail env "tool-schema-$schema" "Tool inputSchema has non-string $schema"
          (json_schema_spec env))
      ++ (when (has schema "$defs" && not (is_dict (get schema "$defs"))) (
            fail env "tool-schema-$defs" "Tool inputSchema has non-object $defs"
              (json_schema_spec env))
          ++ when
              (has schema "additionalProperties"
                && not (
                    is_bool (get schema "additionalProperties")
                    || is_dict (get schema "additionalProperties")))
              (fail env "tool-schema-additional-properties"
                "Tool inputSchema has invalid additionalProperties type" (json_schema_spec env)))
  check_input_schema _ = []

  -- One round of the loop over `icons`.
  check_icon : ℕ → Value → List SpecCheck
  check_icon idx (obj icon) = when (not (is_text (get icon "src"))) (
      fail env "tool-icon-src" ("Tool icon " +++ show idx +++ " missing src") (tools_call_spec env))
  check_icon idx _ =
      fail env "tool-icon-item" ("Tool icon " +++ show idx +++ " is not an object")
        (tools_call_spec env)
      ∷ []

  check_icons : Value → List SpecCheck
  unfolding check_icon
  check_icons null = []
  check_icons (arr icons) = extend_from check_icon 0 (elems icons)
  check_icons _ = fail env "tool-icons-type" "Tool icons is not an array" (tools_call_spec env) ∷ []

  -- `task_support not in {...}` raises where it is a list or a dict.
  check_execution : Value → Result PyError (List SpecCheck)
  check_execution null = ok []
  check_execution (obj execution) =
      if has execution "taskSupport"
      then (do
        known ← in_set (get execution "taskSupport") ("forbidden" ∷ "optional" ∷ "required" ∷ [])
        ok (
            when (not known) (
              fail env "tool-execution-task-support" "Tool execution.taskSupport is invalid"
                (tools_call_spec env))))
      else ok []
  check_execution _ =
      ok (
        fail env "tool-execution-type" "Tool execution is not an object" (tools_call_spec env) ∷ [])

  -- The reports of the parts are appended to one list; the exception of the last part loses them.
  pub check_tool_schema_fields : Value → Result PyError (List SpecCheck)
  unfolding check_name check_input_schema check_icons check_execution
  check_tool_schema_fields (obj tool) = do
    execution ← check_execution (get tool "execution")
    ok (
        check_name (get tool "name")
        ++ (check_input_schema (get tool "inputSchema")
            ++ (check_icons (get tool "icons") ++ execution)))
  check_tool_schema_fields _ = ok []

  -- One round of the loop of `check_tools_list`.
  check_listed_tool : Value → Result PyError (List SpecCheck)
  unfolding check_tool_schema_fields
  check_listed_tool (obj tool) = check_tool_schema_fields (obj tool)
  check_listed_tool _ =
      ok (fail env "tools-list-item" "Tool entry is not an object" (tools_call_spec env) ∷ [])

  check_each_tool : List Value → Result PyError (List SpecCheck)
  check_each_tool [] = ok []
  check_each_tool (tool ∷ tools) = do
    here ← check_listed_tool tool
    later ← check_each_tool tools
    ok (here ++ later)

  check_tools : Value → Result PyError (List SpecCheck)
  unfolding check_each_tool
  check_tools null =
      ok (fail env "tools-list-missing" "Missing tools array" (tools_call_spec env) ∷ [])
  check_tools (arr tools) = check_each_tool (elems tools)
  check_tools _ = ok (fail env "tools-list-type" "tools is not an array" (tools_call_spec env) ∷ [])

  pub check_tools_list : Value → Result PyError (List SpecCheck)
  unfolding check_tools
  check_tools_list (obj result) = check_tools (get result "tools")
  check_tools_list _ = ok []
