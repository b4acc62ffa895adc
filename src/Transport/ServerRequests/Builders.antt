-- ===== src/Transport/ServerRequests/Builders.antt =====
-- The results that the client answers with: samples and elicitations.
use mcp_server_fuzzer.Prelude.{
  String, Bool, false, not, List, [], ◌∷◌, if◌then◌else◌, Result, ok, ◌>>=◌,
}
use mcp_server_fuzzer.Prelude.Text.{◌+++◌}
use mcp_server_fuzzer.Json.{
  Value, Fields, end, field, null, str, arr, obj, nil, cons, elems, get, equals_text, PyError,
}
use mcp_server_fuzzer.Transport.ServerRequests.Forms.{form_content_from_schema}

-- params if isinstance(params, dict) else {}
abbrev pub params_of : Value → Fields
params_of (obj params) = params
params_of _ = end

-- The name of the first tool that has a text as its name.
unfoldable pub tool_name_of : List Value → String
tool_name_of [] = "tool"
tool_name_of (obj tool ∷ tools) =
    let rest = tool_name_of tools in elim (get tool "name") [ str name ↦ name | _ ↦ rest ]
tool_name_of (v ∷ tools) = tool_name_of tools

abbrev pub tools_of : Value → List Value
tools_of (arr tools) = elems tools
tools_of _ = []

abbrev pub tool_mode : Value → Value
tool_mode (obj choice) = get choice "mode"
tool_mode _ = null

-- isinstance(tools, list) and tools and tool_mode != "none"
abbrev pub uses_tool : Fields → Bool
uses_tool params = elim (tools_of (get params "tools")) [
  | [] ↦ false
  | t ∷ ts ↦ not (equals_text (tool_mode (get params "toolChoice")) "none")
]

abbrev tool_use : String → Fields → Value
tool_use hex params = arr (
    cons
      (obj (
        field "type" (str "tool_use") (
          field "id" (str ("tool-use-" +++ hex)) (
            field "name" (str (tool_name_of (tools_of (get params "tools"))))
              (field "input" (obj end) end)))))
      nil)

abbrev text_content : String → Value
text_content text = obj (field "type" (str "text") (field "text" (str text) end))

-- `hex` is the start of a new uuid.
unfoldable pub build_sampling_create_message_result : String → String → String → Fields → Fields
build_sampling_create_message_result hex model text params = field "model" (str model) (
    field "role" (str "assistant") (
      field "content" (if uses_tool params then tool_use hex params else text_content text)
        (field "stopReason" (str (if uses_tool params then "toolUse" else "endTurn")) end)))

-- A mode that is no text counts as "form".
abbrev pub is_url_mode : Fields → Bool
is_url_mode params = equals_text (get params "mode") "url"

-- The content is left out where it is empty.
abbrev pub elicit_result : Fields → Fields
elicit_result end = field "action" (str "accept") end
elicit_result (field k v rest) =
    field "action" (str "accept") (field "content" (obj (field k v rest)) end)

unfoldable pub build_elicitation_create_result : Fields → Result PyError Fields
build_elicitation_create_result params = if is_url_mode params then ok (elicit_result end) else (do
  content ← form_content_from_schema (get params "requestedSchema")
  ok (elicit_result content))
