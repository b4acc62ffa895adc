-- ===== src/SpecGuard/Tests.antt =====
-- Concrete results and notifications, and what the conformance theorems say of them.
use mcp_server_fuzzer.Prelude.{
  ℕ, String, true, ◌≡◌, ◌↔◌, [], Option, none, some, ◌==◌, if◌then◌else◌, ok, err,
}
use mcp_server_fuzzer.Json.{Value, bool, str, arr, obj, nil, cons, end, field, get, type_error}
use mcp_server_fuzzer.SpecGuard.{Env}
use mcp_server_fuzzer.SpecGuard.Shape.{
  ArrayOf, ArraySome, NonEmptyArrayOf, ObjectWith, IfObject, IsUnhashable, IfMember,
}
use mcp_server_fuzzer.SpecGuard.Misc.{check_elicit_result}
use mcp_server_fuzzer.SpecGuard.Misc.Conformance.{check_elicit_result-eq-err_iff}
use mcp_server_fuzzer.SpecGuard.Tools.{check_tools_list}
use mcp_server_fuzzer.SpecGuard.Tools.Conformance.{
  ToolMembers, RaisingTool, check_tools_list-eq-nil_iff, check_tools_list-eq-err_iff,
}
use mcp_server_fuzzer.SpecGuard.Content.{check_tool_result_content}
use mcp_server_fuzzer.SpecGuard.Content.Conformance.{
  ContentBlock, Explained, check_tool_result_content-eq-nil_iff,
}

abbrev day : String → Option ℕ
day s = if s == "2025-03-26" then some 20173 else if s == "2025-11-25" then some 20417 else none

abbrev env : Env
env = record { import_version = "2025-11-25"; version = "2025-11-25"; iso_date = day }

abbrev member_of : String → Value → Value
member_of key v = obj (field key v end)

abbrev list_of : Value → Value → Value
list_of a b = arr (cons a (cons b nil))

abbrev raising_action : Value
raising_action = member_of "action" (arr nil)

check_elicit_result-eq-err_iff_example :
    (check_elicit_result env raising_action ≡ err type_error)
    ↔ ObjectWith (λ d. IsUnhashable (get d "action")) raising_action
check_elicit_result-eq-err_iff_example = check_elicit_result-eq-err_iff env raising_action

abbrev tool : Value
tool = obj (
    field "name" (str "t") (
      field "inputSchema" (obj end)
        (field "execution" (member_of "taskSupport" (str "optional")) end)))

abbrev tools : Value
tools = member_of "tools" (list_of tool (member_of "name" (str "")))

check_tools_list-eq-nil_iff_example :
    (check_tools_list env tools ≡ ok [])
    ↔ IfObject (λ d. ArrayOf (ObjectWith ToolMembers) (get d "tools")) tools
check_tools_list-eq-nil_iff_example = check_tools_list-eq-nil_iff env tools

abbrev raising_tools : Value
raising_tools =
    member_of "tools" (list_of tool (member_of "execution" (member_of "taskSupport" (arr nil))))

check_tools_list-eq-err_iff_example :
    (check_tools_list env raising_tools ≡ err type_error)
    ↔ ObjectWith (λ d. ArraySome RaisingTool (get d "tools")) raising_tools
check_tools_list-eq-err_iff_example = check_tools_list-eq-err_iff env raising_tools

abbrev answer : Value
answer = obj (
    field "isError" (bool true) (
      field "content"
        (arr (cons (obj (field "type" (str "text") (field "text" (str "no") end))) nil)) end))

check_tool_result_content-eq-nil_iff_example :
    (check_tool_result_content env answer ≡ [])
    ↔ IfObject
        (λ d. IfMember "content" (λ c. NonEmptyArrayOf (ContentBlock env) c × Explained d c) d)
        answer
check_tool_result_content-eq-nil_iff_example = check_tool_result_content-eq-nil_iff env answer
