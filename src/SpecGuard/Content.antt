-- ===== src/SpecGuard/Content.antt =====
-- mcp_fuzzer/spec_guard/spec_checks_tools.py: `check_tool_result_content`.
pub mod Conformance
use mcp_server_fuzzer.Prelude.{
  ℕ, String, Bool, true, false, not, ◌&&◌, ◌||◌, List, [], ◌∷◌, ◌++◌, any, extend_from,
  if◌then◌else◌, ◌==◌,
}
use mcp_server_fuzzer.Prelude.Text.{◌+++◌, show}
use mcp_server_fuzzer.Json.{
  Value, Fields, bool, str, arr, obj, nil, elems, get, has, truthy, is_text, is_str, equals_text,
}
use mcp_server_fuzzer.SpecGuard.{Env, SpecCheck, fail, warn, when}
use mcp_server_fuzzer.SpecGuard.Misc.{spec_at_least}
use mcp_server_fuzzer.SpecGuard.Tools.{tools_call_spec}

abbrev is_true : Value → Bool
is_true (bool b) = b
is_true _ = false

-- The generator expression behind `has_text`.
abbrev pub is_text_block : Value → Bool
is_text_block (obj item) = equals_text (get item "type") "text" && is_text (get item "text")
is_text_block _ = false

module _ (env : Env) where
  -- The reports that the code appends with `_fail(id, message, _TOOLS_SPEC)`.
  abbrev report : String → String → SpecCheck
  report id message = fail env id message (tools_call_spec env)

  check_text : Fields → List SpecCheck
  check_text item =
      when (not (is_text (get item "text")))
        (report "tools-content-text" "Text content missing text field")

  check_image : Fields → List SpecCheck
  check_image item =
      when (not (is_str (get item "data")))
        (report "tools-content-image-data" "Image content missing data field")
      ++ when (not (is_str (get item "mimeType")))
          (report "tools-content-image-mime" "Image content missing mimeType field")

  check_audio : Fields → List SpecCheck
  check_audio item =
      if not (spec_at_least env "2025-03-26")
      then report "tools-content-audio-unsupported"
          "Audio content is not supported by this spec version"
        ∷ []
      else when (not (is_str (get item "data")))
          (report "tools-content-audio-data" "Audio content missing data field")
        ++ when (not (is_str (get item "mimeType")))
            (report "tools-content-audio-mime" "Audio content missing mimeType field")

  check_resource : Value → List SpecCheck
  check_resource (obj resource) =
      when (not (truthy (get resource "uri")))
        (report "tools-content-resource-uri" "Resource content missing uri field")
      ++ when (not (truthy (get resource "text") || truthy (get resource "blob")))
          (report "tools-content-resource-body" "Resource content missing text or blob field")
  check_resource _ = report "tools-content-resource" "Resource content missing resource object" ∷ []

  check_resource_link : Fields → List SpecCheck
  check_resource_link item =
      if not (spec_at_least env "2025-06-18")
      then report "tools-content-resource-link-unsupported"
          "Resource links are not supported by this spec version"
        ∷ []
      else when (not (truthy (get item "uri")))
          (report "tools-content-resource-link-uri" "Resource link missing uri field")
        ++ when (not (truthy (get item "name")))
            (report "tools-content-resource-link-name" "Resource link missing name field")

  -- The branches on `ctype`.
  check_typed : String → Fields → List SpecCheck
  unfolding check_text check_image check_audio check_resource check_resource_link
  check_typed ctype item =
      if ctype == "text"
      then check_text item
      else if ctype == "image"
      then check_image item
      else if ctype == "audio"
      then check_audio item
      else if ctype == "resource"
      then check_resource (get item "resource")
      else if ctype == "resource_link"
      then check_resource_link item
      else warn env "tools-content-unknown-type" ("Unknown content type: " +++ ctype)
          (tools_call_spec env)
        ∷ []

  check_typed_by : ℕ → Value → Fields → List SpecCheck
  unfolding check_typed
  check_typed_by idx (str ctype) item = check_typed ctype item
  check_typed_by idx _ item =
      report "tools-content-type" ("Content item " +++ show idx +++ " missing type") ∷ []

  -- One round of the loop over the content.
  check_content_item : ℕ → Value → List SpecCheck
  unfolding check_typed_by
  check_content_item idx (obj item) = check_typed_by idx (get item "type") item
  check_content_item idx _ =
      report "tools-content-item" ("Content item " +++ show idx +++ " is not an object") ∷ []

  check_content : Fields → Value → List SpecCheck
  unfolding check_content_item
  check_content result (arr content) =
      when (not (truthy (arr content)))
        (warn env "tools-content-empty" "Tool content array is empty" (tools_call_spec env))
      ++ (extend_from check_content_item 0 (elems content)
          ++ when (is_true (get result "isError") && not (any is_text_block (elems content))) (
              warn env "tools-error-text" "isError=true without text error message"
                (tools_call_spec env)))
  check_content result _ = report "tools-content-array" "Tool content is not an array" ∷ []

  pub check_tool_result_content : Value → List SpecCheck
  unfolding check_content
  check_tool_result_content (obj result) =
      if has result "content" then check_content result (get result "content") else []
  check_tool_result_content _ = []
