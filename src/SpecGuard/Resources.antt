-- ===== src/SpecGuard/Resources.antt =====
-- mcp_fuzzer/spec_guard/spec_checks_resources.py: the shapes of resource responses.
pub mod Conformance
use mcp_server_fuzzer.Prelude.{
  ℕ, String, Bool, true, false, not, ◌&&◌, ◌||◌, List, [], ◌∷◌, ◌++◌, extend_from, if◌then◌else◌,
}
use mcp_server_fuzzer.Prelude.Text.{◌+++◌, show}
use mcp_server_fuzzer.Json.{
  Value, Fields, null, arr, obj, nil, cons, elems, get, truthy, is_text, is_dict,
}
use mcp_server_fuzzer.SpecGuard.{Env, SpecCheck, fail, warn, when, check_items, resources_spec}

module _ (env : Env) where
  -- One round of the loop of `check_resources_list`.
  check_listed_resource : ℕ → Value → List SpecCheck
  check_listed_resource idx (obj resource) =
      when (not (truthy (get resource "uri")))
        (fail env "resources-list-uri" ("Resource " +++ show idx +++ " missing uri") resources_spec)
      ++ when (not (truthy (get resource "name"))) (
          fail env "resources-list-name" ("Resource " +++ show idx +++ " missing name")
            resources_spec)
  check_listed_resource idx _ =
      fail env "resources-list-item" ("Resource " +++ show idx +++ " is not an object")
        resources_spec
      ∷ []

  pub check_resources_list : Value → List SpecCheck
  unfolding check_listed_resource
  check_resources_list (obj result) =
      check_items (fail env "resources-list-missing" "Missing resources array" resources_spec)
        (fail env "resources-list-type" "resources is not an array" resources_spec)
        check_listed_resource (get result "resources")
  check_resources_list _ = []

  -- One round of the loop of `check_resources_read`.
  check_read_item : ℕ → Value → List SpecCheck
  check_read_item idx (obj item) =
      when (not (truthy (get item "uri")))
        (fail env "resources-read-uri" ("Content " +++ show idx +++ " missing uri") resources_spec)
      ++ when (not (truthy (get item "text") || truthy (get item "blob"))) (
          fail env "resources-read-body" ("Content " +++ show idx +++ " missing text or blob")
            resources_spec)
  check_read_item idx _ =
      fail env "resources-read-item" ("Content " +++ show idx +++ " is not object") resources_spec
      ∷ []

  check_contents : Value → List SpecCheck
  unfolding check_read_item
  check_contents (arr nil) =
      warn env "resources-read-empty" "contents array is empty" resources_spec ∷ []
  check_contents contents =
      check_items (fail env "resources-read-missing" "Missing contents array" resources_spec)
        (fail env "resources-read-type" "contents is not an array" resources_spec) check_read_item
        contents

  pub check_resources_read : Value → List SpecCheck
  unfolding check_contents
  check_resources_read (obj result) = check_contents (get result "contents")
  check_resources_read _ = []

  -- One round of the loop of `check_resource_templates_list`.
  check_listed_template : ℕ → Value → List SpecCheck
  check_listed_template idx (obj template) =
      when (not (truthy (get template "uriTemplate"))) (
        fail env "resources-templates-uri" ("Template " +++ show idx +++ " missing uriTemplate")
          resources_spec)
      ++ when (not (truthy (get template "name"))) (
          fail env "resources-templates-name" ("Template " +++ show idx +++ " missing name")
            resources_spec)
  check_listed_template idx _ =
      fail env "resources-templates-item" ("Template " +++ show idx +++ " is not an object")
        resources_spec
      ∷ []

  pub check_resource_templates_list : Value → List SpecCheck
  unfolding check_listed_template
  check_resource_templates_list (obj result) =
      check_items
        (fail env "resources-templates-missing" "Missing resourceTemplates array" resources_spec)
        (fail env "resources-templates-type" "resourceTemplates is not an array" resources_spec)
        check_listed_template (get result "resourceTemplates")
  check_resource_templates_list _ = []

  pub check_subscribe_result : Value → List SpecCheck
  check_subscribe_result result = when (not (is_dict result)) (
      fail env "subscribe-result-type" "resources/subscribe result is not an object" resources_spec)

  pub check_unsubscribe_result : Value → List SpecCheck
  check_unsubscribe_result result = when (not (is_dict result)) (
      fail env "unsubscribe-result-type" "resources/unsubscribe result is not an object"
        resources_spec)

  check_updated_params : Value → List SpecCheck
  check_updated_params (obj params) = when (not (is_text (get params "uri"))) (
      fail env "resources-updated-uri-missing" "notifications/resources/updated missing uri"
        resources_spec)
  check_updated_params _ =
      fail env "resources-updated-params-type"
        "notifications/resources/updated params is not an object" resources_spec
      ∷ []

  -- The payload of a notification is a dict by its type.
  pub check_resources_updated_notification : Fields → List SpecCheck
  unfolding check_updated_params
  check_resources_updated_notification payload = check_updated_params (get payload "params")
