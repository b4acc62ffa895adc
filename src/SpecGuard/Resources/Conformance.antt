-- ===== src/SpecGuard/Resources/Conformance.antt =====
-- When the checks of resource responses report nothing.
use mcp_server_fuzzer.Prelude.{ℕ, ◌≡◌, ◌↔◌, ◌⊎◌, [], ◌∷◌, arith, extend_from-eq-nil_iff}
use mcp_server_fuzzer.Json.{Value, Fields, arr, obj, nil, cons, elems, get}
use mcp_server_fuzzer.SpecGuard.{Env}
use mcp_server_fuzzer.SpecGuard.Shape.{
  ArrayOf, NonEmptyArrayOf, ObjectWith, IfObject, IsPresent, IsText, is_text_iff,
  check_items-eq-nil_iff,
}
use mcp_server_fuzzer.SpecGuard.Resources.{
  check_listed_resource, check_resources_list, check_read_item, check_contents,
  check_resources_read, check_listed_template, check_resource_templates_list, check_updated_params,
  check_resources_updated_notification,
}

abbrev pub ListedResource : Value → Type 0
ListedResource = ObjectWith (λ r. IsPresent "uri" r × IsPresent "name" r)

abbrev pub ReadContent : Value → Type 0
ReadContent = ObjectWith (λ c. IsPresent "uri" c × (IsPresent "text" c ⊎ IsPresent "blob" c))

abbrev pub ListedTemplate : Value → Type 0
ListedTemplate = ObjectWith (λ t. IsPresent "uriTemplate" t × IsPresent "name" t)

module _ (env : Env) where
  check_listed_resource-eq-nil_iff :
      (i : ℕ) (v : Value) → (check_listed_resource env i v ≡ []) ↔ ListedResource v
  unfolding check_listed_resource
  check_listed_resource-eq-nil_iff i (obj r) = ground arith
  check_listed_resource-eq-nil_iff i _ = ground arith

  -- A resources/list result has no finding exactly if it is no object, or its `resources` is an
  -- array of objects that each have a uri and a name.
  pub check_resources_list-eq-nil_iff :
      (v : Value)
      → (check_resources_list env v ≡ [])
        ↔ IfObject (λ d. ArrayOf ListedResource (get d "resources")) v
  unfolding check_resources_list
  check_resources_list-eq-nil_iff (obj d) =
      check_items-eq-nil_iff ListedResource _ _ _ check_listed_resource-eq-nil_iff
        (get d "resources")
  check_resources_list-eq-nil_iff _ = ground arith

  check_read_item-eq-nil_iff : (i : ℕ) (v : Value) → (check_read_item env i v ≡ []) ↔ ReadContent v
  unfolding check_read_item
  check_read_item-eq-nil_iff i (obj r) = ground arith
  check_read_item-eq-nil_iff i _ = ground arith

  check_contents-eq-nil_iff :
      (v : Value) → (check_contents env v ≡ []) ↔ NonEmptyArrayOf ReadContent v
  unfolding check_contents
  check_contents-eq-nil_iff (arr nil) = ground arith
  check_contents-eq-nil_iff (arr (cons v vs)) =
      extend_from-eq-nil_iff ReadContent (check_read_item env) check_read_item-eq-nil_iff 0
        (v ∷ elems vs)
  check_contents-eq-nil_iff _ = ground arith

  -- A resources/read result has no finding exactly if it is no object, or its `contents` is a
  -- non-empty array of objects that each have a uri, and a text or a blob.
  pub check_resources_read-eq-nil_iff :
      (v : Value)
      → (check_resources_read env v ≡ [])
        ↔ IfObject (λ d. NonEmptyArrayOf ReadContent (get d "contents")) v
  unfolding check_resources_read
  check_resources_read-eq-nil_iff (obj d) = check_contents-eq-nil_iff (get d "contents")
  check_resources_read-eq-nil_iff _ = ground arith

  check_listed_template-eq-nil_iff :
      (i : ℕ) (v : Value) → (check_listed_template env i v ≡ []) ↔ ListedTemplate v
  unfolding check_listed_template
  check_listed_template-eq-nil_iff i (obj r) = ground arith
  check_listed_template-eq-nil_iff i _ = ground arith

  -- A resources/templates/list result has no finding exactly if it is no object, or its
  -- `resourceTemplates` is an array of objects that each have a uriTemplate and a name.
  pub check_resource_templates_list-eq-nil_iff :
      (v : Value)
      → (check_resource_templates_list env v ≡ [])
        ↔ IfObject (λ d. ArrayOf ListedTemplate (get d "resourceTemplates")) v
  unfolding check_resource_templates_list
  check_resource_templates_list-eq-nil_iff (obj d) =
      check_items-eq-nil_iff ListedTemplate _ _ _ check_listed_template-eq-nil_iff
        (get d "resourceTemplates")
  check_resource_templates_list-eq-nil_iff _ = ground arith

  check_updated_params-eq-nil_iff :
      (v : Value) → (check_updated_params env v ≡ []) ↔ ObjectWith (λ d. IsText (get d "uri")) v
  unfolding check_updated_params
  check_updated_params-eq-nil_iff (obj d) = ground (arith, is_text_iff (get d "uri"))
  check_updated_params-eq-nil_iff _ = ground arith

  -- A resource-updated notification has no finding exactly if its params are an object with a
  -- non-empty text as its uri.
  pub check_resources_updated_notification-eq-nil_iff :
      (payload : Fields)
      → (check_resources_updated_notification env payload ≡ [])
        ↔ ObjectWith (λ d. IsText (get d "uri")) (get payload "params")
  unfolding check_resources_updated_notification
  check_resources_updated_notification-eq-nil_iff payload =
      check_updated_params-eq-nil_iff (get payload "params")
