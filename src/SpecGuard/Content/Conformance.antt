-- ===== src/SpecGuard/Content/Conformance.antt =====
-- The content blocks that the MCP spec allows, and when the check of a tool result reports nothing.
use mathlib.Core.Path.{subst}
use mcp_server_fuzzer.Prelude.{
  ℕ, String, ◌≡◌, refl, sym, ◌↔◌, ◌⊎◌, inl, inr, true, List, [], ◌∷◌, arith, nil_and, Any, any,
  extend_from-eq-nil_iff, ◌==◌, eq_iff, Bool-cases,
}
use mcp_server_fuzzer.Json.{Value, Fields, bool, str, arr, obj, nil, cons, elems, get}
use mcp_server_fuzzer.Json.Laws.{equals_text_iff}
use mcp_server_fuzzer.SpecGuard.{Env}
use mcp_server_fuzzer.SpecGuard.Misc.{spec_at_least}
use mcp_server_fuzzer.SpecGuard.Shape.{
  ArraySome, NonEmptyArrayOf, ObjectWith, IfObject, IfMember, IsText, IsString, IsPresent,
  is_text_iff, is_str_iff,
}
use mcp_server_fuzzer.SpecGuard.Content.{
  is_true, check_resource, check_typed, check_typed_by, check_content_item, is_text_block,
  check_content, check_tool_result_content,
}

abbrev pub Resource : Fields → Type 0
Resource r = IsPresent "uri" r × (IsPresent "text" r ⊎ IsPresent "blob" r)

module _ (env : Env) where
  -- The five kinds of content block, with the versions of the spec that brought the later ones.
  pub data IsBlock (d : Fields) : String → Type 0 where
    text_block : {t : String} → t ≡ "text" → IsText (get d "text") → IsBlock d t
    image_block :
        {t : String}
        → t ≡ "image"
        → IsString (get d "data")
        → IsString (get d "mimeType")
        → IsBlock d t
    audio_block :
        {t : String}
        → t ≡ "audio"
        → spec_at_least env "2025-03-26" ≡ true
        → IsString (get d "data")
        → IsString (get d "mimeType")
        → IsBlock d t
    resource_block :
        {t : String} → t ≡ "resource" → ObjectWith Resource (get d "resource") → IsBlock d t
    resource_link_block :
        {t : String}
        → t ≡ "resource_link"
        → spec_at_least env "2025-06-18" ≡ true
        → IsPresent "uri" d
        → IsPresent "name" d
        → IsBlock d t

  abbrev pub ContentBlock : Value → Type 0
  ContentBlock = ObjectWith (λ d. (t : String) × (get d "type" ≡ str t) × IsBlock d t)

  check_resource-eq-nil_iff : (v : Value) → (check_resource env v ≡ []) ↔ ObjectWith Resource v
  unfolding check_resource
  check_resource-eq-nil_iff (obj d) = ground arith
  check_resource-eq-nil_iff _ = ground arith

  check_typed_sound : (t : String) (d : Fields) → check_typed env t d ≡ [] → IsBlock d t
  unfolding check_typed
  check_typed_sound t d h = elim (Bool-cases (t == "text")) [
    | inl e ↦ text_block ((eq_iff t "text").0 e) (ground (arith, is_text_iff (get d "text")))
    | inr n1 ↦ elim (Bool-cases (t == "image")) [
      | inl e ↦
          image_block ((eq_iff t "image").0 e) (ground (arith, is_str_iff (get d "data")))
            (ground (arith, is_str_iff (get d "mimeType")))
      | inr n2 ↦ elim (Bool-cases (t == "audio")) [
        | inl e ↦
            audio_block ((eq_iff t "audio").0 e) (ground arith)
              (ground (arith, is_str_iff (get d "data")))
              (ground (arith, is_str_iff (get d "mimeType")))
        | inr n3 ↦ elim (Bool-cases (t == "resource")) [
          | inl e ↦
              resource_block ((eq_iff t "resource").0 e)
                ((check_resource-eq-nil_iff (get d "resource")).0 (ground arith))
          | inr n4 ↦ elim (Bool-cases (t == "resource_link")) [
            | inl e ↦
                resource_link_block ((eq_iff t "resource_link").0 e) (ground arith) (ground arith)
                  (ground arith)
            | inr n5 ↦ absurd (ground arith)
          ]
        ]
      ]
    ]
  ]

  check_typed_complete : (t : String) (d : Fields) → IsBlock d t → check_typed env t d ≡ []
  unfolding check_typed
  check_typed_complete t d (text_block e h) = rw e (ground (arith, is_text_iff (get d "text")))
  check_typed_complete t d (image_block e h k) =
      rw e (ground (arith, is_str_iff (get d "data"), is_str_iff (get d "mimeType")))
  check_typed_complete t d (audio_block e v h k) =
      rw e (ground (arith, is_str_iff (get d "data"), is_str_iff (get d "mimeType")))
  check_typed_complete t d (resource_block e h) =
      rw e ((check_resource-eq-nil_iff (get d "resource")).1 h)
  check_typed_complete t d (resource_link_block e v h k) = rw e (ground arith)

  check_typed_by-eq-nil_iff :
      (i : ℕ) (v : Value) (d : Fields)
      → (check_typed_by env i v d ≡ []) ↔ ((t : String) × (v ≡ str t) × IsBlock d t)
  unfolding check_typed_by
  check_typed_by-eq-nil_iff i (str t) d = (
    (λ h. (t, refl, check_typed_sound t d h)),
    (λ (u, e, b).
        let same : t ≡ u = cc in check_typed_complete t d (subst (λ w. IsBlock d w) (sym same) b)),
  )
  check_typed_by-eq-nil_iff i _ d = ((λ h. cc), (λ (u, e, b). cc))

  check_content_item-eq-nil_iff :
      (i : ℕ) (v : Value) → (check_content_item env i v ≡ []) ↔ ContentBlock v
  unfolding check_content_item
  check_content_item-eq-nil_iff i (obj d) = check_typed_by-eq-nil_iff i (get d "type") d
  check_content_item-eq-nil_iff i _ = ground arith

abbrev pub TextBlock : Value → Type 0
TextBlock = ObjectWith (λ d. (get d "type" ≡ str "text") × IsText (get d "text"))

is_text_block_iff : (v : Value) → (is_text_block v ≡ true) ↔ TextBlock v
is_text_block_iff (obj d) =
    ground (arith, equals_text_iff (get d "type") "text", is_text_iff (get d "text"))
is_text_block_iff _ = ground arith

any-is_text_block_iff : (vs : List Value) → (any is_text_block vs ≡ true) ↔ Any TextBlock vs
any-is_text_block_iff [] = ground arith
any-is_text_block_iff (v ∷ vs) = ground (arith, is_text_block_iff v, any-is_text_block_iff vs)

is_true_iff : (v : Value) → (is_true v ≡ true) ↔ (v ≡ bool true)
is_true_iff (bool b) = ground arith
is_true_iff _ = ground arith

-- What an error result owes: a text that says what went wrong.
abbrev pub Explained : Fields → Value → Type 0
Explained d content = get d "isError" ≡ bool true → ArraySome TextBlock content

module _ (env : Env) where
  check_content-eq-nil_iff :
      (d : Fields) (v : Value)
      → (check_content env d v ≡ []) ↔ (NonEmptyArrayOf (ContentBlock env) v × Explained d v)
  unfolding check_content
  check_content-eq-nil_iff d (arr nil) = ground arith
  check_content-eq-nil_iff d (arr (cons v vs)) =
      nil_and
        (extend_from-eq-nil_iff (ContentBlock env) (check_content_item env)
          (check_content_item-eq-nil_iff env) 0 (v ∷ elems vs))
        (ground (arith, is_true_iff (get d "isError"), any-is_text_block_iff (v ∷ elems vs)))
  check_content-eq-nil_iff d _ = ground arith

  -- A tool result has no finding exactly if it is no object, or has no content, or its content is a
  -- non-empty array of blocks that the spec version knows, with a text block if `isError` is true.
  pub check_tool_result_content-eq-nil_iff :
      (v : Value)
      → (check_tool_result_content env v ≡ [])
        ↔ IfObject
            (λ d. IfMember "content" (λ c. NonEmptyArrayOf (ContentBlock env) c × Explained d c) d)
            v
  unfolding check_tool_result_content
  check_tool_result_content-eq-nil_iff (obj d) =
      ground (arith, check_content-eq-nil_iff d (get d "content"))
  check_tool_result_content-eq-nil_iff _ = ground arith
