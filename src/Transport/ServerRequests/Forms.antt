-- ===== src/Transport/ServerRequests/Forms.antt =====
-- The content that the client fills into the form of an elicitation, from the form's schema.
use mcp_server_fuzzer.Prelude.{
  String, false, not, ◌||◌, List, [], ◌∷◌, Option, none, some, ◌==◌, if◌then◌else◌, Result, ok, err,
  ◌>>=◌, map,
}
use mcp_server_fuzzer.Prelude.Text.{◌+++◌}
use mcp_server_fuzzer.Json.{
  pos, Value, Fields, end, field, null, bool, int, str, arr, obj, nil, cons, elems, get, has, put,
  is_null, is_int, is_float, is_list, equals_text, is_hashable, in_set, PyError, type_error,
}

-- The `const` of the first variant that has one.
first_const : List Value → Option Value
first_const [] = none
first_const (obj variant ∷ rest) =
    let later = first_const rest in
    if has variant "const" then some (get variant "const") else later
first_const (v ∷ rest) = first_const rest

abbrev const_of : Value → Option Value
const_of (arr variants) = first_const (elems variants)
const_of _ = none

abbrev or_else : Option Value → Value → Value
or_else none v = v
or_else (some w) v = w

abbrev first_of : Value → Option Value
first_of (arr (cons v vs)) = some v
first_of _ = none

-- `None` where the schema names no value.
first_enum_value : Fields → Value
unfolding first_const
first_enum_value schema =
    or_else (first_of (get schema "enum"))
      (or_else (const_of (get schema "oneOf")) (or_else (const_of (get schema "anyOf")) null))

-- A property with the value for its schema, if that is a dict.
abbrev Property : Type 0
Property = String × Option (Result PyError Value)

find_property : String → List Property → Option (Result PyError Value)
find_property key [] = none
find_property key ((k, value) ∷ rest) = if k == key then value else find_property key rest

-- The loop over the keys: a key that cannot be hashed raises, one that is no text is passed over.
fill : List Property → List Value → Fields → Result PyError Fields
unfolding find_property
fill properties [] content = ok content
fill properties (str key ∷ keys) content =
    let skipped = fill properties keys content in
    elim (find_property key properties) [
      | none ↦ skipped
      | some (ok value) ↦ fill properties keys (put content key value)
      | some (err e) ↦ err e
    ]
fill properties (key ∷ keys) content =
    let rest = fill properties keys content in if is_hashable key then rest else err type_error

-- required if required else list(properties.keys())
abbrev keys_to_fill : Value → List Property → List Value
keys_to_fill (arr (cons v vs)) properties = v ∷ elems vs
keys_to_fill _ properties = map (λ p. str p.0) properties

abbrev wrap : Value → Value
wrap v = if is_list v then v else arr (cons v nil)

object_value : Value → Option (List Property) → Result PyError Value
unfolding fill
object_value required none = ok (obj end)
object_value required (some properties) = do
  content ← fill properties (keys_to_fill required properties) end
  ok (obj content)

array_value : Option (Result PyError Value) → Result PyError Value
array_value none = ok (arr nil)
array_value (some nested) = do value ← nested; ok (wrap value)

abbrev number_value : Value → Value
number_value minimum = if is_int minimum || is_float minimum then minimum else int (pos 0)

-- The branches on the schema, given the value for its `items` and those for its `properties`.
value_by_type :
    String → Fields → Option (Result PyError Value) → Option (List Property) → Result PyError Value
unfolding first_enum_value object_value array_value
value_by_type name schema items properties =
    if has schema "default"
    then ok (get schema "default")
    else if not (is_null (first_enum_value schema))
    then ok (first_enum_value schema)
    else if equals_text (get schema "type") "boolean"
    then ok (bool false)
    else (do
      numeric ← in_set (get schema "type") ("integer" ∷ "number" ∷ [])
      if numeric
          then ok (number_value (get schema "minimum"))
          else if equals_text (get schema "type") "array"
          then array_value items
          else if equals_text (get schema "type") "object"
          then object_value (get schema "required") properties
          else ok (str (name +++ "-value")))

-- `_default_form_value` recurses on the schemas inside a schema: the values for these are computed
-- beside it, and `value_by_type` takes those that the code asks for.
mutual
  unfolding value_by_type

  -- The value for the schema under `items`, if that is a dict.
  items_value : String → Fields → Option (Result PyError Value)
  items_value name end = none
  items_value name (field k (obj d) rest) =
      let here = value_by_type name d (items_value name d) (properties_of d) in
      let later = items_value name rest in if k == "items" then some here else later
  items_value name (field k v rest) =
      let later = items_value name rest in if k == "items" then none else later

  -- The values for the schemas under `properties`, if that is a dict.
  properties_of : Fields → Option (List Property)
  properties_of end = none
  properties_of (field k (obj d) rest) =
      let here = property_values d in
      let later = properties_of rest in if k == "properties" then some here else later
  properties_of (field k v rest) =
      let later = properties_of rest in if k == "properties" then none else later

  property_values : Fields → List Property
  property_values end = []
  property_values (field k (obj d) rest) =
      (k, some (value_by_type k d (items_value k d) (properties_of d))) ∷ property_values rest
  property_values (field k v rest) = (k, none) ∷ property_values rest

pub default_form_value : String → Fields → Result PyError Value
unfolding value_by_type
default_form_value name schema =
    value_by_type name schema (items_value name schema) (properties_of schema)

-- The loop over the requested properties; a property whose schema is no dict is passed over.
fill_all : List Property → Fields → Result PyError Fields
fill_all [] content = ok content
fill_all ((key, none) ∷ rest) content = fill_all rest content
fill_all ((key, some (ok value)) ∷ rest) content = fill_all rest (put content key value)
fill_all ((key, some (err e)) ∷ rest) content = err e

content_of : Value → Result PyError Fields
unfolding fill_all
content_of (obj properties) = fill_all (property_values properties) end
content_of _ = ok end

unfoldable pub form_content_from_schema : Value → Result PyError Fields
unfolding content_of property_values
form_content_from_schema (obj schema) = content_of (get schema "properties")
form_content_from_schema _ = ok end
