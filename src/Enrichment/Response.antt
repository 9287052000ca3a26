-- ===== src/Enrichment/Response.antt =====
-- The response of an enrichment webhook: the shape that the manifest declares (validateResponse and
-- the check of asFullDef in packages/sdk/src/enrichment/types.ts) and the check of a reply against
-- it (validateResponseShape in packages/sdk/src/enrichment/client.ts). A throw is `none`.
pub mod Acceptance
use lupid_sdk.Prelude.{String, Bool, Option, none, some, List, [], ◌∷◌, ◌==◌, if◌then◌else◌}
use lupid_sdk.JsMap.{JsMap, set, has}
use lupid_sdk.Pii.Json.{Value, Fields, null, text, obj, no_fields, field, get_field}

pub data FieldType : Type 0 where
  required_string nullable_string : FieldType

abbrev pub Shape : Type 0
Shape = JsMap FieldType

abbrev pub Values : Type 0
Values = JsMap (Option String)

unfoldable pub text_type : String → Option FieldType
text_type s =
    if s == "string"
    then some required_string
    else if s == "string|null"
    then some nullable_string
    else none

-- `v["type"] === "string" || v["type"] === undefined`
unfoldable pub object_type : Option Value → Option FieldType
object_type none = some required_string
object_type (some (text s)) = if s == "string" then some required_string else none
object_type (some v) = none

unfoldable pub field_type : Value → Option FieldType
unfolding text_type object_type get_field
field_type (text s) = text_type s
field_type (obj fs) = object_type (get_field "type" fs)
field_type v = none

-- The loop over `Object.entries(shapeRaw)`.
unfoldable pub collect_shape : Shape → Fields → Option Shape
unfolding field_type set
collect_shape shape no_fields = some shape
collect_shape shape (field k v fs) = elim (field_type v) [
  | none ↦ none
  | some t ↦ collect_shape (set k t shape) fs
]

unfoldable pub shape_of : Option Value → Option Shape
unfolding collect_shape
shape_of (some (obj fs)) = collect_shape [] fs
shape_of _ = none

-- `Object.keys(shape).length === 0` throws.
unfoldable pub some_keys : Option Shape → Option Shape
some_keys none = none
some_keys (some []) = none
some_keys (some shape) = some shape

unfoldable pub validate_response : Option Value → Option Shape
unfolding shape_of get_field some_keys
validate_response (some (obj raw)) = some_keys (shape_of (get_field "shape" raw))
validate_response _ = none

-- The last check of `asFullDef`: the reference itself is a key of the shape.
unfoldable pub response_of : String → Option Value → Option Shape
unfolding validate_response
response_of ref raw = elim (validate_response raw) [
  | none ↦ none
  | some shape ↦ if has ref shape then some shape else none
]

-- What the reply has under a key, if the type allows it.
unfoldable pub accept : FieldType → Option Value → Option (Option String)
accept _ (some (text s)) = some (some s)
accept nullable_string none = some none
accept nullable_string (some null) = some none
accept _ _ = none

-- The loop over `Object.entries(shape.shape)`.
unfoldable pub accept_all : Shape → Fields → Values → Option Values
unfolding accept get_field set
accept_all [] fs out = some out
accept_all ((k, t) ∷ shape) fs out = elim (accept t (get_field k fs)) [
  | none ↦ none
  | some v ↦ accept_all shape fs (set k v out)
]

unfoldable pub validate_response_shape : Shape → Value → Option Values
unfolding accept_all
validate_response_shape shape (obj fs) = accept_all shape fs []
validate_response_shape shape _ = none
