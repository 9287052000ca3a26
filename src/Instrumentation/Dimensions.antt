-- ===== src/Instrumentation/Dimensions.antt =====
-- The dimensions of an event (packages/sdk/src/instrumentation/resolve-dimensions.ts). What
-- `toLowerCase`, `RegExp`, `applyPii` and `resolveEnrichment` do is a parameter; a throw of one of
-- the last two is `none`. The schema and the context are arguments.
pub mod Required
pub mod Masking
use lupid_sdk.Prelude.{String, Bool, true, false, Option, none, some, List, [], ◌∷◌, if◌then◌else◌}
use lupid_sdk.JsMap.{JsMap, get, set}
use lupid_sdk.Instrumentation.Template.{TemplateError, Result, throws, ok}
use lupid_sdk.Instrumentation.Template.Evaluate.{evaluate_template}

pub data Source : Type 0 where
  context request_header derived enrichment : String → Source

pub data Missing : Type 0 where
  reject null_ default_ : Missing

pub record Dimension : Type 0 where
  pub name : String
  pub source : Source
  -- None is `pii` absent or "none".
  pub pii : Option String
  pub required : Bool
  pub when_missing : Option Missing

-- A header is one text or a list of texts.
pub data Header : Type 0 where
  one : String → Header
  many : List String → Header

abbrev pub Values : Type 0
Values = JsMap (Option String)

pub data DimensionError : Type 0 where
  template_error : TemplateError → DimensionError
  enrichment_error pii_error : DimensionError
  required_missing : String → DimensionError

pub data Resolved {ℓ} (A : Type ℓ) : Type ℓ where
  fails : DimensionError → Resolved A
  gives : A → Resolved A

-- `resolved[name] ?? null`
unfoldable pub value_of : Values → String → Option String
unfolding get
value_of out name = elim (get name out) [ none ↦ none | some v ↦ v ]

unfoldable pub header_text : Option Header → Option String
header_text none = none
header_text (some (one s)) = some s
header_text (some (many [])) = none
header_text (some (many (s ∷ rest))) = some s

module _ (lower upper : String → String) (regex : String → Option (String → Option String))
    (enrich : String → Values → Option (Option String)) (mask : String → String → Option String)
    (context_dimensions : JsMap String) (headers : Option (JsMap Header)) where
  unfoldable pub read_header : String → Option String
  unfolding header_text get
  read_header name = elim headers [ none ↦ none | some hs ↦ header_text (get (lower name) hs) ]

  unfoldable pub resolve_single_dimension : Dimension → Values → Resolved (Option String)
  unfolding read_header value_of evaluate_template get
  resolve_single_dimension dim out = elim (dim.source) [
    | context path ↦ gives (get path context_dimensions)
    | request_header header ↦ elim (get dim.name context_dimensions) [
      | some s ↦ gives (some s)
      | none ↦ gives (read_header header)
    ]
    | derived template ↦ elim (evaluate_template lower upper regex template (value_of out)) [
      | throws e ↦ fails (template_error e)
      | ok v ↦ gives v
    ]
    | enrichment ref ↦ elim (enrich ref out) [ none ↦ fails enrichment_error | some v ↦ gives v ]
  ]

  -- `if (value !== null && dim.pii && dim.pii !== "none") value = await applyPii(value, dim.pii)`
  unfoldable pub masked : Option String → Option String → Resolved (Option String)
  masked none v = gives v
  masked (some mode) none = gives none
  masked (some mode) (some s) = elim (mask mode s) [
    | none ↦ fails pii_error
    | some m ↦ gives (some m)
  ]

  unfoldable pub resolve_one : Dimension → Values → Resolved (Option String)
  unfolding resolve_single_dimension masked
  resolve_one dim out = elim (resolve_single_dimension dim out) [
    | fails e ↦ fails e
    | gives v ↦ masked (dim.pii) v
  ]

  -- The first loop over the dimensions of the schema.
  unfoldable pub resolve_all : List Dimension → Values → Resolved Values
  unfolding resolve_one set
  resolve_all [] out = gives out
  resolve_all (dim ∷ dims) out = elim (resolve_one dim out) [
    | fails e ↦ fails e
    | gives v ↦ resolve_all dims (set (dim.name) v out)
  ]

  unfoldable pub is_rejected : Dimension → Values → Bool
  unfolding value_of
  is_rejected dim out =
      if dim.required then rejects (value_of out dim.name) (dim.when_missing) else false
    where
      rejects : Option String → Option Missing → Bool
      rejects (some s) when = false
      rejects none none = true
      rejects none (some reject) = true
      rejects none (some _) = false

  -- The second loop, over the required dimensions.
  unfoldable pub enforce : List Dimension → Values → Resolved Values
  unfolding is_rejected
  enforce [] out = gives out
  enforce (dim ∷ dims) out =
      let rest = enforce dims out in
      if is_rejected dim out then fails (required_missing (dim.name)) else rest

  unfoldable pub resolve_dimensions : List Dimension → Resolved Values
  unfolding resolve_all enforce
  resolve_dimensions dims = elim (resolve_all dims []) [
    | fails e ↦ fails e
    | gives out ↦ enforce dims out
  ]
