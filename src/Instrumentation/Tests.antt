-- ===== src/Instrumentation/Tests.antt =====
-- Runs of the resolver of dimensions on small inputs, and its theorems at them.
use lupid_sdk.Prelude.{String, true, Option, none, some, List, [], ◌∷◌, ◌≡◌, refl, inl}
use mathlib.Core.List.{Memᴰ}
use lupid_sdk.JsMap.{JsMap}
use lupid_sdk.Instrumentation.Template.{Op, default_, lowercase, literal, interp, ok, tokenize}
use lupid_sdk.Instrumentation.Template.Evaluate.{apply_ops, evaluate_template}
use lupid_sdk.Instrumentation.Template.Nulls.{null_only_alone}
use lupid_sdk.Instrumentation.Dimensions.{
  Dimension, Values, context, derived, resolve_all, resolve_dimensions, gives, value_of,
}
use lupid_sdk.Instrumentation.Dimensions.Required.{required_have_values}
use lupid_sdk.Instrumentation.Dimensions.Masking.{Produced, seen_values_are_masked}

abbrev same_case : String → String
same_case s = s

-- A pattern that matches every text whole.
abbrev any_match : String → Option (String → Option String)
any_match p = some (λ s. some s)

abbrev no_enrichment : String → Values → Option (Option String)
no_enrichment ref out = some none

abbrev test_mask : String → String → Option String
test_mask mode s = some "***"

abbrev test_context : JsMap String
test_context = ("user", "ann") ∷ []

abbrev user : Dimension
user = record {
  name = "user";
  source = context "user";
  pii = some "mask";
  required = true;
  when_missing = none;
}

abbrev team : Dimension
team = record {
  name = "team";
  source = derived "t-${user | lowercase}-${org | default \"none\"}";
  pii = none;
  required = true;
  when_missing = none;
}

team_template :
    tokenize "t-${user | lowercase}-${org | default \"none\"}"
    ≡ ok (
        literal "t-"
        ∷ interp "user" (lowercase ∷ [])
        ∷ literal "-"
        ∷ interp "org" (default_ "none" ∷ [])
        ∷ [])
unfolding tokenize
team_template = refl

abbrev test_out : Values
test_out = ("user", some "***") ∷ ("team", some "t-***-none") ∷ []

test_resolved :
    resolve_dimensions same_case same_case any_match no_enrichment test_mask test_context none
      (user ∷ team ∷ [])
    ≡ gives test_out
unfolding resolve_dimensions
test_resolved = refl

user_resolved :
    resolve_all same_case same_case any_match no_enrichment test_mask test_context none
      (user ∷ [])
      []
    ≡ gives (("user", some "***") ∷ [])
unfolding resolve_all
user_resolved = refl

required_have_values_example : (s : String) × (value_of test_out "team" ≡ some s)
required_have_values_example =
    required_have_values same_case same_case any_match no_enrichment test_mask test_context none
      (user ∷ team ∷ []) test_out team test_resolved (Memᴰ.tail (Memᴰ.head refl)) (refl, inl refl)

seen_values_are_masked_example :
    Produced same_case same_case any_match no_enrichment test_mask test_context none
      (user ∷ [])
      (("user", some "***") ∷ [])
    × Produced same_case same_case any_match no_enrichment test_mask test_context none
        (user ∷ team ∷ [])
        test_out
seen_values_are_masked_example =
    seen_values_are_masked same_case same_case any_match no_enrichment test_mask test_context none
      (user ∷ []) (team ∷ []) (("user", some "***") ∷ []) test_out user_resolved test_resolved

abbrev nothing : String → Option String
nothing name = none

alone_is_null :
    evaluate_template same_case same_case any_match "${org | lowercase}" nothing ≡ ok none
unfolding evaluate_template
alone_is_null = refl

null_only_alone_example :
    (name : String) × (ops : List Op) × (tokenize "${org | lowercase}" ≡ ok (interp name ops ∷ []))
    × (apply_ops same_case same_case any_match ops (nothing name) ≡ ok none)
null_only_alone_example =
    null_only_alone same_case same_case any_match "${org | lowercase}" nothing alone_is_null
