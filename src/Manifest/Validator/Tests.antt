-- ===== src/Manifest/Validator/Tests.antt =====
-- Runs of the validator of tenant schemas, and its theorem at a small schema.
use lupid_sdk.Prelude.{String, true, false, none, some, List, [], ◌∷◌, ◌≡◌, ◌↔◌, refl}
use lupid_sdk.Manifest.Validator.{
  TenantSchema, Dimension, context, derived, absent, given, mistyped, validate,
  derived_reference_missing, unknown_scoping_dimension, pii_requires_cedar_attribute,
}
use lupid_sdk.Manifest.Validator.Spec.{IsValid, validate_nothing_iff_IsValid}

-- Each template refers to `team`.
abbrev refers_to_team : String → List String
refers_to_team template = "team" ∷ []

abbrev team : Dimension
team = record {
  name = some "team";
  source = context "team";
  scoping = true;
  cedar = some (record { attribute = some "team"; cedar_type = some "String" });
  clickhouse = some (record { column = some "dim_team"; materialized = true });
  pii = some "hash";
  when_missing = given "reject";
}

abbrev label : Dimension
label = record {
  name = some "label";
  source = derived "x-${team}";
  scoping = false;
  cedar = none;
  clickhouse = none;
  pii = none;
  when_missing = absent;
}

abbrev small_schema : TenantSchema
small_schema = record {
  scoping_dimension = given "team";
  dimensions = team ∷ label ∷ [];
  enrichments = [];
}

abbrev turned_schema : TenantSchema
turned_schema = record {
  scoping_dimension = absent;
  dimensions = label ∷ record team { cedar = none } ∷ [];
  enrichments = [];
}

small_passes : validate refers_to_team small_schema ≡ []
unfolding validate
small_passes = refl

turned_fails :
    validate refers_to_team turned_schema
    ≡ (unknown_scoping_dimension, 0)
      ∷ (derived_reference_missing, 0)
      ∷ (pii_requires_cedar_attribute, 1)
      ∷ []
unfolding validate
turned_fails = refl

-- `scoping_dimension:` with no value, which YAML reads as null.
null_fails :
    validate refers_to_team
      (record { scoping_dimension = mistyped; dimensions = []; enrichments = [] })
    ≡ (unknown_scoping_dimension, 0) ∷ []
unfolding validate
null_fails = refl

validate_nothing_iff_IsValid_example :
    (validate refers_to_team small_schema ≡ []) ↔ IsValid refers_to_team small_schema
validate_nothing_iff_IsValid_example = validate_nothing_iff_IsValid refers_to_team small_schema
