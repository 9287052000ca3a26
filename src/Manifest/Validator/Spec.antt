-- ===== src/Manifest/Validator/Spec.antt =====
-- When a tenant schema is valid, said without the loops of validator.ts, and that the validator finds
-- nothing exactly in a valid schema.
use lupid_sdk.Prelude.{◌≤◌, String, true, List, [], ◌++◌, ◌≡◌, ◌↔◌, arith, All, leb}
use mathlib.Core.List.Memᴰ
use lupid_sdk.Manifest.Validator.{
  TenantSchema, Dimension, is_dimension_name, is_when_missing, scoping_names, materialized_count,
  too_many_materialized, rule1_scoping_exactly_one, rule2_dimension_names,
  rule3_cedar_attribute_uniqueness, rule4_clickhouse_columns, rule5_derived_references,
  rule6_enrichment_ref, rule9_pii_needs_cedar, rule10_materialized_count, rule_when_missing_enum,
  validate,
}
use lupid_sdk.Manifest.Validator.Loops.{
  append_nothing, flag_nothing, names_nothing, when_missing_nothing, PiiBound, pii_nothing,
}
use lupid_sdk.Manifest.Validator.Sets.{
  Unique, attributes, attributes_nothing, AllPrefixed, columns, columns_nothing,
}
use lupid_sdk.Manifest.Validator.References.{
  ScopingAgrees, scoping_nothing, IsDeclared, enrichments_nothing, RefersBack, references_nothing,
}

module _ (parse_derived_references : String → List String) where
  pub record IsValid (s : TenantSchema) : Type 0 where
    pub scoping : ScopingAgrees (scoping_names s.dimensions) s.scoping_dimension
    pub names : All (λ d. is_dimension_name d.name ≡ true) s.dimensions
    pub attributes_once : Unique (attributes s.dimensions)
    pub columns_prefixed : AllPrefixed s.dimensions
    pub columns_once : Unique (columns s.dimensions)
    pub refers_back : RefersBack parse_derived_references [] s.dimensions
    pub enrichments_declared : All (λ d. IsDeclared s.enrichments d.source) s.dimensions
    pub pii_bound : All PiiBound s.dimensions
    pub few_materialized : materialized_count s.dimensions ≤ 24
    pub when_missing_known : All (λ d. is_when_missing d.when_missing ≡ true) s.dimensions

  materialized_nothing :
      (ds : List Dimension) → (rule10_materialized_count ds ≡ []) ↔ (materialized_count ds ≤ 24)
  unfolding rule10_materialized_count
  materialized_nothing ds =
      let one = flag_nothing (leb 25 (materialized_count ds)) too_many_materialized 0 in
      (λ e. let off = one.0 e in ground (arith, off), λ le. one.1 (ground (arith, le)))

  -- The validator finds no issue in a schema exactly where the schema is valid: for any schema and
  -- any reading of the references of a template.
  pub validate_nothing_iff_IsValid :
      (s : TenantSchema) → (validate parse_derived_references s ≡ []) ↔ IsValid s
  unfolding validate rule1_scoping_exactly_one
  validate_nothing_iff_IsValid s =
      let ds = s.dimensions in
      let r9 = rule_when_missing_enum 0 ds in
      let r8 = rule10_materialized_count ds ++ r9 in
      let r7 = rule9_pii_needs_cedar 0 ds ++ r8 in
      let r6 = rule6_enrichment_ref 0 s.enrichments ds ++ r7 in
      let r5 = rule5_derived_references parse_derived_references 0 [] ds ++ r6 in
      let r4 = rule4_clickhouse_columns 0 [] ds ++ r5 in
      let r3 = rule3_cedar_attribute_uniqueness 0 [] ds ++ r4 in
      let r2 = rule2_dimension_names 0 ds ++ r3 in
      let a1 = append_nothing (rule1_scoping_exactly_one s) r2 in
      let a2 = append_nothing (rule2_dimension_names 0 ds) r3 in
      let a3 = append_nothing (rule3_cedar_attribute_uniqueness 0 [] ds) r4 in
      let a4 = append_nothing (rule4_clickhouse_columns 0 [] ds) r5 in
      let a5 = append_nothing (rule5_derived_references parse_derived_references 0 [] ds) r6 in
      let a6 = append_nothing (rule6_enrichment_ref 0 s.enrichments ds) r7 in
      let a7 = append_nothing (rule9_pii_needs_cedar 0 ds) r8 in
      let a8 = append_nothing (rule10_materialized_count ds) r9 in
      (
        λ e.
            let (e1, t2) = a1.0 e in
            let (e2, t3) = a2.0 t2 in
            let (e3, t4) = a3.0 t3 in
            let (e4, t5) = a4.0 t4 in
            let (e5, t6) = a5.0 t5 in
            let (e6, t7) = a6.0 t6 in
            let (e7, t8) = a7.0 t7 in
            let (e8, e9) = a8.0 t8 in
            record {
              scoping = (scoping_nothing (scoping_names ds) s.scoping_dimension).0 e1;
              names = (names_nothing 0 ds).0 e2;
              attributes_once = ((attributes_nothing 0 [] ds).0 e3).1.0;
              columns_prefixed = ((columns_nothing 0 [] ds).0 e4).0;
              columns_once = ((columns_nothing 0 [] ds).0 e4).1.0;
              refers_back = (references_nothing parse_derived_references 0 [] ds).0 e5;
              enrichments_declared = (enrichments_nothing 0 s.enrichments ds).0 e6;
              pii_bound = (pii_nothing 0 ds).0 e7;
              few_materialized = (materialized_nothing ds).0 e8;
              when_missing_known = (when_missing_nothing 0 ds).0 e9;
            },
        λ v. a1.1 (
          (scoping_nothing (scoping_names ds) s.scoping_dimension).1 v.scoping,
          a2.1 (
            (names_nothing 0 ds).1 v.names,
            a3.1 (
              (attributes_nothing 0 [] ds).1 (tt, (v.attributes_once, λ x m n. Memᴰ.not-nil n)),
              a4.1 (
                (columns_nothing 0 [] ds).1
                    (v.columns_prefixed, (v.columns_once, λ x m n. Memᴰ.not-nil n)),
                a5.1 (
                  (references_nothing parse_derived_references 0 [] ds).1 v.refers_back,
                  a6.1 (
                    (enrichments_nothing 0 s.enrichments ds).1 v.enrichments_declared,
                    a7.1 (
                      (pii_nothing 0 ds).1 v.pii_bound,
                      a8.1 (
                        (materialized_nothing ds).1 v.few_materialized,
                        (when_missing_nothing 0 ds).1 v.when_missing_known,
                      ),
                    ),
                  ),
                ),
              ),
            ),
          ),
        ),
      )
