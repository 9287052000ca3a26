-- ===== src/Manifest/Validator.antt =====
-- The rules for a tenant schema (packages/sdk/src/manifest/validator.ts). A field that may be missing
-- or of the wrong type is `none`, where the code treats both alike; an issue is its code and the index of its dimension, without the
-- wording. The references of a derived template, which a regular expression reads, are a parameter;
-- the enrichments are their own keys, without what an object inherits.
pub mod Loops
pub mod References
pub mod Sets
pub mod Spec
mod Tests
use Prim.Native.Char.{code}
use Prim.Native.String
use lupid_sdk.Prelude.{
  ℕ, zero, suc, ◌+◌, String, Bool, true, false, not, ◌&&◌, ◌||◌, Option, none, some, List, [], ◌∷◌,
  ◌++◌, ◌==◌, leb, eqb, any, is_some, if◌then◌else◌,
}
use lupid_sdk.Prelude.Text.{is_digit}

pub data IssueCode : Type 0 where
  multiple_scoping_dimensions unknown_scoping_dimension invalid_dimension_name : IssueCode
  duplicate_cedar_attribute invalid_clickhouse_column_prefix duplicate_clickhouse_column : IssueCode
  derived_reference_missing unknown_enrichment_ref pii_requires_cedar_attribute : IssueCode
  pii_cedar_type_mismatch too_many_materialized validation : IssueCode

abbrev pub Issues : Type 0
Issues = List (IssueCode × ℕ)

pub data Source : Type 0 where
  context request_header derived : String → Source
  enrichment : Option String → Source

-- `cedar_type` is `c.cedar_type ?? c.type`.
pub record CedarBinding : Type 0 where
  pub attribute : Option String
  pub cedar_type : Option String

-- `materialized` is `d.clickhouse.materialized ?? true`.
pub record ClickhouseHint : Type 0 where
  pub column : Option String
  pub materialized : Bool

-- A field that is absent, a text, or anything else, `null` too.
pub data Given : Type 0 where
  absent : Given
  given : String → Given
  mistyped : Given

pub record Dimension : Type 0 where
  pub name : Option String
  pub source : Source
  pub scoping : Bool
  pub cedar : Option CedarBinding
  pub clickhouse : Option ClickhouseHint
  pub pii : Option String
  pub when_missing : Given

pub record TenantSchema : Type 0 where
  pub scoping_dimension : Given
  pub dimensions : List Dimension
  pub enrichments : List String

abbrev pub has : String → List String → Bool
has s seen = any (λ x. x == s) seen

abbrev pub flag : Bool → IssueCode → ℕ → Issues
flag b c i = if b then (c, i) ∷ [] else []

-- The names of the dimensions with `scoping: true`.
unfoldable pub scoping_names : List Dimension → List (Option String)
scoping_names [] = []
scoping_names (d ∷ ds) = let rest = scoping_names ds in if d.scoping then d.name ∷ rest else rest

unfoldable pub same_name : Option String → String → Bool
same_name none s = false
same_name (some t) s = t == s

-- A name that is no text differs here from a declared value that is none: rule 2 rejects such a name
-- in any case.
unfoldable pub check_scoping : List (Option String) → Given → Issues
unfolding same_name
check_scoping [] absent = []
check_scoping [] (given declared) = (unknown_scoping_dimension, 0) ∷ []
check_scoping [] mistyped = (unknown_scoping_dimension, 0) ∷ []
check_scoping (first ∷ []) absent = (unknown_scoping_dimension, 0) ∷ []
check_scoping (first ∷ []) mistyped = (unknown_scoping_dimension, 0) ∷ []
check_scoping (first ∷ []) (given declared) =
    if same_name first declared then [] else (unknown_scoping_dimension, 0) ∷ []
check_scoping (first ∷ next ∷ rest) declared = (multiple_scoping_dimensions, 0) ∷ []

unfoldable pub rule1_scoping_exactly_one : TenantSchema → Issues
unfolding scoping_names check_scoping
rule1_scoping_exactly_one s = check_scoping (scoping_names (s.dimensions)) (s.scoping_dimension)

abbrev pub is_lower : ℕ → Bool
is_lower c = leb b'a' c && leb c b'z'

-- `/^[a-z0-9_]{0,n}$/`
unfoldable pub is_tail : ℕ → String → Bool
is_tail n String.[] = true
is_tail zero (String.◌∷◌ c s) = false
is_tail (suc n) (String.◌∷◌ c s) =
    (is_lower (code c) || is_digit (code c) || eqb (code c) b'_') && is_tail n s

-- `DIMENSION_NAME_RE`
unfoldable pub is_dimension_name : Option String → Bool
unfolding is_tail
is_dimension_name none = false
is_dimension_name (some String.[]) = false
is_dimension_name (some (String.◌∷◌ c s)) = is_lower (code c) && is_tail 31 s

unfoldable pub rule2_dimension_names : ℕ → List Dimension → Issues
unfolding is_dimension_name
rule2_dimension_names i [] = []
rule2_dimension_names i (d ∷ ds) =
    flag (not (is_dimension_name (d.name))) invalid_dimension_name i
    ++ rule2_dimension_names (suc i) ds

unfoldable pub cedar_attribute : Option CedarBinding → Option String
cedar_attribute none = none
cedar_attribute (some c) = c.attribute

unfoldable pub rule3_cedar_attribute_uniqueness : ℕ → List String → List Dimension → Issues
unfolding cedar_attribute
rule3_cedar_attribute_uniqueness i seen [] = []
rule3_cedar_attribute_uniqueness i seen (d ∷ ds) = elim (cedar_attribute (d.cedar)) [
  | none ↦ rule3_cedar_attribute_uniqueness (suc i) seen ds
  | some attr ↦
      flag (has attr seen) duplicate_cedar_attribute i
      ++ rule3_cedar_attribute_uniqueness (suc i) (attr ∷ seen) ds
]

unfoldable pub starts_with : String → String → Bool
starts_with String.[] s = true
starts_with (String.◌∷◌ c p) String.[] = false
starts_with (String.◌∷◌ c p) (String.◌∷◌ d s) = eqb (code c) (code d) && starts_with p s

unfoldable pub column_of : Option ClickhouseHint → Option (Option String)
column_of none = none
column_of (some hint) = some (hint.column)

unfoldable pub rule4_clickhouse_columns : ℕ → List String → List Dimension → Issues
unfolding column_of starts_with
rule4_clickhouse_columns i seen [] = []
rule4_clickhouse_columns i seen (d ∷ ds) = elim (column_of (d.clickhouse)) [
  | none ↦ rule4_clickhouse_columns (suc i) seen ds
  | some none ↦ (invalid_clickhouse_column_prefix, i) ∷ rule4_clickhouse_columns (suc i) seen ds
  | some (some col) ↦
      let fine = rule4_clickhouse_columns (suc i) (col ∷ seen) ds in
      let skipped = rule4_clickhouse_columns (suc i) seen ds in
      if not (starts_with "dim_" col)
      then (invalid_clickhouse_column_prefix, i) ∷ skipped
      else flag (has col seen) duplicate_clickhouse_column i ++ fine
]

unfoldable pub unseen : List String → List String → Bool
unseen seen [] = false
unseen seen (ref ∷ refs) = not (has ref seen) || unseen seen refs

unfoldable pub and_name : Option String → List String → List String
and_name none seen = seen
and_name (some name) seen = name ∷ seen

unfoldable pub rule6_enrichment_ref : ℕ → List String → List Dimension → Issues
rule6_enrichment_ref i enrichments [] = []
rule6_enrichment_ref i enrichments (d ∷ ds) =
    let rest = rule6_enrichment_ref (suc i) enrichments ds in
    elim (d.source) [
      | enrichment none ↦ (unknown_enrichment_ref, i) ∷ rest
      | enrichment (some ref) ↦ flag (not (has ref enrichments)) unknown_enrichment_ref i ++ rest
      | _ ↦ rest
    ]

-- What rule 9 finds in a dimension.
unfoldable pub pii_issues : ℕ → Option String → Option CedarBinding → Issues
unfolding same_name
pii_issues i pii cedar =
    if not (same_name pii "hash" || same_name pii "tokenize") then [] else elim cedar [
      | none ↦ (pii_requires_cedar_attribute, i) ∷ []
      | some c ↦ flag (not (same_name (c.cedar_type) "String")) pii_cedar_type_mismatch i
    ]

unfoldable pub rule9_pii_needs_cedar : ℕ → List Dimension → Issues
unfolding pii_issues
rule9_pii_needs_cedar i [] = []
rule9_pii_needs_cedar i (d ∷ ds) =
    pii_issues i (d.pii) (d.cedar) ++ rule9_pii_needs_cedar (suc i) ds

unfoldable pub materialized_count : List Dimension → ℕ
materialized_count [] = 0
materialized_count (d ∷ ds) = elim (d.clickhouse) [
  | none ↦ materialized_count ds
  | some hint ↦ (if hint.materialized then 1 else 0) + materialized_count ds
]

unfoldable pub rule10_materialized_count : List Dimension → Issues
unfolding materialized_count
rule10_materialized_count ds = flag (leb 25 (materialized_count ds)) too_many_materialized 0

unfoldable pub is_when_missing : Given → Bool
is_when_missing absent = true
is_when_missing (given s) = s == "reject" || s == "null" || s == "default"
is_when_missing mistyped = false

unfoldable pub rule_when_missing_enum : ℕ → List Dimension → Issues
unfolding is_when_missing
rule_when_missing_enum i [] = []
rule_when_missing_enum i (d ∷ ds) =
    flag (not (is_when_missing (d.when_missing))) validation i ++ rule_when_missing_enum (suc i) ds

module _ (parse_derived_references : String → List String) where
  unfoldable pub derived_refs : Source → List String
  derived_refs (derived template) = parse_derived_references template
  derived_refs _ = []

  unfoldable pub rule5_derived_references : ℕ → List String → List Dimension → Issues
  unfolding derived_refs unseen and_name
  rule5_derived_references i seen [] = []
  rule5_derived_references i seen (d ∷ ds) =
      flag (unseen seen (derived_refs (d.source))) derived_reference_missing i
      ++ rule5_derived_references (suc i) (and_name (d.name) seen) ds

  unfoldable pub validate : TenantSchema → Issues
  unfolding rule1_scoping_exactly_one rule2_dimension_names rule3_cedar_attribute_uniqueness
      rule4_clickhouse_columns rule5_derived_references rule6_enrichment_ref rule9_pii_needs_cedar
      rule10_materialized_count rule_when_missing_enum
  validate s =
      rule1_scoping_exactly_one s
      ++ (rule2_dimension_names 0 (s.dimensions)
          ++ (rule3_cedar_attribute_uniqueness 0 [] (s.dimensions)
              ++ (rule4_clickhouse_columns 0 [] (s.dimensions)
                  ++ (rule5_derived_references 0 [] (s.dimensions)
                      ++ (rule6_enrichment_ref 0 (s.enrichments) (s.dimensions)
                          ++ (rule9_pii_needs_cedar 0 (s.dimensions)
                              ++ (rule10_materialized_count (s.dimensions)
                                  ++ rule_when_missing_enum 0 (s.dimensions))))))))
