-- ===== src/Enrichment/ClientTests.antt =====
-- Runs of the enrichment client on small inputs, and its theorems at them.
use lupid_sdk.Prelude.{
  ℕ, String, Bool, true, false, Option, none, some, List, [], ◌∷◌, ◌≡◌, refl, arith, eq_refl,
}
use lupid_sdk.JsMap
use mathlib.Core.Option
use lupid_sdk.Pii.Json.{Value, text, obj, no_fields, field, null, get_field, Fields}
use lupid_sdk.Enrichment.Breaker.{first_state, get}
use lupid_sdk.Enrichment.RateLimit.{Config}
use lupid_sdk.Enrichment.Response.{
  FieldType, required_string, nullable_string, Shape, Values, validate_response_shape, response_of,
}
use lupid_sdk.Enrichment.Response.Acceptance.{Typed, accepted_reply_conforms}
use lupid_sdk.Enrichment.Client.{
  EnrichmentDefFull, EnrichmentResult, Guards, Reply, fetch_threw, http, finished, failure_result,
  fetch_start, fetch_end, refresh_settle, resolve_miss, extract_value, needs_refresh, dimension,
}
use lupid_sdk.Enrichment.Client.Outcomes.{good_values, failed_refresh_overwrites}
use lupid_sdk.Enrichment.Client.Tripping.{run_ends, five_failures_stop_requests}
use lupid_sdk.Enrichment.Client.FailClosed.{HasText, fail_closed_gives_text}

-- { shape: { tier: "string", note: { type: "string" }, plan: "string|null" } }
abbrev response_block : Value
response_block = obj (
    field "shape"
      (obj (
        field "tier" (text "string") (
          field "note" (obj (field "type" (text "string") no_fields))
            (field "plan" (text "string|null") no_fields))))
      no_fields)

abbrev tier_shape : Shape
tier_shape = ("tier", required_string) ∷ ("note", required_string) ∷ ("plan", nullable_string) ∷ []

block_accepted : response_of "tier" (some response_block) ≡ some tier_shape
unfolding response_of JsMap.get
block_accepted = refl

abbrev good_fields : Fields
good_fields = field "tier" (text "gold") (field "plan" null (field "note" (text "n") no_fields))

abbrev good_reply : Value
good_reply = obj good_fields

abbrev good_result : Values
good_result = ("tier", some "gold") ∷ ("note", some "n") ∷ ("plan", none) ∷ []

reply_accepted : validate_response_shape tier_shape good_reply ≡ some good_result
unfolding validate_response_shape
reply_accepted = refl

accepted_reply_conforms_example :
    (fs : Fields) × (good_reply ≡ obj fs)
    × ((k : String) (t : FieldType)
        → JsMap.get k tier_shape ≡ some t
        → (v : Option String) × (JsMap.get k good_result ≡ some v) × Typed t (get_field k fs) v)
accepted_reply_conforms_example =
    accepted_reply_conforms "tier" (some response_block) tier_shape good_reply good_result
      block_accepted reply_accepted

abbrev definition : Bool → EnrichmentDefFull
definition closed_ = record {
  fail_closed = closed_;
  cache_key = "user" ∷ [];
  ttl_ms = 1000;
  negative_ttl_ms = some 100;
  secret_ref = "env:KEY";
  include_dimensions = "user" ∷ [];
  shape = tier_shape;
}

abbrev guards : Guards
guards = record { breakers = []; buckets = [] }

abbrev test_config : Config
test_config = record { capacity = 2; refill_per_sec = 1 }

abbrev test_env : String → Option String
test_env name = some "secret"

abbrev test_json : Values → String
test_json v = "{}"

abbrev test_sign : String → String → Option String
test_sign body secret = some "ab"

abbrev test_set :
    String
    → EnrichmentResult
    → ℕ
    → List (String × EnrichmentResult)
    → List (String × EnrichmentResult)
test_set k r ttl cache = (k, r) ∷ cache

tier_required : JsMap.get "tier" tier_shape ≡ some required_string
unfolding JsMap.get
tier_required = refl

fail_closed_gives_text_example : HasText (
    (resolve_miss test_set test_config test_env test_json test_sign "tier"
      (definition true)
      []
      1
      (http true (some good_reply))
      5
      guards
      []).1.1)
fail_closed_gives_text_example =
    fail_closed_gives_text test_set test_config test_env test_json test_sign "tier"
      (some response_block) (definition true) [] 1 (http true (some good_reply)) 5 guards [] refl
      block_accepted tier_required

abbrev five : List (Reply × ℕ)
five =
    (fetch_threw, 1)
    ∷ (http false none, 2)
    ∷ (http true none, 2)
    ∷ (http true (some null), 3)
    ∷ (fetch_threw, 9)
    ∷ []

null_fails : good_values tier_shape (http true (some null)) ≡ none
unfolding good_values validate_response_shape
null_fails = refl

others_fail :
    (good_values tier_shape fetch_threw ≡ none)
    × (good_values tier_shape (http false none) ≡ none)
    × (good_values tier_shape (http true none) ≡ none)
unfolding good_values
others_fail = (refl, refl, refl)

first_breaker : get "tier" [] ≡ first_state
unfolding get JsMap.get
first_breaker = refl

five_failures_stop_requests_example :
    (fetch_start test_config test_env test_json test_sign "tier"
      (definition true)
      []
      60000
      (run_ends "tier" (definition true) five guards)).1
    ≡ finished (failure_result "tier" (definition true) 60000)
five_failures_stop_requests_example =
    five_failures_stop_requests test_config test_env test_json test_sign "tier" (definition true) 1
      five guards [] 60000 first_breaker refl
      (
        (others_fail.0, omega arith, omega arith),
        (
          (others_fail.1, omega arith, omega arith),
          (
            (others_fail.2, omega arith, omega arith),
            (
              (null_fails, omega arith, omega arith),
              ((others_fail.0, omega arith, omega arith), tt),
            ),
          ),
        ),
      )
      (omega arith)

abbrev test_get : String → List (String × EnrichmentResult) → Option EnrichmentResult
test_get k cache = JsMap.get k cache

-- The cache gives what was set last under the key.
test_get-set :
    (k : String) (r : EnrichmentResult) (ttl : ℕ) (c : List (String × EnrichmentResult))
    → test_get k (test_set k r ttl c) ≡ some r
unfolding JsMap.get
test_get-set k r ttl c = ground (arith, eq_refl k)

abbrev alive : EnrichmentResult
alive = record { values = good_result; cached_at = 1; is_negative = false }

alive_reads : extract_value "tier" alive ≡ some "gold"
unfolding extract_value dimension JsMap.get
alive_reads = refl

alive_there : test_get "u" (("u", alive) ∷ []) ≡ some alive
unfolding JsMap.get
alive_there = refl

failed_refresh_overwrites_example :
    let after =
      refresh_settle test_set
        (definition false)
        "u"
        ((fetch_end "tier" (definition false) fetch_threw 700 guards).1)
        (("u", alive) ∷ []) in
    (Option.map (extract_value "tier") (test_get "u" after) ≡ some none)
    × (Option.map (needs_refresh (definition false) 790) (test_get "u" after) ≡ some false)
failed_refresh_overwrites_example =
    failed_refresh_overwrites test_get test_set "tier" (definition false) "u" "gold" fetch_threw 700
      790 guards (("u", alive) ∷ []) alive test_get-set alive_there alive_reads (others_fail.0)
