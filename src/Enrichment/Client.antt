-- ===== src/Enrichment/Client.antt =====
-- The calls of an enrichment webhook (packages/sdk/src/enrichment/client.ts, and the keys of
-- cache.ts). A fetch is in two parts, before the request and after its reply, so that other calls
-- may run between them. Metrics are left out, as is the map that lets callers of the same key share
-- a fetch. The LRU cache, `JSON.stringify`, the HMAC and `process.env` are parameters.
pub mod Outcomes
pub mod Tripping
pub mod FailClosed
use Prim.Native.Char.{code}
use Prim.Native.String
use lupid_sdk.Prelude.{
  ℕ, ◌-◌, ◌*◌, String, Bool, true, false, ◌&&◌, ◌||◌, not, Option, none, some, List, [], ◌∷◌, map,
  ltb, eqb, get_or, if◌then◌else◌,
}
use lupid_sdk.Prelude.Text.{◌+++◌}
use lupid_sdk.JsMap
use lupid_sdk.JsMap.{JsMap}
use lupid_sdk.Pii.Json.{Value}
use lupid_sdk.Enrichment.Breaker.{
  BreakerState, closed, open_, half_open, RefState, check_breaker, record_breaker_success,
  record_breaker_failure,
}
use lupid_sdk.Enrichment.RateLimit.{Bucket, Config, try_acquire_token}
use lupid_sdk.Enrichment.Response.{Shape, Values, validate_response_shape}

-- The parts of `EnrichmentDefFull` that the client reads, but for the URL, the method and the
-- timeout of the request.
pub record EnrichmentDefFull : Type 0 where
  pub fail_closed : Bool
  pub cache_key : List String
  pub ttl_ms : ℕ
  pub negative_ttl_ms : Option ℕ
  pub secret_ref : String
  pub include_dimensions : List String
  pub shape : Shape

pub record EnrichmentResult : Type 0 where
  pub values : Values
  pub cached_at : ℕ
  pub is_negative : Bool

-- A result, `EnrichmentFailedError`, or `EnrichmentConfigError`.
pub data Outcome : Type 0 where
  resolved : EnrichmentResult → Outcome
  failed_error config_error : Outcome

-- The module states that guard a fetch.
pub record Guards : Type 0 where
  pub breakers : JsMap RefState
  pub buckets : JsMap Bucket

-- How `fetch` ends: it throws, or gives a response with `ok` and what `json()` gives unless it throws.
pub data Reply : Type 0 where
  fetch_threw : Reply
  http : Bool → Option Value → Reply

pub data Start : Type 0 where
  finished : Outcome → Start
  sends : String → String → Start

-- `resolved[k] ?? null`
unfoldable pub dimension : String → Values → Option String
dimension k dims = elim (JsMap.get k dims) [ none ↦ none | some v ↦ v ]

unfoldable pub build_cache_key : EnrichmentDefFull → Values → String
unfolding dimension
build_cache_key def dims = join (map (λ k. get_or (dimension k dims) "") def.cache_key)
  where
    join : List String → String
    join [] = ""
    join (s ∷ []) = s
    join (s ∷ t ∷ rest) = s +++ ("\u{1f}" +++ join (t ∷ rest))

unfoldable pub failure_result : String → EnrichmentDefFull → ℕ → Outcome
failure_result ref def now =
    if def.fail_closed
    then failed_error
    else resolved (record { values = (ref, none) ∷ []; cached_at = now; is_negative = true })

-- The loop of `buildRequestBody`.
unfoldable pub request_body : List String → Values → Values → Values
unfolding dimension
request_body [] dims body = body
request_body (k ∷ ks) dims body = request_body ks dims (JsMap.set k (dimension k dims) body)

-- `/^env:(.+)$/`, where `.` is any character but the ends of lines.
unfoldable pub env_name : String → Option String
env_name s = elim (after "env:" s) [
  | none ↦ none
  | some name ↦ if one_line name then some name else none
]
  where
    after : String → String → Option String
    after String.[] s = some s
    after (String.◌∷◌ c p) String.[] = none
    after (String.◌∷◌ c p) (String.◌∷◌ d s) = if eqb (code c) (code d) then after p s else none

    no_line_end : String → Bool
    no_line_end String.[] = true
    no_line_end (String.◌∷◌ c s) =
        not (eqb (code c) 10 || eqb (code c) 13 || eqb (code c) 0x2028 || eqb (code c) 0x2029)
        && no_line_end s

    one_line : String → Bool
    one_line String.[] = false
    one_line s = no_line_end s

-- `getSecret`, where a throw is `none`: an unset variable and an empty one are the same.
unfoldable pub get_secret : (String → Option String) → String → Option String
unfolding env_name
get_secret env secret_ref = elim (env_name secret_ref) [
  | none ↦ none
  | some name ↦ not_empty (env name)
]
  where
    not_empty : Option String → Option String
    not_empty none = none
    not_empty (some String.[]) = none
    not_empty (some s) = some s

module _ (bucket_config : Config) (env : String → Option String) (json : Values → String)
    (sign : String → String → Option String) where
  -- The body, the secret and the signature of an admitted call. `sign` gives nothing where there is
  -- no `node:crypto`.
  unfoldable pub signed_request : EnrichmentDefFull → Values → Start
  unfolding request_body get_secret
  signed_request def dims =
      let body = json (request_body def.include_dimensions dims []) in
      elim (get_secret env def.secret_ref) [
        | none ↦ finished config_error
        | some secret ↦ elim (sign body secret) [
          | none ↦ finished config_error
          | some sig ↦ sends body sig
        ]
      ]

  -- The rate limiter, where the breaker is in this state.
  unfoldable pub past_breaker :
      BreakerState → String → EnrichmentDefFull → Values → ℕ → Guards → Guards × Start
  unfolding try_acquire_token failure_result signed_request
  past_breaker open_ ref def dims now g = (g, finished (failure_result ref def now))
  past_breaker _ ref def dims now g =
      let (buckets, got) = try_acquire_token bucket_config ref now g.buckets in
      (
        record g { buckets = buckets },
        if got then signed_request def dims else finished (failure_result ref def now),
      )

  -- `fetchEnrichment` up to its request.
  unfoldable pub fetch_start : String → EnrichmentDefFull → Values → ℕ → Guards → Guards × Start
  unfolding check_breaker past_breaker
  fetch_start ref def dims now g =
      let checked = check_breaker ref now g.breakers in
      past_breaker (checked.1) ref def dims now (record g { breakers = checked.0 })

-- `fetchEnrichment` from its reply on.
unfoldable pub fetch_end : String → EnrichmentDefFull → Reply → ℕ → Guards → Guards × Outcome
unfolding record_breaker_failure record_breaker_success failure_result validate_response_shape
fetch_end ref def reply now g = elim reply [
  | fetch_threw ↦ (failing, failure_result ref def now)
  | http false body ↦ (failing, failure_result ref def now)
  | http true none ↦ (failing, failure_result ref def now)
  | http true (some parsed) ↦ checked (validate_response_shape def.shape parsed)
]
  where
    failing : Guards
    failing = record g { breakers = record_breaker_failure ref now g.breakers }

    checked : Option Values → Guards × Outcome
    checked none = (failing, if def.fail_closed then failed_error else failure_result ref def now)
    checked (some values) = (
      record g { breakers = record_breaker_success ref g.breakers },
      resolved (record { values = values; cached_at = now; is_negative = false }),
    )

-- The rest of a fetch after its start: the request's reply is read where one was sent.
unfoldable pub end_of : String → EnrichmentDefFull → Reply → ℕ → Start → Guards → Guards × Outcome
unfolding fetch_end
end_of ref def reply later (finished outcome) g = (g, outcome)
end_of ref def reply later (sends body sig) g = fetch_end ref def reply later g

-- `result.values[ref]` where it is a text.
unfoldable pub extract_value : String → EnrichmentResult → Option String
unfolding dimension
extract_value ref result = dimension ref (result.values)

-- `result.isNegative ? def.cache.negative_ttl_ms ?? def.cache.ttl_ms : def.cache.ttl_ms`
unfoldable pub ttl_of : EnrichmentDefFull → EnrichmentResult → ℕ
ttl_of def result = if result.is_negative then get_or def.negative_ttl_ms def.ttl_ms else def.ttl_ms

-- Whether a hit starts a background refresh, no fetch of its key being in flight.
unfoldable pub needs_refresh : EnrichmentDefFull → ℕ → EnrichmentResult → Bool
needs_refresh def now hit = not hit.is_negative && ltb def.ttl_ms ((now - hit.cached_at) * 2)

pub data Resolution : Type 0 where
  value : Option String → Resolution
  throws_failed throws_config : Resolution

module _ {Lru : Type 0} (lru_set : String → EnrichmentResult → ℕ → Lru → Lru) where
  -- `resolveEnrichment` after a miss, from the end of the fetch on.
  unfoldable pub settle : String → EnrichmentDefFull → String → Outcome → Lru → Lru × Resolution
  unfolding ttl_of extract_value
  settle ref def cache_key outcome cache = elim outcome [
    | resolved result ↦
        (lru_set cache_key result (ttl_of def result) cache, value (extract_value ref result))
    | failed_error ↦ (cache, throws_failed)
    | config_error ↦ (cache, throws_config)
  ]

  -- `maybeBackgroundRefresh` from the end of its fetch on: errors are swallowed.
  unfoldable pub refresh_settle : EnrichmentDefFull → String → Outcome → Lru → Lru
  unfolding ttl_of
  refresh_settle def cache_key outcome cache = elim outcome [
    | resolved result ↦ lru_set cache_key result (ttl_of def result) cache
    | _ ↦ cache
  ]

module _ {Lru : Type 0} (lru_set : String → EnrichmentResult → ℕ → Lru → Lru)
    (bucket_config : Config) (env : String → Option String) (json : Values → String)
    (sign : String → String → Option String) where
  -- `resolveEnrichment` after a miss, no fetch of its key being in flight: `reply` is what its
  -- request gets at the time `later`, where it makes one, and nothing else touches the guards
  -- meanwhile.
  unfoldable pub resolve_miss :
      String
      → EnrichmentDefFull
      → Values
      → ℕ
      → Reply
      → ℕ
      → Guards
      → Lru
      → Guards × (Lru × Resolution)
  unfolding fetch_start end_of settle build_cache_key
  resolve_miss ref def dims now reply later g cache =
      let (g', start) = fetch_start bucket_config env json sign ref def dims now g in
      let (g'', outcome) = end_of ref def reply later start g' in
      (g'', settle lru_set ref def (build_cache_key def dims) outcome cache)
